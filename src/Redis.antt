-- ===== src/Redis.antt =====
-- The Redis client that the program calls, as an interface. A nil reply and an error are both
-- `none`, or the empty list, as the callers treat them alike.
use smarthome_backend.Prelude.{
  ℕ, ◌+◌, ◌≤◌, ltb, String, ◌≡◌, ◌==◌, string_Eq, true, not, ◌&&◌, ◌||◌, List, [], Option, none,
  some, contains, if◌then◌else◌,
}
use Prim.Native.String
use smarthome_backend.Json.{Payload}

pub record Redis : Type 1 where
  pub Store : Type 0
  -- GET and SET
  pub get : Store → String → Option Payload
  pub set : Store → String → Payload → Store
  -- SMEMBERS, SADD and SREM
  pub members : Store → String → List String
  pub sadd : Store → String → String → Store
  pub srem : Store → String → String → Store
  -- DEL, and KEYS with a glob pattern; `none` is an error
  pub del : Store → String → Store
  pub keys : Store → String → Option (List String)
  -- The text that `fmt` prints for the bytes of a message.
  pub message_text : Payload → String

-- What Redis documents of GET and SET, before the written entry expires.
pub record Strings (R : Redis) : Type 1 where
  pub get-set :
      (s : R.Store) (k j : String) (v : Payload)
      → R.get (R.set s k v) j ≡ (if k == j then some v else R.get s j)
  -- A key that holds a string is no set.
  pub members-set :
      (s : R.Store) (k j : String) (v : Payload)
      → R.members (R.set s k v) j ≡ (if k == j then [] else R.members s j)

-- What Redis documents of the sets: SADD adds a member where no string is stored, SREM takes one
-- away, DEL removes a key of either kind, and KEYS with a pattern lists every key that matches and
-- is there.
pub record Sets (R : Redis) : Type 1 where
  pub members-sadd :
      (s : R.Store) (k j m i : String)
      → R.get s k ≡ none
      → contains i (R.members (R.sadd s k m) j) ≡ (k == j && m == i) || contains i (R.members s j)
  pub get-sadd : (s : R.Store) (k j m : String) → R.get (R.sadd s k m) j ≡ R.get s j
  pub members-srem :
      (s : R.Store) (k j m i : String)
      → contains i (R.members (R.srem s k m) j)
        ≡ not (k == j && m == i) && contains i (R.members s j)
  pub get-srem : (s : R.Store) (k j m : String) → R.get (R.srem s k m) j ≡ R.get s j
  pub members-del :
      (s : R.Store) (k j : String)
      → R.members (R.del s k) j ≡ (if k == j then [] else R.members s j)
  pub get-del :
      (s : R.Store) (k j : String) → R.get (R.del s k) j ≡ (if k == j then none else R.get s j)
  pub keys-members :
      (s : R.Store) (ks : List String) (id i : String)
      → R.keys s "device:*:rules" ≡ some ks
      → contains i (R.members s (String.◌++◌ "device:" (String.◌++◌ id ":rules"))) ≡ true
      → contains (String.◌++◌ "device:" (String.◌++◌ id ":rules")) ks ≡ true
  pub keys-get :
      (s : R.Store) (ks : List String) (id : String) (v : Payload)
      → R.keys s "device:*:rules" ≡ some ks
      → R.get s (String.◌++◌ "device:" (String.◌++◌ id ":rules")) ≡ some v
      → contains (String.◌++◌ "device:" (String.◌++◌ id ":rules")) ks ≡ true

-- GET and SET with a time to live, over the same store, at a time in seconds.
pub record Timed : Type 1 where
  pub base : Redis
  pub get_at : ℕ → base.Store → String → Option Payload
  pub set_at : ℕ → base.Store → String → Payload → ℕ → base.Store

-- What Redis documents of them: an entry is there until its time to live is over or it is
-- overwritten. A key that holds a string is no set.
pub record Expiry (T : Timed) : Type 1 where
  pub get_at-set_at :
      (now later d : ℕ) (s : T.base.Store) (k j : String) (v : Payload)
      → now ≤ later
      → T.get_at later (T.set_at now s k v d) j
        ≡ (if k == j then (if ltb later (now + d) then some v else none) else T.get_at later s j)
  pub members-set_at :
      (now d : ℕ) (s : T.base.Store) (k j : String) (v : Payload)
      → T.base.members (T.set_at now s k v d) j ≡ (if k == j then [] else T.base.members s j)
