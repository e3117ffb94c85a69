-- ===== src/Tests/Doubles.antt =====
-- An in-memory Redis and an in-memory cron, which meet what is assumed of the real ones.
use smarthome_backend.Prelude.{
  ℕ, suc, ◌∙◌, ap, eq_iff, ◌&&◌, ◌||◌, ◌++◌, Option, any-append, contains, Bool-cases, inl, inr,
  ◌+◌, ◌≤◌, String, ◌≡◌, refl, ◌==◌, nat_Eq, string_Eq, nat_eq_iff, Bool, true, false, not, List,
  [], ◌∷◌, none, some, if◌then◌else◌, arith,
}
use smarthome_backend.Prelude.Dict.{lookup, insert, delete, lookup-insert, lookup-delete}
use smarthome_backend.Json.{Payload}
use smarthome_backend.Redis.{Redis, Strings, Sets}
use smarthome_backend.Engine.{rules_key}
use smarthome_backend.Cron.{Cron, Job, Registers}

-- Only strings are stored.
abbrev pub memory_redis : Redis
memory_redis = record {
  Store = List (String × Payload);
  get = λ s k. lookup k s;
  set = λ s k v. insert k v s;
  members = λ s k. [];
  sadd = λ s k m. s;
  srem = λ s k m. s;
  del = λ s k. delete k s;
  keys = λ s pattern. some [];
  message_text = λ p. "";
}

if_same {ℓ} : {A : Type ℓ} (b : Bool) (x : A) → x ≡ (if b then x else x)
if_same true x = refl
if_same false x = refl

pub memory_strings : Strings memory_redis
memory_strings = record {
  get-set = λ s k j v. lookup-insert k j v s;
  members-set = λ s k j v. if_same (k == j) [];
}

abbrev pub Entries : Type 0
Entries = List (ℕ × Job)

unfoldable pub fresh : Entries → ℕ
fresh [] = 1
fresh ((i, job) ∷ m) = suc (i + fresh m)

lookup-fresh : (m : Entries) (k : ℕ) → fresh m ≤ k → lookup k m ≡ none
unfolding fresh lookup
lookup-fresh [] k h = refl
lookup-fresh ((i, job) ∷ m) k h = ground (arith, lookup-fresh m k, nat_eq_iff i k)

abbrev pub parses : String → Bool
parses spec = not (spec == "never")

abbrev pub memory_cron : Cron
memory_cron = record {
  State = Entries;
  add = λ s spec job. if parses spec then (some (fresh s), insert (fresh s) job s) else (none, s);
  remove = λ s id. delete id s;
  live = λ s id. lookup id s;
  is_valid = parses;
}

pub memory_registers : Registers memory_cron
memory_registers = record {
  add_valid = λ s spec job h. (
    fresh s,
    rw h refl,
    lookup-fresh s (fresh s) (omega arith),
    λ j. rw h (lookup-insert (fresh s) j job s),
  );
  add_invalid = λ s spec job h. rw h refl;
  live-remove = λ s id j. lookup-delete id j s;
}

-- The strings and the sets.
abbrev pub Stored : Type 0
Stored = List (String × Payload) × List (String × List String)

abbrev pub listed : Option (List String) → List String
listed none = []
listed (some ms) = ms

unfoldable pub keys_of {ℓ} : {A : Type ℓ} → List (String × A) → List String
keys_of [] = []
keys_of ((k, a) ∷ m) = k ∷ keys_of m

unfoldable pub without : String → List String → List String
without x [] = []
without x (y ∷ ys) = let rest = without x ys in if y == x then rest else y ∷ rest

-- All keys are of the pattern that the program uses.
abbrev pub set_redis : Redis
set_redis = record {
  Store = Stored;
  get = λ s k. lookup k s.0;
  set = λ s k v. (insert k v s.0, delete k s.1);
  members = λ s k. listed (lookup k s.1);
  sadd = λ s k m. (s.0, insert k (m ∷ listed (lookup k s.1)) s.1);
  srem = λ s k m. (s.0, insert k (without m (listed (lookup k s.1))) s.1);
  del = λ s k. (delete k s.0, delete k s.1);
  keys = λ s pattern. some (keys_of s.0 ++ keys_of s.1);
  message_text = λ p. "";
}

listed_if :
    (b : Bool) (o : Option (List String))
    → listed (if b then none else o) ≡ (if b then [] else listed o)
listed_if true o = refl
listed_if false o = refl

contains-keys_of {ℓ} :
    {A : Type ℓ} (m : List (String × A)) (k : String) (a : A)
    → lookup k m ≡ some a
    → contains k (keys_of m) ≡ true
unfolding lookup keys_of
contains-keys_of [] k a h = cc
contains-keys_of ((j, b) ∷ m) k a h = elim (Bool-cases (j == k)) [
  | inl same ↦ rw same refl
  | inr other ↦ rw other (contains-keys_of m k a (rw other at h))
]

pub set_redis-Strings : Strings set_redis
set_redis-Strings = record {
  get-set = λ s k j v. lookup-insert k j v s.0;
  members-set = λ s k j v. ap listed (lookup-delete k j s.1) ∙ listed_if (k == j) (lookup j s.1);
}

listed_member :
    (b : Bool) (m i : String) (o old : Option (List String))
    → (b ≡ true → o ≡ old)
    → contains i (listed (if b then some (m ∷ listed o) else old))
      ≡ (b && m == i) || contains i (listed old)
listed_member true m i o old h = rw (h refl) refl
listed_member false m i o old h = refl

contains-without :
    (m i : String) (l : List String) → contains i (without m l) ≡ not (m == i) && contains i l
unfolding without
contains-without m i [] = ground arith
contains-without m i (y ∷ l) = elim (Bool-cases (y == m)) [
  | inl same ↦ let e = (eq_iff y m).0 same in rw (same, contains-without m i l, e) (ground arith)
  | inr other ↦
      rw (other, contains-without m i l) (ground (arith, eq_iff m i, eq_iff y m, eq_iff y i))
]

listed_removed :
    (b : Bool) (m i : String) (o old : Option (List String))
    → (b ≡ true → o ≡ old)
    → contains i (listed (if b then some (without m (listed o)) else old))
      ≡ not (b && m == i) && contains i (listed old)
listed_removed true m i o old h = rw (h refl) (contains-without m i (listed old))
listed_removed false m i o old h = refl

member_key :
    (o : Option (List String)) (i : String)
    → contains i (listed o) ≡ true
    → (ms : List String) × (o ≡ some ms)
member_key none i h = cc
member_key (some ms) i h = (ms, refl)

pub set_redis-Sets : Sets set_redis
set_redis-Sets = record {
  members-sadd = λ s k j m i free. rw (lookup-insert k j (m ∷ listed (lookup k s.1)) s.1) (
      listed_member (k == j) m i (lookup k s.1) (lookup j s.1)
        (λ same. ap (λ x. lookup x s.1) ((eq_iff k j).0 same)));
  get-sadd = λ s k j m. refl;
  members-srem = λ s k j m i. rw (lookup-insert k j (without m (listed (lookup k s.1))) s.1) (
      listed_removed (k == j) m i (lookup k s.1) (lookup j s.1)
        (λ same. ap (λ x. lookup x s.1) ((eq_iff k j).0 same)));
  get-srem = λ s k j m. refl;
  members-del = λ s k j. ap listed (lookup-delete k j s.1) ∙ listed_if (k == j) (lookup j s.1);
  get-del = λ s k j. lookup-delete k j s.0;
  keys-members = λ s ks id i h there.
      let (ms, found) = member_key (lookup (rules_key id) s.1) i there in
      ground (
        arith,
        any-append (λ x. x == rules_key id) (keys_of s.0) (keys_of s.1),
        contains-keys_of s.1 (rules_key id) ms found,
      );
  keys-get = λ s ks id v h there. ground (
    arith,
    any-append (λ x. x == rules_key id) (keys_of s.0) (keys_of s.1),
    contains-keys_of s.0 (rules_key id) v there,
  );
}
