-- ===== src/Auth/Sessions.antt =====
-- How long a session lasts.
use smarthome_backend.Prelude.{
  ℕ, ◌+◌, ◌<◌, ◌≤◌, String, ◌≡◌, refl, sym, ◌∙◌, ap, string_Eq, nat_Eq, eq_refl, Option, none, some,
  ltb, arith, Bool-cases, Option-cases, inl, inr,
}
use smarthome_backend.Auth.Libraries.{Got, found, missing, broken, Keys, Expires}
use smarthome_backend.Auth.{
  ok, err, invalid_token, session_key, hours, renew, validate_got, validate_token_session,
  logout_session,
}

module _ (K : Keys) (laws : Expires K) where
  renew_lasts :
      (s s' : K.State) (now later : ℕ) (key user_id name : String) (o : Option ℕ)
      → K.get s now key ≡ found user_id
      → K.ttl s now key ≡ o
      → renew K s now key user_id o ≡ ok (name, s')
      → now ≤ later
      → later < now + hours 20
      → (name ≡ user_id) × (K.get s' later key ≡ found user_id)
  unfolding renew
  renew_lasts s s' now later key id name none h t r le lt = cc
  renew_lasts s s' now later key id name (some d) h t r le lt =
      elim (Bool-cases (ltb d (hours 20))) [
        | inr long ↦ ground (arith, rw long at r, laws.get-ttl s now later d key id t h)
        | inl short ↦ elim (Option-cases (K.expire s now key (hours 24))) [
          | inl refused ↦ let stopped = rw (short, refused) at r in cc
          | inr (s1, done) ↦ ground (
            arith,
            rw (short, done) at r,
            laws.get-expire s s1 now later (hours 24) key id done h,
          )
        ]
      ]

  validate_got_lasts :
      (s s' : K.State) (now later : ℕ) (key name : String) (g : Got)
      → K.get s now key ≡ g
      → validate_got K s now key g ≡ ok (name, s')
      → now ≤ later
      → later < now + hours 20
      → (K.get s now key ≡ found name) × (K.get s' later key ≡ found name)
  unfolding validate_got
  validate_got_lasts s s' now later key name (found id) h r le lt =
      let (same, there) = renew_lasts s s' now later key id name (K.ttl s now key) h refl r le lt in
      (h ∙ ap found (sym same), there ∙ ap found (sym same))
  validate_got_lasts s s' now later key name missing h r le lt = cc
  validate_got_lasts s s' now later key name broken h r le lt = cc

  -- A session that is accepted names the user that is stored for it, and it is still stored with
  -- that user at every time in the next 20 hours.
  pub validate_token_session-lasts :
      (s s' : K.State) (now later : ℕ) (token user_id : String)
      → validate_token_session K s now token ≡ ok (user_id, s')
      → now ≤ later
      → later < now + hours 20
      → (K.get s now (session_key token) ≡ found user_id)
        × (K.get s' later (session_key token) ≡ found user_id)
  unfolding validate_token_session
  validate_token_session-lasts s s' now later token id r le lt =
      validate_got_lasts s s' now later (session_key token) id (K.get s now (session_key token))
        refl r le lt

  -- After a logout the session is refused at every time.
  pub validate-logout :
      (s s' : K.State) (later : ℕ) (token : String)
      → logout_session K s token ≡ some s'
      → validate_token_session K s' later token ≡ err invalid_token
  unfolding logout_session validate_token_session validate_got
  validate-logout s s' later token h =
      let gone = laws.get-del s s' later (session_key token) (session_key token) h in
      rw (gone, eq_refl (session_key token)) refl
