-- ===== src/Automation/Evaluator/Freshness.antt =====
-- How old the results of time conditions are that an evaluation goes by.
use smarthome_backend.Prelude.{
  All, ℕ, ◌+◌, ◌≤◌, String, ◌≡◌, refl, sym, ◌∙◌, ap, ◌==◌, string_Eq, eq_iff, Bool, Option, none,
  some, some-injective, List, [], ◌∷◌, Bool-cases, Option-cases, inl, inr, ltb, if◌then◌else◌,
  arith,
}
use mathlib.Core.Path.{subst}
use smarthome_backend.Json.{bool, Payload, doc}
use smarthome_backend.Utils.Time.{Clock}
use smarthome_backend.Models.{Condition}
use smarthome_backend.Redis.{Strings, Timed, Expiry}
use smarthome_backend.Automation.Evaluator.{device_key, is_true, time_key}
use smarthome_backend.Automation.Evaluator.Truth.{judged, truth, Uses}
use smarthome_backend.Automation.Evaluator.Sound.{
  Steady, evaluate_condition-truth, device_key-ne-time_key, eq_false,
}
use smarthome_backend.Automation.Evaluator.Timing.{
  lifetime, at, Event, evaluated, stored, set_state, world_at, outcome, left_in, after, run, states,
  Since, Between, EventUses,
}

-- The cached result, or that of the clock.
abbrev heard : Bool → Option Payload → Bool
heard b none = b
heard b (some p) = is_true p

now_true : (b : Bool) → is_true (doc (bool b)) ≡ b
unfolding is_true
now_true b = refl

at_strings : (T : Timed) → Expiry T → (now : ℕ) → Strings (at T now)
at_strings T laws now = record {
  get-set =
      λ s k j v. rw (laws.get_at-set_at now now lifetime s k j v (omega arith)) (ground arith);
  members-set = λ s k j v. laws.members-set_at now lifetime s k j v;
}

module _ (T : Timed) (laws : Expiry T) (clock : ℕ → Clock) (P : String → Payload → Type 0) where
  -- No result in the store outlives its minute.
  abbrev pub Fresh : ℕ → T.base.Store → Type 0
  Fresh now s =
      (later : ℕ) (op : String) (v p : Payload)
      → now ≤ later
      → P op v
      → T.get_at later s (time_key T.base op v) ≡ some p
      → Since clock now later op v (is_true p)

  -- Time conditions in use that share a key say the same at every time.
  abbrev pub Apart : Type 0
  Apart =
      (t : ℕ) (op op' : String) (v v' : Payload)
      → P op v
      → P op' v'
      → time_key T.base op v ≡ time_key T.base op' v'
      → judged (clock t) op v ≡ judged (clock t) op' v'

  Fresh-later : {now now' : ℕ} {s : T.base.Store} → now ≤ now' → Fresh now s → Fresh now' s
  Fresh-later h f = λ later op v p l u found.
      let (t, a, b, c) = f later op v p (omega (arith, h, l)) u found in
      (t, omega (arith, a, h), b, c)

  Fresh-stored :
      {now : ℕ} {s : T.base.Store} (id : String) (p : Payload)
      → Fresh now s
      → Fresh now (set_state T now s id p)
  unfolding set_state
  Fresh-stored {now} {s} id p f = λ later op v q l u found. f later op v q l u (
      rw
        (
          laws.get_at-set_at now later 3600 s (device_key id) (time_key T.base op v) p l,
          eq_false {s = device_key id} (λ e. device_key-ne-time_key T.base id op v (sym e)),
        )
        at found)

  module _ (apart : Apart) where
    -- A new entry is as old as its reading.
    Since-entry :
        (now later : ℕ) (op op' : String) (v v' p : Payload) (o : Option Payload)
        → P op v
        → P op' v'
        → now ≤ later
        → (if time_key T.base op v == time_key T.base op' v'
            then (if ltb later (now + lifetime)
                then some (doc (bool (judged (clock now) op v)))
                else none)
            else o)
          ≡ some p
        → (o ≡ some p → Since clock now later op' v' (is_true p))
        → Since clock now later op' v' (is_true p)
    Since-entry now later op op' v v' p o u u' l found old =
        elim (Bool-cases (time_key T.base op v == time_key T.base op' v')) [
          | inl same ↦ elim (Bool-cases (ltb later (now + lifetime))) [
            | inl early ↦
                let e = (eq_iff (time_key T.base op v) (time_key T.base op' v')).0 same in
                let e' : doc (bool (judged (clock now) op v)) ≡ p =
                  some-injective _ _ (rw (same, early) at found) in
                (
                  now,
                  omega arith,
                  ground arith,
                  sym (ap is_true e')
                      ∙ now_true (judged (clock now) op v)
                      ∙ apart now op op' v v' u u' e,
                )
            | inr late ↦ let stopped = rw (same, late) at found in cc
          ]
          | inr other ↦ old (rw other at found)
        ]

    Fresh-set :
        (now : ℕ) (s : T.base.Store) (op : String) (v : Payload)
        → P op v
        → Fresh now s
        → Fresh now
            (T.set_at now s (time_key T.base op v) (doc (bool (judged (clock now) op v))) lifetime)
    Fresh-set now s op v u f later op' v' p' l u' found =
        let key = time_key T.base op v in
        let key' = time_key T.base op' v' in
        let entry = doc (bool (judged (clock now) op v)) in
        Since-entry now later op op' v v' p' (T.get_at later s key') u u' l
          (sym (laws.get_at-set_at now later lifetime s key key' entry l) ∙ found)
          (f later op' v' p' l u')

    -- What each time condition says to an evaluation.
    abbrev told : ℕ → T.base.Store → String → Payload → Bool
    told now s op v = heard (judged (clock now) op v) (T.get_at now s (time_key T.base op v))

    told-cached :
        (now : ℕ) (s : T.base.Store) (op : String) (v p : Payload)
        → T.get_at now s (time_key T.base op v) ≡ some p
        → is_true p ≡ told now s op v
    told-cached now s op v p h = sym (ap (heard (judged (clock now) op v)) h)

    told-uncached :
        (now : ℕ) (s : T.base.Store) (op : String) (v : Payload)
        → T.get_at now s (time_key T.base op v) ≡ none
        → judged (clock now) op v ≡ told now s op v
    told-uncached now s op v h = sym (ap (heard (judged (clock now) op v)) h)

    told-Since :
        (now : ℕ) (s : T.base.Store) (op : String) (v : Payload)
        → Fresh now s
        → P op v
        → Since clock now now op v (told now s op v)
    told-Since now s op v f u = elim (Option-cases (T.get_at now s (time_key T.base op v))) [
      | inl missing ↦ (now, omega arith, omega arith, sym (told-uncached now s op v missing))
      | inr (p, found) ↦
          let (t, a, b, c) = f now op v p (omega arith) u found in
          (t, a, b, sym (told-cached now s op v p found) ∙ c)
    ]

    told-apart :
        (now : ℕ) (s : T.base.Store) (op op' : String) (v v' : Payload)
        → P op v
        → P op' v'
        → time_key T.base op v ≡ time_key T.base op' v'
        → told now s op v ≡ told now s op' v'
    told-apart now s op op' v v' u u' e =
        ap (λ k. heard (judged (clock now) op v) (T.get_at now s k)) e
        ∙ ap (λ b. heard b (T.get_at now s (time_key T.base op' v'))) (apart now op op' v v' u u' e)

    world_at-Steady :
        (now : ℕ) (s : T.base.Store)
        → Fresh now s
        → Steady
            (at T now)
            (at_strings T laws now)
            (states T now s)
            (λ i. clock now)
            (told now s)
            P
            (Fresh now)
            (world_at T clock now s)
    world_at-Steady now s f = record {
      store = s;
      present = refl;
      still = λ i. refl;
      devices = λ id. refl;
      cached = λ op v p u found. told-cached now s op v p found;
      uncached = λ i op v u missing. told-uncached now s op v missing;
      also = f;
    }

    evaluated_lem :
        (now : ℕ) (s : T.base.Store) (c : Condition)
        → Uses P c
        → Fresh now s
        → ((outcome T clock now s c).0 ≡ truth (states T now s) (told now s) c)
          × Steady
              (at T now)
              (at_strings T laws now)
              (states T now s)
              (λ i. clock now)
              (told now s)
              P
              (Fresh now)
              (outcome T clock now s c).1
    evaluated_lem now s c u f =
        evaluate_condition-truth (at T now) (at_strings T laws now) (states T now s)
          (λ i. clock now) (told now s) P (Fresh now) (told-apart now s)
          (λ s' i op v p missing f'. Fresh-set now s' op v p f') c (world_at T clock now s) u
          (world_at-Steady now s f)

    after-Fresh :
        (now : ℕ) (s : T.base.Store) (e : Event T)
        → EventUses T P e
        → Fresh now s
        → Fresh now (after T clock now s e)
    unfolding after EventUses
    after-Fresh now s (evaluated c) u f =
        let steady = (evaluated_lem now s c u f).1 in
        subst (Fresh now) (sym (ap (left_in T s) steady.present)) steady.also
    after-Fresh now s (stored id p) u f = Fresh-stored id p f

    run-Fresh :
        (start end : ℕ) (s : T.base.Store) (es : List (ℕ × Event T))
        → Between start es end
        → All (λ x. EventUses T P x.1) es
        → Fresh start s
        → Fresh end (run T clock s es)
    unfolding run Between
    run-Fresh start end s [] h u f = Fresh-later h f
    run-Fresh start end s ((now, e) ∷ es) (l, h) (v, u) f =
        run-Fresh now end (after T clock now s e) es h u (after-Fresh now s e v (Fresh-later l f))

    -- Let no result in the store outlive its minute at first, and let time conditions in use that
    -- share a cache key say the same at every time. After any evaluations and new states, one after
    -- the other, an evaluation returns the truth of its tree for the states that are in the store at
    -- its time, where they are kept for an hour; what each time condition says is what it said at a
    -- moment of the last 60 seconds.
    pub evaluate_condition-run :
        (start now : ℕ) (s : T.base.Store) (es : List (ℕ × Event T)) (c : Condition)
        → Fresh start s
        → Between start es now
        → All (λ x. EventUses T P x.1) es
        → Uses P c
        → (says : String → Payload → Bool) × ((op : String) (v : Payload)
            → P op v
            → Since clock now now op v (says op v))
          × ((outcome T clock now (run T clock s es) c).0
              ≡ truth (states T now (run T clock s es)) says c)
    evaluate_condition-run start now s es c f h u u' =
        let s' = run T clock s es in
        let f' = run-Fresh start now s es h u f in
        (told now s', λ op v p. told-Since now s' op v f' p, (evaluated_lem now s' c u' f').0)
