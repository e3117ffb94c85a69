-- ===== src/Automation/Evaluator/Sound.antt =====
-- The evaluation of a condition tree, with its short cuts and its cache of time conditions, against
-- the meaning of the tree.
use Prim.Native.Char.{Char, code}
use Prim.Native.String
use smarthome_backend.Prelude.{
  ℕ, ◌+◌, String, ◌≡◌, ◌≢◌, refl, sym, ◌∙◌, ap, ◌==◌, string_Eq, eq_iff, Bool, true, false, not,
  ◌&&◌, ◌||◌, Option, none, some, Bool-cases, inl, inr, if◌then◌else◌, arith,
}
use smarthome_backend.Json.{Value, bool, Payload, doc, Map, unmarshal_value}
use smarthome_backend.Utils.Time.{Clock}
use smarthome_backend.Models.{Node, Condition, Conditions}
use smarthome_backend.Redis.{Redis, Strings}
use smarthome_backend.Automation.Evaluator.{
  device_key, read_state, is_true, World, time_key, evaluate_device, evaluate_time, time_in_store,
  evaluate_leaf, evaluate_condition, evaluate_children,
}
use mathlib.Core.Path.{subst}
use text.Mathlib.TextLemmas.{cons-append}
use smarthome_backend.Automation.Evaluator.Truth.{
  judged, device_truth, truth_leaf, truth, all_true, some_true, Uses, uses, EachUses, none_uses,
  child_uses,
}

first : String → ℕ
first String.[] = 0
first (String.◌∷◌ c s) = code c

first-append : (c : Char) (s t : String) → first (String.◌++◌ (String.◌∷◌ c s) t) ≡ code c
unfolding first
first-append c s t = rw cons-append

pub eq_false : {s t : String} → s ≢ t → (s == t) ≡ false
eq_false {s} {t} h = ground (arith, eq_iff s t)

conj_disj_exclusive : (op : String) → (op == "AND") && (op == "OR") ≡ false
conj_disj_exclusive op = elim (Bool-cases (op == "AND")) [
  | inl conj ↦ rw ((eq_iff op "AND").0 conj) refl
  | inr other ↦ rw other refl
]

pub device_key-ne-time_key :
    (R : Redis) (id op : String) (v : Payload) → time_key R op v ≢ device_key id
device_key-ne-time_key R id op v h =
    let t : first (time_key R op v) ≡ 116 = first-append _ _ _ in
    let d : first (device_key id) ≡ 100 = first-append _ _ _ in omega (arith, ap first h, t, d)

module _ (R : Redis) (laws : Strings R) (state : String → Map) (readings : ℕ → Clock)
    (says : String → Payload → Bool) (P : String → Payload → Type 0) (Also : R.Store → Type 0) where
  -- A world in which the states of the devices are fixed and each time condition in use says what
  -- `says` tells: by its cached result or, without one, at every reading of the clock. The store may
  -- have a further property.
  pub record Steady (w : World R) : Type 0 where
    pub store : R.Store
    pub present : w.store ≡ some store
    pub still : (i : ℕ) → w.clock i ≡ readings i
    pub devices : (id : String) → read_state (R.get store (device_key id)) ≡ state id
    pub cached :
        (op : String) (v p : Payload)
        → P op v
        → R.get store (time_key R op v) ≡ some p
        → is_true p ≡ says op v
    pub uncached :
        (i : ℕ) (op : String) (v : Payload)
        → P op v
        → R.get store (time_key R op v) ≡ none
        → judged (readings i) op v ≡ says op v
    pub also : Also store

  -- Time conditions in use that share a key say the same.
  abbrev pub Apart : Type 0
  Apart =
      (op op' : String) (v v' : Payload)
      → P op v
      → P op' v'
      → time_key R op v ≡ time_key R op' v'
      → says op v ≡ says op' v'

  -- Caching a reading keeps the further property of the store.
  abbrev pub Keeps : Type 0
  Keeps =
      (s : R.Store) (i : ℕ) (op : String) (v : Payload)
      → P op v
      → R.get s (time_key R op v) ≡ none
      → Also s
      → Also (R.set s (time_key R op v) (doc (bool (judged (readings i) op v))))

  -- An outcome is right: the result is `b`, and the world stays steady.
  abbrev pub Gives : Bool → Bool × World R → Type 0
  Gives b r = (r.0 ≡ b) × Steady r.1

  Gives-eq : {b : Bool} (r r' : Bool × World R) → r ≡ r' → Gives b r' → Gives b r
  Gives-eq {b} r r' p g = subst (Gives b) (sym p) g

  evaluate_device_eq :
      (w : World R) (n : Node) → Steady w → evaluate_device R w n ≡ (device_truth state n, w)
  unfolding evaluate_device device_truth
  evaluate_device_eq w n h = ground (arith, h.present, h.devices n.device_id)

  -- One round of the loop over the children.
  round_lem :
      (conj disj : Bool) (r rest : Bool × World R) (a x y : Bool)
      → conj && disj ≡ false
      → Gives a r
      → Gives (if conj then x else if disj then y else false) rest
      → Gives
          (if conj then a && x else if disj then a || y else false)
          (if conj && not r.0 then (false, r.1) else if disj && r.0 then (true, r.1) else rest)
  round_lem true true r rest a x y exclusive g k = cc
  round_lem true false (true, w) rest a x y exclusive (e, s) k = rw (← e) k
  round_lem true _ (false, w) rest a x y exclusive (e, s) k = rw (← e) (refl, s)
  round_lem false true (true, w) rest a x y exclusive (e, s) k = rw (← e) (refl, s)
  round_lem false true (false, w) rest a x y exclusive (e, s) k = rw (← e) k
  round_lem false false r rest a x y exclusive g k = k

  module _ (apart : Apart) (keeps : Keeps) where
    -- Caching a reading keeps the world steady.
    Steady-set :
        (w : World R) (op : String) (v : Payload) (i k : ℕ) (h : Steady w)
        → P op v
        → R.get h.store (time_key R op v) ≡ none
        → Steady (record w {
          store = some (R.set h.store (time_key R op v) (doc (bool (judged (readings i) op v))));
          reads = k;
        })
    unfolding is_true
    Steady-set w op v i k h p q =
        let b = judged (readings i) op v in
        let right : b ≡ says op v = h.uncached i op v p q in
        record {
          store = R.set h.store (time_key R op v) (doc (bool b));
          present = refl;
          still = h.still;
          devices =
              λ id. rw (laws.get-set, eq_false (device_key-ne-time_key R id op v)) (h.devices id);
          cached = λ op' v' p' u found. ground (
            arith,
            laws.get-set h.store (time_key R op v) (time_key R op' v') (doc (bool b)),
            eq_iff (time_key R op v) (time_key R op' v'),
            apart op op' v v' p u,
            h.cached op' v' p' u,
          );
          uncached = λ j op' v' u missing. ground (
            arith,
            laws.get-set h.store (time_key R op v) (time_key R op' v') (doc (bool b)),
            h.uncached j op' v' u,
          );
          also = keeps h.store i op v p q h.also;
        }

    time_in_store_lem :
        (w : World R) (n : Node) (h : Steady w)
        → P n.op n.value
        → Gives (says n.op n.value) (time_in_store R h.store w n)
    time_in_store_lem w n h p =
        go (R.get h.store (time_key R n.op n.value)) (unmarshal_value n.value) refl refl
      where
        go :
            (c : Option Payload) (e : Option Value)
            → R.get h.store (time_key R n.op n.value) ≡ c
            → unmarshal_value n.value ≡ e
            → Gives (says n.op n.value) (time_in_store R h.store w n)
        go (some c) e q r =
            Gives-eq _ (is_true c, w) (unfold time_in_store in ground arith)
              (h.cached n.op n.value c p q, h)
        go none none q r =
            let nothing : judged (readings 0) n.op n.value ≡ false =
              unfold judged in ground arith in
            Gives-eq _ (false, w) (unfold time_in_store in ground arith)
              (sym nothing ∙ h.uncached 0 n.op n.value p q, h)
        go none (some e) q r =
            let result = judged (readings w.reads) n.op n.value in
            let w' : World R = record w {
              store = some (R.set h.store (time_key R n.op n.value) (doc (bool result)));
              reads = w.reads + 1;
            } in
            Gives-eq _ (result, w')
              (unfold time_in_store in unfold judged in ground (arith, h.still w.reads))
              (
                h.uncached w.reads n.op n.value p q,
                Steady-set w n.op n.value w.reads (w.reads + 1) h p q,
              )

    evaluate_time_eq :
        (w : World R) (n : Node) (h : Steady w) → evaluate_time R w n ≡ time_in_store R h.store w n
    unfolding evaluate_time
    evaluate_time_eq w n h = ground (arith, h.present)

    evaluate_time_lem :
        (w : World R) (n : Node)
        → Steady w
        → P n.op n.value
        → Gives (says n.op n.value) (evaluate_time R w n)
    evaluate_time_lem w n h p = Gives-eq _ _ (evaluate_time_eq w n h) (time_in_store_lem w n h p)

    evaluate_leaf_lem :
        (w : World R) (n : Node)
        → Steady w
        → (n.type ≡ "time" → P n.op n.value)
        → Gives (truth_leaf state says n) (evaluate_leaf R w n)
    unfolding evaluate_leaf truth_leaf
    evaluate_leaf_lem w n h used = elim (Bool-cases (n.type == "sensor" || n.type == "device")) [
      | inl device ↦ rw device (Gives-eq _ _ (evaluate_device_eq w n h) (refl, h))
      | inr other ↦ rw other (elim (Bool-cases (n.type == "time")) [
        | inl clock ↦ rw clock (evaluate_time_lem w n h (used ((eq_iff n.type "time").0 clock)))
        | inr unknown ↦ rw unknown (refl, h)
      ])
    ]

    mutual
      unfolding evaluate_condition truth

      condition_lem :
          {c : Condition} (w : World R)
          → Uses P c
          → Steady w
          → Gives (truth state says c) (evaluate_condition R w c)
      condition_lem w (uses {n} {cs} used each) h = elim (Bool-cases (n.operator == "")) [
        | inl leaf ↦ rw leaf (evaluate_leaf_lem w n h used)
        | inr compound ↦ rw compound (children_lem w n.operator each h)
      ]

      children_lem :
          {cs : Conditions} (w : World R) (op : String)
          → EachUses P cs
          → Steady w
          → Gives
              (if op == "AND"
                then all_true state says cs
                else if op == "OR"
                then some_true state says cs
                else false)
              (evaluate_children R w op cs)
      children_lem w op none_uses h = (ground arith, h)
      children_lem w op (child_uses {c} {cs} u each) h =
          let g = condition_lem w u h in
          round_lem (op == "AND") (op == "OR") (evaluate_condition R w c)
            (evaluate_children R (evaluate_condition R w c).1 op cs) (truth state says c)
            (all_true state says cs) (some_true state says cs) (conj_disj_exclusive op) g
            (children_lem (evaluate_condition R w c).1 op each g.1)

    -- Where each time condition in use says what `says` tells, by its cached result or, without one,
    -- by the clock, and those that share a cache key say the same, the evaluation of a condition
    -- tree, with its short cuts and its cache, returns the truth of the tree, and leaves such a
    -- world, whose store has every further property that caching a reading keeps.
    pub evaluate_condition-truth :
        (c : Condition) (w : World R)
        → Uses P c
        → Steady w
        → ((evaluate_condition R w c).0 ≡ truth state says c) × Steady (evaluate_condition R w c).1
    evaluate_condition-truth c w u h = condition_lem w u h
