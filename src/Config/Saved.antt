-- ===== src/Config/Saved.antt =====
-- internal/config/config.go: what is read from the file that was saved.
use Prim.Native.Char.{Char, code}
use Prim.Native.String
use text.Mathlib.TextLemmas.{nil-append, cons-append, cons-ne-nil}
use smarthome_backend.Prelude.{
  String, ◌≡◌, refl, sym, ◌∙◌, ap, ◌==◌, string_Eq, nat_Eq, eq_iff, Bool, false, ◌&&◌, ◌||◌, List,
  [], ◌∷◌, ◌++◌, Option, none, some, map, All, arith, if◌then◌else◌, Bool-cases, Option-cases, inl,
  inr,
}
use smarthome_backend.Prelude.Dict.{lookup, insert, lookup-insert, All-insert}
use smarthome_backend.Automation.TimeExtractor.Scan.{is_blank}
use smarthome_backend.Config.{
  is_space, trim_left, trim_right, trim_space, split_at_equals, is_comment, Vars, enter, read_lines,
  line_of, lines_of, read_vars, heading, save_to_env_file,
}
use smarthome_backend.Config.Entries.{split_at_equals-line_of}
use smarthome_backend.Config.Lines.{
  has_newline, has_newline-append, IsLine, IsOneLine, lines_of-file_of, read_vars-IsOneLine,
  line_of-IsLine,
}

tail : String → String
tail String.[] = ""
tail (String.◌∷◌ c s) = s

trim_right-trim_right : (s : String) → trim_right (trim_right s) ≡ trim_right s
unfolding trim_right
trim_right-trim_right String.[] = refl
trim_right-trim_right (String.◌∷◌ c s) =
    elim (Bool-cases (trim_right s == "" && is_space (code c))) [
      | inl gone ↦ rw gone refl
      | inr kept ↦ rw (kept, trim_right-trim_right s, kept) refl
    ]

trim_left-trim_left : (s : String) → trim_left (trim_left s) ≡ trim_left s
unfolding trim_left
trim_left-trim_left String.[] = refl
trim_left-trim_left (String.◌∷◌ c s) = elim (Bool-cases (is_space (code c))) [
  | inl gone ↦ rw gone (trim_left-trim_left s)
  | inr kept ↦ rw (kept, kept) refl
]

-- A text that ends in no white space does not when its front goes.
trim_right-trim_left : (s : String) → trim_right s ≡ s → trim_right (trim_left s) ≡ trim_left s
unfolding trim_left trim_right tail
trim_right-trim_left String.[] h = refl
trim_right-trim_left (String.◌∷◌ c s) h = elim (Bool-cases (is_space (code c))) [
  | inr kept ↦ rw kept h
  | inl gone ↦ rw gone (
      trim_right-trim_left s (elim (Bool-cases (trim_right s == "")) [
        | inl empty ↦
            let no : "" ≡ String.◌∷◌ c s = rw (empty, gone) at h in
            absurd (cons-ne-nil c s (sym no))
        | inr more ↦ ap tail (rw more at h)
      ]))
]

trim_space-trim_space : (s : String) → trim_space (trim_space s) ≡ trim_space s
unfolding trim_space
trim_space-trim_space s =
    ap trim_left (trim_right-trim_left (trim_right s) (trim_right-trim_right s))
    ∙ trim_left-trim_left (trim_right s)

-- An entry that is read back from its line.
IsKept : String × String → Type 0
IsKept p = (vars : Vars) → enter vars (trim_space (line_of p)) ≡ insert p.0 p.1 vars

split-IsKept :
    (line : String) (p : String × String)
    → (trim_space line == "" || is_comment (trim_space line)) ≡ false
    → split_at_equals (trim_space line) ≡ some p
    → IsKept p
unfolding IsKept enter
split-IsKept line p full found vars =
    let l = trim_space line in
    rw (split_at_equals-line_of l p found, trim_space-trim_space line, full, found) refl

has_equals : String → Bool
has_equals String.[] = false
has_equals (String.◌∷◌ c s) = (String.◌∷◌ c "" == "=") || has_equals s

split_at_equals_lem :
    (k v : String) → has_equals k ≡ false → split_at_equals (line_of (k, v)) ≡ some (k, v)
unfolding split_at_equals has_equals
split_at_equals_lem String.[] v h =
    rw (nil-append (String.◌++◌ "=" v), cons-append "=" "" v, nil-append v) refl
split_at_equals_lem (String.◌∷◌ c k) v h =
    rw (cons-append c k (String.◌++◌ "=" v), split_at_equals_lem k v (ground arith)) (ground arith)

-- The keys of a map are distinct.
abbrev HasKeys : Vars → Type 0
HasKeys [] = Unit
HasKeys ((k, v) ∷ m) = (lookup k m ≡ none) × HasKeys m

insert-HasKeys : (k v : String) (m : Vars) → HasKeys m → HasKeys (insert k v m)
unfolding insert lookup
insert-HasKeys k v [] h = (refl, tt)
insert-HasKeys k v ((j, w) ∷ m) h = elim (Bool-cases (j == k)) [
  | inl same ↦ rw same (rw ((eq_iff j k).0 same) at h)
  | inr other ↦ rw other (
    lookup-insert k j v m ∙ ground (arith, eq_iff j k, eq_iff k j, h.0),
    insert-HasKeys k v m h.1,
  )
]

read_lines_lem :
    (vars : Vars) (lines : List String)
    → HasKeys vars
    → All IsKept vars
    → HasKeys (read_lines vars lines) × All IsKept (read_lines vars lines)
unfolding read_lines enter
read_lines_lem vars [] h k = (h, k)
read_lines_lem vars (line ∷ lines) h k =
    elim (Bool-cases (trim_space line == "" || is_comment (trim_space line))) [
      | inl skipped ↦ rw skipped (read_lines_lem vars lines h k)
      | inr full ↦ rw full (elim (Option-cases (split_at_equals (trim_space line))) [
        | inl bad ↦ rw bad (read_lines_lem vars lines h k)
        | inr (p, found) ↦ rw found (
            read_lines_lem (insert p.0 p.1 vars) lines (insert-HasKeys p.0 p.1 vars h)
              (All-insert IsKept p.0 p.1 vars (split-IsKept line p full found) k))
      ])
    ]

abbrev or_else : Option String → Option String → Option String
or_else none o = o
or_else (some v) o = some v

-- The lines of a map, read after another one.
lookup-read_lines :
    (m vars : Vars) (key : String)
    → HasKeys m
    → All IsKept m
    → lookup key (read_lines vars (map line_of m)) ≡ or_else (lookup key m) (lookup key vars)
unfolding read_lines lookup IsKept
lookup-read_lines [] vars key h k = refl
lookup-read_lines ((j, w) ∷ m) vars key h k =
    ap (λ x. lookup key (read_lines x (map line_of m))) (k.0 vars)
    ∙ lookup-read_lines m (insert j w vars) key h.1 k.1
    ∙ rw (lookup-insert j key w vars) (elim (Bool-cases (j == key)) [
      | inl same ↦ rw (same, ← ((eq_iff j key).0 same), h.0) refl
      | inr other ↦ rw other refl
    ])

key-IsKept :
    (c : Char) (k v : String)
    → has_equals (String.◌∷◌ c k) ≡ false
    → (code c == b'#') ≡ false
    → trim_space (line_of (String.◌∷◌ c k, v)) ≡ line_of (String.◌∷◌ c k, v)
    → IsKept (String.◌∷◌ c k, v)
unfolding IsKept enter
key-IsKept c k v free plain trimmed vars =
    ap (λ l. enter vars l) trimmed ∙ rw (full, split_at_equals_lem (String.◌∷◌ c k) v free) refl
  where
    full : (line_of (String.◌∷◌ c k, v) == "" || is_comment (line_of (String.◌∷◌ c k, v))) ≡ false
    full =
        let t = String.◌++◌ k (String.◌++◌ "=" v) in
        rw (cons-append c k (String.◌++◌ "=" v))
          (ground (arith, eq_iff (String.◌∷◌ c t) "", cons-ne-nil c t))

or_else-none : (o : Option String) → or_else o none ≡ o
or_else-none none = refl
or_else-none (some v) = refl

heading-lem : (lines : List String) → read_lines [] (heading ++ lines) ≡ read_lines [] lines
unfolding read_lines enter trim_space trim_left trim_right is_blank
heading-lem lines = refl

heading-IsLine : (lines : List String) → All IsLine lines → All IsLine (heading ++ lines)
unfolding has_newline
heading-IsLine lines h = (refl, (refl, (refl, h)))

secret-IsOneLine : (secret : String) → has_newline secret ≡ false → IsOneLine ("JWT_SECRET", secret)
unfolding has_newline
secret-IsOneLine secret h =
    rw (has_newline-append "JWT_SECRET" (String.◌++◌ "=" secret), has_newline-append "=" secret) h

agent_id-IsOneLine : (id : String) → has_newline id ≡ false → IsOneLine ("AGENT_ID", id)
unfolding has_newline
agent_id-IsOneLine id h =
    rw (has_newline-append "AGENT_ID" (String.◌++◌ "=" id), has_newline-append "=" id) h

-- Where the lines of the two secrets hold no newline and begin and end in no white space, the
-- variables that are read from the text of the saved file are the two secrets and, for every other
-- key, what is read from the text of the file as it was before.
pub read_vars-save_to_env_file :
    (text secret agent_id key : String)
    → trim_space (line_of ("JWT_SECRET", secret)) ≡ line_of ("JWT_SECRET", secret)
    → trim_space (line_of ("AGENT_ID", agent_id)) ≡ line_of ("AGENT_ID", agent_id)
    → has_newline secret ≡ false
    → has_newline agent_id ≡ false
    → lookup key (read_vars (save_to_env_file text secret agent_id)) ≡ (
        if "AGENT_ID" == key
        then some agent_id
        else if "JWT_SECRET" == key
        then some secret
        else lookup key (read_vars text))
unfolding save_to_env_file read_vars has_equals lookup
read_vars-save_to_env_file text secret agent_id key ts ta ns na =
    let old = read_lines [] (lines_of text) in
    let (h0, k0) = read_lines_lem [] (lines_of text) tt tt in
    let m1 = insert "JWT_SECRET" secret old in
    let m2 = insert "AGENT_ID" agent_id m1 in
    let h1 = insert-HasKeys "JWT_SECRET" secret old h0 in
    let k1 =
      All-insert IsKept "JWT_SECRET" secret old (key-IsKept "J" "WT_SECRET" secret refl refl ts)
        k0 in
    let h2 = insert-HasKeys "AGENT_ID" agent_id m1 h1 in
    let k2 =
      All-insert IsKept "AGENT_ID" agent_id m1 (key-IsKept "A" "GENT_ID" agent_id refl refl ta)
        k1 in
    let o1 =
      All-insert IsOneLine "JWT_SECRET" secret old (secret-IsOneLine secret ns)
        (read_vars-IsOneLine text) in
    let o2 = All-insert IsOneLine "AGENT_ID" agent_id m1 (agent_id-IsOneLine agent_id na) o1 in
    ap (λ ls. lookup key (read_lines [] ls))
      (lines_of-file_of (heading ++ map line_of m2)
        (heading-IsLine (map line_of m2) (line_of-IsLine m2 o2)))
    ∙ ap (lookup key) (heading-lem (map line_of m2))
    ∙ lookup-read_lines m2 [] key h2 k2
    ∙ or_else-none (lookup key m2)
    ∙ rw (lookup-insert "AGENT_ID" key agent_id m1, lookup-insert "JWT_SECRET" key secret old) refl
