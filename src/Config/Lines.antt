-- ===== src/Config/Lines.antt =====
-- internal/config/config.go: the text of the file and its lines.
use Prim.Native.Char.{Char, code}
use Prim.Native.String
use text.Mathlib.TextLemmas.{nil-append, cons-append}
use smarthome_backend.Prelude.{
  String, ◌≡◌, refl, ◌∙◌, ap, ◌==◌, string_Eq, nat_Eq, Bool, false, ◌&&◌, ◌||◌, List, [], ◌∷◌, map,
  All, arith, Bool-cases, Option-cases, inl, inr,
}
use smarthome_backend.Prelude.Dict.{insert, All-insert}
use smarthome_backend.Config.{
  is_space, trim_left, trim_right, trim_space, split_at_equals, is_comment, Vars, enter, read_lines,
  line_of, longer_first, lines_of, file_of,
}
use smarthome_backend.Config.Entries.{split_at_equals-line_of}

unfoldable pub has_newline : String → Bool
has_newline String.[] = false
has_newline (String.◌∷◌ c s) = code c == 0x0a || has_newline s

abbrev pub IsLine : String → Type 0
IsLine s = has_newline s ≡ false

-- An entry that is written on one line.
abbrev pub IsOneLine : String × String → Type 0
IsOneLine p = IsLine (line_of p)

pub has_newline-append :
    (s t : String) → has_newline (String.◌++◌ s t) ≡ has_newline s || has_newline t
unfolding has_newline
has_newline-append String.[] t = rw (nil-append t) refl
has_newline-append (String.◌∷◌ c s) t =
    rw (cons-append c s t, has_newline-append s t) (ground arith)

trim_left-IsLine : (s : String) → IsLine s → IsLine (trim_left s)
unfolding trim_left has_newline
trim_left-IsLine String.[] h = refl
trim_left-IsLine (String.◌∷◌ c s) h = elim (Bool-cases (is_space (code c))) [
  | inl gone ↦ rw gone (trim_left-IsLine s (ground arith))
  | inr kept ↦ rw kept h
]

trim_right-IsLine : (s : String) → IsLine s → IsLine (trim_right s)
unfolding trim_right has_newline
trim_right-IsLine String.[] h = refl
trim_right-IsLine (String.◌∷◌ c s) h = elim (Bool-cases (trim_right s == "" && is_space (code c))) [
  | inl gone ↦ rw gone refl
  | inr kept ↦ rw kept (ground (arith, trim_right-IsLine s))
]

longer_first-IsLine :
    (c : Char) (ls : List String)
    → (code c == 0x0a) ≡ false
    → All IsLine ls
    → All IsLine (longer_first c ls)
unfolding has_newline
longer_first-IsLine c [] h k = (ground arith, tt)
longer_first-IsLine c (l ∷ ls) h k = (ground (arith, k.0), k.1)

lines_of-IsLine : (s : String) → All IsLine (lines_of s)
unfolding lines_of has_newline
lines_of-IsLine String.[] = tt
lines_of-IsLine (String.◌∷◌ c s) = elim (Bool-cases (code c == 0x0a)) [
  | inl break ↦ rw break (refl, lines_of-IsLine s)
  | inr plain ↦ rw plain (longer_first-IsLine c (lines_of s) plain (lines_of-IsLine s))
]

lines_of-line :
    (l t : String) → IsLine l → lines_of (String.◌++◌ l (String.◌++◌ "\n" t)) ≡ l ∷ lines_of t
unfolding lines_of has_newline
lines_of-line String.[] t h =
    rw (nil-append (String.◌++◌ "\n" t), cons-append "\n" "" t, nil-append t) refl
lines_of-line (String.◌∷◌ c l) t h =
    let plain : (code c == 0x0a) ≡ false = ground arith in
    rw (cons-append c l (String.◌++◌ "\n" t), plain, lines_of-line l t (ground arith)) refl

-- Lines that are written are read.
pub lines_of-file_of : (ls : List String) → All IsLine ls → lines_of (file_of ls) ≡ ls
unfolding file_of lines_of
lines_of-file_of [] h = refl
lines_of-file_of (l ∷ ls) h =
    lines_of-line l (file_of ls) h.0 ∙ ap (λ m. l ∷ m) (lines_of-file_of ls h.1)

read_lines-IsOneLine :
    (lines : List String) (vars : Vars)
    → All IsOneLine vars
    → All IsLine lines
    → All IsOneLine (read_lines vars lines)
unfolding read_lines enter trim_space
read_lines-IsOneLine [] vars h k = h
read_lines-IsOneLine (line ∷ lines) vars h k =
    let l = trim_space line in
    elim (Bool-cases (l == "" || is_comment l)) [
      | inl skipped ↦ rw skipped (read_lines-IsOneLine lines vars h k.1)
      | inr full ↦ rw full (elim (Option-cases (split_at_equals l)) [
        | inl bad ↦ rw bad (read_lines-IsOneLine lines vars h k.1)
        | inr (p, found) ↦
            let one : IsOneLine p =
              ap has_newline (split_at_equals-line_of l p found)
              ∙ trim_left-IsLine (trim_right line) (trim_right-IsLine line k.0) in
            rw found (
              read_lines-IsOneLine lines (insert p.0 p.1 vars)
                (All-insert IsOneLine p.0 p.1 vars one h) k.1)
      ])
    ]

pub read_vars-IsOneLine : (text : String) → All IsOneLine (read_lines [] (lines_of text))
read_vars-IsOneLine text = read_lines-IsOneLine (lines_of text) [] tt (lines_of-IsLine text)

pub line_of-IsLine : (m : Vars) → All IsOneLine m → All IsLine (map line_of m)
line_of-IsLine [] h = tt
line_of-IsLine (p ∷ m) h = (h.0, line_of-IsLine m h.1)
