-- ===== src/Execution/StateMachines/Words.antt =====
-- `s.trim()` and `s.toLowerCase()` of the conditions of packages/runtime/src/execution, on the
-- blanks that `trim` takes and the letters of ASCII: no other letter has a small one in a word that the source compares with.
use Prim.Native.String.{◌++◌ as join, slice, len, find}
use sovr_protocol.Prelude.Text.{starts_with, ends_with}
use sovr_protocol.Prelude.{
  ℕ, zero, suc, ◌-◌, ◌≡◌, refl, String, none, some, List, [], ◌∷◌, find_first, ltb, if◌then◌else◌,
}

-- White space and line ends of JavaScript
abbrev blanks : List String
blanks =
    " " ∷ "\t" ∷ "\n" ∷ "\r" ∷ "\u{b}" ∷ "\u{c}" ∷ "\u{a0}" ∷ "\u{1680}" ∷ "\u{2000}" ∷ "\u{2001}"
    ∷ "\u{2002}" ∷ "\u{2003}" ∷ "\u{2004}" ∷ "\u{2005}" ∷ "\u{2006}" ∷ "\u{2007}" ∷ "\u{2008}"
    ∷ "\u{2009}" ∷ "\u{200a}" ∷ "\u{2028}" ∷ "\u{2029}" ∷ "\u{202f}" ∷ "\u{205f}" ∷ "\u{3000}"
    ∷ "\u{feff}" ∷ []

-- A text has no more blanks at an end than its length.
trim_start : ℕ → String → String
trim_start zero s = s
trim_start (suc rounds) s = elim (find_first (starts_with s) blanks) [
  | none ↦ s
  | some b ↦ trim_start rounds (slice s (len b) (len s))
]

trim_end : ℕ → String → String
trim_end zero s = s
trim_end (suc rounds) s = elim (find_first (ends_with s) blanks) [
  | none ↦ s
  | some b ↦ trim_end rounds (slice s 0 (len s - len b))
]

unfoldable pub trim : String → String
unfolding trim_start trim_end
trim s = let rest = trim_start (len s) s in trim_end (len rest) rest

abbrev lower_letter : String → String
lower_letter c =
    let i = find "ABCDEFGHIJKLMNOPQRSTUVWXYZ" c in
    if ltb i 26 then slice "abcdefghijklmnopqrstuvwxyz" i (suc i) else c

lower_letters : ℕ → String → String
lower_letters zero s = ""
lower_letters (suc rounds) s =
    join (lower_letter (slice s 0 1)) (lower_letters rounds (slice s 1 (len s)))

unfoldable pub lower_case : String → String
unfolding lower_letters
lower_case s = lower_letters (len s) s

words : lower_case (trim "  N/A \n") ≡ "n/a"
unfolding trim lower_case find_first
words = refl

spaces : trim "\u{b}\u{a0}true\u{2009}\u{feff}" ≡ "true"
unfolding trim lower_case find_first
spaces = refl
