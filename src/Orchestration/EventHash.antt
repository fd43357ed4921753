-- ===== src/Orchestration/EventHash.antt =====
-- `computeHash` of packages/runtime/src/orchestration/transaction-coordinator/index.ts, over the code
-- units of the text that `JSON.stringify` makes.
use Prim.Native.String.{◌++◌ as join, slice, len}
use sovr_protocol.Prelude.{
  ℕ, zero, suc, ◌+◌, ◌-◌, ◌*◌, ◌/◌, ◌%◌, ◌^◌, ◌<◌, ◌≡◌, ◌∙◌, String, true, false, List, [], ◌∷◌,
  arith, ltb, Bool-cases, inl, inr,
}

-- `hash = (hash * 131n + c) & 0xFFFFFFFFFFFFFFFFn`, round after round
unfoldable pub rolling : ℕ → List ℕ → ℕ
rolling h [] = h
rolling h (c ∷ cs) = rolling ((h * 131 + c) % 2 ^ 64) cs

-- The digits of a number to the base 16, in front of `rest`.
unfoldable pub hex_digits : ℕ → ℕ → List ℕ → List ℕ
hex_digits zero n rest = (n % 16) ∷ rest
hex_digits (suc rounds) n rest = elim (ltb n 16) [
  | true ↦ (n % 16) ∷ rest
  | false ↦ hex_digits rounds (n / 16) ((n % 16) ∷ rest)
]

-- A number below 2 ^ 64 has at most 16 of them.
unfoldable pub hash_digits : List ℕ → List ℕ
hash_digits units = hex_digits 15 (rolling 0 units) []

unfoldable pub digits_text : List ℕ → String
digits_text [] = ""
digits_text (d ∷ ds) = join (slice "0123456789abcdef" d (suc d)) (digits_text ds)

unfoldable pub zeros : ℕ → String
zeros zero = ""
zeros (suc n) = join "0" (zeros n)

-- `toString(16).padStart(64, '0').slice(0, 64)`
unfoldable pub compute_hash : List ℕ → String
compute_hash units =
    let digits = digits_text (hash_digits units) in
    slice (join (zeros (64 - len digits)) digits) 0 64

-- What the rounds compute where nothing is cut off.
unfoldable pub polynomial : ℕ → List ℕ → ℕ
polynomial h [] = h
polynomial h (c ∷ cs) = polynomial (h * 131 + c) cs

unfoldable pub from_digits : ℕ → List ℕ → ℕ
from_digits acc [] = acc
from_digits acc (d ∷ ds) = from_digits (acc * 16 + d) ds

rolling-polynomial :
    (p h : ℕ) (units : List ℕ) → h ≡ p % 2 ^ 64 → rolling h units ≡ polynomial p units % 2 ^ 64
unfolding rolling polynomial
rolling-polynomial p h [] e = e
rolling-polynomial p h (c ∷ cs) e =
    rolling-polynomial (p * 131 + c) ((h * 131 + c) % 2 ^ 64) cs (omega (arith, e))

abbrev limit : ℕ → ℕ
limit zero = 16
limit (suc rounds) = 16 * limit rounds

from_digits-hex_digits :
    (rounds n : ℕ) (rest : List ℕ)
    → n < limit rounds
    → from_digits 0 (hex_digits rounds n rest) ≡ from_digits n rest
unfolding hex_digits from_digits
from_digits-hex_digits zero n rest h = ground arith
from_digits-hex_digits (suc rounds) n rest h = elim (Bool-cases (ltb n 16)) [
  | inl e ↦ ground (arith, e)
  | inr e ↦
      ground (arith, e, from_digits-hex_digits rounds (n / 16) ((n % 16) ∷ rest) (omega (arith, h)))
]

-- The hash of a text, read back from its digits, is the polynomial of its code units at 131, modulo
-- 2 ^ 64: no round of the masked computation loses more than that, and no digit is cut off.
pub hash_digits-polynomial :
    (units : List ℕ) → from_digits 0 (hash_digits units) ≡ polynomial 0 units % 2 ^ 64
unfolding hash_digits from_digits
hash_digits-polynomial units =
    let h : rolling 0 units ≡ polynomial 0 units % 2 ^ 64 =
      rolling-polynomial 0 0 units (omega arith) in
    from_digits-hex_digits 15 (rolling 0 units) [] (omega (arith, h)) ∙ h
