-- ===== src/Prelude/Text.antt =====
-- Texts: `String(v)`, and the tests on prefixes and suffixes.
use Prim.Native.String.{◌++◌ as join, slice, len}
use sovr_protocol.Prelude.{
  ℕ, zero, suc, ◌≡◌, refl, ◌-◌, ◌/◌, ◌%◌, String, Bool, true, false, ◌&&◌, ◌==◌, List, [], ◌∷◌, ltb,
  leb,
}
use sovr_protocol.Prelude.Int.{ℤ, pos, negsuc}
use sovr_protocol.Prelude.Value.{
  Value, undefined, null, bool, num, frac, str, arr, obj, Items, nil, cons,
}

abbrev digit : ℕ → String
digit d = slice "0123456789" d (suc d)

-- A number has at most as many digits as it counts, so `n` rounds behind the first are enough.
decimal : ℕ → ℕ → String → String
decimal zero n rest = join (digit (n % 10)) rest
decimal (suc fuel) n rest =
    let shown = join (digit (n % 10)) rest in
    elim (ltb n 10) [ true ↦ shown | false ↦ decimal fuel (n / 10) shown ]

unfoldable pub show_ℕ : ℕ → String
unfolding decimal
show_ℕ n = decimal n n ""

unfoldable pub show_ℤ : ℤ → String
unfolding show_ℕ
show_ℤ (pos n) = show_ℕ n
show_ℤ (negsuc n) = join "-" (show_ℕ (suc n))

-- An array is its elements' texts with commas between them; `null` and `undefined` in it are empty.
unfoldable mutual
  unfolding show_ℤ

  pub text_of : Value → String
  text_of undefined = "undefined"
  text_of null = "null"
  text_of (bool true) = "true"
  text_of (bool false) = "false"
  text_of (num n) = show_ℤ n
  text_of (frac s) = s
  text_of (str s) = s
  text_of (arr xs) = items_text xs
  text_of (obj fs) = "[object Object]"

  pub items_text : Items → String
  items_text nil = ""
  items_text (cons x nil) = item_text x
  items_text (cons x (cons y xs)) = join (item_text x) (join "," (items_text (cons y xs)))

  pub item_text : Value → String
  item_text undefined = ""
  item_text null = ""
  item_text (bool true) = "true"
  item_text (bool false) = "false"
  item_text (num n) = show_ℤ n
  item_text (frac s) = s
  item_text (str s) = s
  item_text (arr xs) = items_text xs
  item_text (obj fs) = "[object Object]"

-- `s.startsWith(p)`, `s.endsWith(p)`
abbrev pub starts_with : String → String → Bool
starts_with s p = slice s 0 (len p) == p

abbrev pub ends_with : String → String → Bool
ends_with s p = leb (len p) (len s) && (slice s (len s - len p) (len s) == p)

-- `xs.join(sep)`
pub join_with : String → List String → String
join_with sep [] = ""
join_with sep (x ∷ []) = x
join_with sep (x ∷ y ∷ xs) = join x (join sep (join_with sep (y ∷ xs)))

suffixes : ends_with "vault.asset:*" ":*" ≡ true
suffixes = refl

prefixes : starts_with "system.boot" "system." ≡ true
prefixes = refl

shown : text_of (num (pos 1205)) ≡ "1205"
unfolding text_of
shown = refl
