-- ===== src/Prelude/Value.antt =====
-- The values of the dynamic language, as the program meets them in payloads and registry entries.
use sovr_protocol.Prelude.{String, Bool, true, false, not, ◌||◌, ◌==◌, if◌then◌else◌}
use sovr_protocol.Prelude.Int.{ℤ, eqb_ℤ, pos}

-- `num` is a whole number. `frac` is any other number, by the text that `String(v)` gives.
mutual
  pub data Value : Type 0 where
    undefined null : Value
    bool : Bool → Value
    num : ℤ → Value
    frac : String → Value
    str : String → Value
    arr : Items → Value
    obj : Fields → Value

  pub data Items : Type 0 where
    cons : Value → Items → Items
    nil : Items

  pub data Fields : Type 0 where
    field : String → Value → Fields → Fields
    end : Fields

unfoldable pub get_field : Fields → String → Value
get_field (field name v rest) k = if name == k then v else get_field rest k
get_field end k = undefined

unfoldable pub has_field : Fields → String → Bool
has_field end k = false
has_field (field j v fs) k = j == k || has_field fs k

-- `v?.[k]`; an array's own keys are not asked for
unfoldable pub get : Value → String → Value
unfolding get_field
get (obj fs) k = get_field fs k
get _ k = undefined

-- `Boolean(v)`
unfoldable pub truthy : Value → Bool
truthy undefined = false
truthy null = false
truthy (bool b) = b
truthy (num n) = not (eqb_ℤ n (pos 0))
truthy (frac s) = not (s == "NaN")
truthy (str s) = not (s == "")
truthy (arr _) = true
truthy (obj _) = true

abbrev pub is_nullish : Value → Bool
is_nullish undefined = true
is_nullish null = true
is_nullish _ = false

-- `a ?? b`
unfoldable pub coalesce : Value → Value → Value
coalesce a b = if is_nullish a then b else a

-- `a || b`
unfoldable pub or_else : Value → Value → Value
or_else a b = if truthy a then a else b

-- `Object.values(v)` of an object or an array.
unfoldable pub field_values : Fields → Items
field_values (field name v rest) = cons v (field_values rest)
field_values end = nil

unfoldable pub values : Value → Items
unfolding field_values
values (obj fs) = field_values fs
values (arr xs) = xs
values _ = nil

-- An assignment to a key: it keeps the place of one that is there.
unfoldable pub set_field : Fields → String → Value → Fields
set_field (field name v rest) k w =
    let changed = set_field rest k w in
    if name == k then field name w rest else field name v changed
set_field end k w = field k w end

abbrev pub fields_of : Value → Fields
fields_of (obj fs) = fs
fields_of _ = end

unfoldable pub find_item : (Value → Bool) → Items → Value
find_item p nil = undefined
find_item p (cons x xs) = if p x then x else find_item p xs

unfoldable pub any_item : (Value → Bool) → Items → Bool
any_item p nil = false
any_item p (cons x xs) = p x || any_item p xs

-- `xs.includes(t)` of a text
unfoldable pub includes_text : Items → String → Bool
includes_text nil t = false
includes_text (cons (str s) xs) t = s == t || includes_text xs t
includes_text (cons _ xs) t = includes_text xs t

-- `v === t` for a text
unfoldable pub is_text : Value → String → Bool
is_text (str s) t = s == t
is_text _ t = false
