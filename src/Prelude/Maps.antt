-- ===== src/Prelude/Maps.antt =====
-- JavaScript's `Map` and plain objects with text keys: entries in insertion order. `set` on a key
-- that is there keeps its place, and a new key goes last. A `Map` has one entry for a key; `delete`
-- takes out every entry of it.
use sovr_protocol.Prelude.{
  String, ◌≡◌, refl, Bool, Option, none, some, List, [], ◌∷◌, arith, ◌==◌, eq_iff, is_some,
  if◌then◌else◌,
}

abbrev pub Map {ℓ} : Type ℓ → Type ℓ
Map V = List (String × V)

module _ {ℓ} {V : Type ℓ} where
  unfoldable pub delete : String → Map V → Map V
  delete key [] = []
  delete key ((name, found) ∷ entries) =
      let rest = delete key entries in if name == key then rest else (name, found) ∷ rest

  unfoldable pub insert : String → V → Map V → Map V
  insert key value [] = (key, value) ∷ []
  insert key value ((name, found) ∷ entries) =
      let rest = insert key value entries in
      if name == key then (key, value) ∷ entries else (name, found) ∷ rest

  unfoldable pub lookup : String → Map V → Option V
  lookup key ((name, found) ∷ entries) = if name == key then some found else lookup key entries
  lookup key [] = none

  abbrev pub has : String → Map V → Bool
  has k m = is_some (lookup k m)

  pub lookup-delete :
      (gone key : String) (entries : Map V)
      → lookup key (delete gone entries) ≡ (if gone == key then none else lookup key entries)
  unfolding lookup delete
  lookup-delete gone key [] = ground arith
  lookup-delete gone key ((name, found) ∷ entries) =
      ground
        (arith, eq_iff gone key, eq_iff name gone, eq_iff name key, lookup-delete gone key entries)

  pub lookup-insert :
      (set key : String) (value : V) (entries : Map V)
      → lookup key (insert set value entries)
        ≡ (if set == key then some value else lookup key entries)
  unfolding lookup insert
  lookup-insert set key value ((name, found) ∷ entries) =
      ground (
        arith,
        eq_iff set key,
        eq_iff name set,
        eq_iff name key,
        lookup-insert set key value entries,
      )
  lookup-insert set key value [] = refl

  pub lookup-nil : (k : String) → lookup k [] ≡ none
  unfolding lookup
  lookup-nil k = refl

pub ruleset map_laws = (lookup-nil, lookup-insert, lookup-delete)
