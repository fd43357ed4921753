-- ===== src/Audit/MerkleRoot/Roots.antt =====
-- When the tree of packages/runtime/src/audit/MerkleRootService.ts has a root, and which logs share one.
use mathlib.Core.List.{map-append}
use sovr_protocol.Prelude.{
  ℕ, zero, suc, ◌+◌, ◌≤◌, ◌≡◌, refl, sym, ap, ◌∙◌, String, Bool, true, false, Option, none, some,
  is_some, List, [], ◌∷◌, ◌++◌, map, length, length-map, length-append, arith, Bool-cases, inl, inr,
}
use sovr_protocol.Prelude.Sort.{sort, insert_sorted}
use sovr_protocol.Server.EventStore.{Envelope}
use sovr_protocol.Audit.MerkleRoot.{
  MerkleEnvironment, MerkleRootResult, hash_concat, pair_up, build_merkle_tree, counted, leaves_of,
  compute,
}

abbrev is_nonempty : List String → Bool
is_nonempty [] = false
is_nonempty (x ∷ xs) = true

abbrev pub root_hash_of : Option MerkleRootResult → Option String
root_hash_of none = none
root_hash_of (some r) = some r.root_hash

-- An even number of leaves
abbrev pub is_even {ℓ} : {A : Type ℓ} → List A → Bool
is_even [] = true
is_even (x ∷ []) = false
is_even (x ∷ y ∷ xs) = is_even xs

is_even-map :
    {A B : Type 0} (f : A → B) (xs : List A) → is_even xs ≡ true → is_even (map f xs) ≡ true
is_even-map f [] e = refl
is_even-map f (x ∷ []) e = e
is_even-map f (x ∷ y ∷ xs) e = is_even-map f xs e

module _ (env : MerkleEnvironment) where
  pair_up-shrinks :
      (x y : String) (leaves : List String)
      → length (pair_up env (x ∷ y ∷ leaves)) ≤ suc (length leaves)
  unfolding pair_up
  pair_up-shrinks x y [] = omega arith
  pair_up-shrinks x y (z ∷ []) = omega arith
  pair_up-shrinks x y (z ∷ w ∷ leaves) = omega (arith, pair_up-shrinks z w leaves)

  pair_up-cons : (x : String) (leaves : List String) → is_nonempty (pair_up env (x ∷ leaves)) ≡ true
  unfolding pair_up
  pair_up-cons x [] = refl
  pair_up-cons x (y ∷ leaves) = refl

  build_merkle_tree_ends :
      (rounds : ℕ) (leaves : List String)
      → is_nonempty leaves ≡ true
      → length leaves ≤ suc rounds
      → is_some (build_merkle_tree env rounds leaves) ≡ true
  unfolding build_merkle_tree
  build_merkle_tree_ends rounds [] e h = cc
  build_merkle_tree_ends rounds (x ∷ []) e h = refl
  build_merkle_tree_ends zero (x ∷ y ∷ leaves) e h = absurd (omega (arith, h))
  build_merkle_tree_ends (suc rounds) (x ∷ y ∷ leaves) e h =
      build_merkle_tree_ends rounds (pair_up env (x ∷ y ∷ leaves)) (pair_up-cons x (y ∷ leaves))
        (omega (arith, pair_up-shrinks x y leaves, h))

  -- One more round does not change a root.
  build_merkle_tree-suc :
      (rounds : ℕ) (leaves : List String)
      → is_nonempty leaves ≡ true
      → length leaves ≤ suc rounds
      → build_merkle_tree env (suc rounds) leaves ≡ build_merkle_tree env rounds leaves
  unfolding build_merkle_tree
  build_merkle_tree-suc rounds [] e h = cc
  build_merkle_tree-suc rounds (x ∷ []) e h = refl
  build_merkle_tree-suc zero (x ∷ y ∷ leaves) e h = absurd (omega (arith, h))
  build_merkle_tree-suc (suc rounds) (x ∷ y ∷ leaves) e h =
      build_merkle_tree-suc rounds (pair_up env (x ∷ y ∷ leaves)) (pair_up-cons x (y ∷ leaves))
        (omega (arith, pair_up-shrinks x y leaves, h))

  pair_up-duplicate :
      (leaves : List String) (z : String)
      → is_even leaves ≡ true
      → pair_up env (leaves ++ z ∷ z ∷ []) ≡ pair_up env (leaves ++ z ∷ [])
  unfolding pair_up
  pair_up-duplicate [] z e = refl
  pair_up-duplicate (x ∷ []) z e = cc
  pair_up-duplicate (x ∷ y ∷ leaves) z e =
      ap (λ rest. hash_concat env x y ∷ rest) (pair_up-duplicate leaves z e)

  abbrev root_of : List String → Option String
  root_of leaves = build_merkle_tree env (length leaves) leaves

  more :
      (n : ℕ) (x y : String) (leaves : List String)
      → length leaves ≡ n + 1
      → build_merkle_tree env (suc (n + 2)) (pair_up env (x ∷ y ∷ leaves))
        ≡ build_merkle_tree env (suc (n + 1)) (pair_up env (x ∷ y ∷ leaves))
  more n x y leaves e =
      let paired = pair_up env (x ∷ y ∷ leaves) in
      let same : suc (n + 2) ≡ suc (suc (n + 1)) = omega arith in
      ap (λ r. build_merkle_tree env r paired) same
      ∙ build_merkle_tree-suc (suc (n + 1)) paired (pair_up-cons x (y ∷ leaves))
          (omega (arith, pair_up-shrinks x y leaves, e))

  root_of-duplicate :
      (x y z : String) (leaves : List String)
      → is_even leaves ≡ true
      → root_of (x ∷ y ∷ leaves ++ z ∷ z ∷ []) ≡ root_of (x ∷ y ∷ leaves ++ z ∷ [])
  unfolding build_merkle_tree
  root_of-duplicate x y z leaves e =
      ap (build_merkle_tree env (suc (length (leaves ++ z ∷ z ∷ []))))
        (pair_up-duplicate (x ∷ y ∷ leaves) z e)
      ∙ rw (length-append leaves (z ∷ z ∷ []), length-append leaves (z ∷ []))
          (more (length leaves) x y (leaves ++ z ∷ []) (length-append leaves (z ∷ [])))

  hash_concat_comm :
      (x y : String)
      → (env.before x y ≡ true → env.before y x ≡ false)
      → (env.before x y ≡ false → env.before y x ≡ false → x ≡ y)
      → hash_concat env x y ≡ hash_concat env y x
  unfolding hash_concat sort insert_sorted
  hash_concat_comm x y asym total = elim (Bool-cases (env.before x y)) [
    | inl e ↦ ground (arith, e, asym e)
    | inr e ↦ elim (Bool-cases (env.before y x)) [
      | inl f ↦ ground (arith, e, f)
      | inr f ↦ ground (arith, e, f, total e f)
    ]
  ]

  counted_root : (n : ℕ) (root : Option String) → root_hash_of (counted env n root) ≡ root
  counted_root n none = refl
  counted_root n (some root) = refl

  compute-root :
      (e : Envelope) (events : List Envelope)
      → root_hash_of (compute env (e ∷ events)) ≡ root_of (leaves_of env (e ∷ events))
  unfolding compute
  compute-root e events =
      counted_root (length (e ∷ events))
        (build_merkle_tree env (length (e ∷ events)) (leaves_of env (e ∷ events)))
      ∙ ap (λ n. build_merkle_tree env n (leaves_of env (e ∷ events)))
          (sym (length-map (λ x. env.hash (env.stringify x)) (e ∷ events)))

  counted_ends :
      (n : ℕ) (root : Option String) → is_some root ≡ true → is_some (counted env n root) ≡ true
  counted_ends n none e = e
  counted_ends n (some root) e = refl

  -- `compute` has an answer for every log: the tree ends in as many rounds as there are events.
  pub compute_ends : (events : List Envelope) → is_some (compute env events) ≡ true
  unfolding compute
  compute_ends [] = refl
  compute_ends (e ∷ events) =
      counted_ends (length (e ∷ events))
        (build_merkle_tree env (length (e ∷ events)) (leaves_of env (e ∷ events)))
        (build_merkle_tree_ends (length (e ∷ events)) (leaves_of env (e ∷ events)) refl
          (omega (arith, length-map (λ x. env.hash (env.stringify x)) (e ∷ events))))

  -- A log of an odd number of events, three or more, has the root of the log in which its last event
  -- stands twice.
  pub compute-duplicate :
      (e f g : Envelope) (events : List Envelope)
      → is_even events ≡ true
      → root_hash_of (compute env (e ∷ f ∷ events ++ g ∷ g ∷ []))
        ≡ root_hash_of (compute env (e ∷ f ∷ events ++ g ∷ []))
  compute-duplicate e f g events even =
      let leaf = λ (x : Envelope). env.hash (env.stringify x) in
      compute-root e (f ∷ events ++ g ∷ g ∷ [])
      ∙ ap (λ xs. root_of (leaf e ∷ leaf f ∷ xs)) (map-append leaf events (g ∷ g ∷ []))
      ∙ root_of-duplicate (leaf e) (leaf f) (leaf g) (map leaf events)
          (is_even-map leaf events even)
      ∙ ap (λ xs. root_of (leaf e ∷ leaf f ∷ xs)) (sym (map-append leaf events (g ∷ [])))
      ∙ sym (compute-root e (f ∷ events ++ g ∷ []))

  -- Where `before` orders the hashes of the first two events of a log, or takes them for the same only
  -- when they are, the two may change places: the root is the same.
  pub compute-swap :
      (e f : Envelope) (events : List Envelope)
      → let x = env.hash (env.stringify e) in
        let y = env.hash (env.stringify f) in
        (env.before x y ≡ true → env.before y x ≡ false)
        → (env.before x y ≡ false → env.before y x ≡ false → x ≡ y)
        → root_hash_of (compute env (e ∷ f ∷ events)) ≡ root_hash_of (compute env (f ∷ e ∷ events))
  unfolding build_merkle_tree pair_up
  compute-swap e f events asym total =
      let leaf = λ (x : Envelope). env.hash (env.stringify x) in
      compute-root e (f ∷ events)
      ∙ ap
          (λ h.
            build_merkle_tree env (suc (length (map leaf events)))
              (h ∷ pair_up env (map leaf events)))
          (hash_concat_comm (leaf e) (leaf f) asym total)
      ∙ sym (compute-root f (e ∷ events))
