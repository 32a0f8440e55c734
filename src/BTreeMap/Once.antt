-- ===== src/BTreeMap/Once.antt =====
-- No key stands twice in a map, and what follows for its values.
use inotify_tools.Prelude.{
  ℕ, ◌≡◌, refl, Bool, true, false, ◌||◌, none, some, List, [], ◌∷◌, arith, ◌==◌, ◌⊎◌, inl, inr,
  Bool-cases, All,
}
use inotify_tools.Prelude.Ord.{Ord}
use inotify_tools.BTreeMap.{
  BTreeMap, get, insert, or_insert, remove, modify, values, get-insert, get-remove, get-modify,
  eq_of_same, same_refl,
}

module _ {ℓ κ} {K : Type ℓ} {V : Type κ} ⦃o : Ord K⦄ where
  abbrev pub Once : BTreeMap K V → Type κ
  Once [] = Unit
  Once ((k, v) ∷ m) = (get k m ≡ none) × Once m

  insert-Once : (k : K) (v : V) (m : BTreeMap K V) → get k m ≡ none → Once m → Once (insert k v m)
  unfolding insert get
  insert-Once k v [] h u = (refl, tt)
  insert-Once k v ((j, w) ∷ m) h u = ground (
    arith,
    insert-Once k v m,
    get-insert k j v m,
    eq_of_same j k,
    o.cmp_refl k,
    o.eq_of_cmp k j,
    same_refl j,
  )

  pub or_insert-Once : (k : K) (v : V) (m : BTreeMap K V) → Once m → Once (or_insert k v m)
  unfolding or_insert
  or_insert-Once k v m u = ground (arith, insert-Once k v m)

  pub insert_fresh-Once :
      (k : K) (v : V) (m : BTreeMap K V) → get k m ≡ none → Once m → Once (insert k v m)
  insert_fresh-Once = insert-Once

  pub remove-Once : (k : K) (m : BTreeMap K V) → Once m → Once (remove k m)
  unfolding remove
  remove-Once k [] u = tt
  remove-Once k ((j, w) ∷ m) u = ground (arith, remove-Once k m, get-remove k j m)

  pub modify-Once : (k : K) (f : V → V) (m : BTreeMap K V) → Once m → Once (modify k f m)
  unfolding modify
  modify-Once k f [] u = tt
  modify-Once k f ((j, w) ∷ m) u = ground (arith, modify-Once k f m, get-modify k j f m)

-- Membership of an id in a list of ids.
unfoldable pub mem : ℕ → List ℕ → Bool
mem x [] = false
mem x (y ∷ ys) = y == x || mem x ys

-- `x` stands at most once in the list
abbrev pub AtMostOnce : ℕ → List ℕ → Type 0
AtMostOnce x [] = Unit
AtMostOnce x (y ∷ ys) = ((y ≡ x) → mem x ys ≡ false) × AtMostOnce x ys

module _ {ℓ} {K : Type ℓ} ⦃o : Ord K⦄ where
  pub mem-values : (k : K) (v : ℕ) (m : BTreeMap K ℕ) → get k m ≡ some v → mem v (values m) ≡ true
  unfolding mem values get
  mem-values k v [] h = ground arith
  mem-values k v ((j, w) ∷ m) h = ground (arith, mem-values k v m)

  pub key_of_mem :
      (v : ℕ) (m : BTreeMap K ℕ) → Once m → mem v (values m) ≡ true → (k : K) × (get k m ≡ some v)
  unfolding mem values get
  key_of_mem v [] u h = absurd (ground arith)
  key_of_mem v ((j, w) ∷ m) u h = elim (Bool-cases (w == v)) [
    | inl e ↦ (j, ground (arith, same_refl j, e))
    | inr e ↦
        let (k, g) = key_of_mem v m u.1 (ground (arith, h, e)) in
        (k, ground (arith, eq_of_same k j, u.0, g))
  ]

  -- a value that only one key leads to stands once among the values
  pub values-AtMostOnce :
      (v : ℕ) (k : K) (m : BTreeMap K ℕ)
      → Once m
      → ((j : K) → get j m ≡ some v → j ≡ k)
      → AtMostOnce v (values m)
  unfolding values
  values-AtMostOnce v k [] u only = tt
  values-AtMostOnce v k ((j, w) ∷ m) u only = (
    λ e. not_in_rest e (Bool-cases (mem v (values m))),
    values-AtMostOnce v k m u.1 (λ i h. only i (later i h)),
  )
    where
      later : (i : K) → get i m ≡ some v → get i ((j, w) ∷ m) ≡ some v
      later i h = unfold get in ground (arith, eq_of_same i j, u.0)

      not_in_rest :
          w ≡ v → (mem v (values m) ≡ true) ⊎ (mem v (values m) ≡ false) → mem v (values m) ≡ false
      not_in_rest e (inr h) = h
      not_in_rest e (inl h) =
          let (i, g) = key_of_mem v m u.1 h in
          let p : i ≡ k = only i (later i g) in
          let q : j ≡ k = only j (unfold get in ground (arith, same_refl j, e)) in
          absurd (ground (arith, p, q, g, u.0))

  -- what holds of every value that is found holds of all the values
  pub All-values {μ} :
      (P : ℕ → Type μ) (m : BTreeMap K ℕ)
      → Once m
      → ((k : K) (v : ℕ) → get k m ≡ some v → P v)
      → All P (values m)
  unfolding values
  All-values P [] u h = tt
  All-values P ((j, w) ∷ m) u h = (
    h j w (unfold get in ground (arith, same_refl j)),
    All-values P m u.1 (λ k v g. h k v (unfold get in ground (arith, eq_of_same k j, u.0))),
  )
