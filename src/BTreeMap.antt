-- ===== src/BTreeMap.antt =====
-- The maps of the library handle (`BTreeMap`, and `HashMap` where no order is observed): an
-- association list that an insertion keeps in the order of the keys.
pub mod Once
use inotify_tools.Prelude.{
  ◌≡◌, refl, Bool, true, false, Option, none, some, List, [], ◌∷◌, arith, if◌then◌else◌, is_none,
  Ordering,
}
use inotify_tools.Prelude.Ord.{Ord}

abbrev pub BTreeMap {ℓ κ} : Type ℓ → Type κ → Type (ℓ ⊔ κ)
BTreeMap K V = List (K × V)

module _ {ℓ} {K : Type ℓ} ⦃o : Ord K⦄ where
  abbrev pub same : K → K → Bool
  same a b = elim (o.cmp a b) [ Ordering.eq ↦ true | _ ↦ false ]

  pub same_refl : (a : K) → same a a ≡ true
  same_refl a = ground (arith, o.cmp_refl a)

  pub eq_of_same : (a b : K) → same a b ≡ true → a ≡ b
  eq_of_same a b h = ground (arith, o.eq_of_cmp a b)

module _ {ℓ κ} {K : Type ℓ} {V : Type κ} ⦃o : Ord K⦄ where
  unfoldable pub get : K → BTreeMap K V → Option V
  get k [] = none
  get k ((j, v) ∷ m) = if same k j then some v else get k m

  -- an insertion at the key's place, which replaces a value of the same key
  unfoldable pub insert : K → V → BTreeMap K V → BTreeMap K V
  insert k v [] = (k, v) ∷ []
  insert k v ((j, w) ∷ m) =
      let rest = insert k v m in
      elim (o.cmp k j) [
        | Ordering.lt ↦ (k, v) ∷ (j, w) ∷ m
        | Ordering.eq ↦ (k, v) ∷ m
        | Ordering.gt ↦ (j, w) ∷ rest
      ]

  -- `entry(k).or_insert(v)`, and `if let Vacant(e) = entry(k) { e.insert(v) }`
  unfoldable pub or_insert : K → V → BTreeMap K V → BTreeMap K V
  or_insert k v m = if is_none (get k m) then insert k v m else m

  unfoldable pub remove : K → BTreeMap K V → BTreeMap K V
  remove k [] = []
  remove k ((j, v) ∷ m) = let rest = remove k m in if same k j then rest else (j, v) ∷ rest

  -- `get_mut(k)` with a change in place
  unfoldable pub modify : K → (V → V) → BTreeMap K V → BTreeMap K V
  modify k f [] = []
  modify k f ((j, v) ∷ m) =
      let rest = modify k f m in if same k j then (j, f v) ∷ rest else (j, v) ∷ rest

  unfoldable pub values : BTreeMap K V → List V
  values [] = []
  values ((j, v) ∷ m) = v ∷ values m

  unfoldable pub keys : BTreeMap K V → List K
  keys [] = []
  keys ((j, v) ∷ m) = j ∷ keys m

  -- The laws of lookup.
  pub get-insert :
      (k j : K) (v : V) (m : BTreeMap K V)
      → get j (insert k v m) ≡ (if same j k then some v else get j m)
  unfolding get insert
  get-insert k j v [] = refl
  get-insert k j v ((i, w) ∷ m) =
      ground
        (arith, o.eq_of_cmp k i, o.cmp_refl k, o.eq_of_cmp j i, o.eq_of_cmp j k, get-insert k j v m)

  pub get-remove :
      (k j : K) (m : BTreeMap K V) → get j (remove k m) ≡ (if same j k then none else get j m)
  unfolding get remove
  get-remove k j [] = ground arith
  get-remove k j ((i, w) ∷ m) =
      ground
        (arith, o.eq_of_cmp k i, o.cmp_refl k, o.eq_of_cmp j i, o.eq_of_cmp j k, get-remove k j m)

  pub get-or_insert :
      (k j : K) (v : V) (m : BTreeMap K V)
      → get j (or_insert k v m)
        ≡ (if same j k then (elim (get k m) [ none ↦ some v | some w ↦ some w ]) else get j m)
  unfolding or_insert
  get-or_insert k j v m = ground (arith, get-insert k j v m, o.eq_of_cmp j k)

  pub get-modify :
      (k j : K) (f : V → V) (m : BTreeMap K V)
      → get j (modify k f m)
        ≡ (if same j k then (elim (get j m) [ none ↦ none | some w ↦ some (f w) ]) else get j m)
  unfolding get modify
  get-modify k j f [] = ground arith
  get-modify k j f ((i, w) ∷ m) =
      ground
        (arith, o.eq_of_cmp k i, o.cmp_refl k, o.eq_of_cmp j i, o.eq_of_cmp j k, get-modify k j f m)
