-- ===== src/Registry/FreshWd.antt =====
-- The loop of `create_watch` that looks for a free fanotify watch descriptor ends: among the
-- descriptors that it tries there is one more than there are watches, and they are all different.
use inotify_tools.Prelude.{
  ℕ, zero, suc, ◌+◌, ◌<◌, ◌≤◌, ◌≡◌, refl, true, none, some, List, [], ◌∷◌, arith, length, ◌⊎◌, ◌≢◌,
  inl, inr, All, Option-cases, is_some,
}
use inotify_tools.Prelude.Ord.{nat_ord}
use inotify_tools.Prelude.Word.{u32_mod, i32_min}
use inotify_tools.BTreeMap.{BTreeMap, get, remove, get-remove}
use inotify_tools.Registry.{advance, next_free}

advance_range : (w : ℕ) → w < u32_mod → (0 < advance w) × (advance w < i32_min)
unfolding advance
advance_range w h = ground arith

advance_step :
    (w : ℕ) → 0 < w → w < i32_min → (advance w ≡ w + 1) ⊎ ((advance w ≡ 1) × (w + 1 ≡ i32_min))
unfolding advance
advance_step w pos h = ground arith

-- the descriptors that the loop tries
candidates : ℕ → ℕ → List ℕ
candidates zero w = []
candidates (suc n) w = advance w ∷ candidates n (advance w)

abbrev Distinct : List ℕ → Type 0
Distinct [] = Unit
Distinct (x ∷ xs) = All (λ y. x ≢ y) xs × Distinct xs

-- `c'` is `d` steps ahead of `c` on the cycle of the positive descriptors
abbrev Ahead : ℕ → ℕ → ℕ → Type 0
Ahead c c' d = (c + d ≡ c') ⊎ (c + d + 1 ≡ c' + i32_min)

Ahead-advance :
    (c c' d : ℕ)
    → c < i32_min
    → d + 1 < i32_min
    → 0 < c'
    → c' < i32_min
    → Ahead c c' d
    → Ahead c (advance c') (d + 1)
Ahead-advance c c' d small near pos h a = ground (arith, advance_step c' pos h)

not_again :
    (n c c' d : ℕ)
    → c < i32_min
    → 0 < c'
    → c' < i32_min
    → Ahead c c' d
    → d + n + 1 < i32_min
    → All (λ y. c ≢ y) (candidates n c')
unfolding candidates
not_again zero c c' d small pos h a room = tt
not_again (suc n) c c' d small pos h a room =
    let r = advance_range c' (omega arith) in
    let a' = Ahead-advance c c' d small (omega arith) pos h a in
    (
      λ e. differ c (advance c') d e a' (omega arith),
      not_again n c (advance c') (d + 1) small r.0 r.1 a' (omega arith),
    )
  where
    differ : (c c' d : ℕ) → c ≡ c' → Ahead c c' (d + 1) → d + 2 < i32_min → ⊥
    differ c c' d e a room = ground arith

candidates-Distinct : (n w : ℕ) → w < u32_mod → n + 1 < i32_min → Distinct (candidates n w)
unfolding candidates
candidates-Distinct zero w h room = tt
candidates-Distinct (suc n) w h room =
    let r = advance_range w h in
    (
      not_again n (advance w) (advance w) 0 r.1 r.0 r.1 (inl (omega arith)) (omega arith),
      candidates-Distinct n (advance w) (omega arith) (omega arith),
    )

length-remove-le : (k : ℕ) (m : BTreeMap ℕ ℕ) → length (remove k m) ≤ length m
unfolding remove
length-remove-le k [] = omega arith
length-remove-le k ((j, v) ∷ m) = ground (arith, length-remove-le k m)

length-remove-lt : (k v : ℕ) (m : BTreeMap ℕ ℕ) → get k m ≡ some v → length (remove k m) < length m
unfolding remove get
length-remove-lt k v [] h = ground arith
length-remove-lt k v ((j, u) ∷ m) h = ground (arith, length-remove-lt k v m, length-remove-le k m)

abbrev IsKey : BTreeMap ℕ ℕ → ℕ → Type 0
IsKey m x = is_some (get x m) ≡ true

still_keys :
    (x : ℕ) (ys : List ℕ) (m : BTreeMap ℕ ℕ)
    → All (λ y. x ≢ y) ys
    → All (IsKey m) ys
    → All (IsKey (remove x m)) ys
still_keys x [] m d a = tt
still_keys x (y ∷ ys) m d a =
    (ground (arith, get-remove x y m, d.0, a.0), still_keys x ys m d.1 a.1)

-- the pigeonhole principle
Distinct-keys :
    (xs : List ℕ) (m : BTreeMap ℕ ℕ) → Distinct xs → All (IsKey m) xs → length xs ≤ length m
Distinct-keys [] m d a = omega arith
Distinct-keys (x ∷ xs) m d a = elim (Option-cases (get x m)) [
  | inl e ↦ absurd (ground (arith, a.0, e))
  | inr (v, e) ↦ omega (
    arith,
    Distinct-keys xs (remove x m) d.1 (still_keys x xs m d.0 a.1),
    length-remove-lt x v m e,
  )
]

-- either the loop stops at a free descriptor, or all that it tried have a watch
next_free_cases :
    (n w : ℕ) (m : BTreeMap ℕ ℕ)
    → w < u32_mod
    → ((w' : ℕ) × (next_free n w m ≡ some w') × (get w' m ≡ none) × (0 < w') × (w' < i32_min))
      ⊎ All (IsKey m) (candidates n w)
unfolding next_free candidates
next_free_cases zero w m h = inr tt
next_free_cases (suc n) w m h =
    let r = advance_range w h in
    elim (Option-cases (get (advance w) m)) [
      | inl e ↦ inl (advance w, ground (arith, e), e, r.0, r.1)
      | inr (v, e) ↦ elim (next_free_cases n (advance w) m (omega arith)) [
        | inl (w', f, g, p, q) ↦ inl (w', ground (arith, e, f), g, p, q)
        | inr all ↦ inr (ground (arith, e), all)
      ]
    ]

length-candidates : (n w : ℕ) → length (candidates n w) ≡ n
unfolding candidates
length-candidates zero w = refl
length-candidates (suc n) w = omega (arith, length-candidates n (advance w))

-- With fewer than 2^31 - 2 watches, a round for each watch and one more find a descriptor that is
-- positive and has no watch, from whatever descriptor was given out last.
pub next_free_total :
    (w : ℕ) (m : BTreeMap ℕ ℕ)
    → w < u32_mod
    → length m + 2 < i32_min
    → (w' : ℕ) × (next_free (suc (length m)) w m ≡ some w')
      × (get w' m ≡ none)
      × (0 < w')
      × (w' < i32_min)
next_free_total w m h room = elim (next_free_cases (suc (length m)) w m h) [
  | inl found ↦ found
  | inr all ↦ absurd (
      omega (
        arith,
        Distinct-keys (candidates (suc (length m)) w) m
            (candidates-Distinct (suc (length m)) w h (omega arith)) all,
        length-candidates (suc (length m)) w,
      ))
]
