-- ===== src/Counters/Sorted.antt =====
-- `watches_sorted_by_event`: a permutation of the watches that are found by descriptor, in order.
use inotify_tools.Prelude.{
  ℕ, ◌+◌, ◌≤◌, ◌<◌, ◌≡◌, refl, Bool, true, false, some, List, [], ◌∷◌, map, arith, ◌⊎◌, ◌≢◌, inl,
  inr, Ordering, unwrap_or, All, Option-cases,
}
use mathlib.Core.List.{Perm}
use mathlib.Core.List.Perm
use mathlib.Core.Path.{subst}
use inotify_tools.Prelude.Ord.{nat_ord}
use inotify_tools.Prelude.Word.{bias, i32_min, minus_one, u32_mod}
use inotify_tools.BTreeMap.{get, values}
use inotify_tools.Stats
use inotify_tools.Stats.{WatchStats}
use inotify_tools.Handle.{Inotifytools, Watch}
use inotify_tools.BTreeMap.Once.{All-values}
use inotify_tools.Registry.Invariant.{Inv, wd_of}
use inotify_tools.Counters.{
  cmp_watches, insert_by, sort_by, watches_of, watches_sorted_by_event, sort_order,
}

-- the count that the order goes by
abbrev pub count_of : ℕ → Watch → ℕ
count_of event w = unwrap_or (Stats.get w.stats event) 0

-- `wa` may stand before `wb`: by the count in the direction asked for, ties by descriptor
abbrev pub Before : ℕ → Bool → Watch → Watch → Type 0
Before event true wa wb =
    (count_of event wa < count_of event wb)
    ⊎ ((count_of event wa ≡ count_of event wb) × (bias wa.wd ≤ bias wb.wd))
Before event false wa wb =
    (count_of event wb < count_of event wa)
    ⊎ ((count_of event wa ≡ count_of event wb) × (bias wa.wd ≤ bias wb.wd))

Before-of_cmp :
    (event : ℕ) (asc : Bool) (wa wb : Watch)
    → (cmp_watches event asc wa wb ≡ Ordering.gt) ⊎ Before event asc wa wb
unfolding cmp_watches
Before-of_cmp event true wa wb = ground arith
Before-of_cmp event false wa wb = ground arith

Before-of_gt :
    (event : ℕ) (asc : Bool) (wa wb : Watch)
    → cmp_watches event asc wa wb ≡ Ordering.gt
    → Before event asc wb wa
unfolding cmp_watches
Before-of_gt event true wa wb h = ground arith
Before-of_gt event false wa wb h = ground arith

Before-trans :
    (event : ℕ) (asc : Bool) (wa wb wc : Watch)
    → Before event asc wa wb
    → Before event asc wb wc
    → Before event asc wa wc
Before-trans event true wa wb wc h k = ground arith
Before-trans event false wa wb wc h k = ground arith

abbrev pub IsSorted : ℕ → Bool → List (ℕ × Watch) → Type 0
IsSorted event asc [] = Unit
IsSorted event asc (x ∷ xs) = All (λ y. Before event asc x.1 y.1) xs × IsSorted event asc xs

module _ (event : ℕ) (asc : Bool) where
  abbrev cmp_pairs : ℕ × Watch → ℕ × Watch → Ordering
  cmp_pairs p q = cmp_watches event asc p.1 q.1

  All-insert_by {ℓ} :
      (P : ℕ × Watch → Type ℓ) (x : ℕ × Watch) (ys : List (ℕ × Watch))
      → P x
      → All P ys
      → All P (insert_by cmp_pairs x ys)
  unfolding insert_by
  All-insert_by P x [] p a = (p, tt)
  All-insert_by P x (y ∷ ys) p a = ground (arith, All-insert_by P x ys)

  All-sort_by {ℓ} :
      (P : ℕ × Watch → Type ℓ) (xs : List (ℕ × Watch)) → All P xs → All P (sort_by cmp_pairs xs)
  unfolding sort_by
  All-sort_by P [] a = tt
  All-sort_by P (x ∷ xs) a = All-insert_by P x (sort_by cmp_pairs xs) a.0 (All-sort_by P xs a.1)

  All-Before :
      (x y : ℕ × Watch) (ys : List (ℕ × Watch))
      → Before event asc x.1 y.1
      → All (λ z. Before event asc y.1 z.1) ys
      → All (λ z. Before event asc x.1 z.1) ys
  All-Before x y [] h a = tt
  All-Before x y (z ∷ ys) h a = (Before-trans event asc x.1 y.1 z.1 h a.0, All-Before x y ys h a.1)

  insert_by-IsSorted :
      (x : ℕ × Watch) (ys : List (ℕ × Watch))
      → IsSorted event asc ys
      → IsSorted event asc (insert_by cmp_pairs x ys)
  unfolding insert_by
  insert_by-IsSorted x [] s = (tt, tt)
  insert_by-IsSorted x (y ∷ ys) s = placed (cmp_pairs x y) refl (insert_by-IsSorted x ys s.1)
    where
      first : (o : Ordering) → cmp_pairs x y ≡ o → o ≢ Ordering.gt → Before event asc x.1 y.1
      first o e n = elim (Before-of_cmp event asc x.1 y.1) [
        | inl g ↦ absurd (ground (arith, e, g, n))
        | inr h ↦ h
      ]

      placed :
          (o : Ordering)
          → cmp_pairs x y ≡ o
          → IsSorted event asc (insert_by cmp_pairs x ys)
          → IsSorted event asc (insert_by cmp_pairs x (y ∷ ys))
      placed Ordering.lt e rest =
          let h = first Ordering.lt e (λ d. cc) in
          rw (e, insert_by) ((h, All-Before x y ys h s.0), s)
      placed Ordering.eq e rest =
          let h = first Ordering.eq e (λ d. cc) in
          rw (e, insert_by) ((h, All-Before x y ys h s.0), s)
      placed Ordering.gt e rest =
          rw (e, insert_by)
            (
              All-insert_by (λ z. Before event asc y.1 z.1) x ys (Before-of_gt event asc x.1 y.1 e)
                  s.0,
              rest,
            )

  sort_by-IsSorted : (xs : List (ℕ × Watch)) → IsSorted event asc (sort_by cmp_pairs xs)
  unfolding sort_by
  sort_by-IsSorted [] = tt
  sort_by-IsSorted (x ∷ xs) = insert_by-IsSorted x (sort_by cmp_pairs xs) (sort_by-IsSorted xs)

  insert_by-perm :
      (x : ℕ × Watch) (ys : List (ℕ × Watch))
      → Perm (map (λ p. p.0) (insert_by cmp_pairs x ys)) (x.0 ∷ map (λ p. p.0) ys)
  unfolding insert_by
  insert_by-perm x [] = Perm.refl _
  insert_by-perm x (y ∷ ys) = placed (cmp_pairs x y) refl (insert_by-perm x ys)
    where
      placed :
          (o : Ordering)
          → cmp_pairs x y ≡ o
          → Perm (map (λ p. p.0) (insert_by cmp_pairs x ys)) (x.0 ∷ map (λ p. p.0) ys)
          → Perm (map (λ p. p.0) (insert_by cmp_pairs x (y ∷ ys))) (x.0 ∷ y.0 ∷ map (λ p. p.0) ys)
      placed Ordering.lt e rest = rw (e, insert_by) (Perm.refl _)
      placed Ordering.eq e rest = rw (e, insert_by) (Perm.refl _)
      placed Ordering.gt e rest =
          rw (e, insert_by) (Perm.trans (Perm.cons y.0 rest) (Perm.swap x.0 y.0 _))

  sort_by-perm :
      (xs : List (ℕ × Watch)) → Perm (map (λ p. p.0) (sort_by cmp_pairs xs)) (map (λ p. p.0) xs)
  unfolding sort_by
  sort_by-perm [] = Perm.refl _
  sort_by-perm (x ∷ xs) =
      Perm.trans (insert_by-perm x (sort_by cmp_pairs xs)) (Perm.cons x.0 (sort_by-perm xs))

abbrev IsLive : Inotifytools → ℕ → Type 0
IsLive l id = (w : Watch) × (get id l.watches ≡ some w)

watches_of_live :
    (l : Inotifytools) (ids : List ℕ)
    → All (IsLive l) ids
    → (ws : List (ℕ × Watch)) × (watches_of l ids ≡ some ws)
      × (map (λ p. p.0) ws ≡ ids)
      × All (λ p. get p.0 l.watches ≡ some p.1) ws
unfolding watches_of
watches_of_live l [] a = ([], refl, refl, tt)
watches_of_live l (id ∷ ids) ((w, e), a) =
    let (ws, h, n, k) = watches_of_live l ids a in
    ((id, w) ∷ ws, ground (arith, e, h), ground (arith, n), (e, k))

-- the rows in the order of the event and the direction that the key stands for in the code
pub IsSorted-rows :
    (l : Inotifytools) (sort_event : ℕ)
    → Inv l
    → (ws : List (ℕ × Watch)) × (watches_sorted_by_event l sort_event
        ≡ some (map (λ p. (p.0, p.1.stats)) ws))
      × Perm (map (λ p. p.0) ws) (values l.by_wd)
      × All (λ p. get p.0 l.watches ≡ some p.1) ws
      × IsSorted (sort_order sort_event).0 (sort_order sort_event).1 ws
unfolding watches_sorted_by_event
IsSorted-rows l sort_event v =
    let event = (sort_order sort_event).0 in
    let asc = (sort_order sort_event).1 in
    let (ws, h, n, live) =
      watches_of_live l (values l.by_wd)
        (All-values (IsLive l) l.by_wd v.wds_once (λ k id g. live_of id k (v.wd_index k id g))) in
    (
      sort_by (cmp_pairs event asc) ws,
      rw h,
      rw (← n) (sort_by-perm event asc ws),
      All-sort_by event asc (λ p. get p.0 l.watches ≡ some p.1) ws live,
      sort_by-IsSorted event asc ws,
    )
  where
    live_of : (id k : ℕ) → wd_of l id ≡ some k → IsLive l id
    live_of id k h = elim (Option-cases (get id l.watches)) [
      | inl e ↦ absurd (ground (arith, e, h))
      | inr (w, e) ↦ (w, e)
    ]

-- What an `i32` key asks for, as `watches_sorted_by_event` documents it: a positive one the event,
-- ascending, 0 the total, ascending, -1 the total, descending, and another negative one the event
-- that it is the negative of, descending.
abbrev pub Asks : ℕ → ℕ → Bool → Type 0
Asks key event true = (key < i32_min) × (event ≡ key)
Asks key event false =
    ((key ≡ minus_one) × (event ≡ 0))
    ⊎ ((i32_min ≤ key) × (key < minus_one) × (key + event ≡ u32_mod))

pub sort_order-Asks :
    (key event : ℕ) (asc : Bool) → Asks key event asc → sort_order key ≡ (event, asc)
unfolding sort_order
sort_order-Asks key event true (small, e) = ground (arith, small, e)
sort_order-Asks key event false (inl (e, z)) = ground (arith, e, z)
sort_order-Asks key event false (inr (neg, other, e)) = ground (arith, neg, other, e)

-- On a registry that satisfies the invariant the function does not panic: it returns a row for
-- each watch that is found by its descriptor, each once and with the watch's counters. With a key
-- above 0 the rows ascend by the count of that event, with 0 by the total; with -1 they descend by
-- the total, and with another negative key by the count of the event that it is the negative of.
-- Equal counts are ordered by descriptor.
pub watches_sorted_by_event_lem :
    (l : Inotifytools) (sort_event event : ℕ) (asc : Bool)
    → Inv l
    → Asks sort_event event asc
    → (ws : List (ℕ × Watch)) × (watches_sorted_by_event l sort_event
        ≡ some (map (λ p. (p.0, p.1.stats)) ws))
      × Perm (map (λ p. p.0) ws) (values l.by_wd)
      × All (λ p. get p.0 l.watches ≡ some p.1) ws
      × IsSorted event asc ws
watches_sorted_by_event_lem l sort_event event asc v asks =
    let (ws, e, perm, live, sorted) = IsSorted-rows l sort_event v in
    (
      ws,
      e,
      perm,
      live,
      subst (λ (p : ℕ × Bool). IsSorted p.0 p.1 ws) (sort_order-Asks sort_event event asc asks)
          sorted,
    )
