-- ===== src/Counters.antt =====
-- libinotifytools/src/inotify.rs, "Statistics": the counters of the handle and of its watches.
pub mod Sorted
pub mod Trace
use inotify_tools.Prelude.{
  ℕ, Bytes, Bool, true, false, Option, none, some, List, [], ◌∷◌, map, ◌==◌, if◌then◌else◌, compare,
  Ordering, unwrap_or,
}
use inotify_tools.Prelude.Ord.{nat_ord}
use inotify_tools.Prelude.Word.{minus_one, is_neg, wrapping_neg, bias}
use inotify_tools.BTreeMap.{modify, values}
use inotify_tools.Stats
use inotify_tools.Stats.{WatchStats, no_events, record_event}
use inotify_tools.Handle.{Inotifytools, Watch, ◌>>=◌}
use inotify_tools.Registry.{watch, watch_from_wd, wd_from_filename}

unfoldable pub record_stats : Inotifytools → ℕ → ℕ → Inotifytools
unfolding watch_from_wd
record_stats l wd mask = elim (watch_from_wd l wd) [
  | none ↦ l
  | some id ↦ record l {
    watches = modify id (λ w. record w { stats = record_event w.stats mask }) l.watches;
    totals = record_event l.totals mask;
  }
]

-- the loop of `initialize_stats`
unfoldable pub reset_each : List ℕ → Inotifytools → Inotifytools
reset_each [] l = l
reset_each (id ∷ ids) l =
    reset_each ids
      (record l { watches = modify id (λ w. record w { stats = no_events }) l.watches })

unfoldable pub initialize_stats : Inotifytools → Inotifytools
unfolding reset_each
initialize_stats l =
    let l' = if l.collect_stats then reset_each (values l.by_wd) l else l in
    record l' { totals = no_events; collect_stats = true }

unfoldable pub get_stat_by_wd : Inotifytools → ℕ → ℕ → Option ℕ
unfolding watch watch_from_wd
get_stat_by_wd l wd event =
    if l.collect_stats
    then elim (watch_from_wd l wd) [
      | none ↦ some minus_one
      | some id ↦ do w ← watch l id; some (unwrap_or (Stats.get w.stats event) minus_one)
    ]
    else some minus_one

unfoldable pub get_stat_total : Inotifytools → ℕ → ℕ
get_stat_total l event =
    if l.collect_stats then unwrap_or (Stats.get l.totals event) minus_one else minus_one

unfoldable pub get_stat_by_filename : Inotifytools → Bytes → ℕ → Option ℕ
unfolding get_stat_by_wd wd_from_filename
get_stat_by_filename l filename event = do
  wd ← wd_from_filename l filename
  get_stat_by_wd l wd event

-- The event to sort by and whether to sort ascending.
unfoldable pub sort_order : ℕ → ℕ × Bool
sort_order sort_event =
    if sort_event == minus_one
    then (0, false)
    else if is_neg sort_event
    then (wrapping_neg sort_event, false)
    else (sort_event, true)

-- the closure that `watches_sorted_by_event` sorts by
unfoldable pub cmp_watches : ℕ → Bool → Watch → Watch → Ordering
cmp_watches event asc wa wb =
    let i1 = unwrap_or (Stats.get wa.stats event) 0 in
    let i2 = unwrap_or (Stats.get wb.stats event) 0 in
    if i1 == i2
    then compare (bias wa.wd) (bias wb.wd)
    else if asc
    then compare i1 i2
    else compare i2 i1

-- `sort_by`, as a stable insertion sort
unfoldable pub insert_by {ℓ} : {A : Type ℓ} → (A → A → Ordering) → A → List A → List A
insert_by cmp x [] = x ∷ []
insert_by cmp x (y ∷ ys) =
    let rest = insert_by cmp x ys in
    elim (cmp x y) [ Ordering.gt ↦ y ∷ rest | Ordering.lt ↦ x ∷ y ∷ ys | Ordering.eq ↦ x ∷ y ∷ ys ]

unfoldable pub sort_by {ℓ} : {A : Type ℓ} → (A → A → Ordering) → List A → List A
unfolding insert_by
sort_by cmp [] = []
sort_by cmp (x ∷ xs) = insert_by cmp x (sort_by cmp xs)

-- the watches of a list of ids; `none` if an id has none
unfoldable pub watches_of : Inotifytools → List ℕ → Option (List (ℕ × Watch))
unfolding watch
watches_of l [] = some []
watches_of l (id ∷ ids) = do w ← watch l id; ws ← watches_of l ids; some ((id, w) ∷ ws)

unfoldable pub watches_sorted_by_event : Inotifytools → ℕ → Option (List (ℕ × WatchStats))
unfolding sort_order sort_by watches_of
watches_sorted_by_event l sort_event = do
  ws ← watches_of l (values l.by_wd)
  let (event, asc) = sort_order sort_event
  some (map (λ p. (p.0, p.1.stats)) (sort_by (λ p q. cmp_watches event asc p.1 q.1) ws))
