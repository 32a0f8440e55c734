-- ===== src/Counters/Trace.antt =====
-- What the counters hold after any sequence of events: the numbers of events in it.
use inotify_tools.Prelude.{
  ℕ, ◌%◌, ◌≡◌, refl, true, none, some, List, [], ◌∷◌, arith, ◌⊎◌, inl, inr, ◌==◌, is_some,
  if◌then◌else◌, Option-cases, Bool-cases, ap,
}
use inotify_tools.Prelude.Ord.{nat_ord}
use inotify_tools.Prelude.Word.{minus_one, u32_mod}
use inotify_tools.BTreeMap.{get, modify, values, get-modify}
use inotify_tools.BTreeMap.Once.{mem, mem-values}
use inotify_tools.Stats
use inotify_tools.Stats.{WatchStats, no_events, record_event}
use inotify_tools.Stats.Record.{occurrences, record_all, get-record_all}
use inotify_tools.Handle.{Inotifytools, Watch}
use inotify_tools.Registry.Invariant.{Inv}
use inotify_tools.Counters.{
  record_stats, reset_each, initialize_stats, get_stat_by_wd, get_stat_total,
}

-- `record_stats` for each event of a list of descriptors and masks
pub run_events : Inotifytools → List (ℕ × ℕ) → Inotifytools
run_events l [] = l
run_events l ((wd, mask) ∷ evs) = run_events (record_stats l wd mask) evs

-- the masks of the events on watches that are registered, and of those on one descriptor
pub known_masks : Inotifytools → List (ℕ × ℕ) → List ℕ
known_masks l [] = []
known_masks l ((wd, mask) ∷ evs) =
    let rest = known_masks l evs in if is_some (get wd l.by_wd) then mask ∷ rest else rest

pub masks_of : ℕ → List (ℕ × ℕ) → List ℕ
masks_of wd [] = []
masks_of wd ((wd', mask) ∷ evs) =
    let rest = masks_of wd evs in if wd' == wd then mask ∷ rest else rest

record_stats_keeps :
    (l : Inotifytools) (wd mask : ℕ)
    → ((record_stats l wd mask).by_wd ≡ l.by_wd)
      × ((record_stats l wd mask).collect_stats ≡ l.collect_stats)
unfolding record_stats
record_stats_keeps l wd mask = ground arith

run_events_keeps :
    (l : Inotifytools) (evs : List (ℕ × ℕ))
    → ((run_events l evs).by_wd ≡ l.by_wd) × ((run_events l evs).collect_stats ≡ l.collect_stats)
unfolding run_events
run_events_keeps l [] = (refl, refl)
run_events_keeps l ((wd, mask) ∷ evs) =
    ground (arith, record_stats_keeps l wd mask, run_events_keeps (record_stats l wd mask) evs)

known_masks_same :
    (l l' : Inotifytools) (evs : List (ℕ × ℕ))
    → l.by_wd ≡ l'.by_wd
    → known_masks l evs ≡ known_masks l' evs
unfolding known_masks
known_masks_same l l' [] e = refl
known_masks_same l l' ((wd, mask) ∷ evs) e =
    ground (arith, known_masks_same l l' evs e, ap (get wd) e)

totals-record_stats :
    (l : Inotifytools) (wd mask : ℕ)
    → (record_stats l wd mask).totals
      ≡ (if is_some (get wd l.by_wd) then record_event l.totals mask else l.totals)
unfolding record_stats
totals-record_stats l wd mask = ground arith

totals-run_events :
    (l : Inotifytools) (evs : List (ℕ × ℕ))
    → (run_events l evs).totals ≡ record_all l.totals (known_masks l evs)
unfolding run_events known_masks record_all
totals-run_events l [] = refl
totals-run_events l ((wd, mask) ∷ evs) = ground (
  arith,
  totals-record_stats l wd mask,
  totals-run_events (record_stats l wd mask) evs,
  known_masks_same (record_stats l wd mask) l evs (record_stats_keeps l wd mask).0,
)

-- an event changes the counters of the watch that has its descriptor, and of no other
get-record_stats :
    (l : Inotifytools) (wd mask wd' id : ℕ) (w : Watch)
    → get wd l.by_wd ≡ some id
    → ((k : ℕ) → get k l.by_wd ≡ some id → k ≡ wd)
    → get id l.watches ≡ some w
    → get id (record_stats l wd' mask).watches
      ≡ some (if wd' == wd then record w { stats = record_event w.stats mask } else w)
unfolding record_stats
get-record_stats l wd mask wd' id w h only g = elim (Option-cases (get wd' l.by_wd)) [
  | inl e ↦ ground (arith, e, h)
  | inr (id', e) ↦ ground (
    arith,
    e,
    h,
    only wd',
    get-modify id' id (λ (w : Watch). record w { stats = record_event w.stats mask }) l.watches,
  )
]

get-run_events :
    (l : Inotifytools) (evs : List (ℕ × ℕ)) (wd id : ℕ) (w : Watch)
    → get wd l.by_wd ≡ some id
    → ((k : ℕ) → get k l.by_wd ≡ some id → k ≡ wd)
    → get id l.watches ≡ some w
    → get id (run_events l evs).watches
      ≡ some (record w { stats = record_all w.stats (masks_of wd evs) })
unfolding run_events masks_of record_all
get-run_events l [] wd id w h only g = g
get-run_events l ((wd', mask) ∷ evs) wd id w h only g = elim (Bool-cases (wd' == wd)) [
  | inl e ↦ ground (
    arith,
    e,
    step,
    get-run_events l' evs wd id (record w { stats = record_event w.stats mask }) h' only',
  )
  | inr e ↦ ground (arith, e, step, get-run_events l' evs wd id w h' only')
]
  where
    l' : Inotifytools
    l' = record_stats l wd' mask

    same_index : l'.by_wd ≡ l.by_wd
    same_index = (record_stats_keeps l wd' mask).0

    h' : get wd l'.by_wd ≡ some id
    h' = rw same_index h

    only' : (k : ℕ) → get k l'.by_wd ≡ some id → k ≡ wd
    only' k e = only k (rw same_index at e)

    step :
        get id l'.watches
        ≡ some (if wd' == wd then record w { stats = record_event w.stats mask } else w)
    step = get-record_stats l wd mask wd' id w h only g

get-reset_each :
    (ids : List ℕ) (l : Inotifytools) (id : ℕ) (w : Watch)
    → get id l.watches ≡ some w
    → get id (reset_each ids l).watches
      ≡ some (if mem id ids then record w { stats = no_events } else w)
unfolding reset_each mem
get-reset_each [] l id w g = g
get-reset_each (j ∷ ids) l id w g = elim (Bool-cases (j == id)) [
  | inl e ↦ ground (arith, e, changed, get-reset_each ids l' id (record w { stats = no_events }))
  | inr e ↦ ground (arith, e, changed, get-reset_each ids l' id w)
]
  where
    l' : Inotifytools
    l' = record l { watches = modify j (λ w. record w { stats = no_events }) l.watches }

    changed : get id l'.watches ≡ some (if j == id then record w { stats = no_events } else w)
    changed =
        ground (arith, g, get-modify j id (λ (w : Watch). record w { stats = no_events }) l.watches)

reset_each-by_wd : (ids : List ℕ) (l : Inotifytools) → (reset_each ids l).by_wd ≡ l.by_wd
unfolding reset_each
reset_each-by_wd [] l = refl
reset_each-by_wd (j ∷ ids) l = reset_each-by_wd ids _

initialize_stats_keeps :
    (l : Inotifytools)
    → ((initialize_stats l).by_wd ≡ l.by_wd)
      × ((initialize_stats l).totals ≡ no_events)
      × ((initialize_stats l).collect_stats ≡ true)
unfolding initialize_stats
initialize_stats_keeps l = (ground (arith, reset_each-by_wd (values l.by_wd) l), refl, refl)

-- The answer to be expected for an event after the events with the masks: how many of them have
-- it, modulo 2^32, and -1 for what `WatchStats::get` does not know.
abbrev pub expected : ℕ → List ℕ → ℕ
expected event masks = elim (Stats.get no_events event) [
  | none ↦ minus_one
  | some _ ↦ occurrences event masks % u32_mod
]

-- After `initialize_stats` and any events, `get_stat_total` returns for a known event the number
-- of the events on registered watches that have it (for 0: of all of them), modulo 2^32, and -1
-- for any other.
pub get_stat_total_lem :
    (l : Inotifytools) (evs : List (ℕ × ℕ)) (event : ℕ)
    → get_stat_total (run_events (initialize_stats l) evs) event
      ≡ expected event (known_masks l evs)
unfolding get_stat_total
get_stat_total_lem l evs event = ground (
  arith,
  run_events_keeps (initialize_stats l) evs,
  totals-run_events (initialize_stats l) evs,
  initialize_stats_keeps l,
  known_masks_same (initialize_stats l) l evs (initialize_stats_keeps l).0,
  get-record_all (known_masks l evs) event,
)

-- The counters of a watch that is found by a descriptor are zero after `initialize_stats`, if the
-- handle was counting before, or if they were zero.
get-initialize_stats :
    (l : Inotifytools) (wd id : ℕ) (w : Watch)
    → get wd l.by_wd ≡ some id
    → get id l.watches ≡ some w
    → (l.collect_stats ≡ true) ⊎ (w.stats ≡ no_events)
    → get id (initialize_stats l).watches ≡ some (record w { stats = no_events })
unfolding initialize_stats
get-initialize_stats l wd id w h g c =
    ground (arith, get-reset_each (values l.by_wd) l id w g, mem-values wd id l.by_wd h, c)

-- On a registry that satisfies the invariant, `get_stat_by_wd` returns the same for the events on
-- one descriptor, after `initialize_stats` and any events, for a watch that was counting before or
-- that had counted nothing.
pub get_stat_by_wd_lem :
    (l : Inotifytools) (evs : List (ℕ × ℕ)) (wd id : ℕ) (w : Watch) (event : ℕ)
    → Inv l
    → get wd l.by_wd ≡ some id
    → get id l.watches ≡ some w
    → (l.collect_stats ≡ true) ⊎ (w.stats ≡ no_events)
    → get_stat_by_wd (run_events (initialize_stats l) evs) wd event
      ≡ some (expected event (masks_of wd evs))
unfolding get_stat_by_wd
get_stat_by_wd_lem l evs wd id w event v h g c = ground (
  arith,
  h,
  run_events_keeps (initialize_stats l) evs,
  ap (get wd) (run_events_keeps (initialize_stats l) evs).0,
  ap (get wd) (initialize_stats_keeps l).0,
  initialize_stats_keeps l,
  get-run_events (initialize_stats l) evs wd id (record w { stats = no_events }) here only
      (get-initialize_stats l wd id w h g c),
  get-record_all (masks_of wd evs) event,
)
  where
    same_index : (initialize_stats l).by_wd ≡ l.by_wd
    same_index = (initialize_stats_keeps l).0

    here : get wd (initialize_stats l).by_wd ≡ some id
    here = rw same_index h

    only : (k : ℕ) → get k (initialize_stats l).by_wd ≡ some id → k ≡ wd
    only k e =
        let e' : get k l.by_wd ≡ some id = rw same_index at e in
        ground (arith, v.wd_index k id e', v.wd_index wd id h)
