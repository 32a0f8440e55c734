-- ===== src/Api/Lookups.antt =====
-- The calls of the C interface that look something up end, and leave the shared handle as it is.
use inotify_tools.Prelude.{
  ℕ, ◌≡◌, refl, Bytes, Bool, true, Option, none, some, arith, Option-cases, inl, inr, is_some,
}
use inotify_tools.Prelude.Ord.{nat_ord, bytes_ord}
use inotify_tools.Api.{Pointer, bytes, InotifyEvent, event_from_c, Global, lib}
use inotify_tools.Api.Calls as Calls
use inotify_tools.Api.Calls.{Call, cost, costs, step, run}
use inotify_tools.Api.Registry.{
  inotifytools_wd_from_filename, inotifytools_error, inotifytools_get_stat_by_wd,
  inotifytools_get_stat_total, inotifytools_get_stat_by_filename, inotifytools_get_num_watches,
}
use inotify_tools.Handle.{Inotifytools}
use inotify_tools.Limits.{Files}
use inotify_tools.Kernel.{Kernel}
use inotify_tools.Registry.Invariant.{Inv}
use inotify_tools.Api.Steps.{Good, Steps}
use inotify_tools.BTreeMap.{get}
use inotify_tools.Api.Output.{
  inotifytools_event_to_str_sep, inotifytools_dirname_from_event, inotifytools_filename_from_event,
  inotifytools_dirpath_from_event, inotifytools_filename_from_watch, inotifytools_filename_from_wd,
}
use inotify_tools.Names.Total.{filename_from_wd_total, filename_from_watch_id_total, live_wd}
use inotify_tools.Names.{dirpath_from_event, filename_from_watch, filename_from_watch_id}
use inotify_tools.Registry.{watch, watch_from_wd, watch_from_filename, wd_from_filename}
use inotify_tools.Counters.{get_stat_by_wd, get_stat_by_filename}

live_name :
    (l : Inotifytools) (name : Bytes) (id : ℕ)
    → Inv l
    → watch_from_filename l name ≡ some id
    → is_some (watch l id) ≡ true
unfolding watch_from_filename watch
live_name l name id v h = elim (Option-cases (get id l.watches)) [
  | inl e ↦ absurd (ground (arith, e, v.name_index name id h))
  | inr (w, e) ↦ ground (arith, e)
]

wd_from_filename_total :
    (l : Inotifytools) (name : Bytes) → Inv l → is_some (wd_from_filename l name) ≡ true
unfolding wd_from_filename
wd_from_filename_total l name v = elim (Option-cases (watch_from_filename l name)) [
  | inl e ↦ ground (arith, e)
  | inr (id, e) ↦ ground (arith, e, live_name l name id v e)
]

get_stat_by_wd_total :
    (l : Inotifytools) (wd event : ℕ) → Inv l → is_some (get_stat_by_wd l wd event) ≡ true
unfolding get_stat_by_wd
get_stat_by_wd_total l wd event v = elim (Option-cases (watch_from_wd l wd)) [
  | inl e ↦ ground (arith, e)
  | inr (id, e) ↦ let (w, h) = live_wd l wd id v e in ground (arith, e, h)
]

get_stat_by_filename_total :
    (l : Inotifytools) (name : Bytes) (event : ℕ)
    → Inv l
    → is_some (get_stat_by_filename l name event) ≡ true
unfolding get_stat_by_filename
get_stat_by_filename_total l name event v = elim (Option-cases (wd_from_filename l name)) [
  | inl e ↦ absurd (ground (arith, e, wd_from_filename_total l name v))
  | inr (wd, e) ↦ ground (arith, e, get_stat_by_wd_total l wd event v)
]

filename_from_watch_total :
    {W : Type 0} (k : Kernel W) (l : Inotifytools) (id : ℕ) (s : W)
    → Inv l
    → is_some (filename_from_watch k l id s) ≡ true
unfolding filename_from_watch filename_from_watch_id
filename_from_watch_total k l id s v = elim (Option-cases (watch l id)) [
  | inl e ↦ ground (arith, e)
  | inr (w, e) ↦ ground (arith, e, filename_from_watch_id_total k l v id w s e)
]

module _ {W : Type 0} (k : Kernel W) (files : Files W) (compiles : Bytes → ℕ → Bool)
    (strftime : Bytes → W → Option Bytes) (evstr : Bytes) where
  abbrev Ends : Global → W → Call → Type 0
  Ends = Steps k files compiles strftime evstr

  pub step_names :
      (g : Global) (s : W)
      → Good g
      → ((event : Option InotifyEvent) (wanted : Bool)
          → Ends g s (Calls.dirname_from_event event wanted))
        × ((event : Option InotifyEvent) (wanted : Bool)
            → Ends g s (Calls.filename_from_event event wanted))
        × ((room : Bool) (event : Option InotifyEvent)
            → Ends g s (Calls.dirpath_from_event room event))
        × ((wd : ℕ) → Ends g s (Calls.filename_from_wd wd))
  unfolding step inotifytools_dirname_from_event inotifytools_filename_from_event
      inotifytools_dirpath_from_event inotifytools_filename_from_wd dirpath_from_event lib
  step_names g s (v, full) =
      let l = (lib g).reader.lib in
      (
        λ event wanted.
            let (name, s', e) = filename_from_wd_total k l v (event_from_c event).wd s in
            (some (lib g), s', rw e refl, (v, full), omega arith),
        λ event wanted.
            let (name, s', e) = filename_from_wd_total k l v (event_from_c event).wd s in
            (some (lib g), s', rw e refl, (v, full), omega arith),
        λ room event.
            let (name, s', e) = filename_from_wd_total k l v (event_from_c event).wd s in
            (some (lib g), s', ground (arith, e), (v, full), omega arith),
        λ wd.
            let (name, s', e) = filename_from_wd_total k l v wd s in
            (some (lib g), s', rw e refl, (v, full), omega arith),
      )

  pub step_watch :
      (g : Global) (s : W) (w : Option ℕ) → Good g → Ends g s (Calls.filename_from_watch w)
  unfolding step inotifytools_filename_from_watch lib
  step_watch g s none good = (some (lib g), s, refl, good, omega arith)
  step_watch g s (some id) (v, full) =
      let l = (lib g).reader.lib in
      elim (Option-cases (filename_from_watch k l id s)) [
        | inl e ↦ absurd (ground (arith, e, filename_from_watch_total k l id s v))
        | inr ((name, s'), e) ↦ (some (lib g), s', rw e refl, (v, full), omega arith)
      ]

  pub step_numbers :
      (g : Global) (s : W)
      → Good g
      → ((name : Pointer) → Ends g s (Calls.wd_from_filename name))
        × ((wd event : ℕ) → Ends g s (Calls.get_stat_by_wd wd event))
        × ((event : ℕ) → Ends g s (Calls.get_stat_total event))
        × ((name : Pointer) (event : ℕ) → Ends g s (Calls.get_stat_by_filename name event))
        × Ends g s Calls.get_error
        × Ends g s Calls.get_num_watches
        × ((events sep : ℕ) → Ends g s (Calls.event_to_str_sep events sep))
  unfolding step inotifytools_wd_from_filename inotifytools_get_stat_by_wd inotifytools_error
      inotifytools_get_stat_by_filename inotifytools_get_stat_total inotifytools_get_num_watches
      inotifytools_event_to_str_sep lib
  step_numbers g s (v, full) =
      let l = (lib g).reader.lib in
      (
        λ name. (
          some (lib g),
          s,
          ground (arith, wd_from_filename_total l (bytes name) v),
          (v, full),
          omega arith,
        ),
        λ wd event. (
          some (lib g),
          s,
          ground (arith, get_stat_by_wd_total l wd event v),
          (v, full),
          omega arith,
        ),
        λ event. (some (lib g), s, refl, (v, full), omega arith),
        λ name event. (
          some (lib g),
          s,
          ground (arith, get_stat_by_filename_total l (bytes name) event v),
          (v, full),
          omega arith,
        ),
        (some (lib g), s, refl, (v, full), omega arith),
        (some (lib g), s, refl, (v, full), omega arith),
        λ events sep. (some (lib g), s, refl, (v, full), omega arith),
      )
