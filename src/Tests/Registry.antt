-- ===== src/Tests/Registry.antt =====
-- The theorems on the registry, the counters and the session at a handle with one watch.
use inotify_tools.Prelude.{
  ℕ, suc, ◌+◌, ◌<◌, ◌≡◌, refl, Bytes, Bool, true, false, Option, none, some, List, [], ◌∷◌, arith,
  length, map, All, inl, inr, ◌≢◌,
}
use mathlib.Core.List.{Perm}
use inotify_tools.Prelude.Ord.{nat_ord, bytes_ord}
use inotify_tools.Prelude.Word.{i32_min}
use inotify_tools.Prelude.Buffer.{codes}
use inotify_tools.BTreeMap.{BTreeMap, get, values}
use inotify_tools.Stats.{no_events}
use inotify_tools.Handle.{Inotifytools, Watch, new}
use inotify_tools.Kernel.{Kernel}
use inotify_tools.Registry.{create_watch, next_free, replace_filename}
use inotify_tools.Registry.Invariant.{Inv, new-Inv}
use inotify_tools.Registry.FreshWd.{next_free_total}
use inotify_tools.Registry.Replace.{renamed, replace_filename_lem}
use inotify_tools.Counters.{
  initialize_stats, get_stat_total, get_stat_by_wd, watches_sorted_by_event,
}
use inotify_tools.Counters.Sorted.{IsSorted, watches_sorted_by_event_lem}
use inotify_tools.Counters.Trace.{
  run_events, expected, known_masks, masks_of, get_stat_total_lem, get_stat_by_wd_lem,
}
use inotify_tools.Session.{Call, creates, watches, counts, replaces, removes_wd, cleans_up, run}
use inotify_tools.Session.Keeps.{create_watch-Inv}
use inotify_tools.Session.Reach.{run-new_total}

abbrev taken : BTreeMap ℕ ℕ
taken = (6, 1) ∷ (7, 2) ∷ []

next_free_total_example :
    (w' : ℕ) × (next_free (suc (length taken)) 5 taken ≡ some w')
    × (get w' taken ≡ none)
    × (0 < w')
    × (w' < i32_min)
next_free_total_example = next_free_total 5 taken (omega arith) (omega arith)

abbrev pub handle : Inotifytools
handle = (create_watch new 1 none (codes "/a/b") 0).0

abbrev pub the_watch : Watch
the_watch = record { fid = none; filename = codes "/a/b"; wd = 1; dirf = 0; stats = no_events }

pub handle-Inv : Inv handle
handle-Inv = (create_watch-Inv new 1 none (codes "/a/b") 0 (unfold new in omega arith) new-Inv).0

pub found : get 1 handle.watches ≡ some the_watch
unfolding create_watch get new inotify_tools.BTreeMap.insert inotify_tools.Prelude.until_nul
found = refl

replace_filename_lem_example :
    get 1 (replace_filename handle (codes "/a/") (codes "/c/")).watches
    ≡ some (renamed (codes "/a/") (codes "/c/") the_watch)
unfolding create_watch inotify_tools.Registry.replaced get inotify_tools.Prelude.starts_with
    inotify_tools.BTreeMap.or_insert inotify_tools.Prelude.eqb new inotify_tools.BTreeMap.insert
    inotify_tools.Prelude.Ord.cmp_bytes inotify_tools.Prelude.until_nul
replace_filename_lem_example =
    replace_filename_lem handle (codes "/a/") (codes "/c/") 1 the_watch handle-Inv
      (λ e. ground (arith, e)) (λ e. ground (arith, e)) found

abbrev events : List (ℕ × ℕ)
events = (1, 2) ∷ (3, 2) ∷ (1, 0x20) ∷ []

get_stat_total_lem_example :
    get_stat_total (run_events (initialize_stats handle) events) 2
    ≡ expected 2 (known_masks handle events)
get_stat_total_lem_example = get_stat_total_lem handle events 2

get_stat_by_wd_lem_example :
    get_stat_by_wd (run_events (initialize_stats handle) events) 1 2
    ≡ some (expected 2 (masks_of 1 events))
unfolding create_watch get inotify_tools.BTreeMap.or_insert new inotify_tools.BTreeMap.insert
get_stat_by_wd_lem_example =
    get_stat_by_wd_lem handle events 1 1 the_watch 2 handle-Inv refl found (inr refl)

watches_sorted_by_event_lem_example :
    (ws : List (ℕ × Watch)) × (watches_sorted_by_event handle 0xfffffffe
      ≡ some (map (λ p. (p.0, p.1.stats)) ws))
    × Perm (map (λ p. p.0) ws) (values handle.by_wd)
    × All (λ p. get p.0 handle.watches ≡ some p.1) ws
    × IsSorted 2 false ws
watches_sorted_by_event_lem_example =
    watches_sorted_by_event_lem handle 0xfffffffe 2 false handle-Inv
      (inr (omega arith, omega arith, omega arith))

-- a system on which each call succeeds and counts up the state
abbrev pub system : Kernel ℕ
system = record {
  errno = λ s. 0;
  getpid = λ s. 4711;
  inotify_init = λ s. (3, suc s);
  fanotify_init = λ flags s. (3, suc s);
  inotify_add_watch = λ fd path mask s. (1, suc s);
  inotify_rm_watch = λ fd wd s. (0, suc s);
  fanotify_mark = λ fd flags mask path s. (0, suc s);
  lstat = λ path s. (some false, s);
  statfs = λ path s. (none, s);
  open_readonly = λ path s. (4, suc s);
  open_path = λ path s. (5, suc s);
  name_to_handle_at = λ path s. (none, s);
  opendir = λ path s. (none, s);
  open_by_handle_at = λ fd handle s. (6, suc s);
  dup = λ fd s. (7, suc s);
  close = λ fd s. s;
  readlink = λ fd size s. (none, s);
  faccessat = λ fd name s. (0, s);
  ppoll = λ fd timeout s. (0, s);
  fionread = λ fd s. (none, s);
  read = λ fd size s. (none, s);
}

abbrev calls : List Call
calls =
    creates 1 none (codes "/a/b") 0
    ∷ counts 1 2
    ∷ replaces (codes "/a") (codes "/c")
    ∷ removes_wd 1
    ∷ watches (codes "/d" ∷ []) 2
    ∷ cleans_up
    ∷ []

run-new_total_example :
    (l' : Inotifytools) × (s' : ℕ) × (run system new 0 calls ≡ some (l', s')) × Inv l'
run-new_total_example = run-new_total system calls 0 (omega arith)
