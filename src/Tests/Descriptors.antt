-- ===== src/Tests/Descriptors.antt =====
-- The theorems on directory descriptors at a handle with one watch that holds one.
use inotify_tools.Prelude.{
  ℕ, ◌+◌, ◌≤◌, ◌≡◌, refl, Bytes, false, true, none, some, List, [], ◌∷◌, arith, ◌==◌,
}
use inotify_tools.Prelude.Buffer.{codes}
use inotify_tools.Counters.{record_stats}
use inotify_tools.Handle.{Inotifytools, new}
use inotify_tools.Registry.{create_watch, replace_filename}
use inotify_tools.Registry.Invariant.{Inv, new-Inv}
use inotify_tools.Removal.{cleanup}
use inotify_tools.Session.{
  Call, opens, counts, replaces, renames_wd, removes_wd, removes_name, run, resets,
}
use inotify_tools.Session.Keeps.{create_watch-Inv, Inv-of_same}
use inotify_tools.Session.Descriptors.{holding, times}
use inotify_tools.Session.Closed.{run-cleanup_lem, run-balance}
use inotify_tools.Tests.Registry.{system}

abbrev ready : Inotifytools
ready = record new { initialized = true; fd = 3 }

abbrev held : Inotifytools
held = (create_watch ready 1 none (codes "/a/b") 7).0

held-Inv : Inv held
held-Inv =
    (create_watch-Inv ready 1 none (codes "/a/b") 7 (unfold new in omega arith)
      (Inv-of_same new ready refl refl refl refl refl new-Inv)).0

abbrev moved : Inotifytools
moved = record_stats (replace_filename held (codes "/a") (codes "/c")) 1 2

run-cleanup_lem_example :
    (holding 7 (cleanup moved).watches ≡ 0)
    × (holding 7 held.watches + times 7 held.closed ≤ times 7 (cleanup moved).closed)
unfolding run inotify_tools.Session.step create_watch new inotify_tools.Registry.pick_wd
    inotify_tools.Registry.register record_stats replace_filename inotify_tools.BTreeMap.get
    inotify_tools.BTreeMap.values inotify_tools.BTreeMap.or_insert inotify_tools.BTreeMap.insert
    inotify_tools.Prelude.starts_with inotify_tools.Prelude.until_nul inotify_tools.Prelude.eqb
run-cleanup_lem_example =
    run-cleanup_lem system 7 (omega arith) (replaces (codes "/a") (codes "/c") ∷ counts 1 2 ∷ [])
      held moved 0 0 (omega arith) held-Inv refl refl

abbrev neutral_calls : List Call
neutral_calls =
    opens false false 0
    ∷ renames_wd 1 (codes "/d")
    ∷ replaces (codes "/d") (codes "/e")
    ∷ removes_wd 1
    ∷ resets
    ∷ []

run-balance_example :
    (l' : Inotifytools) × (s' : ℕ) × (run system held 0 neutral_calls ≡ some (l', s'))
    × (holding 7 l'.watches + times 7 l'.closed ≡ holding 7 held.watches + times 7 held.closed)
unfolding create_watch new inotify_tools.Registry.pick_wd inotify_tools.Registry.register
run-balance_example =
    run-balance system 7 (omega arith) neutral_calls held 0 (omega arith) held-Inv
      (refl, (refl, (refl, (refl, (refl, tt)))))
