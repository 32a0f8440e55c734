-- ===== src/Tests/Paths.antt =====
-- The theorems on watches by path and on moves, at small directory trees.
use inotify_tools.Prelude.{
  ltb, ◌<◌, ℕ, suc, zero, ◌+◌, ◌≡◌, refl, ap, Bytes, Bool, true, false, not, Option, none, some,
  List, [], ◌∷◌, ◌++◌, arith, length, if◌then◌else◌, eqb, starts_with, All, map,
}
use inotify_tools.Prelude.Ord.{nat_ord, bytes_ord}
use inotify_tools.Prelude.Buffer.{codes}
use inotify_tools.BTreeMap.{get}
use inotify_tools.Stats.{no_events}
use inotify_tools.Handle.{Inotifytools, Watch, new, ◌>>=◌}
use inotify_tools.Kernel.{Kernel}
use inotify_tools.Paths.{FileList}
use inotify_tools.Registry.{create_watch, replace_filename, unregister}
use inotify_tools.Registry.Invariant.{Inv, new-Inv}
use inotify_tools.Registry.Replace.{renamed}
use inotify_tools.Names.{Event, filename_from_wd}
use inotify_tools.Session.Keeps.{create_watch-Inv}
use inotify_tools.Setup.{as_directory, watch_files, watch_recursively_with_exclude}
use inotify_tools.Setup.Tree.{
  Tree, file, dir, Entries, end, dots, entry, watched, Accepts, known, Shows, names,
}
use inotify_tools.Setup.Recursive.{watch_recursively_with_exclude_lem}
use inotify_tools.Tracker.{handle, watch_list}
use inotify_tools.Tracker.Listed.{told, Reports, watch_list-watch_files}
use inotify_tools.Tracker.Moves.{Leaves, move_lem, unwatch_lem}
use inotify_tools.Tests.Registry as Registry

abbrev text_of : ℕ → Bytes
text_of e = codes "error"

abbrev two_files : FileList
two_files = record { watch_files = codes "/a" ∷ codes "/b" ∷ []; exclude_files = [] }

watch_list-watch_files_example :
    (out : List Bytes) × (let (ok, l', s') =
        watch_files Registry.system new (codes "/a" ∷ codes "/b" ∷ []) 2 0 in
      (watch_list Registry.system text_of 1 new two_files 2 false false false
          (codes "Couldn't watch ")
          (λ f. [])
          (λ f. f ∷ [])
          0
        ≡ some (ok, out, l', s'))
      × Reports ok out (told (λ f. []) (λ f. f ∷ []) (codes "/a" ∷ codes "/b" ∷ [])))
watch_list-watch_files_example =
    watch_list-watch_files Registry.system text_of 1 new two_files 2 false (codes "Couldn't watch ")
      (λ f. []) (λ f. f ∷ []) 0 (unfold new in refl) (unfold new in refl)

abbrev tree : Inotifytools
tree = (create_watch (create_watch new 1 none (codes "/a/") 0).0 2 none (codes "/a/d/") 0).0

tree-Inv : Inv tree
tree-Inv =
    (create_watch-Inv (create_watch new 1 none (codes "/a/") 0).0 2 none (codes "/a/d/") 0
      (unfold create_watch in unfold new in omega arith)
      (create_watch-Inv new 1 none (codes "/a/") 0 (unfold new in omega arith) new-Inv).0).0

abbrev the_directory : Watch
the_directory = record { fid = none; filename = codes "/a/d/"; wd = 2; dirf = 0; stats = no_events }

abbrev leaving : Event
leaving = record { wd = 1; mask = 0x40000040; cookie = 7; len = 16; name = codes "d" }

abbrev arriving : Event
arriving = record { wd = 1; mask = 0x40000080; cookie = 7; len = 16; name = codes "e" }

abbrev modified : Event
modified = record { wd = 1; mask = 2; cookie = 0; len = 16; name = codes "f" }

leaving-Leaves : Leaves Registry.system tree leaving (codes "/a/") 2 the_directory 0
unfolding create_watch get new filename_from_wd inotify_tools.BTreeMap.insert
    inotify_tools.Prelude.until_nul inotify_tools.BTreeMap.or_insert
    inotify_tools.Prelude.Ord.cmp_bytes
leaving-Leaves = record {
  inotify = refl;
  of_dir = refl;
  some_dir = refl;
  is_dir = refl;
  moved = refl;
  no_create = refl;
  no_moved_to = refl;
  named = refl;
  live = refl;
  real = refl;
}

move_lem_example :
    let l' = replace_filename tree (codes "/a/d/") (codes "/a/e/") in
    ((handle Registry.system text_of 1 none tree leaving true 2 false 0 >>= λ o.
    handle Registry.system text_of 1 o.moved_from o.lib arriving true 2 false o.sys)
      ≡ some (record { moved_from = none; lib = l'; out = []; sys = 0 }))
    × (filename_from_wd Registry.system l' 2 0
        ≡ some ((renamed (codes "/a/d/") (codes "/a/e/") the_directory).filename, 0))
unfolding create_watch get new filename_from_wd inotify_tools.BTreeMap.insert
    inotify_tools.Prelude.until_nul inotify_tools.BTreeMap.or_insert
    inotify_tools.Prelude.Ord.cmp_bytes
move_lem_example =
    move_lem Registry.system text_of 1 2 false tree leaving arriving (codes "/a/") (codes "/a/") 2 2
      2 the_directory the_directory 0 tree-Inv leaving-Leaves refl refl refl refl refl refl refl
      (omega arith) refl refl refl

unwatch_lem_example :
    (handle Registry.system text_of 1 none tree leaving true 2 false 0 >>= λ o.
    handle Registry.system text_of 1 o.moved_from o.lib modified true 2 false o.sys)
    ≡ some (record {
      moved_from = none;
      lib = unregister (record tree { error = 0 }) 2 the_directory;
      out = [];
      sys = 1;
    })
unwatch_lem_example =
    unwatch_lem Registry.system text_of 1 2 false tree leaving modified (codes "/a/") 2
      the_directory 0 leaving-Leaves refl refl refl refl

-- a directory /t with the directories d and x and the file f, on a system that lists the requests
abbrev top : Entries
top =
    dots (codes ".")
      (entry (codes "d") (dir end) (entry (codes "f") file (entry (codes "x") (dir end) end)))

abbrev disk : Kernel (List (Bytes × ℕ))
disk = record {
  errno = λ s. 0;
  getpid = λ s. 4711;
  inotify_init = λ s. (3, s);
  fanotify_init = λ flags s. (3, s);
  inotify_add_watch = λ fd path mask s. (1, s ++ ((path, mask) ∷ []));
  inotify_rm_watch = λ fd wd s. (0, s);
  fanotify_mark = λ fd flags mask path s. (0, s);
  lstat = λ path s. (some (not (eqb path (codes "/t/f"))), s);
  statfs = λ path s. (none, s);
  open_readonly = λ path s. (4, s);
  open_path = λ path s. (5, s);
  name_to_handle_at = λ path s. (none, s);
  opendir = λ path s. (some (if ltb (length path) 4 then names top else []), s);
  open_by_handle_at = λ fd handle s. (6, s);
  dup = λ fd s. (7, s);
  close = λ fd s. s;
  readlink = λ fd size s. (none, s);
  faccessat = λ fd name s. (0, s);
  ppoll = λ fd timeout s. (0, s);
  fionread = λ fd s. (none, s);
  read = λ fd size s. (none, s);
}

disk-Accepts : Accepts disk (λ s. s)
disk-Accepts = record {
  adds = λ fd path events s. refl;
  positive = λ fd path events s. (omega arith, omega arith);
  opens = λ path s. refl;
  looks = λ path s. refl;
}

shown : Shows disk (as_directory (codes "/t")) (dir top)
unfolding as_directory eqb
shown = (
  (λ s. refl),
  (λ s. refl),
  (
    refl,
    (
      refl,
      ((λ e. ground (arith, e)), tt),
      (λ s. refl),
      ((λ s. refl), (λ s. refl), tt),
      (
        refl,
        ((λ e. ground (arith, e)), tt),
        (λ s. refl),
        tt,
        (refl, ((λ e. ground (arith, e)), tt), (λ s. refl), ((λ s. refl), (λ s. refl), tt), tt),
      ),
    ),
  ),
)

watch_recursively_with_exclude_lem_example :
    (l' : Inotifytools) × (s' : List (Bytes × ℕ)) × (watch_recursively_with_exclude disk 3 new
        (codes "/t")
        2
        (codes "/t/x" ∷ [])
        []
      ≡ some (true, l', s'))
    × (l'.error ≡ 0)
    × (s' ≡ map (λ p. (p, 2)) (watched (codes "/t/x" ∷ []) (as_directory (codes "/t")) (dir top)))
    × All
        (λ p. known l' p ≡ true)
        (watched (codes "/t/x" ∷ []) (as_directory (codes "/t")) (dir top))
    × ((p : Bytes) → known new p ≡ true → known l' p ≡ true)
unfolding inotify_tools.Setup.Tree.depth_entries
watch_recursively_with_exclude_lem_example =
    watch_recursively_with_exclude_lem disk (λ s. s) disk-Accepts 2 (codes "/t/x" ∷ []) top 3
      (codes "/t") new [] (omega arith) ((λ e. ground (arith, e)), ((λ e. ground (arith, e)), tt))
      (λ s. refl) shown (unfold new in refl)
