-- ===== src/Api/Changes.antt =====
-- The calls of the C interface that change names or watches end, and keep the handle good.
use inotify_tools.Prelude.{
  ℕ, ◌+◌, ◌*◌, ◌<◌, ◌≡◌, refl, Bytes, Bool, false, not, Option, none, some, List, [], ◌∷◌, arith,
  length, ◌==◌, sym, until_nul,
}
use inotify_tools.Prelude.Ord.{nat_ord, bytes_ord}
use inotify_tools.Prelude.Word.{u64_mod}
use inotify_tools.Api.{Pointer, bytes, str_list, strings, Global, lib, set_lib}
use inotify_tools.Api.Calls as Calls
use inotify_tools.Api.Calls.{Call, cost, costs, step, run}
use inotify_tools.Api.Registry.{
  inotifytools_set_filename_by_wd, inotifytools_set_filename_by_filename,
  inotifytools_replace_filename, inotifytools_initialize_stats, inotifytools_cleanup,
  inotifytools_remove_watch_by_filename, inotifytools_remove_watch_by_wd, inotifytools_init,
  inotifytools_initialize,
}
use inotify_tools.BTreeMap.{values}
use mathlib.Core.Path.{subst}
use inotify_tools.Handle.{Inotifytools, ◌>>=◌}
use inotify_tools.Limits.{Files}
use inotify_tools.Removal.{remove_watch_by_wd, remove_watch_by_filename}
use inotify_tools.Registry.{set_filename_by_wd, set_filename_by_filename}
use inotify_tools.Registry.Replace.{replace_filename-Inv}
use inotify_tools.Session.Keeps.{
  replace_filename-next_id, initialize_stats-Inv, reset_each-next_id, cleanup-Inv,
}
use inotify_tools.Kernel.{Kernel}
use inotify_tools.Session as Session
use inotify_tools.Session.Reach.{step_total, init-Inv, init_cases}
use inotify_tools.Setup.Keeps.{watch_files-Grows}
use inotify_tools.Api.Watching.{inotifytools_watch_files, inotifytools_watch_file}
use inotify_tools.Setup.{watch_files}
use inotify_tools.Counters.{initialize_stats}
use inotify_tools.Removal.{cleanup}
use inotify_tools.Api.Registry.{initialize}
use inotify_tools.Api.Steps.{next, Good, Grown, Steps}

-- what a step of the session tells of the operation in it
module _ {W : Type 0} (l' : Inotifytools) (s' : W) (m : ℕ) (v : Grown m l') where
  by_result :
      (o : Option (Bool × Inotifytools × W))
      → (let r : Option (Inotifytools × W) = o >>= λ (_, l, s). some (l, s) in r ≡ some (l', s'))
      → (ok : Bool) × (l : Inotifytools) × (s : W) × (o ≡ some (ok, l, s)) × Grown m l
  by_result none e = absurd (ground (arith, e))
  by_result (some (ok, l, s)) e =
      let same : l ≡ l' = ground (arith, e) in (ok, l, s, refl, subst (Grown m) (sym same) v)

  by_handle :
      (o : Option Inotifytools) (s : W)
      → (let r : Option (Inotifytools × W) = o >>= λ l. some (l, s) in r ≡ some (l', s'))
      → (l : Inotifytools) × (o ≡ some l) × Grown m l
  by_handle none s e = absurd (ground (arith, e))
  by_handle (some l) s e =
      let same : l ≡ l' = ground (arith, e) in (l, refl, subst (Grown m) (sym same) v)

module _ {W : Type 0} (k : Kernel W) (files : Files W) (compiles : Bytes → ℕ → Bool)
    (strftime : Bytes → W → Option Bytes) (evstr : Bytes) where
  abbrev Ends : Global → W → Call → Type 0
  Ends = Steps k files compiles strftime evstr

  -- the removal of watches
  pub step_removal :
      (g : Global) (s : W)
      → next g + 1 < u64_mod
      → Good g
      → ((wd : ℕ) → Ends g s (Calls.remove_watch_by_wd wd))
        × ((name : Pointer) → Ends g s (Calls.remove_watch_by_filename name))
  unfolding step inotifytools_remove_watch_by_wd inotifytools_remove_watch_by_filename lib
      Session.step
  step_removal g s room (v, full) =
      let l = (lib g).reader.lib in
      (
        λ wd.
            let (l', s', e, v', n) = step_total k l s (Session.removes_wd wd) room v in
            let (ok, l1, s1, f, (v1, n1)) =
              by_result l' s' (l.next_id + 1) (v', n) (remove_watch_by_wd k l wd s) e in
            (set_lib (lib g) l1, s1, rw f refl, (v1, full), n1),
        λ name.
            let (l', s', e, v', n) = step_total k l s (Session.removes_name (bytes name)) room v in
            let (ok, l1, s1, f, (v1, n1)) =
              by_result l' s' (l.next_id + 1) (v', n) (remove_watch_by_filename k l (bytes name) s)
                e in
            (set_lib (lib g) l1, s1, rw f refl, (v1, full), n1),
      )

  -- renaming
  pub step_renaming :
      (g : Global) (s : W)
      → next g + 1 < u64_mod
      → Good g
      → ((wd : ℕ) (name : Pointer) → Ends g s (Calls.set_filename_by_wd wd name))
        × ((old name : Pointer) → Ends g s (Calls.set_filename_by_filename old name))
        × ((old name : Pointer) → Ends g s (Calls.replace_filename old name))
  unfolding step inotifytools_set_filename_by_wd inotifytools_set_filename_by_filename
      inotifytools_replace_filename lib Session.step
  step_renaming g s room (v, full) = (by_wd, by_name, prefix)
    where
      l : Inotifytools
      l = (lib g).reader.lib

      by_wd : (wd : ℕ) (name : Pointer) → Ends g s (Calls.set_filename_by_wd wd name)
      by_wd wd none = (g, s, refl, (v, full), omega arith)
      by_wd wd (some name) =
          let (l', s', e, v', n) =
            step_total k l s (Session.renames_wd wd (bytes (some name))) room v in
          let (l1, f, (v1, n1)) =
            by_handle l' s' (l.next_id + 1) (v', n) (set_filename_by_wd l wd (bytes (some name))) s
              e in
          (set_lib (lib g) l1, s, rw f refl, (v1, full), n1)

      by_name : (old name : Pointer) → Ends g s (Calls.set_filename_by_filename old name)
      by_name none name = (g, s, refl, (v, full), omega arith)
      by_name (some old) none = (g, s, refl, (v, full), omega arith)
      by_name (some old) (some name) =
          let (l', s', e, v', n) =
            step_total k l s (Session.renames_name (bytes (some old)) (bytes (some name))) room v in
          let (l1, f, (v1, n1)) =
            by_handle l' s' (l.next_id + 1) (v', n)
              (set_filename_by_filename l (bytes (some old)) (bytes (some name))) s e in
          (set_lib (lib g) l1, s, rw f refl, (v1, full), n1)

      prefix : (old name : Pointer) → Ends g s (Calls.replace_filename old name)
      prefix none name = (g, s, refl, (v, full), omega arith)
      prefix (some old) none = (g, s, refl, (v, full), omega arith)
      prefix (some old) (some name) = (
        _,
        s,
        refl,
        (replace_filename-Inv l (bytes (some old)) (bytes (some name)) v, full),
        omega (arith, replace_filename-next_id l (bytes (some old)) (bytes (some name))),
      )

  watched :
      (g : Global) (names : List Bytes) (events : ℕ) (s : W)
      → next g + (1 + 2 * length names) < u64_mod
      → Good g
      → Grown (next g + 2 * length names) (watch_files k (lib g).reader.lib names events s).1
  watched g names events s room (v, full) =
      watch_files-Grows k names (lib g).reader.lib events s (omega arith) v

  pub step_watching :
      (g : Global) (s : W)
      → Good g
      → ((name : Pointer) (events : ℕ)
          → next g + 3 < u64_mod
          → Ends g s (Calls.watch_file name events))
        × ((names : Option (List Pointer)) (events : ℕ)
            → next g + cost (Calls.watch_files names events) < u64_mod
            → Ends g s (Calls.watch_files names events))
  unfolding step inotifytools_watch_files inotifytools_watch_file lib str_list strings
  step_watching g s (v, full) = (one, all)
    where
      l : Inotifytools
      l = (lib g).reader.lib

      one :
          (name : Pointer) (events : ℕ)
          → next g + 3 < u64_mod
          → Ends g s (Calls.watch_file name events)
      one none events room =
          let (v', n) = watched g [] events s (omega arith) (v, full) in
          (_, _, refl, (v', full), omega arith)
      one (some name) events room =
          let (v', n) = watched g (until_nul name ∷ []) events s (omega arith) (v, full) in
          (_, _, refl, (v', full), omega arith)

      all :
          (names : Option (List Pointer)) (events : ℕ)
          → next g + cost (Calls.watch_files names events) < u64_mod
          → Ends g s (Calls.watch_files names events)
      all names events room =
          let (v', n) = watched g (str_list names) events s (omega arith) (v, full) in
          (_, _, refl, (v', full), omega arith)

  -- the life of the handle
  pub step_life :
      (g : Global) (s : W)
      → Good g
      → Ends g s Calls.initialize
        × ((fanotify watch_filesystem verbose : ℕ)
            → Ends g s (Calls.init fanotify watch_filesystem verbose))
        × Ends g s Calls.cleanup
        × Ends g s Calls.initialize_stats
  unfolding step inotifytools_initialize inotifytools_init inotifytools_cleanup
      inotifytools_initialize_stats initialize lib
  step_life g s (v, full) =
      let l = (lib g).reader.lib in
      (
        (
          _,
          _,
          refl,
          (init-Inv k l false false 0 s v, full),
          omega (arith, (init_cases k l false false 0 s).1),
        ),
        λ fanotify watch_filesystem verbose. (
          _,
          _,
          refl,
          (init-Inv k l (not (fanotify == 0)) (not (watch_filesystem == 0)) verbose s v, full),
          omega (
            arith,
            (init_cases k l (not (fanotify == 0)) (not (watch_filesystem == 0)) verbose s).1,
          ),
        ),
        (_, _, refl, (cleanup-Inv l v, full), unfold cleanup in ground arith),
        (
          _,
          _,
          refl,
          (initialize_stats-Inv l v, full),
          unfold initialize_stats in ground (arith, reset_each-next_id (values l.by_wd) l),
        ),
      )
