-- ===== src/Api/Total.antt =====
-- No sequence of calls of the C interface panics.
use inotify_tools.Prelude.{
  ℕ, ◌+◌, ◌<◌, ◌≡◌, refl, Bytes, Bool, Option, none, some, List, [], ◌∷◌, arith, All,
}
use inotify_tools.Prelude.Word.{u64_mod}
use inotify_tools.Api.{Global, lib}
use inotify_tools.Api.Calls.{Call, cost, costs, run}
use inotify_tools.Api.Changes.{step_removal, step_renaming, step_watching, step_life}
use inotify_tools.Api.Lookups.{step_names, step_watch, step_numbers}
use inotify_tools.Api.Prints.{step_printing, step_settings, step_limits}
use inotify_tools.Api.Steps.{next, Good, Steps}
use inotify_tools.Handle.{new}
use inotify_tools.Kernel.{Kernel}
use inotify_tools.Limits.{Files}
use inotify_tools.Printing.Laws.{Sized}
use inotify_tools.Registry.Invariant.{Inv, new-Inv}

-- a string that a call writes to has its 4096 bytes
abbrev pub Sound : Call → Type 0
Sound (Call.snprintf out size event fmt) = Sized out
Sound _ = Unit

module _ {W : Type 0} (k : Kernel W) (files : Files W) (compiles : Bytes → ℕ → Bool)
    (strftime : Bytes → W → Option Bytes) (evstr : Bytes) where
  step_total :
      (g : Global) (s : W) (c : Call)
      → Sound c
      → next g + cost c < u64_mod
      → Good g
      → Steps k files compiles strftime evstr g s c
  step_total g s (Call.set_filename_by_wd wd name) sound room good =
      (step_renaming k files compiles strftime evstr g s room good).0 wd name
  step_total g s (Call.set_filename_by_filename old name) sound room good =
      (step_renaming k files compiles strftime evstr g s room good).1 old name
  step_total g s (Call.replace_filename old name) sound room good =
      (step_renaming k files compiles strftime evstr g s room good).2 old name
  step_total g s (Call.remove_watch_by_wd wd) sound room good =
      (step_removal k files compiles strftime evstr g s room good).0 wd
  step_total g s (Call.remove_watch_by_filename name) sound room good =
      (step_removal k files compiles strftime evstr g s room good).1 name
  step_total g s (Call.watch_file name events) sound room good =
      (step_watching k files compiles strftime evstr g s good).0 name events room
  step_total g s (Call.watch_files names events) sound room good =
      (step_watching k files compiles strftime evstr g s good).1 names events room
  step_total g s Call.initialize sound room good =
      (step_life k files compiles strftime evstr g s good).0
  step_total g s (Call.init fanotify watch_filesystem verbose) sound room good =
      (step_life k files compiles strftime evstr g s good).1 fanotify watch_filesystem verbose
  step_total g s Call.cleanup sound room good =
      (step_life k files compiles strftime evstr g s good).2
  step_total g s Call.initialize_stats sound room good =
      (step_life k files compiles strftime evstr g s good).3
  step_total g s (Call.dirname_from_event event wanted) sound room good =
      (step_names k files compiles strftime evstr g s good).0 event wanted
  step_total g s (Call.filename_from_event event wanted) sound room good =
      (step_names k files compiles strftime evstr g s good).1 event wanted
  step_total g s (Call.dirpath_from_event malloc event) sound room good =
      (step_names k files compiles strftime evstr g s good).2 malloc event
  step_total g s (Call.filename_from_wd wd) sound room good =
      (step_names k files compiles strftime evstr g s good).3 wd
  step_total g s (Call.filename_from_watch w) sound room good =
      step_watch k files compiles strftime evstr g s w good
  step_total g s (Call.wd_from_filename name) sound room good =
      (step_numbers k files compiles strftime evstr g s good).0 name
  step_total g s (Call.get_stat_by_wd wd event) sound room good =
      (step_numbers k files compiles strftime evstr g s good).1 wd event
  step_total g s (Call.get_stat_total event) sound room good =
      (step_numbers k files compiles strftime evstr g s good).2 event
  step_total g s (Call.get_stat_by_filename name event) sound room good =
      (step_numbers k files compiles strftime evstr g s good).3 name event
  step_total g s Call.get_error sound room good =
      (step_numbers k files compiles strftime evstr g s good).4
  step_total g s Call.get_num_watches sound room good =
      (step_numbers k files compiles strftime evstr g s good).5
  step_total g s (Call.event_to_str_sep events sep) sound room good =
      (step_numbers k files compiles strftime evstr g s good).6 events sep
  step_total g s (Call.print file event fmt) sound room good =
      (step_printing k files compiles strftime evstr g s good).0 file event fmt
  step_total g s (Call.snprintf out size event fmt) sound room good =
      (step_printing k files compiles strftime evstr g s good).1 out size event fmt sound
  step_total g s (Call.set_printf_timefmt fmt) sound room good =
      (step_settings k files compiles strftime evstr g s good).0 fmt
  step_total g s Call.clear_timefmt sound room good =
      (step_settings k files compiles strftime evstr g s good).1
  step_total g s (Call.ignore_events_by_regex pattern flags recursive) sound room good =
      (step_settings k files compiles strftime evstr g s good).2 pattern flags recursive
  step_total g s (Call.ignore_events_by_inverted_regex pattern flags recursive) sound room good =
      (step_settings k files compiles strftime evstr g s good).3 pattern flags recursive
  step_total g s Call.get_max_user_watches sound room good =
      (step_limits k files compiles strftime evstr g s good).0
  step_total g s Call.get_max_user_instances sound room good =
      (step_limits k files compiles strftime evstr g s good).1
  step_total g s Call.get_max_queued_events sound room good =
      (step_limits k files compiles strftime evstr g s good).2

  run_total :
      (cs : List Call) (g : Global) (s : W)
      → All Sound cs
      → next g + costs cs < u64_mod
      → Good g
      → (g' : Global) × (s' : W) × (run k files compiles strftime evstr g s cs ≡ some (g', s'))
        × Good g'
  unfolding run
  run_total [] g s sound room good = (g, s, refl, good)
  run_total (c ∷ cs) g s sound room good =
      let (g', s', e, good', n) = step_total g s c sound.0 (omega arith) good in
      let (g'', s'', e', good'') = run_total cs g' s' sound.1 (omega arith) good' in
      (g'', s'', rw e e', good'')

  -- In a process that has not used the library, no sequence of calls of the C interface, other than
  -- those that read events and walk directories, makes the library panic, whatever the
  -- arguments (NULL too), the system and the order are: and after it the handle of the
  -- process satisfies the invariant, as long as the calls may give out fewer than 2^64 - 1 ids (one
  -- for each call, and two for each path that is set up), and each string that a call prints to has
  -- its 4096 bytes.
  pub run-untouched_total :
      (cs : List Call) (s : W)
      → All Sound cs
      → costs cs + 1 < u64_mod
      → (g : Global) × (s' : W) × (run k files compiles strftime evstr none s cs ≡ some (g, s'))
        × Inv (lib g).reader.lib
  run-untouched_total cs s sound room =
      let (g, s', e, good) =
        run_total cs none s sound
          (unfold lib in unfold inotify_tools.Reader.new_reader in unfold new in omega arith)
          (unfold lib in
            unfold inotify_tools.Reader.new_reader in
            unfold inotify_tools.Printing.new_nstring in (new-Inv, refl)) in
      (g, s', e, good.0)
