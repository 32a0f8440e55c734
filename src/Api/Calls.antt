-- ===== src/Api/Calls.antt =====
-- libinotifytools/src/ffi.rs: the calls of a C program on the handle that its process shares, but
-- those that read events or walk directories.
use inotify_tools.Prelude.{ℕ, Bytes, Bool, Option, some, List, [], ◌∷◌, ◌+◌, ◌*◌, length}
use inotify_tools.Api.{Pointer, InotifyEvent, str_list, Global}
use inotify_tools.Api.Output.{
  inotifytools_event_to_str_sep, inotifytools_dirname_from_event, inotifytools_filename_from_event,
  inotifytools_dirpath_from_event, inotifytools_filename_from_watch, inotifytools_filename_from_wd,
  inotifytools_fprintf, inotifytools_snprintf,
}
use inotify_tools.Api.Registry.{
  inotifytools_set_filename_by_wd, inotifytools_set_filename_by_filename,
  inotifytools_replace_filename, inotifytools_wd_from_filename, inotifytools_error,
  inotifytools_get_stat_by_wd, inotifytools_get_stat_total, inotifytools_get_stat_by_filename,
  inotifytools_initialize_stats, inotifytools_cleanup, inotifytools_get_num_watches,
  inotifytools_set_printf_timefmt, inotifytools_clear_timefmt, inotifytools_ignore_events_by_regex,
  inotifytools_ignore_events_by_inverted_regex, inotifytools_remove_watch_by_filename,
  inotifytools_remove_watch_by_wd, inotifytools_init, inotifytools_initialize,
}
use inotify_tools.Api.Watching.{
  inotifytools_watch_files, inotifytools_watch_file, inotifytools_get_max_user_watches,
  inotifytools_get_max_user_instances, inotifytools_get_max_queued_events,
}
use inotify_tools.Format.{NString}
use inotify_tools.Handle.{◌>>=◌}
use inotify_tools.Kernel.{Kernel}
use inotify_tools.Limits.{Files}
use inotify_tools.Printing.{Stream}

pub data Call : Type 0 where
  set_filename_by_wd : ℕ → Pointer → Call
  set_filename_by_filename : Pointer → Pointer → Call
  replace_filename : Pointer → Pointer → Call
  event_to_str_sep : ℕ → ℕ → Call
  dirname_from_event : Option InotifyEvent → Bool → Call
  filename_from_event : Option InotifyEvent → Bool → Call
  dirpath_from_event : Bool → Option InotifyEvent → Call
  filename_from_watch : Option ℕ → Call
  filename_from_wd : ℕ → Call
  wd_from_filename : Pointer → Call
  remove_watch_by_filename : Pointer → Call
  remove_watch_by_wd : ℕ → Call
  watch_file : Pointer → ℕ → Call
  watch_files : Option (List Pointer) → ℕ → Call
  ignore_events_by_regex : Pointer → ℕ → ℕ → Call
  ignore_events_by_inverted_regex : Pointer → ℕ → ℕ → Call
  get_error : Call
  get_stat_by_wd : ℕ → ℕ → Call
  get_stat_total : ℕ → Call
  get_stat_by_filename : Pointer → ℕ → Call
  initialize_stats : Call
  initialize : Call
  init : ℕ → ℕ → ℕ → Call
  cleanup : Call
  get_num_watches : Call
  print : Stream → Option InotifyEvent → Pointer → Call
  snprintf : Option NString → ℕ → Option InotifyEvent → Pointer → Call
  set_printf_timefmt : Pointer → Call
  clear_timefmt : Call
  get_max_user_watches : Call
  get_max_user_instances : Call
  get_max_queued_events : Call

-- how many ids a call may give out, and a sequence of calls
abbrev pub cost : Call → ℕ
cost (watch_file filename events) = 3
cost (watch_files filenames events) = 1 + 2 * length (str_list filenames)
cost _ = 1

abbrev pub costs : List Call → ℕ
costs [] = 0
costs (c ∷ cs) = cost c + costs cs

module _ {W : Type 0} (k : Kernel W) (files : Files W) (compiles : Bytes → ℕ → Bool)
    (strftime : Bytes → W → Option Bytes) (evstr : Bytes) where
  -- what a call leaves, without what it returns; none is a panic
  unfoldable pub step : Global → W → Call → Option (Global × W)
  step g s (set_filename_by_wd wd name) =
      inotifytools_set_filename_by_wd g wd name >>= λ g'. some (g', s)
  step g s (set_filename_by_filename old name) =
      inotifytools_set_filename_by_filename g old name >>= λ g'. some (g', s)
  step g s (replace_filename old name) = some (inotifytools_replace_filename g old name, s)
  step g s (event_to_str_sep events sep) =
      some ((inotifytools_event_to_str_sep evstr g events sep).1, s)
  step g s (dirname_from_event event wanted) =
      inotifytools_dirname_from_event k g event wanted s >>= λ (_, _, g', s'). some (g', s')
  step g s (filename_from_event event wanted) =
      inotifytools_filename_from_event k g event wanted s >>= λ (_, _, _, g', s'). some (g', s')
  step g s (dirpath_from_event room event) =
      inotifytools_dirpath_from_event k room g event s >>= λ (_, g', s'). some (g', s')
  step g s (filename_from_watch w) =
      inotifytools_filename_from_watch k g w s >>= λ (_, g', s'). some (g', s')
  step g s (filename_from_wd wd) =
      inotifytools_filename_from_wd k g wd s >>= λ (_, g', s'). some (g', s')
  step g s (wd_from_filename name) =
      inotifytools_wd_from_filename g name >>= λ (_, g'). some (g', s)
  step g s (remove_watch_by_filename name) =
      inotifytools_remove_watch_by_filename k g name s >>= λ (_, g', s'). some (g', s')
  step g s (remove_watch_by_wd wd) =
      inotifytools_remove_watch_by_wd k g wd s >>= λ (_, g', s'). some (g', s')
  step g s (watch_file name events) =
      let (_, g', s') = inotifytools_watch_file k g name events s in some (g', s')
  step g s (watch_files names events) =
      let (_, g', s') = inotifytools_watch_files k g names events s in some (g', s')
  step g s (ignore_events_by_regex pattern flags recursive) =
      some ((inotifytools_ignore_events_by_regex compiles g pattern flags recursive).1, s)
  step g s (ignore_events_by_inverted_regex pattern flags recursive) =
      some ((inotifytools_ignore_events_by_inverted_regex compiles g pattern flags recursive).1, s)
  step g s get_error = some ((inotifytools_error g).1, s)
  step g s (get_stat_by_wd wd event) =
      inotifytools_get_stat_by_wd g wd event >>= λ (_, g'). some (g', s)
  step g s (get_stat_total event) = some ((inotifytools_get_stat_total g event).1, s)
  step g s (get_stat_by_filename name event) =
      inotifytools_get_stat_by_filename g name event >>= λ (_, g'). some (g', s)
  step g s initialize_stats = some (inotifytools_initialize_stats g, s)
  step g s initialize = let (_, g', s') = inotifytools_initialize k g s in some (g', s')
  step g s (init fanotify watch_filesystem verbose) =
      let (_, g', s') = inotifytools_init k g fanotify watch_filesystem verbose s in some (g', s')
  step g s cleanup = some (inotifytools_cleanup g, s)
  step g s get_num_watches = some ((inotifytools_get_num_watches g).1, s)
  step g s (print file event fmt) =
      inotifytools_fprintf k strftime evstr g file event fmt s >>= λ (_, _, g', s'). some (g', s')
  step g s (snprintf out size event fmt) =
      inotifytools_snprintf k strftime evstr g out size event fmt s >>= λ (_, _, g', s').
      some (g', s')
  step g s (set_printf_timefmt fmt) = some (inotifytools_set_printf_timefmt g fmt, s)
  step g s clear_timefmt = some (inotifytools_clear_timefmt g, s)
  step g s get_max_user_watches =
      let (_, g', s') = inotifytools_get_max_user_watches k files g s in some (g', s')
  step g s get_max_user_instances =
      let (_, g', s') = inotifytools_get_max_user_instances k files g s in some (g', s')
  step g s get_max_queued_events =
      let (_, g', s') = inotifytools_get_max_queued_events k files g s in some (g', s')

  unfoldable pub run : Global → W → List Call → Option (Global × W)
  run g s [] = some (g, s)
  run g s (c ∷ cs) = step g s c >>= λ (g', s'). run g' s' cs
