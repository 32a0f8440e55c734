-- ===== src/Api/Registry.antt =====
-- libinotifytools/src/ffi.rs: the functions on names, watches that are removed, counters, and the
-- life of the handle. None is a panic of the library.
use inotify_tools.Prelude.{ℕ, Bytes, Bool, false, not, Option, none, some, ◌==◌}
use inotify_tools.Api.{Pointer, opt_bytes, bytes, Global, lib, set_lib, as_int}
use inotify_tools.Counters.{initialize_stats, get_stat_by_wd, get_stat_total, get_stat_by_filename}
use inotify_tools.Filters.{ignore_events_by_regex, ignore_events_by_inverted_regex}
use inotify_tools.Format.{set_printf_timefmt, clear_timefmt}
use inotify_tools.Handle.{Inotifytools, ◌>>=◌}
use inotify_tools.Kernel.{Kernel}
use inotify_tools.Prelude.Buffer.{codes}
use inotify_tools.Prelude.{unwrap_or}
use inotify_tools.Registry.{
  set_filename_by_wd, set_filename_by_filename, replace_filename, wd_from_filename, get_num_watches,
}
use inotify_tools.Removal.{init, cleanup, remove_watch_by_wd, remove_watch_by_filename}

unfoldable pub inotifytools_set_filename_by_wd : Global → ℕ → Pointer → Option Global
inotifytools_set_filename_by_wd g wd none = some g
inotifytools_set_filename_by_wd g wd (some name) =
    set_filename_by_wd (lib g).reader.lib wd (bytes (some name)) >>= λ l. some (set_lib (lib g) l)

unfoldable pub inotifytools_set_filename_by_filename : Global → Pointer → Pointer → Option Global
inotifytools_set_filename_by_filename g none newname = some g
inotifytools_set_filename_by_filename g (some oldname) none = some g
inotifytools_set_filename_by_filename g (some oldname) (some newname) =
    set_filename_by_filename (lib g).reader.lib (bytes (some oldname)) (bytes (some newname))
    >>= λ l. some (set_lib (lib g) l)

unfoldable pub inotifytools_replace_filename : Global → Pointer → Pointer → Global
inotifytools_replace_filename g none newname = g
inotifytools_replace_filename g (some oldname) none = g
inotifytools_replace_filename g (some oldname) (some newname) =
    set_lib (lib g)
      (replace_filename (lib g).reader.lib (bytes (some oldname)) (bytes (some newname)))

unfoldable pub inotifytools_wd_from_filename : Global → Pointer → Option (ℕ × Global)
inotifytools_wd_from_filename g filename =
    wd_from_filename (lib g).reader.lib (bytes filename) >>= λ wd. some (wd, some (lib g))

unfoldable pub inotifytools_error : Global → ℕ × Global
inotifytools_error g = ((lib g).reader.lib.error, some (lib g))

unfoldable pub inotifytools_get_stat_by_wd : Global → ℕ → ℕ → Option (ℕ × Global)
inotifytools_get_stat_by_wd g wd event =
    get_stat_by_wd (lib g).reader.lib wd event >>= λ n. some (n, some (lib g))

unfoldable pub inotifytools_get_stat_total : Global → ℕ → ℕ × Global
inotifytools_get_stat_total g event = (get_stat_total (lib g).reader.lib event, some (lib g))

unfoldable pub inotifytools_get_stat_by_filename : Global → Pointer → ℕ → Option (ℕ × Global)
inotifytools_get_stat_by_filename g filename event =
    get_stat_by_filename (lib g).reader.lib (bytes filename) event >>= λ n. some (n, some (lib g))

unfoldable pub inotifytools_initialize_stats : Global → Global
inotifytools_initialize_stats g = set_lib (lib g) (initialize_stats (lib g).reader.lib)

unfoldable pub inotifytools_cleanup : Global → Global
inotifytools_cleanup g = set_lib (lib g) (cleanup (lib g).reader.lib)

unfoldable pub inotifytools_get_num_watches : Global → ℕ × Global
inotifytools_get_num_watches g = (get_num_watches (lib g).reader.lib, some (lib g))

-- NULL is rendered as asprintf(3) would do
unfoldable pub inotifytools_set_printf_timefmt : Global → Pointer → Global
inotifytools_set_printf_timefmt g fmt =
    set_lib (lib g)
      (set_printf_timefmt (lib g).reader.lib (unwrap_or (opt_bytes fmt) (codes "(null)")))

unfoldable pub inotifytools_clear_timefmt : Global → Global
inotifytools_clear_timefmt g = set_lib (lib g) (clear_timefmt (lib g).reader.lib)

-- `compiles pattern flags` is whether regcomp(3) returns 0
module _ (compiles : Bytes → ℕ → Bool) where
  unfoldable pub inotifytools_ignore_events_by_regex : Global → Pointer → ℕ → ℕ → ℕ × Global
  inotifytools_ignore_events_by_regex g pattern flags recursive =
      let (ok, l) =
        ignore_events_by_regex compiles (lib g).reader.lib (opt_bytes pattern) flags recursive in
      (as_int ok, set_lib (lib g) l)

  unfoldable pub inotifytools_ignore_events_by_inverted_regex :
      Global → Pointer → ℕ → ℕ → ℕ × Global
  inotifytools_ignore_events_by_inverted_regex g pattern flags recursive =
      let (ok, l) =
        ignore_events_by_inverted_regex compiles (lib g).reader.lib (opt_bytes pattern) flags
          recursive in
      (as_int ok, set_lib (lib g) l)

module _ {W : Type 0} (k : Kernel W) where
  unfoldable pub inotifytools_remove_watch_by_filename :
      Global → Pointer → W → Option (ℕ × Global × W)
  inotifytools_remove_watch_by_filename g filename s =
      remove_watch_by_filename k (lib g).reader.lib (bytes filename) s >>= λ (ok, l, s').
      some (as_int ok, set_lib (lib g) l, s')

  unfoldable pub inotifytools_remove_watch_by_wd : Global → ℕ → W → Option (ℕ × Global × W)
  inotifytools_remove_watch_by_wd g wd s =
      remove_watch_by_wd k (lib g).reader.lib wd s >>= λ (ok, l, s').
      some (as_int ok, set_lib (lib g) l, s')

  unfoldable pub inotifytools_init : Global → ℕ → ℕ → ℕ → W → ℕ × Global × W
  inotifytools_init g fanotify watch_filesystem verbose s =
      let (ok, l, s') =
        init k (lib g).reader.lib (not (fanotify == 0)) (not (watch_filesystem == 0)) verbose s in
      (as_int ok, set_lib (lib g) l, s')

  -- the method `initialize`, and its function
  unfoldable pub initialize : Inotifytools → W → Bool × Inotifytools × W
  initialize l s = init k l false false 0 s

  unfoldable pub inotifytools_initialize : Global → W → ℕ × Global × W
  unfolding initialize
  inotifytools_initialize g s =
      let (ok, l, s') = initialize (lib g).reader.lib s in (as_int ok, set_lib (lib g) l, s')
