-- ===== src/Api/Watching.antt =====
-- libinotifytools/src/ffi.rs: the functions that set up watches, read events, and tell the limits.
-- None is a panic of the library, or that the fuel ran out.
use inotify_tools.Prelude.{
  ℕ, Bytes, Bool, Option, none, some, List, [], ◌∷◌, ◌-◌, ◌==◌, if◌then◌else◌,
}
use inotify_tools.Prelude.Word.{u64_mod}
use inotify_tools.Api.{Pointer, bytes, str_list, Global, lib, set_lib, as_int}
use inotify_tools.Handle.{Regex, ◌>>=◌}
use inotify_tools.Kernel.{Kernel}
use inotify_tools.Limits.{
  Files, get_max_queued_events, get_max_user_instances, get_max_user_watches,
}
use inotify_tools.Names.{Event}
use inotify_tools.Reader.{current_event}
use inotify_tools.Reader.Next.{next_events_raw}
use inotify_tools.Setup.{watch_files, watch_recursively_with_exclude}

module _ {W : Type 0} (k : Kernel W) where
  unfoldable pub inotifytools_watch_files : Global → Option (List Pointer) → ℕ → W → ℕ × Global × W
  inotifytools_watch_files g filenames events s =
      let (ok, l, s') = watch_files k (lib g).reader.lib (str_list filenames) events s in
      (as_int ok, set_lib (lib g) l, s')

  unfoldable pub inotifytools_watch_file : Global → Pointer → ℕ → W → ℕ × Global × W
  inotifytools_watch_file g filename events s =
      inotifytools_watch_files g (some (filename ∷ none ∷ [])) events s

  unfoldable pub inotifytools_watch_recursively_with_exclude :
      ℕ → Global → Pointer → ℕ → Option (List Pointer) → W → Option (ℕ × Global × W)
  inotifytools_watch_recursively_with_exclude fuel g none events exclude_list s =
      watch_recursively_with_exclude k fuel (lib g).reader.lib [] events [] s >>= λ (ok, l, s').
      some (0, set_lib (lib g) l, s')
  inotifytools_watch_recursively_with_exclude fuel g (some path) events exclude_list s =
      watch_recursively_with_exclude k fuel (lib g).reader.lib (bytes (some path)) events
        (str_list exclude_list) s
      >>= λ (ok, l, s'). some (as_int ok, set_lib (lib g) l, s')

  unfoldable pub inotifytools_watch_recursively :
      ℕ → Global → Pointer → ℕ → W → Option (ℕ × Global × W)
  inotifytools_watch_recursively fuel g path events s =
      inotifytools_watch_recursively_with_exclude fuel g path events none s

module _ {W : Type 0} (k : Kernel W) (regexec : Regex → Bytes → Bool) where
  -- the event that the pointer leads to, none for NULL
  unfoldable pub inotifytools_next_events :
      ℕ → Global → ℕ → ℕ → W → Option (Option Event × Global × W)
  inotifytools_next_events fuel g timeout num_events s =
      next_events_raw k regexec fuel (lib g).reader timeout num_events s >>= λ (ok, r, s').
      some (if ok then some (current_event r) else none, some (record (lib g) { reader = r }), s')

  -- the timeout 0 waits as long as -1
  unfoldable pub inotifytools_next_event : ℕ → Global → ℕ → W → Option (Option Event × Global × W)
  inotifytools_next_event fuel g timeout s =
      inotifytools_next_events fuel g (if timeout == 0 then u64_mod - 1 else timeout) 1 s

module _ {W : Type 0} (k : Kernel W) (files : Files W) where
  unfoldable pub inotifytools_get_max_user_watches : Global → W → ℕ × Global × W
  inotifytools_get_max_user_watches g s =
      let (n, l, s') = get_max_user_watches k files (lib g).reader.lib s in
      (n, set_lib (lib g) l, s')

  unfoldable pub inotifytools_get_max_user_instances : Global → W → ℕ × Global × W
  inotifytools_get_max_user_instances g s =
      let (n, l, s') = get_max_user_instances k files (lib g).reader.lib s in
      (n, set_lib (lib g) l, s')

  unfoldable pub inotifytools_get_max_queued_events : Global → W → ℕ × Global × W
  inotifytools_get_max_queued_events g s =
      let (n, l, s') = get_max_queued_events k files (lib g).reader.lib s in
      (n, set_lib (lib g) l, s')
