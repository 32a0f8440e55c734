-- ===== src/Session.antt =====
-- The calls of the library's API that change the registry or the counters, in any order.
pub mod Keeps
pub mod Descriptors
pub mod Reach
pub mod Closed
use inotify_tools.Prelude.{ℕ, Bytes, Bool, Option, none, some, List, [], ◌∷◌, ◌+◌, ◌*◌, length}
use inotify_tools.Handle.{Inotifytools, ◌>>=◌}
use inotify_tools.Kernel.{Kernel}
use inotify_tools.Registry.{
  create_watch, set_filename_by_wd, set_filename_by_filename, replace_filename,
}
use inotify_tools.Removal.{init, cleanup, remove_watch_by_wd, remove_watch_by_filename}
use inotify_tools.Setup.{watch_files}
use inotify_tools.Counters.{record_stats, initialize_stats}

pub data Call : Type 0 where
  opens : Bool → Bool → ℕ → Call
  cleans_up : Call
  creates : ℕ → Option Bytes → Bytes → ℕ → Call
  removes_wd : ℕ → Call
  removes_name : Bytes → Call
  renames_wd : ℕ → Bytes → Call
  renames_name : Bytes → Bytes → Call
  replaces : Bytes → Bytes → Call
  counts : ℕ → ℕ → Call
  resets : Call
  watches : List Bytes → ℕ → Call

-- how many ids a call may give out, and a sequence of calls
abbrev pub cost : Call → ℕ
cost (watches filenames events) = 1 + 2 * length filenames
cost _ = 1

abbrev pub costs : List Call → ℕ
costs [] = 0
costs (c ∷ cs) = cost c + costs cs

module _ {W : Type 0} (k : Kernel W) where
  -- `none` is a panic
  unfoldable pub step : Inotifytools → W → Call → Option (Inotifytools × W)
  step l s (opens fanotify watch_filesystem verbose) =
      let (_, l', s') = init k l fanotify watch_filesystem verbose s in some (l', s')
  step l s cleans_up = some (cleanup l, s)
  step l s (creates wd fid filename dirf) = some ((create_watch l wd fid filename dirf).0, s)
  step l s (removes_wd wd) = do (_, l', s') ← remove_watch_by_wd k l wd s; some (l', s')
  step l s (removes_name name) = do (_, l', s') ← remove_watch_by_filename k l name s; some (l', s')
  step l s (renames_wd wd name) = do l' ← set_filename_by_wd l wd name; some (l', s)
  step l s (renames_name old name) = do l' ← set_filename_by_filename l old name; some (l', s)
  step l s (replaces old name) = some (replace_filename l old name, s)
  step l s (counts wd mask) = some (record_stats l wd mask, s)
  step l s resets = some (initialize_stats l, s)
  step l s (watches filenames events) =
      let (_, l', s') = watch_files k l filenames events s in some (l', s')

  unfoldable pub run : Inotifytools → W → List Call → Option (Inotifytools × W)
  run l s [] = some (l, s)
  run l s (c ∷ cs) = do (l', s') ← step l s c; run l' s' cs
