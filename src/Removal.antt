-- ===== src/Removal.antt =====
-- libinotifytools/src/inotify.rs: `init`, `cleanup`, and the removal of watches.
use inotify_tools.Prelude.{
  ℕ, Bytes, Bool, true, false, Option, none, some, List, [], ◌∷◌, if◌then◌else◌, is_some,
}
use inotify_tools.Prelude.Word.{is_neg}
use inotify_tools.BTreeMap.{BTreeMap}
use inotify_tools.Fid.{fan_mark_filesystem, fan_mark_inode}
use inotify_tools.Handle.{Inotifytools, Watch, ◌>>=◌}
use inotify_tools.Kernel.{Kernel}
use inotify_tools.Registry.{watch, close_watch, destroy_watch, watch_from_wd, watch_from_filename}

-- `watches.clear()`, which drops every watch
unfoldable pub close_all : BTreeMap ℕ Watch → List ℕ → List ℕ
unfolding close_watch
close_all [] closed = closed
close_all ((id, w) ∷ m) closed = close_all m (close_watch w closed)

unfoldable pub cleanup : Inotifytools → Inotifytools
unfolding close_all
cleanup l =
    if l.initialized
    then record l {
      initialized = false;
      collect_stats = false;
      error = 0;
      timefmt = none;
      regex = none;
      by_wd = [];
      by_fid = [];
      by_filename = [];
      watches = [];
      closed = close_all l.watches (l.fd ∷ l.closed);
    }
    else l

module _ {W : Type 0} (k : Kernel W) where
  -- the two ways to open the queue, in `init`
  unfoldable pub open_queue : Inotifytools → Bool → Bool → W → Inotifytools × W
  open_queue l true watch_filesystem s =
      let (fd, s') = k.fanotify_init 0xe00 s in
      (
        record l {
          self_pid = k.getpid s;
          fanotify_mode = true;
          fanotify_mark_type = if watch_filesystem then fan_mark_filesystem else fan_mark_inode;
          fd = fd;
        },
        s',
      )
  open_queue l false watch_filesystem s =
      let (fd, s') = k.inotify_init s in (record l { fanotify_mode = false; fd = fd }, s')

  unfoldable pub init : Inotifytools → Bool → Bool → ℕ → W → Bool × Inotifytools × W
  unfolding open_queue
  init l fanotify watch_filesystem verbose s =
      if l.initialized
      then (true, l, s)
      else let (l', s') =
          open_queue (record l { error = 0; verbosity = verbose }) fanotify watch_filesystem s in
        if is_neg l'.fd then (false, record l' { error = k.errno s' }, s') else (
          true,
          record l' {
            collect_stats = false;
            initialized = true;
            by_wd = [];
            by_fid = [];
            by_filename = [];
            timefmt = none;
          },
          s',
        )

  unfoldable pub remove_inotify_watch : Inotifytools → ℕ → W → Option (Bool × Inotifytools × W)
  unfolding watch
  remove_inotify_watch l id s = do
    w ← watch l id
    if is_some w.fid
        then some (false, record l { error = 0 }, s)
        else let (status, s') = k.inotify_rm_watch l.fd w.wd s in
          if is_neg status
          then some (false, record l { error = status }, s')
          else some (true, record l { error = 0 }, s')

  unfoldable pub remove_watch : Inotifytools → Option ℕ → W → Option (Bool × Inotifytools × W)
  unfolding remove_inotify_watch destroy_watch
  remove_watch l none s = some (true, l, s)
  remove_watch l (some id) s = do
    (ok, l', s') ← remove_inotify_watch l id s
    if ok then (do l'' ← destroy_watch l' id; some (true, l'', s')) else some (false, l', s')

  unfoldable pub remove_watch_by_wd : Inotifytools → ℕ → W → Option (Bool × Inotifytools × W)
  unfolding remove_watch watch_from_wd
  remove_watch_by_wd l wd s = remove_watch l (watch_from_wd l wd) s

  unfoldable pub remove_watch_by_filename :
      Inotifytools → Bytes → W → Option (Bool × Inotifytools × W)
  unfolding remove_watch watch_from_filename
  remove_watch_by_filename l filename s = remove_watch l (watch_from_filename l filename) s
