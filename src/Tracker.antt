-- ===== src/Tracker.antt =====
-- src/common.rs: `watch_list`, which sets up the watches of a command line, and `MoveTracker`,
-- which keeps recursive watches current. `out` is the list of the messages, in order.
pub mod Listed
pub mod Moves
use inotify_tools.Prelude.{
  ℕ, Bytes, Bool, true, false, not, ◌&&◌, ◌||◌, Option, none, some, List, [], ◌∷◌, ◌++◌, ◌==◌,
  if◌then◌else◌, is_empty, is_none, unwrap_or,
}
use inotify_tools.Prelude.Word.{minus_one, has}
use inotify_tools.Prelude.Buffer.{codes}
use inotify_tools.Consts.{in_moved_to, in_moved_from, in_create}
use inotify_tools.Handle.{Inotifytools, ◌>>=◌}
use inotify_tools.Kernel.{Kernel}
use inotify_tools.Registry.{wd_from_filename, replace_filename}
use inotify_tools.Removal.{remove_watch_by_filename}
use inotify_tools.Setup.{
  isdir, watch_file, watch_files, watch_recursively, watch_recursively_with_exclude,
}
use inotify_tools.Paths.{FileList}
use inotify_tools.Names.{Event, dirpath_from_event}

abbrev pub enospc : ℕ
enospc = 28

-- `struct MoveTracker` is its field `moved_from`, passed and returned beside the handle.
-- What a call of `handle` leaves: the tracker, the handle, the messages and the system.
pub record Outcome (W : Type 0) : Type 0 where
  pub moved_from : Option Bytes
  pub lib : Inotifytools
  pub out : List Bytes
  pub sys : W

-- the messages of a file that cannot be watched
unfoldable pub failure : (ℕ → Bytes) → Bytes → Bool → Bytes → ℕ → List Bytes
failure strerror fail_verb fanotify this_file error =
    let backend = if fanotify then codes "fanotify" else codes "inotify" in
    let resource = if fanotify then codes "marks" else codes "watches" in
    if error == enospc
    then (codes "Failed to watch "
        ++ (this_file
            ++ (codes "; upper limit on "
                ++ (backend ++ (codes " " ++ (resource ++ codes " reached!\n"))))))
      ∷ ((codes "Please increase the amount of "
            ++ (backend
                ++ (codes " "
                    ++ (resource
                        ++ (codes " allowed per user via `/proc/sys/fs/"
                            ++ (backend ++ (codes "/max_user_" ++ (resource ++ codes "'.\n"))))))))
          ∷ [])
    else (fail_verb ++ (this_file ++ (codes ": " ++ (strerror error ++ codes "\n")))) ∷ []

module _ {W : Type 0} (k : Kernel W) (strerror : ℕ → Bytes) where
  -- the directory of a pending MOVED_FROM is unwatched, if the event is no MOVED_TO
  unfoldable pub abandon : Option Bytes → Inotifytools → Event → W → Option (Outcome W)
  abandon none l event s = some (record { moved_from = none; lib = l; out = []; sys = s })
  abandon (some mf) l event s =
      if has event.mask in_moved_to
      then some (record { moved_from = some mf; lib = l; out = []; sys = s })
      else (remove_watch_by_filename k l mf s >>= λ (ok, l', s'). some (record {
        moved_from = none;
        lib = l';
        out =
            if ok
            then []
            else (codes "Error removing watch on "
                ++ (mf ++ (codes ": " ++ (strerror l'.error ++ codes "\n"))))
              ∷ [];
        sys = s';
      }))

  -- a new file: if it is a directory, it is watched
  unfoldable pub watch_new : ℕ → Outcome W → Event → ℕ → Bool → Option (Outcome W)
  watch_new fuel o event events announce = dirpath_from_event k o.lib event o.sys >>= λ (path, s).
      let new_file = unwrap_or path [] in
      let (is_dir, s') = isdir k new_file s in
      let told : List Bytes =
        if announce
        then (codes "Watching new directory " ++ (new_file ++ codes "\n")) ∷ []
        else [] in
      if is_empty new_file
      then some (record o { sys = s })
      else if not is_dir
      then some (record o { sys = s' })
      else (watch_recursively k fuel o.lib new_file events s' >>= λ (ok, l, s''). some (record {
        moved_from = o.moved_from;
        lib = l;
        out =
            o.out
            ++ (told
                ++ (if ok
                    then []
                    else (codes "Couldn't watch new directory "
                        ++ (new_file ++ (codes ": " ++ (strerror l.error ++ codes "\n"))))
                      ∷ []));
        sys = s'';
      }))

  -- the start of a move of a directory, kept if the directory is watched
  unfoldable pub depart : Outcome W → Event → Option (Outcome W)
  unfolding wd_from_filename
  depart o event = dirpath_from_event k o.lib event o.sys >>= λ (path, s).
      wd_from_filename o.lib (unwrap_or path []) >>= λ wd.
      some (record o { moved_from = if wd == minus_one then none else path; sys = s })

  -- the end of a move
  unfoldable pub arrive : Outcome W → Event → Option (Outcome W)
  arrive o event = elim o.moved_from [
    | none ↦ some o
    | some mf ↦ dirpath_from_event k o.lib event o.sys >>= λ (path, s). some (record o {
      moved_from = none;
      lib = replace_filename o.lib mf (unwrap_or path []);
      sys = s;
    })
  ]

  unfoldable pub handle :
      ℕ → Option Bytes → Inotifytools → Event → Bool → ℕ → Bool → W → Option (Outcome W)
  unfolding abandon watch_new depart arrive
  handle fuel moved_from l event recursive events announce s = abandon moved_from l event s >>= λ o.
      if not recursive
      then some o
      else if has event.mask in_create || (is_none o.moved_from && has event.mask in_moved_to)
      then watch_new fuel o event events announce
      else if has event.mask in_moved_from
      then depart o event
      else if has event.mask in_moved_to
      then arrive o event
      else some o

  -- one file of the list, in a way that is not for a whole filesystem
  unfoldable pub watch_one :
      ℕ → Inotifytools → Bytes → ℕ → Bool → List Bytes → W → Option (Bool × Inotifytools × W)
  watch_one fuel l this_file events recursive excludes s =
      if recursive
      then watch_recursively_with_exclude k fuel l this_file events excludes s
      else some (watch_file k l this_file events s)

  -- The loop of `watch_list` over the files that are left, where no filesystem is watched; `before`
  -- and `after` are the messages of those callbacks.
  unfoldable pub watch_rest :
      ℕ
      → Inotifytools
      → List Bytes
      → List Bytes
      → ℕ
      → Bool
      → Bool
      → Bytes
      → (Bytes → List Bytes)
      → (Bytes → List Bytes)
      → W
      → Option (Bool × List Bytes × Inotifytools × W)
  unfolding failure watch_one
  watch_rest fuel l [] excludes events recursive fanotify fail_verb before after s =
      some (true, [], l, s)
  watch_rest fuel l (this_file ∷ files) excludes events recursive fanotify fail_verb before after
        s =
      watch_one fuel l this_file events recursive excludes s >>= λ (ok, l', s').
      let rest =
        watch_rest fuel l' files excludes events recursive fanotify fail_verb before after s' in
      if ok
      then (rest >>= λ (all_ok, out, l'', s'').
          some (all_ok, before this_file ++ (after this_file ++ out), l'', s''))
      else some (
        false,
        before this_file ++ failure strerror fail_verb fanotify this_file l'.error,
        l',
        s',
      )

  unfoldable pub watch_list :
      ℕ
      → Inotifytools
      → FileList
      → ℕ
      → Bool
      → Bool
      → Bool
      → Bytes
      → (Bytes → List Bytes)
      → (Bytes → List Bytes)
      → W
      → Option (Bool × List Bytes × Inotifytools × W)
  unfolding watch_rest
  watch_list fuel l list events recursive filesystem fanotify fail_verb before after s =
      if not filesystem
      then watch_rest fuel l list.watch_files list.exclude_files events recursive fanotify fail_verb
          before after s
      else elim list.watch_files [
        | [] ↦ some (true, [], l, s)
        | this_file ∷ files ↦
            let (ok, l', s') = watch_files k l (this_file ∷ files) events s in
            some (
              ok,
              before this_file
                  ++ (if ok
                      then []
                      else (codes "Couldn't add filesystem watch "
                          ++ (this_file ++ (codes ": " ++ (strerror l'.error ++ codes "\n"))))
                        ∷ []),
              l',
              s',
            )
      ]
