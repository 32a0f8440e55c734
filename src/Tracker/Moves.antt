-- ===== src/Tracker/Moves.antt =====
-- Two events in a row at `MoveTracker`: the move of a directory within the watched trees, and out
-- of them.
use inotify_tools.Prelude.{
  ℕ, ◌≡◌, refl, Bytes, Bool, true, false, none, some, [], ◌∷◌, ◌++◌, ◌==◌, arith, if◌then◌else◌,
  is_empty, Bool-cases, inl, inr, ◌≢◌,
}
use inotify_tools.Prelude.Ord.{nat_ord, bytes_ord}
use inotify_tools.Prelude.Word.{is_neg, minus_one, has}
use inotify_tools.Prelude.Buffer.{codes}
use inotify_tools.BTreeMap.{get}
use inotify_tools.Consts.{in_isdir, in_create, in_moved_from, in_moved_to}
use inotify_tools.Handle.{Inotifytools, Watch, ◌>>=◌}
use inotify_tools.Kernel.{Kernel}
use inotify_tools.Paths.{slash}
use inotify_tools.Registry.{
  wd_from_filename, watch_from_filename, watch, replace_filename, unregister, destroy_watch,
}
use inotify_tools.Registry.Invariant.{Inv}
use inotify_tools.Registry.Replace.{renamed}
use inotify_tools.Removal.{remove_watch_by_filename, remove_watch, remove_inotify_watch}
use inotify_tools.Names.{Event, filename_from_wd, dirpath_from_event}
use inotify_tools.Names.Laws.{filename_from_wd-replace_filename}
use inotify_tools.Tracker.{handle, abandon, depart, arrive}

-- the path of a directory in a directory
abbrev pub below : Bytes → Bytes → Bytes
below dir name = dir ++ (name ++ (slash ∷ []))

below_some : (dir name : Bytes) → is_empty dir ≡ false → is_empty (below dir name) ≡ false
below_some [] name e = absurd (ground (arith, e))
below_some (x ∷ dir) name e = refl

is_some_bytes : (xs : Bytes) → is_empty xs ≡ false → xs ≢ []
is_some_bytes xs e = λ h. ground (arith, e, h)

module _ {W : Type 0} (k : Kernel W) where
  dirpath_lem :
      (l : Inotifytools) (ev : Event) (dir : Bytes) (s : W)
      → l.fanotify_mode ≡ false
      → filename_from_wd k l ev.wd s ≡ some (dir, s)
      → is_empty dir ≡ false
      → has ev.mask in_isdir ≡ true
      → dirpath_from_event k l ev s ≡ some (some (below dir ev.name), s)
  unfolding dirpath_from_event
  dirpath_lem l ev dir s inotify e some_dir d = ground (arith, inotify, e, some_dir, d)

  wd_from_filename_found :
      (l : Inotifytools) (name : Bytes) (id : ℕ) (w : Watch)
      → is_empty name ≡ false
      → get name l.by_filename ≡ some id
      → get id l.watches ≡ some w
      → wd_from_filename l name ≡ some w.wd
  unfolding wd_from_filename watch watch_from_filename
  wd_from_filename_found l name id w n e h = ground (arith, n, e, h)

  -- a MOVED_FROM event of a watched directory, and of nothing else
  pub record Leaves (l : Inotifytools) (ev : Event) (dir : Bytes) (id : ℕ) (w : Watch) (s : W)
      : Type 0 where
    pub inotify : l.fanotify_mode ≡ false
    pub of_dir : filename_from_wd k l ev.wd s ≡ some (dir, s)
    pub some_dir : is_empty dir ≡ false
    pub is_dir : has ev.mask in_isdir ≡ true
    pub moved : has ev.mask in_moved_from ≡ true
    pub no_create : has ev.mask in_create ≡ false
    pub no_moved_to : has ev.mask in_moved_to ≡ false
    pub named : get (below dir ev.name) l.by_filename ≡ some id
    pub live : get id l.watches ≡ some w
    pub real : w.wd == minus_one ≡ false

  module _ (strerror : ℕ → Bytes) (fuel events : ℕ) (announce : Bool) where
    depart_lem :
        (l : Inotifytools) (ev : Event) (dir : Bytes) (id : ℕ) (w : Watch) (s : W)
        → Leaves l ev dir id w s
        → handle k strerror fuel none l ev true events announce s
          ≡ some (record { moved_from = some (below dir ev.name); lib = l; out = []; sys = s })
    unfolding handle abandon depart
    depart_lem l ev dir id w s h =
        let path = below dir ev.name in
        let named = dirpath_lem l ev dir s h.inotify h.of_dir h.some_dir h.is_dir in
        let found =
          wd_from_filename_found l path id w (below_some dir ev.name h.some_dir) h.named h.live in
        ground (arith, named, found, h.real, h.moved, h.no_create, h.no_moved_to)

    -- In recursive mode, outside fanotify: an event that a watched directory is moved away from a
    -- watched directory, and one that a directory is moved to a watched directory, are handled
    -- without a message and without a call of the system. The handle is that of `replace_filename`
    -- from the path of the one to that of the other, nothing is pending, and every watch that was
    -- found by its descriptor and its name gives its events the name with that prefix replaced.
    pub move_lem :
        (l : Inotifytools) (ev ev' : Event) (dir dir' : Bytes) (id wd j : ℕ) (w v : Watch) (s : W)
        → Inv l
        → Leaves l ev dir id w s
        → filename_from_wd k l ev'.wd s ≡ some (dir', s)
        → is_empty dir' ≡ false
        → has ev'.mask in_isdir ≡ true
        → has ev'.mask in_moved_to ≡ true
        → has ev'.mask in_moved_from ≡ false
        → has ev'.mask in_create ≡ false
        → l.fanotify_mark_type ≡ 0
        → wd ≢ 0
        → get wd l.by_wd ≡ some j
        → get j l.watches ≡ some v
        → get v.filename l.by_filename ≡ some j
        → let from = below dir ev.name in
          let to = below dir' ev'.name in
          let l' = replace_filename l from to in
          ((handle k strerror fuel none l ev true events announce s >>= λ o.
          handle k strerror fuel o.moved_from o.lib ev' true events announce o.sys)
            ≡ some (record { moved_from = none; lib = l'; out = []; sys = s }))
          × (filename_from_wd k l' wd s ≡ some ((renamed from to v).filename, s))
    unfolding handle abandon arrive
    move_lem l ev ev' dir dir' id wd j w v s inv h of_dir some_dir is_dir moved_to no_moved_from
          no_create type pos by_wd live by_name =
        let named = dirpath_lem l ev' dir' s h.inotify of_dir some_dir is_dir in
        (
          rw (depart_lem l ev dir id w s h)
              (ground (arith, named, moved_to, no_moved_from, no_create)),
          filename_from_wd-replace_filename k l _ _ wd j v s inv
              (is_some_bytes _ (below_some dir ev.name h.some_dir))
              (is_some_bytes _ (below_some dir' ev'.name some_dir)) pos type by_wd live by_name,
        )

    -- In recursive mode, outside fanotify: an event that a watched directory is moved away from a
    -- watched directory, and then one of another kind than a move or a creation: the kernel is asked
    -- to remove the directory's watch. If it agrees, the watch and its entries in the indexes are
    -- gone, without a message; otherwise only the error is set, and there is a message. Nothing is
    -- pending either way.
    pub unwatch_lem :
        (l : Inotifytools) (ev ev' : Event) (dir : Bytes) (id : ℕ) (w : Watch) (s : W)
        → Leaves l ev dir id w s
        → w.fid ≡ none
        → has ev'.mask in_moved_to ≡ false
        → has ev'.mask in_moved_from ≡ false
        → has ev'.mask in_create ≡ false
        → let path = below dir ev.name in
          let (status, s') = k.inotify_rm_watch l.fd w.wd s in
          (handle k strerror fuel none l ev true events announce s >>= λ o.
          handle k strerror fuel o.moved_from o.lib ev' true events announce o.sys)
          ≡ some (
              if is_neg status
              then record {
                moved_from = none;
                lib = record l { error = status };
                out =
                    (codes "Error removing watch on "
                      ++ (path ++ (codes ": " ++ (strerror status ++ codes "\n"))))
                    ∷ [];
                sys = s';
              }
              else record {
                moved_from = none;
                lib = unregister (record l { error = 0 }) id w;
                out = [];
                sys = s';
              })
    unfolding handle abandon remove_watch_by_filename watch_from_filename remove_watch
        remove_inotify_watch destroy_watch watch
    unwatch_lem l ev ev' dir id w s h no_fid no_moved_to no_moved_from no_create =
        rw (depart_lem l ev dir id w s h)
          (elim (Bool-cases (is_neg (k.inotify_rm_watch l.fd w.wd s).0)) [
            | inl e ↦
                ground (arith, e, h.named, h.live, no_fid, no_moved_to, no_moved_from, no_create)
            | inr e ↦
                ground (arith, e, h.named, h.live, no_fid, no_moved_to, no_moved_from, no_create)
          ])
