-- ===== src/Setup.antt =====
-- libinotifytools/src/inotify.rs: the set-up of watches by path, `watch_file`, `watch_files`,
-- `fanotify_encode_fid`, `watch_recursively` and `watch_recursively_with_exclude`, and `isdir`.
-- The names of a directory are those that readdir(3) returns from the opening on.
pub mod Tree
pub mod Slashes
pub mod Walked
pub mod Entered
pub mod Recursive
pub mod Created
pub mod Keeps
use inotify_tools.Prelude.{
  ℕ, zero, suc, ◌+◌, ◌-◌, Bytes, Bool, true, false, not, ◌&&◌, ◌||◌, Option, none, some, List, [],
  ◌∷◌, ◌++◌, ◌==◌, ltb, if◌then◌else◌, length, take, replicate, last?, eqb, until_nul, is_some,
  unwrap_or, bit_and, bit_or,
}
use inotify_tools.Prelude.Word.{is_neg, minus_one, u32_mod, sign_extend}
use inotify_tools.Prelude.Buffer.{write_at}
use inotify_tools.Consts.{in_dont_follow}
use inotify_tools.Fid.{
  fan_mark_add, fan_mark_dont_follow, fan_event_on_child, fid_hdr, handle_off, max_fid_len,
  info_type_fid, info_type_dfid, set_info_type, set_hdr_len, fsid_key, handle_bytes,
}
use inotify_tools.Handle.{Inotifytools}
use inotify_tools.Kernel.{Kernel}
use inotify_tools.Registry.{create_watch, watch_from_fid}
use inotify_tools.Paths.{slash, dot, is_excluded}

-- the errors that the library tells apart
abbrev pub enoent : ℕ
enoent = 2

abbrev pub eacces : ℕ
eacces = 13

abbrev pub enotdir : ℕ
enotdir = 20

abbrev pub eloop : ℕ
eloop = 40

-- `path.last() == Some(&b'/')`
unfoldable pub ends_in_slash : Bytes → Bool
ends_in_slash path = elim (last? path) [ none ↦ false | some c ↦ c == slash ]

-- `cat!(path, "/")`, unless the path ends in one
unfoldable pub as_directory : Bytes → Bytes
unfolding ends_in_slash
as_directory path = if ends_in_slash path then path else path ++ (slash ∷ [])

-- the errors of a subdirectory for which `watch_recursively_with_exclude` goes on
unfoldable pub tolerated : ℕ → Bool
tolerated error = error == eacces || error == enoent || error == eloop

module _ {W : Type 0} (k : Kernel W) where
  unfoldable pub isdir : Bytes → W → Bool × W
  isdir path s = let (r, s') = k.lstat (until_nul path) s in (unwrap_or r false, s')

  -- Registers the descriptor of a mount under the fid of its filesystem, if the path is a
  -- directory (`dirname`) and the fid `f`, which has no handle yet, is not found.
  unfoldable pub add_mount : Inotifytools → Bytes → Option Bytes → W → Option Inotifytools × W
  add_mount l f none s = (some l, s)
  add_mount l f (some d) s =
      if is_some (watch_from_fid l f)
      then (some l, s)
      else let (mntid, s') = k.open_readonly (until_nul d) s in
        if is_neg mntid
        then (none, s')
        else (some (create_watch l 0 (some (fsid_key f)) (take (length d - 1) d) mntid).0, s')

  -- The fid with its handle, and the directory's descriptor.
  unfoldable pub encode_handle : Bytes → Bytes → Option Bytes → W → Option (Bytes × ℕ) × W
  encode_handle f cpath dirname s =
      let (handle, s') = k.name_to_handle_at cpath s in
      elim handle [
        | none ↦ (none, s')
        | some h ↦
            let hb = handle_bytes (replicate handle_off 0 ++ h) in
            let f' =
              set_hdr_len
                (set_info_type (write_at f handle_off (take (8 + hb) h))
                  (if is_some dirname then info_type_dfid else info_type_fid))
                (fid_hdr + hb) in
            if ltb max_fid_len hb then (none, s') else elim dirname [
              | none ↦ (some (f', 0), s')
              | some d ↦
                  let (dirf, s'') = k.open_path (until_nul d) s' in
                  if is_neg dirf then (none, s'') else (some (f', dirf), s'')
            ]
      ]

  unfoldable pub fanotify_encode_fid :
      Inotifytools → Bytes → Option Bytes → W → Option (Bytes × ℕ) × Inotifytools × W
  unfolding add_mount encode_handle
  fanotify_encode_fid l cpath dirname s =
      let (fsid, s') = k.statfs cpath s in
      elim fsid [
        | none ↦ (none, l, s')
        | some v ↦
            let f = write_at (replicate (fid_hdr + max_fid_len) 0) 4 (take 8 v) in
            let (mounted, s'') = add_mount l f dirname s' in
            elim mounted [
              | none ↦ (none, l, s'')
              | some l' ↦ let (fid, s''') = encode_handle f cpath dirname s'' in (fid, l', s''')
            ]
      ]

  -- What `watch_files` asks the kernel for; the events are those for the files that follow.
  unfoldable pub add_kernel_watch : Inotifytools → Bytes → ℕ → W → ℕ × ℕ × W
  add_kernel_watch l fname events s =
      if not l.fanotify_mode
      then (let (wd, s') = k.inotify_add_watch l.fd fname events s in (wd, events, s'))
      else let stays = bit_and events in_dont_follow == 0 in
        let events' = if stays then events else bit_and events (u32_mod - 1 - in_dont_follow) in
        let flags = bit_or fan_mark_add l.fanotify_mark_type in
        let flags' = if stays then flags else bit_or flags fan_mark_dont_follow in
        let (wd, s') =
          k.fanotify_mark l.fd flags' (sign_extend (bit_or events' fan_event_on_child)) fname s in
        (wd, events', s')

  -- what `watch_files` does with the descriptor
  unfoldable pub add_watch : Inotifytools → Bytes → ℕ → W → Bool × Inotifytools × W
  unfolding isdir as_directory fanotify_encode_fid
  add_watch l fname wd s =
      let (is_dir, s') = isdir fname s in
      let filename = if is_dir then as_directory fname else fname in
      let dirname : Option Bytes = if is_dir then some filename else none in
      if not (wd == 0)
      then (true, (create_watch l wd none filename 0).0, s')
      else let (encoded, l', s'') = fanotify_encode_fid l fname dirname s' in
        elim encoded [
          | none ↦ (false, l', s'')
          | some (fid, dirf) ↦ (true, (create_watch l' wd (some fid) filename dirf).0, s'')
        ]

  -- the loop of `watch_files`
  unfoldable pub watch_each : Inotifytools → List Bytes → ℕ → W → Bool × Inotifytools × W
  unfolding add_kernel_watch add_watch
  watch_each l [] events s = (true, l, s)
  watch_each l (filename ∷ filenames) events s =
      let fname = until_nul filename in
      let (wd, events', s') = add_kernel_watch l fname events s in
      let (ok, l', s'') = add_watch l fname wd s' in
      let rest = watch_each l' filenames events' s'' in
      if is_neg wd
      then (false, (if wd == minus_one then record l { error = k.errno s' } else l), s')
      else if ok
      then rest
      else (false, l', s'')

  unfoldable pub watch_files : Inotifytools → List Bytes → ℕ → W → Bool × Inotifytools × W
  unfolding watch_each
  watch_files l filenames events s = watch_each (record l { error = 0 }) filenames events s

  unfoldable pub watch_file : Inotifytools → Bytes → ℕ → W → Bool × Inotifytools × W
  unfolding watch_files
  watch_file l filename events s = watch_files l (filename ∷ []) events s

  -- The loop over the names of a directory; `visit` is the call for a subdirectory, and none is
  -- that it went deeper than was allowed for.
  unfoldable pub walk :
      (Inotifytools → Bytes → W → Option (Bool × Inotifytools × W))
      → Bytes
      → List Bytes
      → Inotifytools
      → List Bytes
      → W
      → Option (Bool × Inotifytools × W)
  unfolding tolerated
  walk visit my_path excludes l [] s = some (true, l, s)
  walk visit my_path excludes l (name ∷ names) s =
      let (st, s') = k.lstat (until_nul (my_path ++ name)) s in
      let e = k.errno s' in
      let next_file = my_path ++ (name ++ (slash ∷ [])) in
      let skipped = walk visit my_path excludes (record l { error = 0 }) names s in
      let passed = walk visit my_path excludes (record l { error = 0 }) names s' in
      if eqb name (dot ∷ []) || eqb name (dot ∷ dot ∷ []) then skipped else elim st [
        | none ↦ if e == eacces then passed else some (false, record l { error = e }, s')
        | some false ↦ passed
        | some true ↦
            if is_excluded next_file excludes then passed else elim (visit l next_file s') [
              | none ↦ none
              | some (status, l', s'') ↦
                  let rest = walk visit my_path excludes (record l' { error = 0 }) names s'' in
                  if not status && not (tolerated l'.error) then some (false, l', s'') else rest
            ]
      ]

  -- the body of `watch_recursively_with_exclude`
  unfoldable pub visit_directory :
      (Inotifytools → Bytes → W → Option (Bool × Inotifytools × W))
      → Inotifytools
      → Bytes
      → ℕ
      → List Bytes
      → W
      → Option (Bool × Inotifytools × W)
  unfolding walk watch_file as_directory
  visit_directory visit l path events excludes s =
      let path = until_nul path in
      let (dir, s') = k.opendir path s in
      let e = k.errno s' in
      let my_path = as_directory path in
      elim dir [
        | none ↦
            if e == enotdir
            then some (watch_file (record l { error = 0 }) path events s')
            else some (false, record l { error = e }, s')
        | some names ↦ elim (walk visit my_path excludes (record l { error = 0 }) names s') [
          | none ↦ none
          | some (ok, l', s'') ↦
              if ok then some (watch_file l' my_path events s'') else some (false, l', s'')
        ]
      ]

  -- With fuel for the depth of the tree.
  unfoldable pub watch_recursively_with_exclude :
      ℕ → Inotifytools → Bytes → ℕ → List Bytes → W → Option (Bool × Inotifytools × W)
  unfolding visit_directory
  watch_recursively_with_exclude zero l path events excludes s = none
  watch_recursively_with_exclude (suc fuel) l path events excludes s =
      visit_directory (λ l next s. watch_recursively_with_exclude fuel l next events excludes s) l
        path events excludes s

  unfoldable pub watch_recursively :
      ℕ → Inotifytools → Bytes → ℕ → W → Option (Bool × Inotifytools × W)
  unfolding watch_recursively_with_exclude
  watch_recursively fuel l path events s = watch_recursively_with_exclude fuel l path events [] s
