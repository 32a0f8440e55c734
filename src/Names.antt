-- ===== src/Names.antt =====
-- libinotifytools/src/inotify.rs: the file names of watches and events, `filename_from_fid`,
-- `filename_from_watch_id`, `filename_from_wd`, `filename_from_event` and `dirpath_from_event`, and
-- `aligned_handle` of libinotifytools/src/fid.rs. A buffer is its text up to the first NUL.
pub mod Total
pub mod Laws
use inotify_tools.Prelude.{
  ℕ, zero, suc, ◌+◌, ◌-◌, ◌%◌, Bytes, Bool, true, false, not, ◌&&◌, ◌||◌, Option, none, some, List,
  [], ◌∷◌, ◌++◌, ◌==◌, ltb, leb, if◌then◌else◌, length, take, drop, is_empty, until_nul, get_or,
  is_none, unwrap_or, bit_and, replicate,
}
use Prim.Native.Nat.{min}
use inotify_tools.Prelude.Word.{u32_mod, u16_mod, is_neg, has}
use inotify_tools.Prelude.Buffer.{codes}
use inotify_tools.Consts.{in_isdir}
use inotify_tools.Fid.{
  info_type, set_info_type, hdr_len, set_hdr_len, handle_bytes, fid_hdr, handle_off, bytes_from,
  fsid_key, fan_mark_filesystem, info_type_dfid, info_type_dfid_name,
}
use inotify_tools.Handle.{Inotifytools, EventPath, ◌>>=◌}
use inotify_tools.Kernel.{Kernel}
use inotify_tools.Registry.{watch, watch_from_wd, watch_from_fid}
use inotify_tools.Paths.{slash, rposition}
use inotify_tools.Setup.{enoent}

-- `struct Event`
pub record Event : Type 0 where
  pub wd : ℕ
  pub mask : ℕ
  pub cookie : ℕ
  pub len : ℕ
  pub name : Bytes

abbrev pub at_fdcwd : ℕ
at_fdcwd = 0xffffff9c

abbrev pub path_max : ℕ
path_max = 4096

abbrev pub fidname_size : ℕ
fidname_size = path_max + 512

-- the `struct file_handle` of a fid, without the padding behind it
unfoldable pub aligned_handle : Bytes → Bytes
aligned_handle f = bytes_from handle_off (8 + handle_bytes f) f

-- `as i32` of a difference
unfoldable pub wrapping_diff : ℕ → ℕ → ℕ
wrapping_diff a b = (a + (u32_mod - b % u32_mod)) % u32_mod

-- the length of the name behind the handle, as an `i32`; no name if it begins with a NUL
unfoldable pub fid_name_len : Bytes → ℕ
unfolding wrapping_diff
fid_name_len f =
    let fid_len = fid_hdr + handle_bytes f in
    let n = wrapping_diff (hdr_len f) fid_len in
    if not (info_type f == info_type_dfid_name)
    then 0
    else if not (n == 0) && get_or f fid_len 0 == 0
    then 0
    else n

-- the key of the directory that a fid with a name lies in
unfoldable pub dir_key : Bytes → ℕ → Bytes
unfolding wrapping_diff
dir_key f name_len =
    let padded = f ++ replicate (fid_hdr - length f) 0 in
    set_hdr_len (set_info_type padded info_type_dfid) (wrapping_diff (hdr_len f) name_len % u16_mod)

-- the text of `buf` when a name of `name_len` bytes at `name_off` is copied behind `dir`
unfoldable pub with_name : Bytes → Bytes → ℕ → ℕ → Bytes
with_name dir f name_off name_len =
    let room = fidname_size - 16 - length dir in
    until_nul (dir ++ bytes_from name_off (min name_len room) f)

-- and with the suffix of a name that is gone
unfoldable pub with_suffix : Bytes → Bytes
with_suffix text =
    let suffix = codes " (deleted)" in
    if leb (length text + length suffix + 1) fidname_size then text ++ suffix else text

-- how much of the name is the directory's
unfoldable pub dirname_len : Inotifytools → Bytes → ℕ
unfolding rposition
dirname_len l filename =
    if l.fanotify_mode
    then elim (rposition slash filename) [ none ↦ length filename | some i ↦ i + 1 ]
    else length filename

-- the descriptor to resolve handles by, from the watch of the mount; none is a panic
unfoldable pub mount_of : Inotifytools → Bytes → Option ℕ
unfolding watch
mount_of l f = elim (watch_from_fid l (fsid_key f)) [
  | none ↦ some at_fdcwd
  | some id ↦ (watch l id >>= λ w. some w.dirf)
]

module _ {W : Type 0} (k : Kernel W) where
  -- a copy of the descriptor of the watch of the directory that the file lies in
  unfoldable pub directory_of : Inotifytools → Bytes → W → Option (Option ℕ × W)
  unfolding watch fid_name_len dir_key
  directory_of l f s = elim (watch_from_fid l (dir_key f (fid_name_len f))) [
    | none ↦ some (none, s)
    | some id ↦ watch l id >>= λ w.
        let (copy, s') = k.dup w.dirf s in
        if w.dirf == 0
        then some (none, s)
        else if is_neg copy
        then some (none, s')
        else some (some copy, s')
  ]

  -- The descriptor that `filename_from_fid` resolves the directory by, none if it gives up. The
  -- outer none is a panic.
  unfoldable pub dir_descriptor : Inotifytools → Bytes → W → Option (Option ℕ × W)
  unfolding mount_of directory_of fid_name_len aligned_handle
  dir_descriptor l f s = mount_of l f >>= λ mount_fd.
      let (dirf, s') = k.open_by_handle_at mount_fd (aligned_handle f) s in
      if not (dirf == 0) && not (is_neg dirf)
      then some (some dirf, s')
      else if l.fanotify_mark_type == fan_mark_filesystem
      then some (none, s')
      else if fid_name_len f == 0
      then some (none, s')
      else directory_of l f s'

  -- the path that the descriptor leads to, with the name of the fid
  unfoldable pub resolve : Bytes → ℕ → W → Option Bytes × W
  unfolding fid_name_len with_name with_suffix
  resolve f dirf s =
      let name_len = fid_name_len f in
      let name_off = fid_hdr + handle_bytes f in
      let (link, s1) = k.readlink dirf (path_max - 2) s in
      elim link [
        | none ↦ (none, k.close dirf s1)
        | some target ↦
            let dir = target ++ (slash ∷ []) in
            let (deleted, s2) = k.faccessat dirf (until_nul (drop name_off f)) s1 in
            let text = with_name dir f name_off name_len in
            if name_len == 0 || is_neg name_len
            then (some (until_nul dir), k.close dirf s1)
            else if deleted == 0
            then (some text, k.close dirf s2)
            else if k.errno s2 == enoent
            then (some (with_suffix text), k.close dirf s2)
            else (none, k.close dirf s2)
      ]

  unfoldable pub filename_from_fid : Inotifytools → Bytes → W → Option (Option Bytes × W)
  unfolding dir_descriptor resolve
  filename_from_fid l f s = dir_descriptor l f s >>= λ (dirf, s'). elim dirf [
    | none ↦ some (none, s')
    | some d ↦ some (resolve f d s')
  ]

  unfoldable pub filename_from_watch_id : Inotifytools → ℕ → W → Option (Bytes × W)
  unfolding watch filename_from_fid
  filename_from_watch_id l id s = watch l id >>= λ w. elim w.fid [
    | none ↦ some (w.filename, s)
    | some f ↦
        if l.fanotify_mark_type == 0
        then some (w.filename, s)
        else (filename_from_fid l f s >>= λ (name, s'). some (unwrap_or name w.filename, s'))
  ]

  unfoldable pub filename_from_watch : Inotifytools → ℕ → W → Option (Bytes × W)
  unfolding watch filename_from_watch_id
  filename_from_watch l id s =
      if is_none (watch l id) then some ([], s) else filename_from_watch_id l id s

  unfoldable pub filename_from_wd : Inotifytools → ℕ → W → Option (Bytes × W)
  unfolding filename_from_watch_id watch_from_wd
  filename_from_wd l wd s = if wd == 0 then some ([], s) else elim (watch_from_wd l wd) [
    | none ↦ some ([], s)
    | some id ↦ filename_from_watch_id l id s
  ]

  unfoldable pub filename_from_event : Inotifytools → Event → W → Option (EventPath × W)
  unfolding filename_from_wd dirname_len
  filename_from_event l ev s = filename_from_wd l ev.wd s >>= λ (filename, s').
      let n = dirname_len l filename in
      let eventname =
        if ltb n (length filename) then drop n filename else if ltb 0 ev.len then ev.name else [] in
      some (record { filename = filename; dirnamelen = n; eventname = eventname }, s')

  unfoldable pub dirpath_from_event : Inotifytools → Event → W → Option (Option Bytes × W)
  unfolding filename_from_wd
  dirpath_from_event l ev s = filename_from_wd l ev.wd s >>= λ (filename, s').
      let name = if l.fanotify_mode then [] else ev.name in
      if is_empty filename || bit_and ev.mask in_isdir == 0
      then some (none, s')
      else some (some (filename ++ (name ++ (slash ∷ []))), s')
