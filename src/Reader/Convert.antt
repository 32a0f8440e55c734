-- ===== src/Reader/Convert.antt =====
-- libinotifytools/src/inotify.rs: `convert_fanotify_event`, which writes an inotify event for the
-- fanotify event at `ret_off` into the second half of the buffer.
use inotify_tools.Prelude.{
  ℕ, ◌+◌, ◌-◌, ◌%◌, Bytes, Bool, not, ◌&&◌, ◌||◌, Option, none, some, ◌==◌, ltb, if◌then◌else◌,
  length, take, drop,
}
use Prim.Native.Nat.{min}
use inotify_tools.Prelude.Word.{u32_mod, u16_mod, le_zero}
use inotify_tools.Prelude.Buffer.{write_at}
use inotify_tools.Fid.{
  byte_at, hdr_len, set_hdr_len, handle_bytes, bytes_from, fid_hdr, info_type_fid, info_type_dfid,
  info_type_dfid_name,
}
use inotify_tools.Handle.{Inotifytools, ◌>>=◌}
use inotify_tools.Kernel.{Kernel}
use inotify_tools.Registry.{watch, watch_from_fid, create_watch}
use inotify_tools.Names.{wrapping_diff, filename_from_fid}
use inotify_tools.Reader.{Reader, cap, event_size, rd_u32, wr_u32}

-- `META_LEN`
abbrev pub meta_len : ℕ
meta_len = 24

-- the length of the name behind the handle of the record, as an `i32`, before padding is looked at
unfoldable pub raw_name_len : Bytes → ℕ
unfolding wrapping_diff
raw_name_len rec =
    if byte_at rec 0 == info_type_dfid_name
    then wrapping_diff (hdr_len rec) (fid_hdr + handle_bytes rec)
    else 0

-- whether the name is padding or "."; a negative length counts as padding
unfoldable pub is_padding : Bytes → ℕ → Bool
is_padding rec name_len =
    let off = fid_hdr + handle_bytes rec in
    let n0 = if le_zero name_len then 0 else byte_at rec off in
    let n1 = if le_zero name_len then 0 else byte_at rec (off + 1) in
    not (name_len == 0) && (n0 == 0 || (n0 == b'.' && n1 == 0))

-- the buffer once the length in the record at `info` leaves out such a name
unfoldable pub trimmed : Bytes → ℕ → Bytes
unfolding wrapping_diff raw_name_len is_padding
trimmed b info =
    let rec = drop info b in
    let n = raw_name_len rec in
    if is_padding rec n
    then write_at b info
        (take 4 (set_hdr_len (take 4 rec) (wrapping_diff (hdr_len rec) n % u16_mod)))
    else b

-- the name's length that is left
unfoldable pub name_len_at : Bytes → ℕ → ℕ
unfolding raw_name_len is_padding
name_len_at b info =
    let rec = drop info b in let n = raw_name_len rec in if is_padding rec n then 0 else n

-- the inotify event behind the first half of the buffer; its cookie is left as it was
unfoldable pub write_event : Bytes → ℕ → ℕ → ℕ → ℕ → Bytes
unfolding wr_u32
write_event b wd mask name_len src =
    let head = wr_u32 (wr_u32 (wr_u32 b cap wd) (cap + 4) mask) (cap + 12) name_len in
    if le_zero name_len
    then head
    else write_at head (cap + event_size)
        (bytes_from src (min name_len (cap - event_size)) (take cap b))

module _ {W : Type 0} (k : Kernel W) where
  -- The descriptor of the watch that the fid belongs to, one that is created for it, or 0 if its name
  -- cannot be resolved; none if no watch can be created. The outer none is a panic.
  unfoldable pub wd_of_fid : Inotifytools → Bytes → W → Option (Option ℕ × Inotifytools × W)
  unfolding watch
  wd_of_fid l f s = elim (watch_from_fid l f) [
    | some id ↦ (watch l id >>= λ w. some (some w.wd, l, s))
    | none ↦ filename_from_fid k l f s >>= λ (filename, s'). elim filename [
      | none ↦ some (some 0, l, s')
      | some name ↦ let (l', wd) = create_watch l 0 (some f) name 0 in some (wd, l', s')
    ]
  ]

  -- The process that caused the event, none if there is no event to deliver.
  unfoldable pub convert_fanotify_event : Reader → W → Option (Option ℕ × Reader × W)
  convert_fanotify_event r s =
      let meta = r.ret_off in
      let info = meta + meta_len in
      let event_len = rd_u32 r.evbuf meta in
      let first_byte = (r.first_byte + event_len) % u32_mod in
      let t = byte_at r.evbuf info in
      let b = trimmed r.evbuf info in
      let name_len = name_len_at r.evbuf info in
      let stop = min (info + hdr_len (drop info b)) cap in
      let f = take (stop - info) (drop info b) in
      if not (ltb meta_len event_len)
        || not (t == info_type_fid || t == info_type_dfid || t == info_type_dfid_name)
      then some (none, record r { first_byte = first_byte }, s)
      else if ltb stop info
      then none
      else if ltb (length b) (meta + 16)
      then none
      else (wd_of_fid r.lib f s >>= λ (wd, l, s'). elim wd [
        | none ↦
            some (none, record r { lib = l; evbuf = b; first_byte = first_byte; ret_off = cap }, s')
        | some d ↦
            let b' =
              write_event b d (rd_u32 b (meta + 8)) name_len
                (info + fid_hdr + handle_bytes (drop info b)) in
            some (
              some (rd_u32 b' (meta + 20)),
              record r { lib = l; evbuf = b'; first_byte = first_byte; ret_off = cap },
              s',
            )
      ])
