-- ===== src/Reader/Converted.antt =====
-- The inotify event that `convert_fanotify_event` makes of a fanotify event.
use inotify_tools.Prelude.{
  ℕ, ◌+◌, ◌-◌, ◌≤◌, ◌≡◌, ◌∙◌, refl, ap, sym, arith, Bytes, Bool, true, false, some, ◌++◌, ◌==◌,
  ◌||◌, length, take, drop, length-append, ltb, ◌%◌, not,
}
use Prim.Native.Nat.{min}
use inotify_tools.Prelude.Word.{u32_mod}
use inotify_tools.Fid.{
  byte_at, hdr_len, handle_bytes, bytes_from, fid_hdr, info_type_fid, info_type_dfid,
  info_type_dfid_name,
}
use inotify_tools.Handle.{Inotifytools, Watch}
use inotify_tools.Kernel.{Kernel}
use inotify_tools.Names.{Event}
use inotify_tools.Reader.{Reader, cap, event_size, rd_u32, le_u32, event_at, current_event}
use inotify_tools.Reader.Convert.{
  meta_len, trimmed, name_len_at, write_event, wd_of_fid, convert_fanotify_event,
}
use inotify_tools.Reader.Wire.{IsEvent, encode, event_at-encode}
use inotify_tools.Reader.Written.{Room, tail, write_event_lem}
use inotify_tools.Registry.{watch, watch_from_fid}

-- the fid in a record: the bytes that its header counts, within the first half
abbrev pub fid_at : Bytes → ℕ → Bytes
fid_at b info = take (min (info + hdr_len (drop info b)) cap - info) (drop info b)

-- the name of the record, behind its handle
abbrev pub name_off : Bytes → ℕ → ℕ
name_off b info = info + fid_hdr + handle_bytes (drop info b)

-- whether a record has the fid of an object or of a directory
abbrev pub has_fid : ℕ → Bool
has_fid t = t == info_type_fid || t == info_type_dfid || t == info_type_dfid_name

-- where the record of the event at an offset stands
abbrev pub info_at : ℕ → ℕ
info_at meta = meta + meta_len

-- A fanotify event is at `ret_off`, and `ev` is what it says: for the watch that its fid finds, with
-- the lower half of its mask, and with the name behind the handle, if that is no padding.
pub record Says (r : Reader) (p post : Bytes) (id : ℕ) (w : Watch) (ev : Event) : Type 0 where
  pub longer : ltb meta_len (rd_u32 r.evbuf r.ret_off) ≡ true
  pub fid : has_fid (byte_at r.evbuf (info_at r.ret_off)) ≡ true
  pub inside : info_at r.ret_off ≤ cap
  pub room : Room p (trimmed r.evbuf (info_at r.ret_off)) ev.cookie ev.len post
  pub found :
      watch_from_fid r.lib (fid_at (trimmed r.evbuf (info_at r.ret_off)) (info_at r.ret_off))
      ≡ some id
  pub live : watch r.lib id ≡ some w
  pub wd : ev.wd ≡ w.wd
  pub mask : ev.mask ≡ rd_u32 (trimmed r.evbuf (info_at r.ret_off)) (r.ret_off + 8)
  pub len : ev.len ≡ name_len_at r.evbuf (info_at r.ret_off)
  pub small : ev.len ≤ cap - event_size
  pub named :
      bytes_from (name_off (trimmed r.evbuf (info_at r.ret_off)) (info_at r.ret_off)) ev.len p
      ≡ tail ev

stop_lem : (info n : ℕ) → info ≤ cap → ltb (min (info + n) cap) info ≡ false
stop_lem info n h = ground (arith, h)

fits_lem :
    (p : Bytes) (half : length p ≡ cap) (b post : Bytes) (cookie n meta : ℕ)
    → Room p b cookie n post
    → info_at meta ≤ cap
    → ltb (length b) (meta + 16) ≡ false
fits_lem p half b post cookie n meta (a1, a2, z, y, e, e1, e2, e3, e4) h =
    let size : length b ≡ cap + length (a1 ++ (a2 ++ (le_u32 cookie ++ (z ++ (y ++ post))))) =
      ap (λ (x : Bytes). length x) e
      ∙ length-append p (a1 ++ (a2 ++ (le_u32 cookie ++ (z ++ (y ++ post)))))
      ∙ ap (λ (m : ℕ). m + length (a1 ++ (a2 ++ (le_u32 cookie ++ (z ++ (y ++ post)))))) half in
    not_less (length b) meta (length (a1 ++ (a2 ++ (le_u32 cookie ++ (z ++ (y ++ post)))))) size h
  where
    not_less : (m meta x : ℕ) → m ≡ cap + x → meta + 24 ≤ cap → ltb m (meta + 16) ≡ false
    not_less m meta x e h = ground (arith, e, h)

module _ {W : Type 0} (k : Kernel W) where
  wd_of_fid_found :
      (l : Inotifytools) (f : Bytes) (id : ℕ) (w : Watch) (s : W)
      → watch_from_fid l f ≡ some id
      → watch l id ≡ some w
      → wd_of_fid k l f s ≡ some (some w.wd, l, s)
  unfolding wd_of_fid
  wd_of_fid_found l f id w s found live = ground (arith, found, live)

  -- A fanotify event whose fid belongs to a watch is converted, without a panic, a call to the
  -- system or a change of the registry, to the inotify event with the descriptor of that watch, the lower half of its
  -- mask, and the length and the name behind the handle (none, if it is padding or "."), with
  -- the cookie that the buffer held.
  pub convert_fanotify_event_lem :
      (r : Reader) (p post : Bytes) (half : length p ≡ cap) (id : ℕ) (w : Watch) (ev : Event)
      (s : W)
      → IsEvent ev
      → Says r p post id w ev
      → (pid : ℕ) × (r' : Reader) × (convert_fanotify_event k r s ≡ some (some pid, r', s))
        × (r'.lib ≡ r.lib)
        × (current_event r' ≡ ev)
  unfolding convert_fanotify_event current_event
  convert_fanotify_event_lem r p post half id w ev s real h =
      let meta = r.ret_off in
      let info = info_at meta in
      let b = trimmed r.evbuf info in
      let b' = write_event b ev.wd ev.mask ev.len (name_off b info) in
      let written = write_event_lem p half b post ev (name_off b info) h.room h.small h.named in
      let goes : (not (ltb meta_len (rd_u32 r.evbuf meta)) || not (has_fid (byte_at r.evbuf info)))
          ≡ false =
        rw (h.longer, h.fid) refl in
      let before_end = stop_lem info (hdr_len (drop info b)) h.inside in
      let fits = fits_lem p half b post ev.cookie ev.len meta h.room h.inside in
      let watched = wd_of_fid_found r.lib (fid_at b info) id w s h.found h.live in
      let same : write_event b w.wd (rd_u32 b (meta + 8)) (name_len_at r.evbuf info)
            (name_off b info)
          ≡ b' =
        rw (sym h.wd, sym h.mask, sym h.len) refl in
      let first_byte = (r.first_byte + rd_u32 r.evbuf meta) % u32_mod in
      (
        rd_u32 b' (meta + 20),
        record r { evbuf = b'; first_byte = first_byte; ret_off = cap },
        rw (convert_fanotify_event, goes, before_end, fits, watched)
            (ap
              (λ (x : Bytes). some (
                some (rd_u32 x (meta + 20)),
                record r { evbuf = x; first_byte = first_byte; ret_off = cap },
                s,
              ))
              same),
        refl,
        ap (λ (x : Bytes). event_at x cap) written
            ∙ ap (event_at (p ++ (encode ev ++ post))) (sym half)
            ∙ event_at-encode p post ev real,
      )
