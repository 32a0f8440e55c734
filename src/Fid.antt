-- ===== src/Fid.antt =====
-- libinotifytools/src/fid.rs: the fields of the raw bytes of a fanotify file identifier, and the
-- key under which a watch is found by it. `from_ne_bytes` is read as little-endian.
pub mod Fields
use inotify_tools.Prelude.{
  ℕ, suc, ◌+◌, ◌*◌, ◌/◌, ◌%◌, Bytes, [], ◌∷◌, ◌++◌, Ordering, get_or, set, take, drop, replicate,
}
use inotify_tools.Prelude.Ord.{Ord, cmp_bytes}

abbrev pub fan_mark_add : ℕ
fan_mark_add = 0x1

abbrev pub fan_mark_dont_follow : ℕ
fan_mark_dont_follow = 0x4

abbrev pub fan_mark_inode : ℕ
fan_mark_inode = 0x0

abbrev pub fan_mark_filesystem : ℕ
fan_mark_filesystem = 0x100

abbrev pub fan_event_on_child : ℕ
fan_event_on_child = 0x8000000

abbrev pub info_type_fid : ℕ
info_type_fid = 1

abbrev pub info_type_dfid_name : ℕ
info_type_dfid_name = 2

abbrev pub info_type_dfid : ℕ
info_type_dfid = 3

abbrev pub fid_hdr : ℕ
fid_hdr = 20

abbrev pub handle_off : ℕ
handle_off = 12

abbrev pub max_fid_len : ℕ
max_fid_len = 20

-- `get`: a byte, 0 past the end
unfoldable pub byte_at : Bytes → ℕ → ℕ
byte_at f off = get_or f off 0

unfoldable pub info_type : Bytes → ℕ
unfolding byte_at
info_type f = byte_at f 0

unfoldable pub set_info_type : Bytes → ℕ → Bytes
set_info_type f t = set f 0 t

unfoldable pub hdr_len : Bytes → ℕ
unfolding byte_at
hdr_len f = byte_at f 2 + 256 * byte_at f 3

unfoldable pub set_hdr_len : Bytes → ℕ → Bytes
set_hdr_len f len = set (set f 2 (len % 256)) 3 (len / 256)

unfoldable pub fsid_val : Bytes → ℕ → ℕ
unfolding byte_at
fsid_val f i =
    byte_at f (4 + 4 * i)
    + 256 * byte_at f (4 + 4 * i + 1)
    + 65536 * byte_at f (4 + 4 * i + 2)
    + 16777216 * byte_at f (4 + 4 * i + 3)

unfoldable pub handle_bytes : Bytes → ℕ
unfolding byte_at
handle_bytes f = byte_at f 12 + 256 * byte_at f 13 + 65536 * byte_at f 14 + 16777216 * byte_at f 15

-- `(i..i + n).map(|j| get(f, j)).collect()`
unfoldable pub bytes_from : ℕ → ℕ → Bytes → Bytes
unfolding byte_at
bytes_from i ℕ.zero f = []
bytes_from i (suc n) f = byte_at f i ∷ bytes_from (i + 1) n f

pub record FidKey : Type 0 where
  pub len : ℕ
  pub key_bytes : Bytes

-- `FidKey::new`
unfoldable pub fid_key : Bytes → FidKey
unfolding hdr_len bytes_from
fid_key f = record { len = hdr_len f; key_bytes = bytes_from 0 (hdr_len f) f }

-- 20 bytes that identify just a filesystem
unfoldable pub fsid_key : Bytes → Bytes
unfolding set_info_type set_hdr_len bytes_from
fsid_key f =
    set_hdr_len (set_info_type (replicate 4 0 ++ (bytes_from 4 8 f ++ replicate 8 0)) info_type_fid)
      fid_hdr
