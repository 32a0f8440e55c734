-- ===== src/Reader.antt =====
-- libinotifytools/src/inotify.rs, "Reading events": the event buffer of the handle and what is
-- read and written in it. A number in the buffer is little-endian; `bytes` and `this_bytes` are
-- `isize` patterns, and offsets are added without wrapping.
pub mod Convert
pub mod Next
pub mod Wire
pub mod Remaining
pub mod Left
pub mod Batch
pub mod Split
pub mod Written
pub mod Converted
use inotify_tools.Prelude.{
  ℕ, ◌+◌, ◌*◌, ◌/◌, ◌%◌, Bytes, [], ◌∷◌, ltb, if◌then◌else◌, take, drop, replicate, until_nul,
}
use inotify_tools.Prelude.Buffer.{write_at}
use inotify_tools.Fid.{byte_at}
use inotify_tools.Handle.{Inotifytools, new}
use inotify_tools.Names.{Event}

abbrev pub max_events : ℕ
max_events = 4096

abbrev pub event_size : ℕ
event_size = 16

-- the half of the buffer that is read into: `EVENT_SIZE * MAX_EVENTS`
abbrev pub cap : ℕ
cap = 65536

-- the fields of `Inotifytools` that reading uses, beside the handle
pub record Reader : Type 0 where
  pub lib : Inotifytools
  pub evbuf : Bytes
  pub first_byte : ℕ
  pub bytes : ℕ
  pub this_bytes : ℕ
  pub ret_off : ℕ

-- those of `Inotifytools::new`
unfoldable pub new_reader : Reader
new_reader = record {
  lib = new;
  evbuf = replicate (2 * cap) 0;
  first_byte = 0;
  bytes = 0;
  this_bytes = 0;
  ret_off = 0;
}

unfoldable pub rd_u32 : Bytes → ℕ → ℕ
unfolding byte_at
rd_u32 b off =
    byte_at b off
    + 256 * byte_at b (off + 1)
    + 65536 * byte_at b (off + 2)
    + 16777216 * byte_at b (off + 3)

-- `to_ne_bytes` of a `u32`
abbrev pub le_u32 : ℕ → Bytes
le_u32 v = v % 256 ∷ (v / 256) % 256 ∷ (v / 65536) % 256 ∷ (v / 16777216) % 256 ∷ []

unfoldable pub wr_u32 : Bytes → ℕ → ℕ → Bytes
wr_u32 b off v = write_at b off (le_u32 v)

-- `current_event`, at an offset of the buffer
unfoldable pub event_at : Bytes → ℕ → Event
unfolding rd_u32
event_at b o =
    let len = rd_u32 b (o + 12) in
    record {
      wd = rd_u32 b o;
      mask = rd_u32 b (o + 4);
      cookie = rd_u32 b (o + 8);
      len = len;
      name = if ltb 0 len then until_nul (take len (drop (o + event_size) b)) else [];
    }

unfoldable pub current_event : Reader → Event
unfolding event_at
current_event r = event_at r.evbuf r.ret_off
