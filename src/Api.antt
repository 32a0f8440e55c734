-- ===== src/Api.antt =====
-- libinotifytools/src/ffi.rs: what the functions of the C interface pass on, and the one handle
-- that they share.
pub mod Registry
pub mod Watching
pub mod Output
pub mod Calls
pub mod Steps
pub mod Changes
pub mod Lookups
pub mod Prints
pub mod Total
use inotify_tools.Prelude.{
  ℕ, Bytes, Bool, true, false, Option, none, some, List, [], ◌∷◌, ◌++◌, ltb, if◌then◌else◌,
  until_nul, unwrap_or,
}
use inotify_tools.Format.{NString}
use inotify_tools.Handle.{Inotifytools}
use inotify_tools.Names.{Event}
use inotify_tools.Printing.{new_nstring}
use inotify_tools.Reader.{Reader, new_reader}

-- A `*const c_char` is the memory from it on, none for NULL; what it points to ends with a NUL.
abbrev pub Pointer : Type 0
Pointer = Option Bytes

unfoldable pub opt_bytes : Pointer → Option Bytes
opt_bytes none = none
opt_bytes (some memory) = some (until_nul memory)

unfoldable pub bytes : Pointer → Bytes
unfolding opt_bytes
bytes p = unwrap_or (opt_bytes p) []

-- C's `struct inotify_event`, with the memory behind it
pub record InotifyEvent : Type 0 where
  pub wd : ℕ
  pub mask : ℕ
  pub cookie : ℕ
  pub len : ℕ
  pub behind : Bytes

unfoldable pub event_from_c : Option InotifyEvent → Event
event_from_c none = record { wd = 0; mask = 0; cookie = 0; len = 0; name = [] }
event_from_c (some e) = record {
  wd = e.wd;
  mask = e.mask;
  cookie = e.cookie;
  len = e.len;
  name = if ltb 0 e.len then until_nul e.behind else [];
}

-- the strings of an array, up to its NULL
unfoldable pub strings : List Pointer → List Bytes
strings [] = []
strings (none ∷ ps) = []
strings (some memory ∷ ps) = until_nul memory ∷ strings ps

unfoldable pub str_list : Option (List Pointer) → List Bytes
unfolding strings
str_list none = []
str_list (some list) = strings list

-- `room` is whether malloc(3) succeeds
unfoldable pub malloc_cstr : Bool → Bytes → Pointer
malloc_cstr room b = if room then some (b ++ (0 ∷ [])) else none

abbrev pub as_int : Bool → ℕ
as_int b = if b then 1 else 0

-- the handle, with the fields for reading and printing
pub record Instance : Type 0 where
  pub reader : Reader
  pub print_out : Option NString

abbrev pub new_instance : Instance
new_instance = record { reader = new_reader; print_out = some new_nstring }

-- `GLOBAL`, and `lib`, which makes the handle at its first use
abbrev pub Global : Type 0
Global = Option Instance

unfoldable pub lib : Global → Instance
lib g = unwrap_or g new_instance

-- the handle behind a call that changes it
abbrev pub set_lib : Instance → Inotifytools → Global
set_lib i l = some (record i { reader = record i.reader { lib = l } })
