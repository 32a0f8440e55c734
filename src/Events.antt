-- ===== src/Events.antt =====
-- libinotifytools/src/inotify.rs: event masks to names and back.
pub mod Parse
pub mod Print
pub mod RoundTrip
use inotify_tools.Prelude.{
  ℕ, zero, suc, ◌+◌, ◌-◌, ◌*◌, ◌/◌, ◌%◌, ◌^◌, bit_or, Bytes, Bool, true, false, ◌&&◌, ◌||◌, Option,
  none, some, List, [], ◌∷◌, ◌++◌, map, ◌==◌, if◌then◌else◌, leb, ltb, length, take, drop, set,
  get_or, is_empty, eqb, position, until_nul,
}
use inotify_tools.Prelude.Buffer.{codes, write_at, strlen}
use inotify_tools.Prelude.Word.{minus_one, has}
use inotify_tools.Consts.{
  in_access, in_modify, in_attrib, in_close_write, in_close_nowrite, in_open, in_moved_from,
  in_moved_to, in_create, in_delete, in_delete_self, in_unmount, in_q_overflow, in_ignored,
  in_close, in_move_self, in_move, in_isdir, in_oneshot, in_all_events,
}

-- `eq_ignore_ascii_case`
unfoldable pub to_lower : ℕ → ℕ
to_lower c = if leb b'A' c && leb c b'Z' then c + 32 else c

unfoldable pub eq_ignore_case : Bytes → Bytes → Bool
unfolding to_lower
eq_ignore_case a b = eqb (map to_lower a) (map to_lower b)

-- `TABLE` of `onestr_to_event`
abbrev pub event_table : List (Bytes × ℕ)
event_table =
    (codes "ACCESS", in_access)
    ∷ (codes "MODIFY", in_modify)
    ∷ (codes "ATTRIB", in_attrib)
    ∷ (codes "CLOSE_WRITE", in_close_write)
    ∷ (codes "CLOSE_NOWRITE", in_close_nowrite)
    ∷ (codes "OPEN", in_open)
    ∷ (codes "MOVED_FROM", in_moved_from)
    ∷ (codes "MOVED_TO", in_moved_to)
    ∷ (codes "CREATE", in_create)
    ∷ (codes "DELETE", in_delete)
    ∷ (codes "DELETE_SELF", in_delete_self)
    ∷ (codes "UNMOUNT", in_unmount)
    ∷ (codes "Q_OVERFLOW", in_q_overflow)
    ∷ (codes "IGNORED", in_ignored)
    ∷ (codes "CLOSE", in_close)
    ∷ (codes "MOVE_SELF", in_move_self)
    ∷ (codes "MOVE", in_move)
    ∷ (codes "ISDIR", in_isdir)
    ∷ (codes "ONESHOT", in_oneshot)
    ∷ (codes "ALL_EVENTS", in_all_events)
    ∷ []

unfoldable pub find_event : List (Bytes × ℕ) → Bytes → ℕ
unfolding eq_ignore_case
find_event [] event = minus_one
find_event ((name, v) ∷ table) event =
    let rest = find_event table event in if eq_ignore_case name event then v else rest

unfoldable pub onestr_to_event : Bytes → ℕ
unfolding find_event
onestr_to_event event = if is_empty event then 0 else find_event event_table event

-- `sep == 0 || sep == b'_' || sep.is_ascii_alphabetic()`
unfoldable pub bad_separator : ℕ → Bool
bad_separator sep =
    sep == 0 || sep == b'_' || (leb b'A' sep && leb sep b'Z') || (leb b'a' sep && leb sep b'z')

-- the longest element that is looked up, `EVENTSTR_SIZE - 1`
abbrev pub max_element : ℕ
max_element = 4095

-- An unknown or an empty element ends the loop with its value.
abbrev pub is_verdict : ℕ → Bool
is_verdict v = v == 0 || v == minus_one

-- The value of the element at the head of the text, which ends at the first separator.
unfoldable pub first_value : ℕ → Bytes → ℕ
first_value sep event1 =
    let len : ℕ = elim (position sep event1) [ none ↦ length event1 | some i ↦ i ] in
    onestr_to_event (take (if ltb max_element len then max_element else len) event1)

-- The loop of `str_to_event_sep`, on fuel: what is left of the text, and the mask so far.
unfoldable pub event_loop : ℕ → ℕ → Bytes → ℕ → Option ℕ
event_loop zero sep event1 ret = none
event_loop (suc fuel) sep event1 ret =
    let ret1 = first_value sep event1 in
    let later : Option ℕ = elim (position sep event1) [
      | none ↦ some (bit_or ret ret1)
      | some i ↦
          let rest = drop (suc i) event1 in
          let result = event_loop fuel sep rest (bit_or ret ret1) in
          if is_empty rest then some 0 else result
    ] in
    if is_empty event1 then some ret else if is_verdict ret1 then some ret1 else later

unfoldable pub str_to_event_sep : Option Bytes → ℕ → ℕ
str_to_event_sep none sep = if bad_separator sep then minus_one else 0
str_to_event_sep (some text) sep =
    if bad_separator sep
    then minus_one
    else let event = until_nul text in
      if is_empty event
      then 0
      else elim (event_loop (suc (length event)) sep event 0) [ none ↦ minus_one | some r ↦ r ]

-- `str_to_event`
unfoldable pub str_to_event : Option Bytes → ℕ
unfolding str_to_event_sep
str_to_event event = str_to_event_sep event b','

-- `NAMES` of `event_to_str_sep_ptr`
abbrev pub flag_names : List (ℕ × Bytes)
flag_names =
    (in_access, codes "ACCESS")
    ∷ (in_modify, codes "MODIFY")
    ∷ (in_attrib, codes "ATTRIB")
    ∷ (in_close_write, codes "CLOSE_WRITE")
    ∷ (in_close_nowrite, codes "CLOSE_NOWRITE")
    ∷ (in_open, codes "OPEN")
    ∷ (in_moved_from, codes "MOVED_FROM")
    ∷ (in_moved_to, codes "MOVED_TO")
    ∷ (in_create, codes "CREATE")
    ∷ (in_delete, codes "DELETE")
    ∷ (in_delete_self, codes "DELETE_SELF")
    ∷ (in_unmount, codes "UNMOUNT")
    ∷ (in_q_overflow, codes "Q_OVERFLOW")
    ∷ (in_ignored, codes "IGNORED")
    ∷ (in_close, codes "CLOSE")
    ∷ (in_move_self, codes "MOVE_SELF")
    ∷ (in_isdir, codes "ISDIR")
    ∷ (in_oneshot, codes "ONESHOT")
    ∷ []

-- Appends the separator and a name to the C string in the buffer.
unfoldable pub append_name : ℕ → Bytes → Bytes → Bytes
append_name sep name ret =
    let l = strlen ret in
    let ret = set (set ret l sep) (l + 1) 0 in
    let l = strlen ret in set (write_at ret l name) (l + length name) 0

unfoldable pub append_names : ℕ → ℕ → List (ℕ × Bytes) → Bytes → Bytes
unfolding append_name
append_names events sep [] ret = ret
append_names events sep ((flag, name) ∷ names) ret =
    append_names events sep names (if has flag events then append_name sep name ret else ret)

-- a hexadecimal digit, and the lowest `n` digits
unfoldable pub hex_digit : ℕ → ℕ
hex_digit d = if ltb d 10 then b'0' + d else b'a' + (d - 10)

unfoldable pub hex_digits : ℕ → ℕ → Bytes
unfolding hex_digit
hex_digits zero v = []
hex_digits (suc n) v = hex_digits n (v / 16) ++ hex_digit (v % 16) ∷ []

-- `format!("0x{:08x}", events as u32)`
unfoldable pub hex_mask : ℕ → Bytes
unfolding hex_digits
hex_mask events = b'0' ∷ b'x' ∷ hex_digits 8 events

-- `event_to_str_sep_ptr` on the buffer `evstr`
unfoldable pub fill_evstr : Bytes → ℕ → ℕ → Bytes
unfolding append_names hex_mask
fill_evstr evstr events sep =
    let ret = append_names events sep flag_names (set (set evstr 0 0) 1 0) in
    let s = hex_mask events in
    let hexed = set (write_at (set ret 0 sep) 1 s) (1 + length s) 0 in
    if get_or ret 0 0 == 0 then hexed else ret

-- `event_to_str_sep`: the C string from the second byte of the buffer
unfoldable pub event_to_str_sep : Bytes → ℕ → ℕ → Bytes
unfolding fill_evstr
event_to_str_sep evstr events sep = until_nul (drop 1 (fill_evstr evstr events sep))

unfoldable pub event_to_str : Bytes → ℕ → Bytes
unfolding event_to_str_sep
event_to_str evstr events = event_to_str_sep evstr events b','
