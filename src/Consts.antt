-- ===== src/Consts.antt =====
-- libinotifytools/src/consts.rs: the event masks, as `i32` patterns.
use inotify_tools.Prelude.{ℕ, bit_or}

abbrev pub in_access : ℕ
in_access = 0x1

abbrev pub in_modify : ℕ
in_modify = 0x2

abbrev pub in_attrib : ℕ
in_attrib = 0x4

abbrev pub in_close_write : ℕ
in_close_write = 0x8

abbrev pub in_close_nowrite : ℕ
in_close_nowrite = 0x10

abbrev pub in_close : ℕ
in_close = bit_or in_close_write in_close_nowrite

abbrev pub in_open : ℕ
in_open = 0x20

abbrev pub in_moved_from : ℕ
in_moved_from = 0x40

abbrev pub in_moved_to : ℕ
in_moved_to = 0x80

abbrev pub in_move : ℕ
in_move = bit_or in_moved_from in_moved_to

abbrev pub in_create : ℕ
in_create = 0x100

abbrev pub in_delete : ℕ
in_delete = 0x200

abbrev pub in_delete_self : ℕ
in_delete_self = 0x400

abbrev pub in_move_self : ℕ
in_move_self = 0x800

abbrev pub in_unmount : ℕ
in_unmount = 0x2000

abbrev pub in_q_overflow : ℕ
in_q_overflow = 0x4000

abbrev pub in_ignored : ℕ
in_ignored = 0x8000

abbrev pub in_dont_follow : ℕ
in_dont_follow = 0x2000000

abbrev pub in_isdir : ℕ
in_isdir = 0x40000000

abbrev pub in_oneshot : ℕ
in_oneshot = 0x80000000

abbrev pub in_all_events : ℕ
in_all_events = bit_or in_access (
    bit_or in_modify (
      bit_or in_attrib (
        bit_or in_close_write (
          bit_or in_close_nowrite (
            bit_or in_open (
              bit_or in_moved_from (
                bit_or in_moved_to
                  (bit_or in_create (bit_or in_delete (bit_or in_delete_self in_move_self))))))))))
