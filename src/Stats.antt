-- ===== src/Stats.antt =====
-- libinotifytools/src/inotify.rs, `WatchStats`: the event counters of a watch, and their total.
pub mod Record
use inotify_tools.Prelude.{ℕ, Bool, true, false, Option, none, some, ◌==◌, if◌then◌else◌}
use inotify_tools.Prelude.Word.{has, wrapping_inc}
use inotify_tools.Consts.{
  in_access, in_modify, in_attrib, in_close_write, in_close_nowrite, in_open, in_moved_from,
  in_moved_to, in_create, in_delete, in_delete_self, in_unmount, in_move_self,
}

pub record WatchStats : Type 0 where
  pub access : ℕ
  pub modify : ℕ
  pub attrib : ℕ
  pub close_write : ℕ
  pub close_nowrite : ℕ
  pub opened : ℕ
  pub moved_from : ℕ
  pub moved_to : ℕ
  pub create : ℕ
  pub delete : ℕ
  pub delete_self : ℕ
  pub unmount : ℕ
  pub move_self : ℕ
  pub total : ℕ

-- `WatchStats::default()`
abbrev pub no_events : WatchStats
no_events = record {
  access = 0;
  modify = 0;
  attrib = 0;
  close_write = 0;
  close_nowrite = 0;
  opened = 0;
  moved_from = 0;
  moved_to = 0;
  create = 0;
  delete = 0;
  delete_self = 0;
  unmount = 0;
  move_self = 0;
  total = 0;
}

-- `WatchStats::get`; `none` where the C function returns NULL
unfoldable pub get : WatchStats → ℕ → Option ℕ
get s event =
    if event == in_access
    then some s.access
    else if event == in_modify
    then some s.modify
    else if event == in_attrib
    then some s.attrib
    else if event == in_close_write
    then some s.close_write
    else if event == in_close_nowrite
    then some s.close_nowrite
    else if event == in_open
    then some s.opened
    else if event == in_moved_from
    then some s.moved_from
    else if event == in_moved_to
    then some s.moved_to
    else if event == in_create
    then some s.create
    else if event == in_delete
    then some s.delete
    else if event == in_delete_self
    then some s.delete_self
    else if event == in_unmount
    then some s.unmount
    else if event == in_move_self
    then some s.move_self
    else if event == 0
    then some s.total
    else none

-- the closure `inc` of `record`: count up if the mask has the flag
unfoldable pub inc : ℕ → ℕ → ℕ → ℕ
inc mask flag c = if has mask flag then wrapping_inc c else c

-- `WatchStats::record`
unfoldable pub record_event : WatchStats → ℕ → WatchStats
record_event s mask = record {
  access = inc mask in_access s.access;
  modify = inc mask in_modify s.modify;
  attrib = inc mask in_attrib s.attrib;
  close_write = inc mask in_close_write s.close_write;
  close_nowrite = inc mask in_close_nowrite s.close_nowrite;
  opened = inc mask in_open s.opened;
  moved_from = inc mask in_moved_from s.moved_from;
  moved_to = inc mask in_moved_to s.moved_to;
  create = inc mask in_create s.create;
  delete = inc mask in_delete s.delete;
  delete_self = inc mask in_delete_self s.delete_self;
  unmount = inc mask in_unmount s.unmount;
  move_self = inc mask in_move_self s.move_self;
  total = wrapping_inc s.total;
}
