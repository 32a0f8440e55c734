-- ===== src/Report.antt =====
-- src/inotifywatch.rs: `print_info`, the table of the counters. What it prints is its result.
pub mod Decimal
pub mod Layout
pub mod Printed
pub mod Table
use inotify_tools.Prelude.{
  ℕ, zero, suc, ◌+◌, ◌-◌, ◌/◌, ◌%◌, Bytes, Bool, not, ◌&&◌, ◌||◌, Option, none, some, List, [], ◌∷◌,
  ◌++◌, ◌==◌, ltb, if◌then◌else◌, length, replicate, unwrap_or,
}
use inotify_tools.Prelude.Word.{has}
use inotify_tools.Prelude.Buffer.{codes}
use inotify_tools.Consts.{
  in_access, in_modify, in_attrib, in_close_write, in_close_nowrite, in_open, in_moved_from,
  in_moved_to, in_create, in_delete, in_delete_self, in_unmount, in_move_self,
}
use inotify_tools.Counters.{get_stat_total, watches_sorted_by_event}
use inotify_tools.Handle.{Inotifytools, ◌>>=◌}
use inotify_tools.Kernel.{Kernel}
use inotify_tools.Names.{filename_from_watch}
use inotify_tools.Options.Watch.{Opts}
use inotify_tools.Stats.{WatchStats}
use inotify_tools.Stats as Stats

-- a column: the event, its header and the width of the values
pub record Column : Type 0 where
  pub event : ℕ
  pub header : Bytes
  pub width : ℕ

-- `COLUMNS`
abbrev pub columns : List Column
columns =
    record { event = in_access; header = codes "access"; width = 6 }
    ∷ record { event = in_modify; header = codes "modify"; width = 6 }
    ∷ record { event = in_attrib; header = codes "attrib"; width = 6 }
    ∷ record { event = in_close_write; header = codes "close_write"; width = 11 }
    ∷ record { event = in_close_nowrite; header = codes "close_nowrite"; width = 13 }
    ∷ record { event = in_open; header = codes "open"; width = 4 }
    ∷ record { event = in_moved_from; header = codes "moved_from"; width = 10 }
    ∷ record { event = in_moved_to; header = codes "moved_to"; width = 8 }
    ∷ record { event = in_move_self; header = codes "move_self"; width = 9 }
    ∷ record { event = in_create; header = codes "create"; width = 6 }
    ∷ record { event = in_delete; header = codes "delete"; width = 6 }
    ∷ record { event = in_delete_self; header = codes "delete_self"; width = 11 }
    ∷ record { event = in_unmount; header = codes "unmount"; width = 7 }
    ∷ []

-- a `u32` in decimal, on fuel: it has at most ten digits
unfoldable pub decimal : ℕ → ℕ → Bytes
decimal zero n = []
decimal (suc fuel) n =
    let rest = decimal fuel (n / 10) in
    if ltb n 10 then (b'0' + n) ∷ [] else rest ++ ((b'0' + n % 10) ∷ [])

-- `{:<width$}` and the two blanks behind it
unfoldable pub cell : ℕ → ℕ → Bytes
unfolding decimal
cell width n = let s = decimal 10 n in s ++ (replicate (width - length s) b' ' ++ codes "  ")

-- `stat`
unfoldable pub stat : WatchStats → ℕ → ℕ
stat s ev = unwrap_or (Stats.get s ev) 0

-- the columns that are shown
unfoldable pub shown_of : Inotifytools → Opts → List Column → List Column
shown_of l o [] = []
shown_of l o (c ∷ cs) =
    let rest = shown_of l o cs in
    if has c.event o.events && (not (o.zero == 0) || not (get_stat_total l c.event == 0))
    then c ∷ rest
    else rest

unfoldable pub headers : List Column → Bytes
headers [] = []
headers (c ∷ cs) = c.header ++ (codes "  " ++ headers cs)

unfoldable pub values_of : WatchStats → List Column → Bytes
unfolding cell stat
values_of s [] = []
values_of s (c ∷ cs) = cell c.width (stat s c.event) ++ values_of s cs

unfoldable pub header_line : List Column → Bytes
unfolding headers
header_line shown = codes "total  " ++ (headers shown ++ codes "filename\n")

module _ {W : Type 0} (k : Kernel W) where
  -- the lines of the watches; none is a panic
  unfoldable pub lines :
      Inotifytools → ℕ → List Column → List (ℕ × WatchStats) → W → Option (Bytes × W)
  lines l show_zero shown [] s = some ([], s)
  lines l show_zero shown ((id, stats) ∷ rows) s =
      let rest = lines l show_zero shown rows s in
      if show_zero == 0 && stats.total == 0
      then rest
      else (filename_from_watch k l id s >>= λ (name, s').
          lines l show_zero shown rows s' >>= λ (text, s'').
          some
            (cell 5 stats.total ++ (values_of stats shown ++ (name ++ (codes "\n" ++ text))), s''))

  unfoldable pub print_info : Inotifytools → Opts → W → Option (Bytes × W)
  unfolding lines shown_of header_line
  print_info l o s =
      let shown = shown_of l o columns in
      if get_stat_total l 0 == 0
      then some ([], s)
      else (watches_sorted_by_event l o.sort >>= λ rows.
          lines l o.zero shown rows s >>= λ (text, s'). some (header_line shown ++ text, s'))
