-- ===== src/Report/Layout.antt =====
-- How the table of `print_info` reads: its heading, which columns it has, and its lines, each
-- described apart from the code that prints them.
use inotify_tools.Prelude.{
  ℕ, ◌+◌, ◌≤◌, ◌<◌, ◌≡◌, ◌≢◌, Bytes, some, List, [], ◌∷◌, ◌++◌, ◌⊎◌, length, replicate, map,
  bit_and,
}
use inotify_tools.Prelude.Word.{u32_mod}
use inotify_tools.Prelude.Buffer.{codes}
use inotify_tools.BTreeMap.{get}
use inotify_tools.Prelude.Ord.{nat_ord}
use inotify_tools.Counters.{get_stat_total}
use inotify_tools.Handle.{Inotifytools, Watch}
use inotify_tools.Events.{str_to_event_sep}
use inotify_tools.Options.Watch.{Opts}
use inotify_tools.Report.{Column}
use inotify_tools.Report.Decimal.{IsDecimal}
use inotify_tools.Stats as Stats
use inotify_tools.Stats.{WatchStats}

abbrev pub blanks : ℕ → Bytes
blanks n = replicate n b' '

-- texts with a separator between them
abbrev pub joined : Bytes → List Bytes → Bytes
joined sep [] = []
joined sep (t ∷ []) = t
joined sep (t ∷ u ∷ ts) = t ++ (sep ++ joined sep (u ∷ ts))

abbrev pub heading : List Column → Bytes
heading shown =
    joined (blanks 2) (codes "total" ∷ (map (λ c. c.header) shown ++ (codes "filename" ∷ [])))
    ++ codes "\n"

-- the event is one of those asked for, and had an occurrence, unless zeros are asked for
abbrev pub IsWanted : Inotifytools → Opts → Column → Type 0
IsWanted l o c = (bit_and c.event o.events ≢ 0) × ((o.zero ≢ 0) ⊎ (get_stat_total l c.event ≢ 0))

-- the columns that are wanted, in their order
pub data Picked (l : Inotifytools) (o : Opts) : List Column → List Column → Type 0 where
  no_column : Picked l o [] []
  picked :
      {c : Column} {cs ds : List Column}
      → IsWanted l o c
      → Picked l o cs ds
      → Picked l o (c ∷ cs) (c ∷ ds)
  passed :
      {c : Column} {cs ds : List Column}
      → ¬ IsWanted l o c
      → Picked l o cs ds
      → Picked l o (c ∷ cs) ds

-- a number in a cell that is filled up with blanks to the width of its header
abbrev pub IsCell : Bytes → ℕ → Bytes → Type 0
IsCell header n t =
    (digits : Bytes) × (room : ℕ) × (t ≡ digits ++ blanks room)
    × IsDecimal digits n
    × (length header ≤ length digits + room)
    × ((room ≡ 0) ⊎ (length digits + room ≡ length header))

-- the rest of a line: in each column the count of its event, and the name at the end
abbrev pub Cells : List Column → WatchStats → Bytes → Bytes → Type 0
Cells [] stats name t = t ≡ name ++ codes "\n"
Cells (c ∷ cs) stats name t =
    (n : ℕ) × (first : Bytes) × (rest : Bytes) × (Stats.get stats c.event ≡ some n)
    × IsCell c.header n first
    × (t ≡ first ++ (blanks 2 ++ rest))
    × Cells cs stats name rest

abbrev pub IsLine : List Column → Watch → Bytes → Type 0
IsLine shown w t =
    (first : Bytes) × (rest : Bytes) × IsCell (codes "total") w.stats.total first
    × (t ≡ first ++ (blanks 2 ++ rest))
    × Cells shown w.stats w.filename rest

-- a line for each watch that had an event, and with zeros for each
pub data Rows (show_zero : ℕ) (shown : List Column) : List (ℕ × Watch) → List Bytes → Type 0 where
  no_row : Rows show_zero shown [] []
  row :
      {id : ℕ} {w : Watch} {t : Bytes} {ws : List (ℕ × Watch)} {ts : List Bytes}
      → (show_zero ≢ 0) ⊎ (w.stats.total ≢ 0)
      → IsLine shown w t
      → Rows show_zero shown ws ts
      → Rows show_zero shown ((id, w) ∷ ws) (t ∷ ts)
  left_out :
      {id : ℕ} {w : Watch} {ws : List (ℕ × Watch)} {ts : List Bytes}
      → show_zero ≡ 0
      → w.stats.total ≡ 0
      → Rows show_zero shown ws ts
      → Rows show_zero shown ((id, w) ∷ ws) ts

-- the counters of the watches are of 32 bits
abbrev pub AreU32 : Inotifytools → Type 0
AreU32 l =
    (id : ℕ) (w : Watch) (event n : ℕ)
    → get id l.watches ≡ some w
    → Stats.get w.stats event ≡ some n
    → n < u32_mod

-- what holds of each column: it is as wide as its header, its event has a counter, and the header
-- is the event's name on the command line
pub record Sound (c : Column) : Type 0 where
  pub wide : c.width ≡ length c.header
  pub counted : (stats : WatchStats) → (n : ℕ) × (Stats.get stats c.event ≡ some n)
  pub named : str_to_event_sep (some c.header) b',' ≡ c.event
