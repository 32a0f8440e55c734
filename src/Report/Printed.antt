-- ===== src/Report/Printed.antt =====
-- What `print_info` prints, part by part, has the layout that Report/Layout describes.
use inotify_tools.Prelude.{
  ℕ, ◌+◌, ◌-◌, ◌≤◌, ◌<◌, ◌≡◌, ◌≢◌, ◌∙◌, refl, ap, sym, Bytes, Bool, true, false, not, ◌&&◌, ◌||◌,
  Option, some, List, [], ◌∷◌, ◌++◌, ◌==◌, ◌⊎◌, inl, inr, arith, All, length, replicate, map,
  bit_and, Bool-cases, unwrap_or,
}
use mathlib.Core.List.{append_assoc}
use inotify_tools.Prelude.Word.{u32_mod, has}
use inotify_tools.Prelude.Buffer.{codes}
use inotify_tools.Prelude.Ord.{nat_ord}
use inotify_tools.Counters.{get_stat_total}
use inotify_tools.Handle.{Inotifytools, Watch}
use inotify_tools.Events.{str_to_event_sep}
use inotify_tools.Options.Watch.{Opts}
use inotify_tools.Report.{
  Column, columns, decimal, cell, stat, values_of, shown_of, headers, header_line,
}
use inotify_tools.Report.Decimal.{decimal-IsDecimal}
use inotify_tools.Report.Layout.{
  blanks, joined, heading, Picked, no_column, picked, passed, IsCell, Cells, IsLine, Sound,
}
use inotify_tools.Stats as Stats
use inotify_tools.Stats.{WatchStats}

titles-joined :
    (shown : List Column)
    → headers shown ++ codes "filename\n"
      ≡ joined (blanks 2) (map (λ c. c.header) shown ++ (codes "filename" ∷ [])) ++ codes "\n"
unfolding headers
titles-joined [] = refl
titles-joined (c ∷ []) =
    append_assoc c.header _ (codes "filename\n") ∙ sym (append_assoc c.header _ (codes "\n"))
titles-joined (c ∷ d ∷ cs) =
    append_assoc c.header (codes "  " ++ headers (d ∷ cs)) (codes "filename\n")
    ∙ ap (λ (x : Bytes). c.header ++ (codes "  " ++ x)) (titles-joined (d ∷ cs))
    ∙ sym (append_assoc c.header _ (codes "\n"))

pub heading-header_line : (shown : List Column) → header_line shown ≡ heading shown
unfolding header_line
heading-header_line [] = refl
heading-header_line (c ∷ cs) = ap (λ (x : Bytes). codes "total  " ++ x) (titles-joined (c ∷ cs))

pub columns-Sound : All Sound columns
unfolding Stats.get str_to_event_sep inotify_tools.Events.bad_separator
    inotify_tools.Prelude.until_nul inotify_tools.Events.event_loop inotify_tools.Events.first_value
    inotify_tools.Events.onestr_to_event inotify_tools.Prelude.position inotify_tools.Prelude.eqb
columns-Sound = (
  record { wide = refl; counted = λ stats. (stats.access, refl); named = refl },
  (
    record { wide = refl; counted = λ stats. (stats.modify, refl); named = refl },
    (
      record { wide = refl; counted = λ stats. (stats.attrib, refl); named = refl },
      (
        record { wide = refl; counted = λ stats. (stats.close_write, refl); named = refl },
        (
          record { wide = refl; counted = λ stats. (stats.close_nowrite, refl); named = refl },
          (
            record { wide = refl; counted = λ stats. (stats.opened, refl); named = refl },
            (
              record { wide = refl; counted = λ stats. (stats.moved_from, refl); named = refl },
              (
                record { wide = refl; counted = λ stats. (stats.moved_to, refl); named = refl },
                (
                  record { wide = refl; counted = λ stats. (stats.move_self, refl); named = refl },
                  (
                    record { wide = refl; counted = λ stats. (stats.create, refl); named = refl },
                    (
                      record { wide = refl; counted = λ stats. (stats.delete, refl); named = refl },
                      (
                        record {
                          wide = refl;
                          counted = λ stats. (stats.delete_self, refl);
                          named = refl;
                        },
                        (
                          record {
                            wide = refl;
                            counted = λ stats. (stats.unmount, refl);
                            named = refl;
                          },
                          tt,
                        ),
                      ),
                    ),
                  ),
                ),
              ),
            ),
          ),
        ),
      ),
    ),
  ),
)

cell-IsCell :
    (header : Bytes) (width n : ℕ)
    → width ≡ length header
    → n < u32_mod
    → (t : Bytes) × (cell width n ≡ t ++ blanks 2) × IsCell header n t
unfolding cell
cell-IsCell header width n wide fits =
    let digits = decimal 10 n in
    let room = width - length digits in
    (
      digits ++ blanks room,
      sym (append_assoc digits (blanks room) (blanks 2)),
      (
        digits,
        room,
        refl,
        decimal-IsDecimal n fits,
        omega (arith, wide),
        elim (Bool-cases (room == 0)) [
          | inl e ↦ inl (ground (arith, e))
          | inr e ↦ inr (ground (arith, e, wide))
        ],
      ),
    )

pub values_of-Cells :
    (shown : List Column) (stats : WatchStats) (name : Bytes)
    → All Sound shown
    → ((event n : ℕ) → Stats.get stats event ≡ some n → n < u32_mod)
    → Cells shown stats name (values_of stats shown ++ (name ++ codes "\n"))
unfolding values_of stat
values_of-Cells [] stats name sound fit = refl
values_of-Cells (c ∷ cs) stats name (s, sound) fit =
    let (n, e) = s.counted stats in
    let (t, printed, is) = cell-IsCell c.header c.width n s.wide (fit c.event n e) in
    let rest = values_of stats cs ++ (name ++ codes "\n") in
    (
      n,
      t,
      rest,
      e,
      is,
      rw e (
          append_assoc (cell c.width n) (values_of stats cs) (name ++ codes "\n")
          ∙ ap (λ (x : Bytes). x ++ rest) printed
          ∙ append_assoc t (blanks 2) rest),
      values_of-Cells cs stats name sound fit,
    )

pub printed-IsLine :
    (shown : List Column) (w : Watch)
    → All Sound shown
    → ((event n : ℕ) → Stats.get w.stats event ≡ some n → n < u32_mod)
    → IsLine shown w
        (cell 5 w.stats.total ++ (values_of w.stats shown ++ (w.filename ++ codes "\n")))
unfolding Stats.get
printed-IsLine shown w sound fit =
    let (t, printed, is) =
      cell-IsCell (codes "total") 5 w.stats.total refl (fit 0 w.stats.total refl) in
    let rest = values_of w.stats shown ++ (w.filename ++ codes "\n") in
    (
      t,
      rest,
      is,
      ap (λ (x : Bytes). x ++ rest) printed ∙ append_assoc t (blanks 2) rest,
      values_of-Cells shown w.stats w.filename sound fit,
    )

-- the columns that `print_info` shows
pub shown_of-Picked :
    (l : Inotifytools) (o : Opts) (cs : List Column) → Picked l o cs (shown_of l o cs)
unfolding shown_of
shown_of-Picked l o [] = no_column
shown_of-Picked l o (c ∷ cs) =
    let rest = shown_of-Picked l o cs in
    elim (Bool-cases
      (has c.event o.events && (not (o.zero == 0) || not (get_stat_total l c.event == 0)))) [
        | inl e ↦ rw e (picked (ground (arith, e)) rest)
        | inr e ↦ rw e (passed (λ h. ground (arith, e, h)) rest)
      ]

pub shown_of-Sound :
    (l : Inotifytools) (o : Opts) (cs : List Column) → All Sound cs → All Sound (shown_of l o cs)
unfolding shown_of
shown_of-Sound l o [] h = tt
shown_of-Sound l o (c ∷ cs) h = ground (arith, h.0, shown_of-Sound l o cs h.1)

pub Sound-named :
    (cs : List Column)
    → All Sound cs
    → All (λ c. str_to_event_sep (some c.header) b',' ≡ c.event) cs
Sound-named [] h = tt
Sound-named (c ∷ cs) h = (h.0.named, Sound-named cs h.1)
