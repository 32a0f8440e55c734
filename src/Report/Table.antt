-- ===== src/Report/Table.antt =====
-- The table of `print_info` line by line.
use inotify_tools.Prelude.{
  ℕ, ◌≡◌, refl, ap, ◌∙◌, Bytes, Bool, not, some, List, [], ◌∷◌, ◌++◌, ◌==◌, arith, if◌then◌else◌,
  map, All, Bool-cases, Option-cases, inl, inr,
}
use mathlib.Core.List.{Perm, append_assoc}
use inotify_tools.Prelude.Ord.{nat_ord}
use inotify_tools.Prelude.Buffer.{codes}
use inotify_tools.BTreeMap.{get, values}
use inotify_tools.Counters.{get_stat_total, sort_order}
use inotify_tools.Counters.Sorted.{IsSorted, Asks, sort_order-Asks, IsSorted-rows}
use inotify_tools.Events.{str_to_event_sep}
use mathlib.Core.Path.{subst}
use inotify_tools.Handle.{Inotifytools, Watch}
use inotify_tools.Kernel.{Kernel}
use inotify_tools.Names.{filename_from_watch, filename_from_watch_id}
use inotify_tools.Options.Watch.{Opts}
use inotify_tools.Registry.{watch}
use inotify_tools.Registry.Invariant.{Inv}
use inotify_tools.Report.Layout.{heading, Picked, Rows, no_row, row, left_out, AreU32, Sound}
use inotify_tools.Report.Printed.{
  heading-header_line, printed-IsLine, Sound-named, columns-Sound, shown_of-Picked, shown_of-Sound,
}
use inotify_tools.Report.{
  Column, columns, cell, values_of, shown_of, header_line, lines, print_info,
}

-- the line of a watch
abbrev pub line : List Column → Watch → Bytes
line shown w = cell 5 w.stats.total ++ (values_of w.stats shown ++ (w.filename ++ codes "\n"))

-- the lines of the watches that had events, or of all
abbrev pub body : Bool → List Column → List (ℕ × Watch) → List Bytes
body all shown [] = []
body all shown ((id, w) ∷ ws) =
    if all
    then line shown w ∷ body all shown ws
    else if w.stats.total == 0
    then body all shown ws
    else line shown w ∷ body all shown ws

abbrev pub text : List Bytes → Bytes
text [] = []
text (l ∷ ls) = l ++ text ls

line-append :
    (shown : List Column) (w : Watch) (rest : Bytes)
    → line shown w ++ rest
      ≡ cell 5 w.stats.total ++ (values_of w.stats shown ++ (w.filename ++ (codes "\n" ++ rest)))
line-append shown w rest =
    append_assoc (cell 5 w.stats.total) _ rest
    ∙ ap (λ (x : Bytes). cell 5 w.stats.total ++ x) (append_assoc (values_of w.stats shown) _ rest)
    ∙ ap (λ (x : Bytes). cell 5 w.stats.total ++ (values_of w.stats shown ++ x))
        (append_assoc w.filename (codes "\n") rest)

module _ {W : Type 0} (k : Kernel W) where
  filename_lem :
      (l : Inotifytools) (id : ℕ) (w : Watch) (s : W)
      → l.fanotify_mark_type ≡ 0
      → get id l.watches ≡ some w
      → filename_from_watch k l id s ≡ some (w.filename, s)
  unfolding filename_from_watch filename_from_watch_id watch
  filename_lem l id w s type h = elim (Option-cases w.fid) [
    | inl f ↦ ground (arith, h, f, type)
    | inr (x, f) ↦ ground (arith, h, f, type)
  ]

  lines_lem :
      (l : Inotifytools) (show_zero : ℕ) (shown : List Column) (ws : List (ℕ × Watch)) (s : W)
      → l.fanotify_mark_type ≡ 0
      → All (λ p. get p.0 l.watches ≡ some p.1) ws
      → lines k l show_zero shown (map (λ p. (p.0, p.1.stats)) ws) s
        ≡ some (text (body (not (show_zero == 0)) shown ws), s)
  unfolding lines
  lines_lem l show_zero shown [] s type live = refl
  lines_lem l show_zero shown ((id, w) ∷ ws) s type (e, live) =
      let ih = lines_lem l show_zero shown ws s type live in
      let named = filename_lem l id w s type e in
      let printed = line-append shown w (text (body (not (show_zero == 0)) shown ws)) in
      elim (Bool-cases (show_zero == 0)) [
        | inl z ↦ elim (Bool-cases (w.stats.total == 0)) [
          | inl n ↦ ground (arith, z, n, ih)
          | inr n ↦ ground (arith, z, n, named, ih, printed)
        ]
        | inr z ↦ ground (arith, z, named, ih, printed)
      ]

  -- the table, by the functions for its columns and lines
  pub printed_table :
      (l : Inotifytools) (o : Opts) (s : W)
      → Inv l
      → l.fanotify_mark_type ≡ 0
      → let shown = shown_of l o columns in
        (ws : List (ℕ × Watch)) × (print_info k l o s
          ≡ some (
            if get_stat_total l 0 == 0
                then []
                else header_line shown ++ text (body (not (o.zero == 0)) shown ws),
            s,
          ))
        × Perm (map (λ p. p.0) ws) (values l.by_wd)
        × All (λ p. get p.0 l.watches ≡ some p.1) ws
        × IsSorted (sort_order o.sort).0 (sort_order o.sort).1 ws
  unfolding print_info
  printed_table l o s v type =
      let (ws, e, perm, live, sorted) = IsSorted-rows l o.sort v in
      let printed = lines_lem l o.zero (shown_of l o columns) ws s type live in
      (
        ws,
        elim (Bool-cases (get_stat_total l 0 == 0)) [
          | inl z ↦ ground (arith, z)
          | inr z ↦ ground (arith, z, e, printed)
        ],
        perm,
        live,
        sorted,
      )

  body-Rows :
      (show_zero : ℕ) (shown : List Column) (l : Inotifytools) (ws : List (ℕ × Watch))
      → All Sound shown
      → AreU32 l
      → All (λ p. get p.0 l.watches ≡ some p.1) ws
      → Rows show_zero shown ws (body (not (show_zero == 0)) shown ws)
  body-Rows show_zero shown l [] sound fit live = no_row
  body-Rows show_zero shown l ((id, w) ∷ ws) sound fit (e, live) =
      let rest = body-Rows show_zero shown l ws sound fit live in
      let is = printed-IsLine shown w sound (λ event n. fit id w event n e) in
      elim (Bool-cases (show_zero == 0)) [
        | inr z ↦ rw z (row (inl (ground (arith, z))) is rest)
        | inl z ↦ elim (Bool-cases (w.stats.total == 0)) [
          | inl n ↦ rw (z, n) (left_out (ground (arith, z)) (ground (arith, n)) rest)
          | inr n ↦ rw (z, n) (row (inr (ground (arith, n))) is rest)
        ]
      ]

  -- On a registry that satisfies the invariant and whose counters are below 2^32, where no
  -- filesystem is watched, `print_info` does not panic and asks nothing of the system. If no event
  -- was counted, it prints no table. Otherwise it prints the heading and the lines. The columns are
  -- those of the 13 events that are asked for and had an occurrence (with -z, that are asked for),
  -- under the names by which the command line takes them. Each watch that is found by its
  -- descriptor and had an event (with -z, each watch) has one line: the total and then the counts
  -- of the events of the columns in decimal, filled up with blanks to the width of the header and
  -- two more, and the name of the watch. The lines are in the order that the sort key asks for:
  -- above 0 ascending by that event, 0 ascending and -1 descending by the total, and otherwise
  -- descending by the event that the key is the negative of, with equal counts by descriptor.
  pub print_info_lem :
      (l : Inotifytools) (o : Opts) (event : ℕ) (asc : Bool) (s : W)
      → Inv l
      → AreU32 l
      → l.fanotify_mark_type ≡ 0
      → Asks o.sort event asc
      → (shown : List Column) × (ws : List (ℕ × Watch)) × (ts : List Bytes) × (print_info k l o s
          ≡ some (if get_stat_total l 0 == 0 then [] else heading shown ++ text ts, s))
        × Picked l o columns shown
        × All (λ c. str_to_event_sep (some c.header) b',' ≡ c.event) shown
        × Rows o.zero shown ws ts
        × Perm (map (λ p. p.0) ws) (values l.by_wd)
        × All (λ p. get p.0 l.watches ≡ some p.1) ws
        × IsSorted event asc ws
  print_info_lem l o event asc s v fit type asks =
      let shown = shown_of l o columns in
      let sound = shown_of-Sound l o columns columns-Sound in
      let (ws, e, perm, live, sorted) = printed_table l o s v type in
      (
        shown,
        ws,
        body (not (o.zero == 0)) shown ws,
        rw (← heading-header_line shown) e,
        shown_of-Picked l o columns,
        Sound-named shown sound,
        body-Rows o.zero shown l ws sound fit live,
        perm,
        live,
        subst (λ (p : ℕ × Bool). IsSorted p.0 p.1 ws) (sort_order-Asks o.sort event asc asks)
            sorted,
      )
