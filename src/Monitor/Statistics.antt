-- ===== src/Monitor/Statistics.antt =====
-- inotifywatch on a batch of events, up to the signal that ends it.
use inotify_tools.Prelude.{
  ℕ, suc, ◌-◌, ◌≤◌, ◌<◌, ◌≡◌, ◌∙◌, refl, Bytes, Bool, Option, List, [], ◌∷◌, ◌++◌, arith, length,
  All, none, some, ◌==◌, not, if◌then◌else◌, true, false, length-append, map,
}
use mathlib.Core.Path.{subst}
use mathlib.Core.List.{Perm}
use inotify_tools.Prelude.Ord.{nat_ord}
use inotify_tools.BTreeMap.{BTreeMap, get, values}
use inotify_tools.Counters.{get_stat_total}
use inotify_tools.Counters.Sorted.{IsSorted, Asks}
use inotify_tools.Registry.Invariant.{Inv}
use inotify_tools.Prelude.Word.{u64_mod}
use inotify_tools.Handle.{Inotifytools, Watch, Regex, ◌>>=◌}
use inotify_tools.Kernel.{Kernel}
use inotify_tools.Monitor.{State, Signals, watch_loop, check_print_now, exit_success}
use inotify_tools.Monitor.Rounds.{quiet, unmoved}
use inotify_tools.Names.{Event}
use inotify_tools.Options.Watch.{Opts}
use inotify_tools.Reader.{Reader, cap}
use inotify_tools.Reader.Next.{next_event}
use inotify_tools.Reader.Wire.{IsEvent, encode, length-encode}
use inotify_tools.Reader.Left.{buffered_lem, next_At}
use inotify_tools.Reader.Remaining.{encodes, counted, counted_all, At, behind, found}
use inotify_tools.Reader.Batch.{Ready, asked, filled, first_lem, At-filled}
use inotify_tools.Report.{Column, columns, print_info}
use inotify_tools.Report.Layout.{heading, Picked, Rows, AreU32}
use inotify_tools.Report.Table.{text, print_info_lem}
use inotify_tools.Monitor.Counted.{counted_all-Counts}

abbrev pub forever : ℕ
forever = u64_mod - 1

-- a round with no signal, and one that ends with SIGINT
abbrev pub calm : Signals
calm = (false, false, false)

abbrev pub last : Signals
last = (false, false, true)

-- so many rounds, the last of which ends the loop
abbrev pub rounds_of : List Event → List Signals
rounds_of [] = last ∷ []
rounds_of (ev ∷ evs) = calm ∷ rounds_of evs

module _ {W : Type 0} (k : Kernel W) (regexec : Regex → Bytes → Bool) (strerror : ℕ → Bytes)
    (fuel events : ℕ) (o : Opts) where
  -- the report on a handle is printed, and the loop is over
  abbrev pub Reports : Option (ℕ × Bytes × State W) → Inotifytools → W → Type 0
  Reports result l s =
      (r : Reader) × (result
        ≡ (print_info k l o s >>= λ (text, s'). some (exit_success, text, quiet r [] s')))

  abbrev loop_on : List Signals → Reader → W → Option (ℕ × Bytes × State W)
  loop_on signals r s =
      watch_loop k regexec strerror (suc (suc fuel)) o 0 events signals ([], quiet r [] s)

  module _ (fs : o.filesystem ≡ false) (rec : o.recursive ≡ 0) where
    step_lem :
        (r r' : Reader) (ev : Event) (signals : List Signals) (s s' : W)
        → next_event k regexec (suc (suc fuel)) r 0 s ≡ some (some ev, r', s')
        → loop_on (calm ∷ signals) r s ≡ loop_on signals r' s'
    unfolding watch_loop check_print_now
    step_lem r r' ev signals s s' next =
        let off : not (o.recursive == 0) ≡ false = ground (arith, rec) in
        simp (next, fs, off, unmoved k strerror fuel events r'.lib ev false s') refl

    last_lem :
        (r r' : Reader) (ev : Event) (s s' : W)
        → next_event k regexec (suc (suc fuel)) r 0 s ≡ some (some ev, r', s')
        → Reports (loop_on (last ∷ []) r s) r'.lib s'
    unfolding watch_loop check_print_now
    last_lem r r' ev s s' next =
        let off : not (o.recursive == 0) ≡ false = ground (arith, rec) in
        (r', rw (next, fs, off, unmoved k strerror fuel events r'.lib ev false s') refl)

    -- events that are left in the buffer
    buffered_loop :
        (r : Reader) (pre : Bytes) (ev : Event) (evs : List Event) (post : Bytes) (s : W)
        → At (found r) pre (ev ∷ evs) post
        → 0 < length pre
        → Reports (loop_on (rounds_of evs) r s) (counted_all r.lib (ev ∷ evs)) s
    buffered_loop r pre ev [] post s h pos =
        last_lem r (record (behind (found r) ev []) { lib = counted (found r).lib ev }) ev s s
          (unfold next_event in
            buffered_lem k regexec (suc fuel) r pre ev [] post forever 1 s h pos refl)
    buffered_loop r pre ev (next_ev ∷ evs) post s h pos =
        let r1 = record (behind (found r) ev (next_ev ∷ evs)) { lib = counted (found r).lib ev } in
        let step = step_lem r r1 ev (rounds_of evs) s s (
          unfold next_event in
          buffered_lem k regexec (suc fuel) r pre ev (next_ev ∷ evs) post forever 1 s h pos refl) in
        let (r', done) =
          buffered_loop r1 (pre ++ encode ev) next_ev evs post s
            (next_At k regexec (found r) pre ev next_ev evs post h)
            (omega (arith, pos, length-append pre (encode ev))) in
        (r', step ∙ done)

    -- the whole batch
    whole_loop :
        (r : Reader) (ev : Event) (evs : List Event) (s : W)
        → r.lib.fanotify_mode ≡ false
        → r.lib.regex ≡ none
        → r.first_byte ≡ 0
        → length (encodes (ev ∷ evs)) ≤ cap
        → cap ≤ length r.evbuf
        → All IsEvent (ev ∷ evs)
        → Ready k r (ev ∷ evs) forever 1 s
        → Reports (loop_on (rounds_of evs) r s) (counted_all r.lib (ev ∷ evs)) (asked k r forever s)
    whole_loop r ev [] s inotify unfiltered empty small large real h =
        let r0 = filled r (encodes (ev ∷ [])) in
        last_lem r (record (behind r0 ev []) { lib = counted r0.lib ev }) ev s (asked k r forever s)
          (unfold next_event in
            first_lem k regexec fuel r ev [] forever 1 s inotify unfiltered empty small large real
              refl h)
    whole_loop r ev (e ∷ evs) s inotify unfiltered empty small large real h =
        let r0 = filled r (encodes (ev ∷ e ∷ evs)) in
        let r1 = record (behind r0 ev (e ∷ evs)) { lib = counted r0.lib ev } in
        let at =
          At-filled k regexec fuel r ev (e ∷ evs) forever 1 s inotify unfiltered empty small large
            real in
        let step = step_lem r r1 ev (rounds_of evs) s (asked k r forever s) (
          unfold next_event in
          first_lem k regexec fuel r ev (e ∷ evs) forever 1 s inotify unfiltered empty small large
            real refl h) in
        let (r', done) =
          buffered_loop r1 (encode ev) e evs _ (asked k r forever s)
            (next_At k regexec r0 [] ev e evs _ at) (omega (arith, length-encode ev real.0)) in
        (r', step ∙ done)

    -- inotifywatch, without -r and not for a filesystem, outside fanotify, without a filter in the
    -- library and with no event left in the buffer, on a registry that satisfies the invariant and
    -- whose counters are below 2^32: when the system has a batch of events that fits half the buffer,
    -- and a signal ends the loop in the round of the last of them, the loop returns the exit code of
    -- success, gives no message, and prints the table of the handle in which exactly these events are
    -- counted: none, if there was nothing to count; and otherwise the heading, with the events that
    -- are asked for and had an occurrence (with -z, that are asked for), and a line for each watch
    -- that had an event (with -z, for each watch), with its counts in decimal and its name, in the
    -- order that the sort key asks for.
    pub watch_loop_lem :
        (r : Reader) (ev : Event) (evs : List Event) (event : ℕ) (asc : Bool) (s : W)
        → r.lib.fanotify_mode ≡ false
        → r.lib.fanotify_mark_type ≡ 0
        → r.lib.regex ≡ none
        → r.first_byte ≡ 0
        → Inv r.lib
        → AreU32 r.lib
        → Asks o.sort event asc
        → length (encodes (ev ∷ evs)) ≤ cap
        → cap ≤ length r.evbuf
        → All IsEvent (ev ∷ evs)
        → Ready k r (ev ∷ evs) forever 1 s
        → let l = counted_all r.lib (ev ∷ evs) in
          (r' : Reader) × (shown : List Column) × (ws : List (ℕ × Watch)) × (ts : List Bytes)
          × (watch_loop k regexec strerror
                (suc (suc fuel))
                o
                0
                events
                (rounds_of evs)
                ([], quiet r [] s)
              ≡ some (
                exit_success,
                if get_stat_total l 0 == 0 then [] else heading shown ++ text ts,
                quiet r' [] (asked k r forever s),
              ))
          × Picked l o columns shown
          × Rows o.zero shown ws ts
          × Perm (map (λ p. p.0) ws) (values r.lib.by_wd)
          × All (λ p. get p.0 l.watches ≡ some p.1) ws
          × IsSorted event asc ws
    watch_loop_lem r ev evs event asc s inotify inodes unfiltered empty v fit asks small large real
          h =
        let l = counted_all r.lib (ev ∷ evs) in
        let s' = asked k r forever s in
        let (v', fit', mark, wds) = counted_all-Counts (ev ∷ evs) r.lib v fit in
        let (r', done) = whole_loop r ev evs s inotify unfiltered empty small large real h in
        let (shown, ws, ts, printed, which, named, rows, perm, live, sorted) =
          print_info_lem k l o event asc s' v' fit' (mark ∙ inodes) asks in
        (
          r',
          shown,
          ws,
          ts,
          done ∙ rw printed refl,
          which,
          rows,
          subst (λ (m : BTreeMap ℕ ℕ). Perm (map (λ p. p.0) ws) (values m)) wds perm,
          live,
          sorted,
        )
