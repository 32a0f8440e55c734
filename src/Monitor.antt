-- ===== src/Monitor.antt =====
-- src/inotifywait.rs and src/inotifywatch.rs: the loops of the two `real_main` over the events,
-- once the watches stand. In place of what `output_event` prints, the events that it is called
-- with are listed. A signal is what the loop finds set when it looks.
pub mod Rounds
pub mod Batches
pub mod Counted
pub mod Statistics
use inotify_tools.Prelude.{
  ℕ, zero, suc, Bytes, Bool, true, false, not, ◌&&◌, ◌||◌, Option, none, some, List, [], ◌∷◌, ◌++◌,
  ◌==◌, ltb, if◌then◌else◌, bit_and,
}
use inotify_tools.Prelude.Word.{has}
use inotify_tools.Prelude.Buffer.{codes}
use inotify_tools.Consts.{in_isdir}
use inotify_tools.Filters.{has_include}
use inotify_tools.Handle.{Inotifytools, Regex, ◌>>=◌}
use inotify_tools.Kernel.{Kernel}
use inotify_tools.Names.{Event}
use inotify_tools.Options.Wait as Wait
use inotify_tools.Options.Watch as Watch
use inotify_tools.Reader.{Reader}
use inotify_tools.Reader.Next.{next_event}
use inotify_tools.Report.{print_info}
use inotify_tools.Tracker.{Outcome, handle}

abbrev pub exit_success : ℕ
exit_success = 0

abbrev pub exit_failure : ℕ
exit_failure = 1

abbrev pub exit_timeout : ℕ
exit_timeout = 2

abbrev pub eintr : ℕ
eintr = 4

-- what a loop carries: the handle, the pending move, the events shown and the messages
pub record State (W : Type 0) : Type 0 where
  pub reader : Reader
  pub moved_from : Option Bytes
  pub shown : List Event
  pub out : List Bytes
  pub sys : W

-- the state behind `MoveTracker::handle`
abbrev pub follow : {W : Type 0} → State W → Outcome W → State W
follow st o = record st {
  reader = record st.reader { lib = o.lib };
  moved_from = o.moved_from;
  out = st.out ++ o.out;
  sys = o.sys;
}

-- whether inotifywait shows an event; with an include filter, no events on directories
unfoldable pub is_shown : Wait.Opts → ℕ → Event → Bool
is_shown o orig_events ev =
    ltb o.quiet 2
    && has ev.mask orig_events
    && (not (has_include o.filters) || not (has ev.mask in_isdir))

-- what inotifywait returns behind its loop
unfoldable pub verdict_of : ℕ → Event → ℕ
verdict_of events ev = if has ev.mask events then exit_success else exit_failure

-- what the signals have set when a round of inotifywatch looks: before and behind the wait for an
-- event, and at its end
abbrev pub Signals : Type 0
Signals = Bool × Bool × Bool

module _ {W : Type 0} (k : Kernel W) (strerror : ℕ → Bytes) where
  -- one event in the loop of inotifywait
  unfoldable pub on_event : ℕ → Wait.Opts → ℕ → ℕ → Event → State W → Option (State W)
  on_event fuel o events orig_events ev st =
      let st =
        if is_shown o orig_events ev then record st { shown = st.shown ++ (ev ∷ []) } else st in
      if o.filesystem
      then some st
      else (handle k strerror fuel st.moved_from st.reader.lib ev
            (o.monitor && not (o.recursive == 0)) events (o.quiet == 0) st.sys
          >>= λ r. some (follow st r))

module _ {W : Type 0} (k : Kernel W) where
  -- `check_print_now`; the text is put behind what was printed
  unfoldable pub check_print_now : Bool → Watch.Opts → Bytes × State W → Option (Bytes × State W)
  unfolding print_info
  check_print_now false o (printed, st) = some (printed, st)
  check_print_now true o (printed, st) = print_info k st.reader.lib o st.sys >>= λ (text, s).
      some (printed ++ (text ++ codes "\n"), record st { sys = s })

module _ {W : Type 0} (k : Kernel W) (regexec : Regex → Bytes → Bool) (strerror : ℕ → Bytes) where
  -- The loop of inotifywait, on fuel for its rounds; what it returns, and the state.
  unfoldable pub wait_loop : ℕ → ℕ → Wait.Opts → ℕ → ℕ → State W → Option (ℕ × State W)
  wait_loop zero fuel o events orig_events st = none
  wait_loop (suc n) fuel o events orig_events st =
      next_event k regexec fuel st.reader o.timeout st.sys >>= λ (event, r, s).
      let st = record st { reader = r; sys = s } in
      elim event [
        | none ↦
            if r.lib.error == 0
            then some (exit_timeout, st)
            else some (
              exit_failure,
              record st { out = st.out ++ ((strerror r.lib.error ++ codes "\n") ∷ []) },
            )
        | some ev ↦ on_event k strerror fuel o events orig_events ev st >>= λ st'.
            let rest = wait_loop n fuel o events orig_events st' in
            if o.monitor then rest else some (verdict_of events ev, st')
      ]

  -- The loop of inotifywatch, over the signals of its rounds, with the text that it printed; the
  -- list ends before the loop does if `done` is never set.
  unfoldable pub watch_loop :
      ℕ → Watch.Opts → ℕ → ℕ → List Signals → Bytes × State W → Option (ℕ × Bytes × State W)
  unfolding check_print_now print_info
  watch_loop fuel o blocking events [] p = none
  watch_loop fuel o blocking events ((before, behind, done) ∷ signals) p =
      check_print_now k before o p >>= λ (printed, st).
      next_event k regexec fuel st.reader blocking st.sys >>= λ (event, r, s).
      check_print_now k behind o (printed, record st { reader = r; sys = s }) >>= λ (printed, st).
      let after : Option (Option ℕ × State W) = elim event [
        | none ↦
            if st.reader.lib.error == 0
            then some (some exit_timeout, st)
            else if not (st.reader.lib.error == eintr)
            then some (
              some exit_failure,
              record st { out = st.out ++ ((strerror st.reader.lib.error ++ codes "\n") ∷ []) },
            )
            else some (none, st)
        | some ev ↦
            if o.filesystem
            then some (none, st)
            else (handle k strerror fuel st.moved_from st.reader.lib ev (not (o.recursive == 0))
                  events false st.sys
                >>= λ r. some (none, follow st r))
      ] in
      after >>= λ (code, st).
      let rest = watch_loop fuel o blocking events signals (printed, st) in
      elim code [
        | some c ↦ some (c, printed, st)
        | none ↦
            if done
            then (print_info k st.reader.lib o st.sys >>= λ (text, s).
                some (exit_success, printed ++ text, record st { sys = s }))
            else rest
      ]
