-- ===== src/Monitor/Batches.antt =====
-- inotifywait -m on a batch of events, up to the timeout.
use inotify_tools.Prelude.{
  ℕ, suc, ◌≤◌, ◌<◌, ◌≡◌, ◌∙◌, sym, refl, ap, Bytes, Bool, List, [], ◌∷◌, ◌++◌, arith, length, All,
  none, some, if◌then◌else◌, true, false, length-append,
}
use mathlib.Core.List.{append-nil}
use inotify_tools.Prelude.Ord.{nat_ord}
use inotify_tools.Handle.{Regex}
use inotify_tools.Kernel.{Kernel}
use inotify_tools.Monitor.{is_shown, wait_loop, exit_timeout}
use inotify_tools.Names.{Event}
use inotify_tools.Options.Wait.{Opts}
use inotify_tools.Reader.{Reader, cap}
use inotify_tools.Reader.Next.{next_event}
use inotify_tools.Reader.Wire.{IsEvent, encode, length-encode}
use inotify_tools.Reader.Left.{buffered_lem, next_At}
use inotify_tools.Reader.Remaining.{encodes, counted, At, behind, found}
use inotify_tools.Reader.Batch.{Ready, asked, filled, first_lem, At-filled}
use inotify_tools.Monitor.Rounds.{
  patience, seen, counted-fd, quiet, step_lem, seen_lem, Ends, idle_at,
}

module _ {W : Type 0} (k : Kernel W) (regexec : Regex → Bytes → Bool) (strerror : ℕ → Bytes)
    (fuel events orig_events : ℕ) (o : Opts) where
  module _ (fs : o.filesystem ≡ false) (monitor : o.monitor ≡ true) (rec : o.recursive ≡ 0) where
    buffered_loop :
        (r : Reader) (pre : Bytes) (ev : Event) (evs : List Event) (post : Bytes)
        (shown : List Event) (s : W) (fd : ℕ)
        → At (found r) pre (ev ∷ evs) post
        → 0 < length pre
        → r.lib.fd ≡ fd
        → (k.ppoll fd (patience o) s).0 ≡ 0
        → Ends k regexec strerror fuel events orig_events o
            (suc (suc (length evs)))
            (quiet r shown s)
            fd
            (shown ++ seen o orig_events (ev ∷ evs))
            s
    buffered_loop r pre ev [] post shown s fd h pos e late =
        let r1 = record (behind (found r) ev []) { lib = counted (found r).lib ev } in
        let shown' = if is_shown o orig_events ev then shown ++ (ev ∷ []) else shown in
        let next = buffered_lem k regexec (suc fuel) r pre ev [] post (patience o) 1 s h pos refl in
        let step =
          step_lem k regexec strerror fuel events orig_events o 1 r r1 ev shown s s fs monitor rec
            (unfold next_event in next) in
        let (r', done) =
          idle_at k regexec strerror fuel events orig_events o 0 fd r1 shown' s
            (counted-fd (found r).lib ev ∙ e) refl late in
        (
          r',
          step
              ∙ done
              ∙ ap
                  (λ (x : List Event).
                    some (exit_timeout, quiet r' x (k.ppoll fd (patience o) s).1))
                  (sym (append-nil shown')
                    ∙ seen_lem k regexec strerror fuel events orig_events o ev [] shown),
        )
    buffered_loop r pre ev (next_ev ∷ evs) post shown s fd h pos e late =
        let r1 = record (behind (found r) ev (next_ev ∷ evs)) { lib = counted (found r).lib ev } in
        let shown' = if is_shown o orig_events ev then shown ++ (ev ∷ []) else shown in
        let next =
          buffered_lem k regexec (suc fuel) r pre ev (next_ev ∷ evs) post (patience o) 1 s h pos
            refl in
        let step =
          step_lem k regexec strerror fuel events orig_events o (suc (suc (length evs))) r r1 ev
            shown s s fs monitor rec (unfold next_event in next) in
        let (r', done) =
          buffered_loop r1 (pre ++ encode ev) next_ev evs post shown' s fd
            (next_At k regexec (found r) pre ev next_ev evs post h)
            (omega (arith, pos, length-append pre (encode ev))) (counted-fd (found r).lib ev ∙ e)
            late in
        (
          r',
          step
              ∙ done
              ∙ ap
                  (λ (x : List Event).
                    some (exit_timeout, quiet r' x (k.ppoll fd (patience o) s).1))
                  (seen_lem k regexec strerror fuel events orig_events o ev (next_ev ∷ evs) shown),
        )

    -- inotifywait -m, without -r and not for a filesystem, outside fanotify, without a filter in the
    -- library and with no event left in the buffer: when the system has a batch of events that fits
    -- half the buffer, and nothing more until the timeout, the loop shows exactly the events of the
    -- batch that have an event that was asked for (with an include filter, and are not on a
    -- directory; with -qq, none), in their order, gives no message, and ends with the exit code of a
    -- timeout.
    pub wait_loop_lem :
        (r : Reader) (ev : Event) (evs : List Event) (s : W)
        → r.lib.fanotify_mode ≡ false
        → r.lib.regex ≡ none
        → r.first_byte ≡ 0
        → length (encodes (ev ∷ evs)) ≤ cap
        → cap ≤ length r.evbuf
        → All IsEvent (ev ∷ evs)
        → Ready k r (ev ∷ evs) (patience o) 1 s
        → (k.ppoll r.lib.fd (patience o) (asked k r (patience o) s)).0 ≡ 0
        → (r' : Reader) × (wait_loop k regexec strerror
              (suc (suc (length evs)))
              (suc (suc fuel))
              o
              events
              orig_events
              (quiet r [] s)
            ≡ some (
              exit_timeout,
              quiet r'
                  (seen o orig_events (ev ∷ evs))
                  (k.ppoll r.lib.fd (patience o) (asked k r (patience o) s)).1,
            ))
    wait_loop_lem r ev [] s inotify unfiltered empty small large real h late =
        let r0 = filled r (encodes (ev ∷ [])) in
        let r1 = record (behind r0 ev []) { lib = counted r0.lib ev } in
        let s' = asked k r (patience o) s in
        let next =
          first_lem k regexec fuel r ev [] (patience o) 1 s inotify unfiltered empty small large
            real refl h in
        let step =
          step_lem k regexec strerror fuel events orig_events o 1 r r1 ev [] s s' fs monitor rec
            (unfold next_event in next) in
        let shown = if is_shown o orig_events ev then [] ++ (ev ∷ []) else [] in
        let (r', done) =
          idle_at k regexec strerror fuel events orig_events o 0 r.lib.fd r1 shown s'
            (counted-fd r0.lib ev) refl late in
        (
          r',
          step
              ∙ done
              ∙ ap
                  (λ (x : List Event).
                    some (exit_timeout, quiet r' x (k.ppoll r.lib.fd (patience o) s').1))
                  (sym (append-nil shown)
                    ∙ seen_lem k regexec strerror fuel events orig_events o ev [] []),
        )
    wait_loop_lem r ev (e ∷ evs) s inotify unfiltered empty small large real h late =
        let r0 = filled r (encodes (ev ∷ e ∷ evs)) in
        let r1 = record (behind r0 ev (e ∷ evs)) { lib = counted r0.lib ev } in
        let s' = asked k r (patience o) s in
        let at =
          At-filled k regexec fuel r ev (e ∷ evs) (patience o) 1 s inotify unfiltered empty small
            large real in
        let next =
          first_lem k regexec fuel r ev (e ∷ evs) (patience o) 1 s inotify unfiltered empty small
            large real refl h in
        let step =
          step_lem k regexec strerror fuel events orig_events o (suc (suc (length evs))) r r1 ev []
            s s' fs monitor rec (unfold next_event in next) in
        let (r', done) =
          buffered_loop r1 (encode ev) e evs _ _ s' r.lib.fd (next_At k regexec r0 [] ev e evs _ at)
            (omega (arith, length-encode ev real.0)) (counted-fd r0.lib ev) late in
        (
          r',
          step
              ∙ done
              ∙ ap
                  (λ (x : List Event).
                    some (exit_timeout, quiet r' x (k.ppoll r.lib.fd (patience o) s').1))
                  (seen_lem k regexec strerror fuel events orig_events o ev (e ∷ evs) []),
        )
