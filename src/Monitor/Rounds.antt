-- ===== src/Monitor/Rounds.antt =====
-- The rounds of `wait_loop` that handle an event which moves no name, or wait in vain.
use inotify_tools.Prelude.{
  ℕ, suc, ltb, bit_and, ◌-◌, ◌≡◌, refl, Bytes, Bool, List, [], ◌∷◌, ◌++◌, arith, none, some, ◌==◌,
  ◌&&◌, not, if◌then◌else◌, Bool-cases, Option-cases, inl, inr, true, false,
}
use mathlib.Core.List.{append_assoc}
use mathlib.Core.Path.{subst}
use inotify_tools.Prelude.Ord.{nat_ord}
use inotify_tools.BTreeMap.{get}
use inotify_tools.Prelude.Word.{u64_mod, has}
use inotify_tools.Consts.{in_isdir}
use inotify_tools.Filters.{has_include}
use inotify_tools.Counters.{record_stats}
use inotify_tools.Handle.{Inotifytools, Regex}
use inotify_tools.Kernel.{Kernel}
use inotify_tools.Monitor.{State, is_shown, on_event, wait_loop, exit_timeout}
use inotify_tools.Names.{Event}
use inotify_tools.Options.Wait.{Opts}
use inotify_tools.Reader.{Reader}
use inotify_tools.Reader.Next.{look, fill, round, rounds, next_events_raw, next_events, next_event}
use inotify_tools.Reader.Remaining.{counted}
use inotify_tools.Tracker.{handle, abandon}

-- the timeout of `next_event`
abbrev pub patience : Opts → ℕ
patience o = if o.timeout == 0 then u64_mod - 1 else o.timeout

-- Whether an event is to be shown: not with -qq, and not an event on a directory with an include
-- filter; otherwise, if it has one of the events that were asked for.
abbrev pub wanted : Opts → ℕ → Event → Bool
wanted o orig_events ev =
    if ltb 1 o.quiet
    then false
    else if has_include o.filters && has ev.mask in_isdir
    then false
    else not (bit_and ev.mask orig_events == 0)

-- the events that are shown
abbrev pub seen : Opts → ℕ → List Event → List Event
seen o orig_events [] = []
seen o orig_events (ev ∷ evs) =
    if wanted o orig_events ev then ev ∷ seen o orig_events evs else seen o orig_events evs

wanted-is_shown :
    (o : Opts) (orig_events : ℕ) (ev : Event) → is_shown o orig_events ev ≡ wanted o orig_events ev
unfolding is_shown
wanted-is_shown o orig_events ev = ground arith

pub counted-fd : (l : Inotifytools) (ev : Event) → (counted l ev).fd ≡ l.fd
unfolding record_stats
counted-fd l ev = elim (Option-cases (get ev.wd l.by_wd)) [
  | inl e ↦ ground (arith, e)
  | inr (id, e) ↦ ground (arith, e)
]

-- a quiet state of the loop: no move is pending and there was no message
abbrev pub quiet : {W : Type 0} → Reader → List Event → W → State W
quiet r shown s = record { reader = r; moved_from = none; shown = shown; out = []; sys = s }

module _ {W : Type 0} (k : Kernel W) (strerror : ℕ → Bytes) (fuel events : ℕ) where
  pub unmoved :
      (l : Inotifytools) (ev : Event) (announce : Bool) (s : W)
      → handle k strerror (suc (suc fuel)) none l ev false events announce s
        ≡ some (record { moved_from = none; lib = l; out = []; sys = s })
  unfolding handle abandon
  unmoved l ev announce s = refl

module _ {W : Type 0} (k : Kernel W) (regexec : Regex → Bytes → Bool) (strerror : ℕ → Bytes)
    (fuel events orig_events : ℕ) (o : Opts) where
  event_lem :
      (r : Reader) (ev : Event) (shown : List Event) (s : W)
      → o.filesystem ≡ false
      → o.monitor ≡ true
      → o.recursive ≡ 0
      → on_event k strerror (suc (suc fuel)) o events orig_events ev (quiet r shown s)
        ≡ some (quiet r (if is_shown o orig_events ev then shown ++ (ev ∷ []) else shown) s)
  unfolding on_event
  event_lem r ev shown s fs monitor rec =
      let off : (o.monitor && not (o.recursive == 0)) ≡ false = ground (arith, monitor, rec) in
      elim (Bool-cases (is_shown o orig_events ev)) [
        | inl y ↦
            rw (on_event, y, fs, off, unmoved k strerror fuel events r.lib ev (o.quiet == 0) s) refl
        | inr n ↦
            rw (on_event, n, fs, off, unmoved k strerror fuel events r.lib ev (o.quiet == 0) s) refl
      ]

  late_lem :
      (r : Reader) (s : W)
      → r.first_byte ≡ 0
      → (k.ppoll r.lib.fd (patience o) s).0 ≡ 0
      → next_event k regexec (suc (suc fuel)) r o.timeout s
        ≡ some (
          none,
          record r { lib = record r.lib { error = 0 }; bytes = 0 },
          (k.ppoll r.lib.fd (patience o) s).1,
        )
  unfolding next_event next_events next_events_raw rounds round look fill
  late_lem r s empty late = ground (arith, empty, late)

  -- no event is left, and the wait for one ends by the timeout
  idle_lem :
      (n : ℕ) (r : Reader) (shown : List Event) (s : W)
      → r.first_byte ≡ 0
      → (k.ppoll r.lib.fd (patience o) s).0 ≡ 0
      → (r' : Reader) × (wait_loop k regexec strerror
            (suc n)
            (suc (suc fuel))
            o
            events
            orig_events
            (quiet r shown s)
          ≡ some (exit_timeout, quiet r' shown (k.ppoll r.lib.fd (patience o) s).1))
  unfolding wait_loop
  idle_lem n r shown s empty late =
      (record r { lib = record r.lib { error = 0 }; bytes = 0 }, rw (late_lem r s empty late) refl)

  pub step_lem :
      (n : ℕ) (r r' : Reader) (ev : Event) (shown : List Event) (s s' : W)
      → o.filesystem ≡ false
      → o.monitor ≡ true
      → o.recursive ≡ 0
      → next_event k regexec (suc (suc fuel)) r o.timeout s ≡ some (some ev, r', s')
      → wait_loop k regexec strerror (suc n) (suc (suc fuel)) o events orig_events (quiet r shown s)
        ≡ wait_loop k regexec strerror n
            (suc (suc fuel))
            o
            events
            orig_events
            (quiet r' (if is_shown o orig_events ev then shown ++ (ev ∷ []) else shown) s')
  unfolding wait_loop
  step_lem n r r' ev shown s s' fs monitor rec next =
      rw (next, event_lem r' ev shown s' fs monitor rec, monitor) refl

  pub seen_lem :
      (ev : Event) (evs shown : List Event)
      → (if is_shown o orig_events ev then shown ++ (ev ∷ []) else shown) ++ seen o orig_events evs
        ≡ shown ++ seen o orig_events (ev ∷ evs)
  seen_lem ev evs shown = elim (Bool-cases (wanted o orig_events ev)) [
    | inl y ↦
        rw (wanted-is_shown o orig_events ev, y)
          (append_assoc shown (ev ∷ []) (seen o orig_events evs))
    | inr n ↦ rw (wanted-is_shown o orig_events ev, n) refl
  ]

  -- the loop ends by the timeout, with these events shown
  abbrev pub Ends : ℕ → State W → ℕ → List Event → W → Type 0
  Ends n st fd shown s =
      (r' : Reader) × (wait_loop k regexec strerror n (suc (suc fuel)) o events orig_events st
        ≡ some (exit_timeout, quiet r' shown (k.ppoll fd (patience o) s).1))

  pub idle_at :
      (n fd : ℕ) (r : Reader) (shown : List Event) (s : W)
      → r.lib.fd ≡ fd
      → r.first_byte ≡ 0
      → (k.ppoll fd (patience o) s).0 ≡ 0
      → Ends (suc n) (quiet r shown s) fd shown s
  idle_at n fd r shown s e empty late =
      subst (λ (d : ℕ). (k.ppoll d (patience o) s).0 ≡ 0 → Ends (suc n) (quiet r shown s) d shown s)
        e (λ (h : (k.ppoll r.lib.fd (patience o) s).0 ≡ 0). idle_lem n r shown s empty h) late
