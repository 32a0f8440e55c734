-- ===== src/Reader/Batch.antt =====
-- A read of several events, delivered one by one.
use inotify_tools.Prelude.{
  ℕ, suc, ◌*◌, ◌≤◌, ◌≡◌, ◌∙◌, refl, ap, Bytes, Bool, List, [], ◌∷◌, arith, length, drop, All, none,
  some, leb, true, false,
}
use inotify_tools.Prelude.Word.{le_zero}
use inotify_tools.Prelude.Buffer.{write_at, write_at-append, overlay-append}
use inotify_tools.Prelude.Ord.{nat_ord}
use inotify_tools.Handle.{Regex}
use inotify_tools.Kernel.{Kernel}
use inotify_tools.Names.{Event}
use inotify_tools.Reader.{Reader, cap, event_size, current_event}
use inotify_tools.Reader.Next.{
  delivers, look, finish, round, rounds, next_events_raw, next_events, fill, wait, read,
  at_least_zero,
}
use inotify_tools.Reader.Wire.{encode, IsEvent, length-encode}
use inotify_tools.Reader.Left.{finish_lem, drain, next_At, drain_lem}
use inotify_tools.Reader.Remaining.{encodes, counted, counted_all, At, behind, first_event}

-- the state behind a read into the empty buffer
abbrev pub filled : Reader → Bytes → Reader
filled r bs = record r {
  lib = record r.lib { error = 0 };
  bytes = 0;
  evbuf = write_at r.evbuf 0 bs;
  this_bytes = length bs;
}

module _ {W : Type 0} (k : Kernel W) where
  -- The system has a batch for the reader: ppoll(2) reports it, enough bytes can be read, and the
  -- read gives the events.
  pub record Ready (r : Reader) (evs : List Event) (timeout num_events : ℕ) (s : W) : Type 0 where
    pub polled : le_zero (k.ppoll r.lib.fd timeout s).0 ≡ false
    pub waiting : ℕ
    pub asked : (k.fionread r.lib.fd (k.ppoll r.lib.fd timeout s).1).0 ≡ some waiting
    pub enough : leb (event_size * num_events) waiting ≡ true
    pub got :
        (k.read r.lib.fd cap (k.fionread r.lib.fd (k.ppoll r.lib.fd timeout s).1).1).0
        ≡ some (encodes evs)

  -- the state of the system behind these calls
  abbrev pub asked : Reader → ℕ → W → W
  asked r timeout s = (k.read r.lib.fd cap (k.fionread r.lib.fd (k.ppoll r.lib.fd timeout s).1).1).1

module _ {W : Type 0} (k : Kernel W) (regexec : Regex → Bytes → Bool) where
  -- a call in which the first round reads and delivers
  pub read_round :
      (fuel : ℕ) (r r' r0 r1 : Reader) (timeout num_events : ℕ) (s s' : W)
      → le_zero num_events ≡ false
      → look (record r { lib = record r.lib { error = 0 } }) ≡ some (false, r')
      → fill k fuel r' timeout num_events s ≡ some (true, r0, s')
      → finish k regexec r0 s' ≡ some (delivers, r1, s')
      → next_events k regexec (suc fuel) r timeout num_events s
        ≡ some (some (current_event r1), r1, s')
  unfolding next_events next_events_raw rounds round
  read_round fuel r r' r0 r1 timeout num_events s s' some_events looked filled done =
      ground (arith, some_events, looked, filled, done)

  module _ (fuel : ℕ) (r : Reader) (ev : Event) (evs : List Event) (timeout num_events : ℕ)
      (s : W) where
    fill_lem :
        Ready k r (ev ∷ evs) timeout num_events s
        → fill k
            (suc fuel)
            (record r { lib = record r.lib { error = 0 }; bytes = 0 })
            timeout
            num_events
            s
          ≡ some (true, filled r (encodes (ev ∷ evs)), asked k r timeout s)
    unfolding fill wait read at_least_zero
    fill_lem h = ground (arith, h.polled, h.asked, h.enough, h.got)

    pub At-filled :
        r.lib.fanotify_mode ≡ false
        → r.lib.regex ≡ none
        → r.first_byte ≡ 0
        → length (encodes (ev ∷ evs)) ≤ cap
        → cap ≤ length r.evbuf
        → All IsEvent (ev ∷ evs)
        → At
            (filled r (encodes (ev ∷ evs)))
            []
            (ev ∷ evs)
            (drop (length (encodes (ev ∷ evs))) r.evbuf)
    At-filled inotify unfiltered empty small large real = record {
      inotify = inotify;
      unfiltered = unfiltered;
      whole =
          write_at-append [] r.evbuf _
          ∙ overlay-append (encodes (ev ∷ evs)) r.evbuf (omega (arith, small, large));
      here = empty;
      full = omega arith;
      small = omega (arith, small);
      real = real;
    }

    -- the call that reads
    pub first_lem :
        r.lib.fanotify_mode ≡ false
        → r.lib.regex ≡ none
        → r.first_byte ≡ 0
        → length (encodes (ev ∷ evs)) ≤ cap
        → cap ≤ length r.evbuf
        → All IsEvent (ev ∷ evs)
        → le_zero num_events ≡ false
        → Ready k r (ev ∷ evs) timeout num_events s
        → let r0 = filled r (encodes (ev ∷ evs)) in
          next_events k regexec (suc (suc fuel)) r timeout num_events s
          ≡ some
              (some ev, record (behind r0 ev evs) { lib = counted r0.lib ev }, asked k r timeout s)
    first_lem inotify unfiltered empty small large real some_events h =
        let r0 = filled r (encodes (ev ∷ evs)) in
        let at = At-filled inotify unfiltered empty small large real in
        let first : current_event (record (behind r0 ev evs) { lib = counted r0.lib ev }) ≡ ev =
          unfold current_event in first_event r0 [] ev evs _ at in
        let looked : look (record r { lib = record r.lib { error = 0 } })
            ≡ some (false, record r { lib = record r.lib { error = 0 }; bytes = 0 }) =
          unfold look in ground (arith, empty) in
        read_round (suc fuel) r _ r0 _ timeout num_events s (asked k r timeout s) some_events looked
          (fill_lem h) (finish_lem k regexec r0 [] ev evs _ (asked k r timeout s) at)
        ∙ ap
            (λ (e : Event).
              some (
                some e,
                record (behind r0 ev evs) { lib = counted r0.lib ev },
                asked k r timeout s,
              ))
            first

  -- Outside fanotify and without a filter, when no event is left in the buffer and the system has a
  -- batch of one or more events that fits half the buffer: so many calls of `next_events` deliver
  -- these events, each with all its fields, in their order, and ask the system once, in the first
  -- call. Afterwards no event is left again, and each event was counted.
  pub batch_lem :
      (fuel : ℕ) (r : Reader) (ev : Event) (evs : List Event) (timeout num_events : ℕ) (s : W)
      → r.lib.fanotify_mode ≡ false
      → r.lib.regex ≡ none
      → r.first_byte ≡ 0
      → length (encodes (ev ∷ evs)) ≤ cap
      → cap ≤ length r.evbuf
      → All IsEvent (ev ∷ evs)
      → le_zero num_events ≡ false
      → Ready k r (ev ∷ evs) timeout num_events s
      → (r' : Reader) × (drain k regexec (suc (suc fuel)) (suc (length evs)) r timeout num_events s
          ≡ some (ev ∷ evs, r', asked k r timeout s))
        × (r'.first_byte ≡ 0)
        × (r'.lib ≡ counted_all r.lib (ev ∷ evs))
  batch_lem fuel r ev [] timeout num_events s inotify unfiltered empty small large real some_events
        h =
      let e =
        first_lem fuel r ev [] timeout num_events s inotify unfiltered empty small large real
          some_events h in
      let r0 = filled r (encodes (ev ∷ [])) in
      (record (behind r0 ev []) { lib = counted r0.lib ev }, rw e refl, refl, refl)
  batch_lem fuel r ev (e ∷ evs) timeout num_events s inotify unfiltered empty small large real
        some_events h =
      let r0 = filled r (encodes (ev ∷ e ∷ evs)) in
      let r1 = record (behind r0 ev (e ∷ evs)) { lib = counted r0.lib ev } in
      let at =
        At-filled fuel r ev (e ∷ evs) timeout num_events s inotify unfiltered empty small large
          real in
      let first =
        first_lem fuel r ev (e ∷ evs) timeout num_events s inotify unfiltered empty small large real
          some_events h in
      let (r', d, z, l) =
        drain_lem k regexec (suc fuel) r1 (encode ev) e evs _ timeout num_events
          (asked k r timeout s) (next_At k regexec r0 [] ev e evs _ at)
          (omega (arith, length-encode ev real.0)) some_events in
      (r', rw (first, d) refl, z, l)
