-- ===== src/Reader/Left.antt =====
-- Events that are left in the buffer, delivered one by one.
use inotify_tools.Prelude.{
  ℕ, zero, suc, ◌+◌, ◌<◌, ◌≡◌, ◌∙◌, sym, refl, ap, Bytes, Bool, List, [], ◌∷◌, ◌++◌, arith, length,
  Option, none, some, length-append, ◌==◌, Option-cases, Bool-cases, inl, inr, true, false,
}
use mathlib.Core.List.{append_assoc}
use inotify_tools.Prelude.Word.{le_zero}
use inotify_tools.BTreeMap.{get}
use inotify_tools.Prelude.Ord.{nat_ord}
use inotify_tools.Counters.{record_stats}
use inotify_tools.Handle.{Inotifytools, Regex, ◌>>=◌}
use inotify_tools.Kernel.{Kernel}
use inotify_tools.Names.{Event}
use inotify_tools.Reader.{Reader, event_size, current_event, event_at}
use inotify_tools.Reader.Next.{
  fails, delivers, look, take_event, advance_bytes, filtered, judge, finish, round, rounds,
  next_events_raw, next_events,
}
use inotify_tools.Reader.Wire.{encode, length-encode}
use inotify_tools.Reader.Remaining.{
  encodes, counted, counted_all, At, behind, first_event, sizes, no_more, found,
}

module _ {W : Type 0} (k : Kernel W) (regexec : Regex → Bytes → Bool) where
  take_event_lem :
      (r : Reader) (pre : Bytes) (ev : Event) (evs : List Event) (post : Bytes) (s : W)
      → At r pre (ev ∷ evs) post
      → take_event k r s
        ≡ some (
          some 0,
          record r { ret_off = r.first_byte; first_byte = r.first_byte + event_size + ev.len },
          s,
        )
  unfolding take_event event_at
  take_event_lem r pre ev evs post s h =
      let len = ap (λ (e : Event). e.len) (first_event r pre ev evs post h) in
      ground (arith, len, h.inotify, h.here, (sizes r pre ev evs post h).1)

  judge_lem :
      (r : Reader) (s : W)
      → r.lib.regex ≡ none
      → judge k regexec 0 r s
        ≡ some (delivers, record r { lib = counted r.lib (current_event r) }, s)
  unfolding judge filtered current_event event_at
  judge_lem r s e = elim (Bool-cases (r.lib.self_pid == 0)) [
    | inl z ↦ ground (arith, e, z)
    | inr z ↦ ground (arith, e, z)
  ]

  advance_bytes_lem :
      (r : Reader) (pre : Bytes) (ev : Event) (evs : List Event) (post : Bytes)
      → At r pre (ev ∷ evs) post
      → advance_bytes
          (record r { ret_off = r.first_byte; first_byte = r.first_byte + event_size + ev.len })
        ≡ behind r ev evs
  unfolding advance_bytes
  advance_bytes_lem r pre ev evs post h =
      ground (arith, (sizes r pre ev evs post h).1, h.small, no_more r pre ev evs post h)

  -- the first of the events is delivered
  pub finish_lem :
      (r : Reader) (pre : Bytes) (ev : Event) (evs : List Event) (post : Bytes) (s : W)
      → At r pre (ev ∷ evs) post
      → finish k regexec r s
        ≡ some (delivers, record (behind r ev evs) { lib = counted r.lib ev }, s)
  unfolding finish
  finish_lem r pre ev evs post s h =
      let first : current_event (behind r ev evs) ≡ ev =
        unfold current_event in first_event r pre ev evs post h in
      ap
        (λ (x : Option (Option ℕ × Reader × W)). x >>= λ (pid, r', s'). elim pid [
          | none ↦ some (fails, r', s')
          | some p ↦ judge k regexec p (advance_bytes r') s'
        ])
        (take_event_lem r pre ev evs post s h)
      ∙ ap (λ (x : Reader). judge k regexec 0 x s) (advance_bytes_lem r pre ev evs post h)
      ∙ judge_lem (behind r ev evs) s h.unfiltered
      ∙ ap (λ (e : Event). some (delivers, record (behind r ev evs) { lib = counted r.lib e }, s))
          first

  look_lem :
      (r : Reader) (pre : Bytes) (ev : Event) (evs : List Event) (post : Bytes)
      → At (found r) pre (ev ∷ evs) post
      → 0 < length pre
      → look (record r { lib = record r.lib { error = 0 } }) ≡ some (true, found r)
  unfolding look event_at
  look_lem r pre ev evs post h pos =
      let len = ap (λ (e : Event). e.len) (first_event (found r) pre ev evs post h) in
      ground
        (arith, pos, len, h.here, h.full, h.small, h.inotify, sizes (found r) pre ev evs post h)

  pub buffered_lem :
      (fuel : ℕ) (r : Reader) (pre : Bytes) (ev : Event) (evs : List Event) (post : Bytes)
      (timeout num_events : ℕ) (s : W)
      → At (found r) pre (ev ∷ evs) post
      → 0 < length pre
      → le_zero num_events ≡ false
      → next_events k regexec (suc fuel) r timeout num_events s
        ≡ some (some ev, record (behind (found r) ev evs) { lib = counted (found r).lib ev }, s)
  unfolding next_events next_events_raw rounds round
  buffered_lem fuel r pre ev evs post timeout num_events s h pos some_events =
      let first : current_event
            (record (behind (found r) ev evs) { lib = counted (found r).lib ev })
          ≡ ev =
        unfold current_event in first_event (found r) pre ev evs post h in
      ground (
        arith,
        some_events,
        look_lem r pre ev evs post h pos,
        finish_lem (found r) pre ev evs post s h,
        first,
      )

  -- so many calls of `next_events`
  abbrev pub drain : ℕ → ℕ → Reader → ℕ → ℕ → W → Option (List Event × Reader × W)
  drain fuel zero r timeout num_events s = some ([], r, s)
  drain fuel (suc n) r timeout num_events s =
      next_events k regexec fuel r timeout num_events s >>= λ (ev, r', s'). elim ev [
        | none ↦ some ([], r', s')
        | some e ↦
            drain fuel n r' timeout num_events s' >>= λ (es, r'', s''). some (e ∷ es, r'', s'')
      ]

  pub counted_lem :
      (l : Inotifytools) (ev : Event)
      → ((counted l ev).fanotify_mode ≡ l.fanotify_mode) × ((counted l ev).regex ≡ l.regex)
  unfolding record_stats
  counted_lem l ev = elim (Option-cases (get ev.wd l.by_wd)) [
    | inl e ↦ ground (arith, e)
    | inr (id, e) ↦ ground (arith, e)
  ]

  pub next_At :
      (r : Reader) (pre : Bytes) (ev e : Event) (evs : List Event) (post : Bytes)
      → At r pre (ev ∷ e ∷ evs) post
      → At
          (found (record (behind r ev (e ∷ evs)) { lib = counted r.lib ev }))
          (pre ++ encode ev)
          (e ∷ evs)
          post
  next_At r pre ev e evs post h =
      let (mode, regex) = counted_lem r.lib ev in
      let len = sizes r pre ev (e ∷ evs) post h in
      let all = length-append pre (encode ev) in
      let one = length-encode ev h.real.0 in
      record {
        inotify = mode ∙ h.inotify;
        unfiltered = regex ∙ h.unfiltered;
        whole =
            h.whole
            ∙ ap (λ (x : Bytes). pre ++ x) (append_assoc (encode ev) (encodes (e ∷ evs)) post)
            ∙ sym (append_assoc pre (encode ev) (encodes (e ∷ evs) ++ post));
        here = omega (arith, h.here, all, one);
        full = omega (arith, h.full, len.0, all, one);
        small = omega (arith, h.small);
        real = h.real.1;
      }

  pub drain_lem :
      (fuel : ℕ) (r : Reader) (pre : Bytes) (ev : Event) (evs : List Event) (post : Bytes)
      (timeout num_events : ℕ) (s : W)
      → At (found r) pre (ev ∷ evs) post
      → 0 < length pre
      → le_zero num_events ≡ false
      → (r' : Reader) × (drain (suc fuel) (suc (length evs)) r timeout num_events s
          ≡ some (ev ∷ evs, r', s))
        × (r'.first_byte ≡ 0)
        × (r'.lib ≡ counted_all r.lib (ev ∷ evs))
  drain_lem fuel r pre ev [] post timeout num_events s h pos some_events = (
    record (behind (found r) ev []) { lib = counted (found r).lib ev },
    rw (buffered_lem fuel r pre ev [] post timeout num_events s h pos some_events) refl,
    refl,
    refl,
  )
  drain_lem fuel r pre ev (e ∷ evs) post timeout num_events s h pos some_events =
      let r1 = record (behind (found r) ev (e ∷ evs)) { lib = counted (found r).lib ev } in
      let (r', d, z, l) =
        drain_lem fuel r1 (pre ++ encode ev) e evs post timeout num_events s
          (next_At (found r) pre ev e evs post h)
          (omega (arith, pos, length-append pre (encode ev))) some_events in
      (
        r',
        rw (buffered_lem fuel r pre ev (e ∷ evs) post timeout num_events s h pos some_events, d)
            refl,
        z,
        l,
      )
