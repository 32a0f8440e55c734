-- ===== src/Reader/Split.antt =====
-- An event of which an earlier read gave only the first part.
use inotify_tools.Prelude.{
  ℕ, suc, ◌+◌, ◌-◌, ◌*◌, ◌≤◌, ◌<◌, ◌≡◌, ◌∙◌, sym, refl, ap, Bytes, Bool, List, [], ◌∷◌, ◌++◌, arith,
  length, take, drop, All, none, some, leb, replicate, true, false, length-append, length-drop,
}
use Prim.Native.Nat.{min}
use mathlib.Core.List.{append_assoc}
use inotify_tools.Prelude.Word.{le_zero}
use inotify_tools.Prelude.Buffer.{write_at, write_at-append, overlay-append}
use inotify_tools.Handle.{Regex}
use inotify_tools.Kernel.{Kernel}
use inotify_tools.Names.{Event}
use inotify_tools.Reader.{Reader, cap, event_size, le_u32, rd_u32, current_event}
use inotify_tools.Reader.Next.{look, fill, wait, read, at_least_zero, next_events}
use inotify_tools.Reader.Wire.{IsEvent, length-replicate, drop-append, take-append, rd_u32-append}
use inotify_tools.Reader.Left.{finish_lem}
use inotify_tools.Reader.Remaining.{encodes, At, counted, behind, first_event}
use inotify_tools.Reader.Batch.{read_round}

-- the part of fixed size, and the rest
abbrev pub fields : Event → Bytes
fields ev = le_u32 ev.wd ++ (le_u32 ev.mask ++ (le_u32 ev.cookie ++ le_u32 ev.len))

abbrev pub padded : Event → Bytes
padded ev = ev.name ++ replicate (ev.len - length ev.name) 0

-- Outside fanotify and without a filter, the buffer ends in the fields of the event and the bytes
-- `a` of its name; `b` are the other ones.
pub record Partial (r : Reader) (pre a b post : Bytes) (ev : Event) : Type 0 where
  pub inotify : r.lib.fanotify_mode ≡ false
  pub unfiltered : r.lib.regex ≡ none
  pub whole : r.evbuf ≡ pre ++ ((fields ev ++ a) ++ post)
  pub here : r.first_byte ≡ length pre
  pub later : 0 < length pre
  pub full : r.bytes ≡ length pre + 16 + length a
  pub small : r.bytes ≤ cap
  pub real : IsEvent ev
  pub parts : padded ev ≡ a ++ b
  pub missing : 0 < length b

-- the state behind `look`: the part is moved to the front
abbrev fronted : Reader → Bytes → Event → Reader
fronted r a ev = record r {
  ret_off = r.first_byte;
  evbuf = write_at r.evbuf 0 (fields ev ++ a);
  bytes = 16 + length a;
  first_byte = 0;
}

cut : (p x q : Bytes) (n i : ℕ) → i ≡ length p → n ≡ length x → take n (drop i (p ++ (x ++ q))) ≡ x
cut p x q n i e f =
    ap (λ (j : ℕ). take n (drop j (p ++ (x ++ q)))) (e ∙ omega arith)
    ∙ ap (take n) (drop-append p (x ++ q) 0)
    ∙ ap (λ (m : ℕ). take m (x ++ q)) f
    ∙ take-append x q

module _ (r : Reader) (pre a b post : Bytes) (ev : Event) (h : Partial r pre a b post ev) where
  len_lem : rd_u32 r.evbuf (r.first_byte + 12) ≡ ev.len
  len_lem =
      let fits = h.real.len_fits in
      rw (h.whole, h.here)
        (rd_u32-append pre ((fields ev ++ a) ++ post) 12 ∙ (unfold rd_u32 in omega (arith, fits)))

  moved_lem : take (r.bytes - r.first_byte) (drop r.first_byte r.evbuf) ≡ fields ev ++ a
  moved_lem = rw h.whole (
      cut pre (fields ev ++ a) post (r.bytes - r.first_byte) r.first_byte h.here
        (omega (arith, h.full, h.here)))

  sizes :
      (ev.len ≡ length a + length b) × (length r.evbuf ≡ length pre + 16 + length a + length post)
  sizes = (
    omega (
      arith,
      ap length h.parts,
      length-append a b,
      length-append ev.name (replicate (ev.len - length ev.name) 0),
      length-replicate (ev.len - length ev.name) 0,
      h.real.name_fits,
    ),
    omega (
      arith,
      ap length h.whole,
      length-append pre ((fields ev ++ a) ++ post),
      length-append a post,
    ),
  )

  look_partial : look r ≡ some (false, fronted r a ev)
  unfolding look
  look_partial =
      let len = len_lem in
      let moved = moved_lem in
      let (whole, room) = sizes in
      ground (
        arith, len, moved, whole, room, h.here, h.later, h.full, h.small, h.inotify, h.missing,
        h.real.len_fits,
      )

-- the state behind the second read
abbrev joined : Reader → Bytes → Bytes → Event → Reader
joined r a d ev =
    let f = fronted (record r { lib = record r.lib { error = 0 } }) a ev in
    record f { evbuf = write_at f.evbuf (16 + length a) d; this_bytes = length d }

two_writes :
    (buf x d : Bytes) (n : ℕ)
    → n ≡ length x
    → length x + length d ≤ length buf
    → write_at (write_at buf 0 x) n d ≡ x ++ (d ++ drop (length d) (drop (length x) buf))
two_writes buf x d n e room =
    let q = drop (length x) buf in
    ap (λ (t : Bytes). write_at t n d)
      (write_at-append [] buf x ∙ overlay-append x buf (omega (arith, room)))
    ∙ ap (λ (i : ℕ). write_at (x ++ q) i d) e
    ∙ write_at-append x q d
    ∙ ap (λ (t : Bytes). x ++ t)
        (overlay-append d q (omega (arith, room, length-drop (length x) buf)))

regroup : (s a b e q : Bytes) → s ≡ a ++ b → a ++ ((b ++ e) ++ q) ≡ (s ++ e) ++ q
regroup s a b e q p =
    sym (append_assoc a (b ++ e) q)
    ∙ ap (λ (t : Bytes). t ++ q) (sym (append_assoc a b e))
    ∙ ap (λ (t : Bytes). (t ++ e) ++ q) (sym p)

module _ (r : Reader) (pre a b post : Bytes) (ev : Event) (evs : List Event)
    (h : Partial r pre a b post ev) where
  joined-At :
      16 + length a + length (b ++ encodes evs) ≤ cap
      → cap ≤ length r.evbuf
      → All IsEvent evs
      → At
          (joined r a (b ++ encodes evs) ev)
          []
          (ev ∷ evs)
          (drop (length (b ++ encodes evs)) (drop (length (fields ev ++ a)) r.evbuf))
  joined-At small large real =
      let d = b ++ encodes evs in
      record {
        inotify = h.inotify;
        unfiltered = h.unfiltered;
        whole =
            two_writes r.evbuf (fields ev ++ a) d (16 + length a) (omega arith)
              (omega (arith, small, large))
            ∙ ap (λ (t : Bytes). fields ev ++ t) (regroup (padded ev) a b (encodes evs) _ h.parts);
        here = refl;
        full = omega (
          arith,
          length-append b (encodes evs),
          length-append (padded ev) (encodes evs),
          ap length h.parts,
          length-append a b,
        );
        small = omega (arith, small);
        real = (h.real, real);
      }

module _ {W : Type 0} (k : Kernel W) where
  -- The system has the bytes that are missing, and perhaps more events.
  pub record Rest (r : Reader) (a d : Bytes) (timeout num_events : ℕ) (s : W) : Type 0 where
    pub polled : le_zero (k.ppoll r.lib.fd timeout s).0 ≡ false
    pub waiting : ℕ
    pub asked : (k.fionread r.lib.fd (k.ppoll r.lib.fd timeout s).1).0 ≡ some waiting
    pub enough : leb (event_size * num_events) waiting ≡ true
    pub got :
        (k.read r.lib.fd
          (cap - (16 + length a))
          (k.fionread r.lib.fd (k.ppoll r.lib.fd timeout s).1).1).0
        ≡ some d

  -- the state of the system behind these calls
  abbrev pub asked_for : Reader → Bytes → ℕ → W → W
  asked_for r a timeout s =
      (k.read r.lib.fd (cap - (16 + length a))
        (k.fionread r.lib.fd (k.ppoll r.lib.fd timeout s).1).1).1

  fill-Rest :
      (fuel : ℕ) (r : Reader) (a : Bytes) (c : ℕ) (d : Bytes) (ev : Event) (timeout num_events : ℕ)
      (s : W)
      → 16 + length a ≤ cap
      → Rest r a (c ∷ d) timeout num_events s
      → fill k
          (suc fuel)
          (fronted (record r { lib = record r.lib { error = 0 } }) a ev)
          timeout
          num_events
          s
        ≡ some (true, joined r a (c ∷ d) ev, asked_for r a timeout s)
  unfolding fill wait read at_least_zero
  fill-Rest fuel r a c d ev timeout num_events s room h =
      let off : min (at_least_zero (16 + length a)) cap ≡ 16 + length a = ground (arith, room) in
      ground (arith, h.polled, h.asked, h.enough, h.got, off)

  module _ (regexec : Regex → Bytes → Bool) where
    -- Outside fanotify and without a filter, when the buffer ends in an event of which an earlier read
    -- gave the fixed part and a part `a` of the name, and the system has the rest of it, with or
    -- without more events, so that all of this fits half the buffer: the next call of `next_events`
    -- delivers that event, with all its fields and its whole name, and counts it.
    pub next_events-Partial :
        (fuel : ℕ) (r : Reader) (pre a : Bytes) (c : ℕ) (b post : Bytes) (ev : Event)
        (evs : List Event) (timeout num_events : ℕ) (s : W)
        → Partial r pre a (c ∷ b) post ev
        → 16 + length a + length ((c ∷ b) ++ encodes evs) ≤ cap
        → cap ≤ length r.evbuf
        → All IsEvent evs
        → le_zero num_events ≡ false
        → Rest r a ((c ∷ b) ++ encodes evs) timeout num_events s
        → (r' : Reader) × (next_events k regexec (suc (suc fuel)) r timeout num_events s
            ≡ some (some ev, r', asked_for r a timeout s))
          × (r'.lib ≡ counted (record r.lib { error = 0 }) ev)
    next_events-Partial fuel r pre a c b post ev evs timeout num_events s h small large real
          some_events rest =
        let d = (c ∷ b) ++ encodes evs in
        let r0 = record r { lib = record r.lib { error = 0 } } in
        let h0 : Partial r0 pre a (c ∷ b) post ev = record {
          inotify = h.inotify;
          unfiltered = h.unfiltered;
          whole = h.whole;
          here = h.here;
          later = h.later;
          full = h.full;
          small = h.small;
          real = h.real;
          parts = h.parts;
          missing = h.missing;
        } in
        let rj = joined r a d ev in
        let at = joined-At r pre a (c ∷ b) post ev evs h small large real in
        let s' = asked_for r a timeout s in
        let first : current_event (record (behind rj ev evs) { lib = counted rj.lib ev }) ≡ ev =
          unfold current_event in first_event rj [] ev evs _ at in
        (
          record (behind rj ev evs) { lib = counted rj.lib ev },
          read_round k regexec (suc fuel) r _ rj _ timeout num_events s s' some_events
                (look_partial r0 pre a (c ∷ b) post ev h0)
                (fill-Rest fuel r a c (b ++ encodes evs) ev timeout num_events s
                  (omega (arith, small)) rest)
                (finish_lem k regexec rj [] ev evs _ s' at)
              ∙ ap
                  (λ (e : Event).
                    some (some e, record (behind rj ev evs) { lib = counted rj.lib ev }, s'))
                  first,
          refl,
        )
