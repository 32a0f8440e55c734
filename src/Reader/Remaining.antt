-- ===== src/Reader/Remaining.antt =====
-- The events that are left in the buffer, as its bytes.
use inotify_tools.Prelude.{
  ◌+◌, ◌≤◌, ◌≡◌, refl, ap, Bytes, List, [], ◌∷◌, ◌++◌, arith, length, All, none, length-append,
  ◌==◌, if◌then◌else◌, false, is_empty,
}
use mathlib.Core.List.{append_assoc}
use inotify_tools.Prelude.Ord.{nat_ord}
use inotify_tools.Counters.{record_stats}
use inotify_tools.Handle.{Inotifytools}
use inotify_tools.Names.{Event}
use inotify_tools.Reader.{Reader, cap, event_size, event_at}
use inotify_tools.Reader.Wire.{encode, IsEvent, length-encode, event_at-encode}

-- the bytes of a read
abbrev pub encodes : List Event → Bytes
encodes [] = []
encodes (ev ∷ evs) = encode ev ++ encodes evs

-- what a delivered event does to the counters
abbrev pub counted : Inotifytools → Event → Inotifytools
counted l ev = if l.collect_stats then record_stats l ev.wd ev.mask else l

-- and what several do
abbrev pub counted_all : Inotifytools → List Event → Inotifytools
counted_all l [] = l
counted_all l (ev ∷ evs) = counted_all (counted (record l { error = 0 }) ev) evs

-- Outside fanotify and without a filter, the events are what is left of the buffer, behind `pre`,
-- once the bytes that were read last are counted.
pub record At (r : Reader) (pre : Bytes) (evs : List Event) (post : Bytes) : Type 0 where
  pub inotify : r.lib.fanotify_mode ≡ false
  pub unfiltered : r.lib.regex ≡ none
  pub whole : r.evbuf ≡ pre ++ (encodes evs ++ post)
  pub here : r.first_byte ≡ length pre
  pub full : r.bytes + r.this_bytes ≡ length pre + length (encodes evs)
  pub small : r.bytes + r.this_bytes ≤ cap
  pub real : All IsEvent evs

-- the state behind the first of the events that are left
abbrev pub behind : Reader → Event → List Event → Reader
behind r ev evs =
    let total = r.bytes + r.this_bytes in
    record r {
      ret_off = r.first_byte;
      bytes = total;
      first_byte = if is_empty evs then 0 else r.first_byte + event_size + ev.len;
    }

module _ (r : Reader) (pre : Bytes) (ev : Event) (evs : List Event) (post : Bytes)
    (h : At r pre (ev ∷ evs) post) where
  pub first_event : event_at r.evbuf r.first_byte ≡ ev
  first_event =
      rw (h.whole, h.here, append_assoc (encode ev) (encodes evs) post)
        (event_at-encode pre (encodes evs ++ post) ev h.real.0)

  pub sizes :
      (length (encodes (ev ∷ evs)) ≡ 16 + ev.len + length (encodes evs))
      × (r.first_byte + 16 + ev.len ≤ cap)
  sizes =
      let len = length-encode ev h.real.0 in
      let all = length-append (encode ev) (encodes evs) in
      (omega (arith, len, all), omega (arith, len, all, h.full, h.small, h.here))

  pub no_more : (r.first_byte + 16 + ev.len == r.bytes + r.this_bytes) ≡ is_empty evs
  no_more = rest evs refl
    where
      rest :
          (es : List Event)
          → es ≡ evs
          → (r.first_byte + 16 + ev.len == r.bytes + r.this_bytes) ≡ is_empty es
      rest [] e =
          ground (arith, sizes.0, h.full, h.here, ap (λ (x : List Event). length (encodes x)) e)
      rest (x ∷ es) e = ground (
        arith,
        sizes.0,
        h.full,
        h.here,
        ap (λ (x : List Event). length (encodes x)) e,
        length-append (encode x) (encodes es),
      )

-- the state once an event that is left in the buffer was found
abbrev pub found : Reader → Reader
found r = record r { lib = record r.lib { error = 0 }; ret_off = r.first_byte; this_bytes = 0 }
