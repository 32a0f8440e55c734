-- ===== src/Reader/Written.antt =====
-- `write_event` of libinotifytools/src/inotify.rs: the bytes that it leaves in the event buffer.
use inotify_tools.Prelude.{
  ℕ, zero, suc, ◌+◌, ◌-◌, ◌≤◌, ◌≡◌, ◌∙◌, refl, ap, sym, arith, Bytes, true, [], ◌∷◌, ◌++◌, ◌==◌,
  length, take, drop, replicate, length-append, Bool-cases, inl, inr, if◌then◌else◌,
}
use Prim.Native.Nat.{min}
use mathlib.Core.List.{append_assoc}
use inotify_tools.Prelude.Buffer.{write_at, write_at-append, overlay-append}
use inotify_tools.Prelude.Word.{le_zero}
use inotify_tools.Fid.{bytes_from}
use inotify_tools.Names.{Event}
use inotify_tools.Reader.{cap, event_size, le_u32, wr_u32}
use inotify_tools.Reader.Convert.{write_event}
use inotify_tools.Reader.Wire.{encode, take-append}

drop_prefix : (m q : Bytes) → drop (length m) (m ++ q) ≡ q
drop_prefix [] q = refl
drop_prefix (x ∷ m) q = drop_prefix m q

-- a part of a buffer that is written over
write_part :
    (p m q bs : Bytes) (o : ℕ)
    → o ≡ length p
    → length bs ≡ length m
    → write_at (p ++ (m ++ q)) o bs ≡ p ++ (bs ++ q)
write_part p m q bs o e same =
    ap (λ (t : ℕ). write_at (p ++ (m ++ q)) t bs) e
    ∙ write_at-append p (m ++ q) bs
    ∙ ap (◌++◌ p) (
        overlay-append bs (m ++ q) (omega (arith, length-append m q, same))
        ∙ ap (λ (t : ℕ). bs ++ drop t (m ++ q)) same
        ∙ ap (◌++◌ bs) (drop_prefix m q))

-- and a part behind another one
write_behind :
    (p a m q bs : Bytes) (o : ℕ)
    → o ≡ length p + length a
    → length bs ≡ length m
    → write_at (p ++ (a ++ (m ++ q))) o bs ≡ p ++ (a ++ (bs ++ q))
write_behind p a m q bs o e same =
    ap (λ (b : Bytes). write_at b o bs) (sym (append_assoc p a (m ++ q)))
    ∙ write_part (p ++ a) m q bs o (omega (arith, e, length-append p a)) same
    ∙ append_assoc p a (bs ++ q)

three : (a b c q : Bytes) → (a ++ (b ++ c)) ++ q ≡ a ++ (b ++ (c ++ q))
three a b c q = append_assoc a (b ++ c) q ∙ ap (◌++◌ a) (append_assoc b c q)

four : (a b c d q : Bytes) → (a ++ (b ++ (c ++ d))) ++ q ≡ a ++ (b ++ (c ++ (d ++ q)))
four a b c d q = three a b (c ++ d) q ∙ ap (λ (x : Bytes). a ++ (b ++ x)) (append_assoc c d q)

zero_of : (n : ℕ) → le_zero n ≡ true → n ≤ cap - event_size → n ≡ 0
zero_of n t small = elim (Bool-cases (n == 0)) [
  | inl e ↦ ground (arith, e)
  | inr e ↦ absurd (ground (arith, e, t, small))
]

nil_of_length : (s : Bytes) → length s ≡ 0 → s ≡ []
nil_of_length [] h = refl
nil_of_length (x ∷ s) h = absurd (omega (arith, h))

length-bytes_from : (i n : ℕ) (f : Bytes) → length (bytes_from i n f) ≡ n
unfolding bytes_from
length-bytes_from i zero f = refl
length-bytes_from i (suc n) f = ap suc (length-bytes_from (i + 1) n f)

-- what lies behind the first half of the buffer, before an event is written there
abbrev pub Room : Bytes → Bytes → ℕ → ℕ → Bytes → Type 0
Room p b cookie n post =
    (a1 : Bytes) × (a2 : Bytes) × (z : Bytes) × (y : Bytes) × (b
      ≡ p ++ (a1 ++ (a2 ++ (le_u32 cookie ++ (z ++ (y ++ post))))))
    × (length a1 ≡ 4)
    × (length a2 ≡ 4)
    × (length z ≡ 4)
    × (length y ≡ n)

-- the name, and the NULs behind it
abbrev pub tail : Event → Bytes
tail ev = ev.name ++ replicate (ev.len - length ev.name) 0

module _ (p : Bytes) (half : length p ≡ cap) where
  -- the three fields that are written
  write_fields :
      (a1 a2 c z q a b d : Bytes)
      → length a1 ≡ 4
      → length a2 ≡ 4
      → length c ≡ 4
      → length z ≡ 4
      → length a ≡ 4
      → length b ≡ 4
      → length d ≡ 4
      → write_at
          (write_at (write_at (p ++ (a1 ++ (a2 ++ (c ++ (z ++ q))))) cap a) (cap + 4) b)
          (cap + 12)
          d
        ≡ p ++ (a ++ (b ++ (c ++ (d ++ q))))
  write_fields a1 a2 c z q a b d e1 e2 e3 e4 e5 e6 e7 =
      ap (λ (x : Bytes). write_at (write_at x (cap + 4) b) (cap + 12) d)
        (write_part p a1 (a2 ++ (c ++ (z ++ q))) a cap (sym half) (e5 ∙ sym e1))
      ∙ ap (λ (x : Bytes). write_at x (cap + 12) d)
          (write_behind p a a2 (c ++ (z ++ q)) b (cap + 4) (omega (arith, half, e5)) (e6 ∙ sym e2))
      ∙ ap (λ (x : Bytes). write_at (p ++ x) (cap + 12) d) (sym (three a b c (z ++ q)))
      ∙ write_behind p (a ++ (b ++ c)) z q d (cap + 12)
          (omega (arith, half, e5, e6, e3, length-append a (b ++ c), length-append b c))
          (e7 ∙ sym e4)
      ∙ ap (◌++◌ p) (three a b c (d ++ q))

  -- and the name behind them
  write_name :
      (a b c d y q name : Bytes)
      → length a ≡ 4
      → length b ≡ 4
      → length c ≡ 4
      → length d ≡ 4
      → length name ≡ length y
      → write_at (p ++ (a ++ (b ++ (c ++ (d ++ (y ++ q)))))) (cap + event_size) name
        ≡ p ++ (a ++ (b ++ (c ++ (d ++ (name ++ q)))))
  write_name a b c d y q name e1 e2 e3 e4 same =
      ap (λ (x : Bytes). write_at (p ++ x) (cap + event_size) name) (sym (four a b c d (y ++ q)))
      ∙ write_behind p (a ++ (b ++ (c ++ d))) y q name (cap + event_size)
          (omega (
            arith,
            half,
            e1,
            e2,
            e3,
            e4,
            length-append a (b ++ (c ++ d)),
            length-append b (c ++ d),
            length-append c d,
          ))
          same
      ∙ ap (◌++◌ p) (four a b c d (name ++ q))

  named_lem :
      (b post y : Bytes) (ev : Event) (src : ℕ)
      → take cap b ≡ p
      → length y ≡ ev.len
      → ev.len ≤ cap - event_size
      → bytes_from src ev.len p ≡ tail ev
      → (let head =
            p
            ++ (le_u32 ev.wd
                ++ (le_u32 ev.mask ++ (le_u32 ev.cookie ++ (le_u32 ev.len ++ (y ++ post))))) in
          if le_zero ev.len
          then head
          else write_at head
              (cap + event_size)
              (bytes_from src (min ev.len (cap - event_size)) (take cap b)))
        ≡ p ++ (encode ev ++ post)
  named_lem b post y ev src first e small named = elim (Bool-cases (le_zero ev.len)) [
    | inl t ↦
        let none_left = zero_of ev.len t small in
        let same : y ≡ tail ev =
          nil_of_length y (e ∙ none_left)
          ∙ sym (
              nil_of_length (tail ev) (
                sym (ap (λ (x : Bytes). length x) named)
                ∙ length-bytes_from src ev.len p
                ∙ none_left)) in
        rw t (
          ap
            (λ (x : Bytes).
              p
              ++ (le_u32 ev.wd
                  ++ (le_u32 ev.mask ++ (le_u32 ev.cookie ++ (le_u32 ev.len ++ (x ++ post))))))
            same)
    | inr t ↦
        let whole : min ev.len (cap - event_size) ≡ ev.len = omega (arith, small) in
        let copied : bytes_from src (min ev.len (cap - event_size)) (take cap b) ≡ tail ev =
          ap (λ (n : ℕ). bytes_from src n (take cap b)) whole
          ∙ ap (bytes_from src ev.len) first
          ∙ named in
        rw (t, copied)
          (write_name (le_u32 ev.wd) (le_u32 ev.mask) (le_u32 ev.cookie) (le_u32 ev.len) y post
            (tail ev) refl refl refl refl
            (sym (ap (λ (x : Bytes). length x) named) ∙ length-bytes_from src ev.len p ∙ sym e))
  ]

  -- the event that `write_event` leaves behind the first half
  pub write_event_lem :
      (b post : Bytes) (ev : Event) (src : ℕ)
      → Room p b ev.cookie ev.len post
      → ev.len ≤ cap - event_size
      → bytes_from src ev.len p ≡ tail ev
      → write_event b ev.wd ev.mask ev.len src ≡ p ++ (encode ev ++ post)
  unfolding write_event wr_u32
  write_event_lem b post ev src (a1, a2, z, y, e, e1, e2, e3, e4) small named =
      let first : take cap b ≡ p =
        ap (take cap) e
        ∙ ap (λ (n : ℕ). take n (p ++ (a1 ++ (a2 ++ (le_u32 ev.cookie ++ (z ++ (y ++ post)))))))
            (sym half)
        ∙ take-append p (a1 ++ (a2 ++ (le_u32 ev.cookie ++ (z ++ (y ++ post))))) in
      let head =
        ap (λ (x : Bytes). wr_u32 (wr_u32 (wr_u32 x cap ev.wd) (cap + 4) ev.mask) (cap + 12) ev.len)
          e
        ∙ write_fields a1 a2 (le_u32 ev.cookie) z (y ++ post) (le_u32 ev.wd) (le_u32 ev.mask)
            (le_u32 ev.len) e1 e2 refl e3 refl refl refl in
      ap
        (λ (x : Bytes).
          if le_zero ev.len
          then x
          else write_at x (cap + event_size)
              (bytes_from src (min ev.len (cap - event_size)) (take cap b)))
        head
      ∙ named_lem b post y ev src first e4 small named
