-- ===== src/Format/Expand.antt =====
-- The text that a format stands for, and the writes that append a part of it.
use inotify_tools.Prelude.{
  ℕ, zero, suc, ◌+◌, ◌-◌, ◌≤◌, ◌<◌, ◌≡◌, refl, ap, ◌∙◌, sym, arith, Bytes, Option, none, some, [],
  ◌∷◌, ◌++◌, ◌==◌, ltb, if◌then◌else◌, length, take, drop, Bool-cases, inl, inr, length-append,
  take_of_length-le,
}
use Prim.Native.Nat.{min}
use mathlib.Core.List.{append_assoc}
use inotify_tools.Prelude.Buffer.{write_at, write_at-append, overlay-append}
use inotify_tools.Handle.{◌>>=◌}
use inotify_tools.Events.{event_to_str_sep}
use inotify_tools.Csv.{max_strlen}
use inotify_tools.Format.{Args, NString, padded, strncpy, put, text, plain, put_cookie, hex}
use inotify_tools.Format.Writes.{length-padded, plain-Within}

-- a character that is no directive stands for itself, or separates the names of `e`
unfoldable pub other : Args → ℕ → Bytes → Option (Bytes × Bytes)
other a ch1 [] = some (b'%' ∷ ch1 ∷ [], [])
other a ch1 (ch2 ∷ rest) =
    if ch2 == b'e'
    then some (event_to_str_sep a.evstr a.mask ch1, rest)
    else some (b'%' ∷ ch1 ∷ [], ch2 ∷ rest)

-- the text of a directive, and what of the format is left behind it
unfoldable pub value : Args → ℕ → Bytes → Option (Bytes × Bytes)
unfolding other
value a ch1 rest =
    if ch1 == b'%'
    then some (b'%' ∷ [], rest)
    else if ch1 == b'0'
    then some (0 ∷ [], rest)
    else if ch1 == b'n'
    then some (10 ∷ [], rest)
    else if ch1 == b'w'
    then some (take a.path.dirnamelen a.path.filename, rest)
    else if ch1 == b'f'
    then some (a.path.eventname, rest)
    else if ch1 == b'c'
    then some (hex a.cookie, rest)
    else if ch1 == b'e'
    then some (event_to_str_sep a.evstr a.mask b',', rest)
    else if ch1 == b'T'
    then elim a.time [ none ↦ none | some t ↦ some (t, rest) ]
    else other a ch1 rest

unfoldable pub piece : Args → ℕ → Bytes → Option (Bytes × Bytes)
unfolding value
piece a c rest =
    if c == b'%'
    then elim rest [ [] ↦ none | ch1 ∷ rest' ↦ value a ch1 rest' ]
    else some (c ∷ [], rest)

-- the whole text; none if the format ends in `%` or strftime(3) fails
unfoldable pub expand : ℕ → Args → Bytes → Option Bytes
unfolding piece
expand zero a fmt = some []
expand (suc n) a [] = some []
expand (suc n) a (c ∷ rest) =
    piece a c rest >>= λ (t, rest'). expand n a rest' >>= λ u. some (t ++ u)

-- the string after `p`, with `q` behind it
abbrev pub at : Bytes → Bytes → NString
at p q = record { buf = p ++ q; len = length p }

pub written :
    (p q bs : Bytes)
    → length bs ≤ length q
    → write_at (p ++ q) (length p) bs ≡ p ++ (bs ++ drop (length bs) q)
written p q bs h = write_at-append p q bs ∙ ap (◌++◌ p) (overlay-append bs q h)

padded-append : (n : ℕ) (t : Bytes) → length t ≤ n → (z : Bytes) × (padded n t ≡ t ++ z)
unfolding padded
padded-append n [] h = (padded n [], refl)
padded-append zero (x ∷ t) h = absurd (omega arith)
padded-append (suc n) (x ∷ t) h = let (z, e) = padded-append n t (omega arith) in (z, ap (◌∷◌ x) e)

-- `o` is the string with `t` appended
abbrev pub Appended : Bytes → Bytes → NString → Type 0
Appended p t o = (q' : Bytes) × (o ≡ at (p ++ t) q')

pub make :
    (p t q' : Bytes) (b : Bytes) (n : ℕ)
    → b ≡ p ++ (t ++ q')
    → n ≡ length p + length t
    → Appended p t (record { buf = b; len = n })
make p t q' b n e f = (q', rw (e, f, append_assoc p t q', length-append p t))

pub text-Appended :
    (p q t : Bytes) (room : ℕ)
    → length t ≤ room
    → room ≤ length q
    → length (p ++ q) ≡ max_strlen
    → Appended p t (text (at p q) t room)
unfolding text strncpy
text-Appended p q t room h k full =
    let (z, e) = padded-append room t h in
    let fits : length (padded room t) ≤ length q = omega (arith, k, length-padded room t) in
    make p t (z ++ drop (length (padded room t)) q) _ _
      (written p q (padded room t) fits
        ∙ ap (λ (y : Bytes). p ++ (y ++ drop (length (padded room t)) q)) e
        ∙ ap (◌++◌ p) (append_assoc t z _))
      (omega (arith, full, h, k, length-append p q))

pub put-Appended :
    (p q : Bytes) (c : ℕ)
    → 0 < length q
    → length (p ++ q) ≡ max_strlen
    → (o : NString) × (put (at p q) c ≡ some o) × Appended p (c ∷ []) o
unfolding put
put-Appended p q c h full = elim (Bool-cases (ltb (length p) (length (p ++ q)))) [
  | inr t ↦ absurd (ground (arith, t, full, h, length-append p q))
  | inl t ↦ rw t (
    _,
    refl,
    make p (c ∷ []) (drop 1 q) _ _ (written p q (c ∷ []) (omega arith))
        (omega (arith, full, length-append p q, h)),
  )
]

pub plain-Appended :
    (p q : Bytes) (c : ℕ)
    → 0 < length q
    → length (p ++ q) ≡ max_strlen
    → Appended p (c ∷ []) (plain (at p q) c)
unfolding plain
plain-Appended p q c h full = elim (Bool-cases (ltb (length p) max_strlen)) [
  | inr t ↦ absurd (ground (arith, t, full, h, length-append p q))
  | inl t ↦ rw t (
      make p (c ∷ []) (drop 1 q) _ _ (written p q (c ∷ []) (omega arith))
        (omega (arith, full, length-append p q, h)))
]

pub plain2-Appended :
    (p q : Bytes) (c d : ℕ)
    → 1 < length q
    → length (p ++ q) ≡ max_strlen
    → Appended p (c ∷ d ∷ []) (plain (plain (at p q) c) d)
plain2-Appended p q c d h full =
    let (q', e) = plain-Appended p q c (omega arith) full in
    let full' : length ((p ++ (c ∷ [])) ++ q') ≡ max_strlen =
      sym (ap (λ (o : NString). length o.buf) e)
      ∙ (plain-Within max_strlen (at p q) c (omega (arith, full, h, length-append p q))).0
      ∙ full in
    let (q'', e') =
      plain-Appended (p ++ (c ∷ [])) q' d
        (omega (
          arith,
          full,
          full',
          h,
          length-append p q,
          length-append (p ++ (c ∷ [])) q',
          length-append p (c ∷ []),
        ))
        full' in
    (
      q'',
      ap (λ (o : NString). plain o d) e
          ∙ e'
          ∙ ap (λ (y : Bytes). at y q'') (append_assoc p (c ∷ []) (d ∷ [])),
    )

pub cookie-Appended :
    (p q : Bytes) (cookie room : ℕ)
    → length (hex cookie) < room
    → room ≤ length q
    → length (p ++ q) ≡ max_strlen
    → (o : NString) × (put_cookie (at p q) cookie room ≡ some o) × Appended p (hex cookie) o
unfolding put_cookie
cookie-Appended p q cookie room h k full =
    let s = hex cookie in
    let whole : min (length s) (room - 1) ≡ length s = omega arith in
    elim (Bool-cases (ltb (length p + length s) (length (p ++ q)))) [
      | inr t ↦ absurd (ground (arith, t, full, h, k, length-append p q))
      | inl t ↦
          rw (whole, t, take_of_length-le (length s) s (omega arith))
            (
              _,
              refl,
              make p s (0 ∷ drop (length (s ++ (0 ∷ []))) q) _ _
                  (written p q (s ++ (0 ∷ [])) (omega (arith, h, k, length-append s (0 ∷ [])))
                    ∙ ap (◌++◌ p) (append_assoc s (0 ∷ []) _))
                  (omega (arith, full, length-append p q, h, k)),
            )
    ]
