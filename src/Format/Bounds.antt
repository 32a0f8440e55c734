-- ===== src/Format/Bounds.antt =====
-- `snprintf` neither panics nor writes outside the part of the buffer that it was given.
use inotify_tools.Prelude.{
  ℕ, zero, suc, ◌+◌, ◌-◌, ◌%◌, ◌≤◌, ◌<◌, ◌≡◌, refl, ◌∙◌, arith, Bytes, Bool, true, false, Option,
  none, some, [], ◌∷◌, ◌==◌, ltb, length, Option-cases, Bool-cases, inl, inr, leb, leb→le, ltb→lt,
  ◌⊎◌, is_empty, ◌||◌,
}
use inotify_tools.Prelude.Word.{minus_one, u32_mod}
use inotify_tools.Csv.{max_strlen}
use inotify_tools.Format.{
  Args, NString, padded, put, Round, go, stop, unknown, directive, round, loop, snprintf, limit,
  einval, emsgsize,
}
use inotify_tools.Format.Writes.{
  Goes, Within, Within-trans, length-padded, plain2-Within, put-Puts, put_cookie-Puts, text-Within,
  then-Goes, write_at-Within,
}

unknown-Goes :
    (size : ℕ) (a : Args) (ch1 : ℕ) (rest : Bytes) (out : NString)
    → out.len + 1 < size
    → size ≤ max_strlen
    → Goes size out.buf (unknown size a ch1 rest out)
unfolding unknown
unknown-Goes size a ch1 [] out h small = plain2-Within size out b'%' ch1 h small
unknown-Goes size a ch1 (ch2 ∷ rest) out h small = elim (Bool-cases (ch2 == b'e')) [
  | inl q ↦ rw q (text-Within size out _ (size - out.len) (omega arith))
  | inr q ↦ rw q (plain2-Within size out b'%' ch1 h small)
]

directive-Goes :
    (size : ℕ) (a : Args) (ch1 : ℕ) (rest : Bytes) (out : NString)
    → out.len + 1 < size
    → size ≤ max_strlen
    → length out.buf ≡ max_strlen
    → Goes size out.buf (directive size a ch1 rest out)
unfolding directive
directive-Goes size a ch1 rest out h small full =
    let b = out.buf in
    let single = λ (c : ℕ).
      then-Goes size b (put out c) rest (put-Puts size out c (omega arith) (omega arith)) in
    let copied = λ (s : Bytes). text-Within size out s (size - out.len) (omega arith) in
    elim (Bool-cases (ch1 == b'%')) [
      | inl q ↦ rw q (single b'%')
      | inr q ↦ rw q (elim (Bool-cases (ch1 == b'0')) [
        | inl q ↦ rw q (single 0)
        | inr q ↦ rw q (elim (Bool-cases (ch1 == b'n')) [
          | inl q ↦ rw q (single 10)
          | inr q ↦ rw q (elim (Bool-cases (ch1 == b'w')) [
            | inl q ↦ rw q (elim (Bool-cases (leb a.path.dirnamelen (size - out.len))) [
              | inl t ↦ rw t (
                  write_at-Within b out.len (padded a.path.dirnamelen a.path.filename) size (
                    omega
                      (arith, h, leb→le _ _ t, length-padded a.path.dirnamelen a.path.filename)))
              | inr t ↦ rw t (refl, refl)
            ])
            | inr q ↦ rw q (elim (Bool-cases (ch1 == b'f')) [
              | inl q ↦ rw q (copied a.path.eventname)
              | inr q ↦ rw q (elim (Bool-cases (ch1 == b'c')) [
                | inl q ↦
                    rw q
                      (then-Goes size b _ rest (put_cookie-Puts size out a.cookie h (omega arith)))
                | inr q ↦ rw q (elim (Bool-cases (ch1 == b'e')) [
                  | inl q ↦ rw q (copied _)
                  | inr q ↦ rw q (elim (Bool-cases (ch1 == b'T')) [
                    | inl q ↦ rw q (elim (Option-cases a.time) [
                      | inl e ↦ rw e (refl, refl)
                      | inr (t, e) ↦ rw e (copied t)
                    ])
                    | inr q ↦ rw q (unknown-Goes size a ch1 rest out h small)
                  ])
                ])
              ])
            ])
          ])
        ])
      ])
    ]

pub round-Goes :
    (size : ℕ) (a : Args) (c : ℕ) (rest : Bytes) (out : NString)
    → out.len + 1 < size
    → size ≤ max_strlen
    → length out.buf ≡ max_strlen
    → Goes size out.buf (round size a c rest out)
unfolding round
round-Goes size a c [] out h small full = elim (Bool-cases (c == b'%')) [
  | inl q ↦ rw q (refl, refl)
  | inr q ↦
      rw q (then-Goes size out.buf (put out c) [] (put-Puts size out c (omega arith) (omega arith)))
]
round-Goes size a c (ch1 ∷ rest) out h small full = elim (Bool-cases (c == b'%')) [
  | inl q ↦ rw q (directive-Goes size a ch1 rest out h small full)
  | inr q ↦ rw q (
      then-Goes size out.buf (put out c) (ch1 ∷ rest)
        (put-Puts size out c (omega arith) (omega arith)))
]

Goes-cases :
    (size : ℕ) (b : Bytes) (r : Option Round)
    → Goes size b r
    → ((rest : Bytes) × (o : NString) × (r ≡ some (go rest o)) × Within size b o.buf)
      ⊎ ((o : NString) × (r ≡ some (stop o)) × Within size b o.buf)
Goes-cases size b none h = elim h [ ]
Goes-cases size b (some (go rest o)) h = inl (rest, o, refl, h)
Goes-cases size b (some (stop o)) h = inr (o, refl, h)

loop-Within :
    (fuel size : ℕ) (a : Args) (fmt : Bytes) (out : NString)
    → size ≤ max_strlen
    → length out.buf ≡ max_strlen
    → (o : NString) × (v : Bool) × (loop fuel size a fmt out ≡ some (o, v))
      × Within size out.buf o.buf
unfolding loop
loop-Within zero size a fmt out small full = (out, true, refl, (refl, refl))
loop-Within (suc fuel) size a [] out small full = (out, true, refl, (refl, refl))
loop-Within (suc fuel) size a (c ∷ rest) out small full =
    elim (Bool-cases (ltb (out.len + 1) size)) [
      | inr q ↦ rw q (out, true, refl, (refl, refl))
      | inl q ↦
          let goes = round-Goes size a c rest out (ltb→lt _ _ q) small full in
          elim (Goes-cases size out.buf (round size a c rest out) goes) [
            | inr (o, e, w) ↦ rw (q, e) (o, false, refl, w)
            | inl (rest', o, e, w) ↦
                let (o', v, e', w') = loop-Within fuel size a rest' o small (w.0 ∙ full) in
                rw (q, e) (o', v, e', Within-trans size out.buf o.buf o'.buf w w')
          ]
    ]

-- With a buffer of 4096 bytes `snprintf` returns, never by a panic, whatever the format, the event
-- and the given size are; the buffer keeps its length, and its bytes from the given size on (from
-- the start, if the size is negative) are as before.
pub snprintf-Within :
    (a : Args) (out : NString) (error size : ℕ) (fmt : Option Bytes)
    → length out.buf ≡ max_strlen
    → (ret : ℕ) × (err : ℕ) × (out' : NString) × (snprintf a out error size fmt
        ≡ some (ret, err, out'))
      × Within (limit size) out.buf out'.buf
unfolding snprintf
snprintf-Within a out error size none full = (minus_one, einval, out, refl, (refl, refl))
snprintf-Within a out error size (some fmt) full = elim (Bool-cases (is_empty fmt)) [
  | inl q ↦ rw q (minus_one, einval, out, refl, (refl, refl))
  | inr q ↦ elim (Bool-cases (ltb max_strlen (length fmt) || ltb max_strlen (limit size))) [
    | inl t ↦ rw (q, t) (minus_one, emsgsize, out, refl, (refl, refl))
    | inr t ↦
        let small : limit size ≤ max_strlen = ground (arith, t) in
        let start : NString = record { buf = out.buf; len = 0 } in
        let (o, v, e, w) = loop-Within (length fmt) (limit size) a fmt start small full in
        elim (Bool-cases v) [
          | inl p ↦ rw (q, t, e, p) ((o.len + minus_one) % u32_mod, error, o, refl, w)
          | inr p ↦ rw (q, t, e, p) (o.len, einval, record { buf = o.buf; len = out.len }, refl, w)
        ]
  ]
]
