-- ===== src/Format/Prints.antt =====
-- Each directive prints its text, if there is room for it.
use inotify_tools.Prelude.{
  ℕ, zero, suc, ◌+◌, ◌-◌, ◌%◌, ◌≤◌, ◌<◌, ◌≡◌, refl, ap, ◌∙◌, arith, Bytes, Option, none, some, [],
  ◌∷◌, ◌++◌, ◌==◌, leb, if◌then◌else◌, length, take, drop, Option-cases, Bool-cases, inl, inr,
  length-append, length-take,
}
use inotify_tools.Prelude.Word.{u32_mod}
use inotify_tools.Handle.{◌>>=◌}
use inotify_tools.Csv.{max_strlen}
use inotify_tools.Format.{
  Args, NString, padded, strncpy, put, text, plain, Round, go, unknown, directive,
}
use inotify_tools.Format.Writes.{length-padded}
use inotify_tools.Format.Expand.{
  Appended, at, cookie-Appended, make, other, plain2-Appended, put-Appended, text-Appended, value,
  written,
}

-- The round that `r` is prints the text of the piece `m` after `p`, if `size` leaves room for it.
abbrev pub Prints : ℕ → Bytes → Option (Bytes × Bytes) → Option Round → Type 0
Prints size p none r = Unit
Prints size p (some (t, rest)) r =
    length p + length t + 1 < size → (o : NString) × (r ≡ some (go rest o)) × Appended p t o

pub single-Prints :
    (size : ℕ) (p q : Bytes) (c : ℕ) (rest : Bytes)
    → size ≤ max_strlen
    → length (p ++ q) ≡ max_strlen
    → Prints size p (some (c ∷ [], rest)) (put (at p q) c >>= λ o. some (go rest o))
single-Prints size p q c rest small full room =
    let (o, e, w) = put-Appended p q c (omega (arith, small, full, room, length-append p q)) full in
    rw e (o, refl, w)

text-Prints :
    (size : ℕ) (p q t rest : Bytes)
    → size ≤ max_strlen
    → length (p ++ q) ≡ max_strlen
    → Prints size p (some (t, rest)) (some (go rest (text (at p q) t (size - length p))))
text-Prints size p q t rest small full room = (
  _,
  refl,
  text-Appended p q t (size - length p) (omega arith)
      (omega (arith, small, full, room, length-append p q)) full,
)

plain2-Prints :
    (size : ℕ) (p q : Bytes) (c d : ℕ) (rest : Bytes)
    → size ≤ max_strlen
    → length (p ++ q) ≡ max_strlen
    → Prints size p (some (c ∷ d ∷ [], rest)) (some (go rest (plain (plain (at p q) c) d)))
plain2-Prints size p q c d rest small full room =
    (_, refl, plain2-Appended p q c d (omega (arith, small, full, room, length-append p q)) full)

padded-take : (n : ℕ) (s : Bytes) → n ≤ length s → padded n s ≡ take n s
unfolding padded
padded-take zero s h = refl
padded-take (suc n) [] h = absurd (omega arith)
padded-take (suc n) (x ∷ s) h = ap (◌∷◌ x) (padded-take n s (omega arith))

dir-Prints :
    (size : ℕ) (p q s rest : Bytes) (n : ℕ)
    → n ≤ length s
    → size ≤ max_strlen
    → length (p ++ q) ≡ max_strlen
    → Prints size p (some (take n s, rest)) (
        if leb n (size - length p)
        then some (
            go rest
              (record { buf = strncpy (p ++ q) (length p) s n; len = (length p + n) % u32_mod }))
        else some (go rest (at p q)))
unfolding strncpy
dir-Prints size p q s rest n inside small full room = elim (Bool-cases (leb n (size - length p))) [
  | inr t ↦ absurd (ground (arith, t, room, length-take n s, inside))
  | inl t ↦
      let len : length (take n s) ≡ n = omega (arith, length-take n s, inside) in
      rw t (
        _,
        refl,
        make p (take n s) (drop (length (padded n s)) q) _ _
            (written p q (padded n s)
                (omega (arith, small, full, room, len, length-append p q, length-padded n s))
              ∙ ap (λ (y : Bytes). p ++ (y ++ drop (length (padded n s)) q))
                  (padded-take n s inside))
            (omega (arith, small, full, room, len, length-append p q)),
      )
]

unknown-Prints :
    (size : ℕ) (a : Args) (ch1 : ℕ) (rest p q : Bytes)
    → size ≤ max_strlen
    → length (p ++ q) ≡ max_strlen
    → Prints size p (other a ch1 rest) (unknown size a ch1 rest (at p q))
unfolding other unknown
unknown-Prints size a ch1 [] p q small full = plain2-Prints size p q b'%' ch1 [] small full
unknown-Prints size a ch1 (ch2 ∷ rest) p q small full = elim (Bool-cases (ch2 == b'e')) [
  | inl e ↦ rw e (text-Prints size p q _ rest small full)
  | inr e ↦ rw e (plain2-Prints size p q b'%' ch1 (ch2 ∷ rest) small full)
]

pub directive-Prints :
    (size : ℕ) (a : Args) (ch1 : ℕ) (rest p q : Bytes)
    → a.path.dirnamelen ≤ length a.path.filename
    → size ≤ max_strlen
    → length (p ++ q) ≡ max_strlen
    → Prints size p (value a ch1 rest) (directive size a ch1 rest (at p q))
unfolding value directive
directive-Prints size a ch1 rest p q dir small full =
    let single = λ (c : ℕ). single-Prints size p q c rest small full in
    let copied = λ (s : Bytes). text-Prints size p q s rest small full in
    elim (Bool-cases (ch1 == b'%')) [
      | inl e ↦ rw e (single b'%')
      | inr e ↦ rw e (elim (Bool-cases (ch1 == b'0')) [
        | inl e ↦ rw e (single 0)
        | inr e ↦ rw e (elim (Bool-cases (ch1 == b'n')) [
          | inl e ↦ rw e (single 10)
          | inr e ↦ rw e (elim (Bool-cases (ch1 == b'w')) [
            | inl e ↦
                rw e (dir-Prints size p q a.path.filename rest a.path.dirnamelen dir small full)
            | inr e ↦ rw e (elim (Bool-cases (ch1 == b'f')) [
              | inl e ↦ rw e (copied a.path.eventname)
              | inr e ↦ rw e (elim (Bool-cases (ch1 == b'c')) [
                | inl e ↦ rw e (λ room.
                    let (o, f, w) =
                      cookie-Appended p q a.cookie (size - length p) (omega arith)
                        (omega (arith, small, full, room, length-append p q)) full in
                    rw f (o, refl, w))
                | inr e ↦ rw e (elim (Bool-cases (ch1 == b'e')) [
                  | inl e ↦ rw e (copied _)
                  | inr e ↦ rw e (elim (Bool-cases (ch1 == b'T')) [
                    | inl e ↦ rw e (elim (Option-cases a.time) [
                      | inl f ↦ rw f tt
                      | inr (t, f) ↦ rw f (copied t)
                    ])
                    | inr e ↦ rw e (unknown-Prints size a ch1 rest p q small full)
                  ])
                ])
              ])
            ])
          ])
        ])
      ])
    ]
