-- ===== src/Format/Result.antt =====
-- The result of `snprintf` where the buffer has room for the whole text.
use inotify_tools.Prelude.{
  ℕ, zero, suc, ◌+◌, ◌%◌, ◌≤◌, ◌<◌, ◌≡◌, refl, ap, ◌∙◌, sym, arith, Bytes, true, false, some, [],
  ◌∷◌, ◌++◌, ◌==◌, ltb, length, Option-cases, Bool-cases, inl, inr, length-append, ◌||◌, is_empty,
}
use mathlib.Core.Path.{transport}
use mathlib.Core.List.{append_assoc, append-nil}
use inotify_tools.Prelude.Word.{minus_one, u32_mod}
use inotify_tools.Csv.{max_strlen}
use inotify_tools.Format.{Args, NString, go, round, loop, snprintf, limit}
use inotify_tools.Format.Bounds.{round-Goes}
use inotify_tools.Format.Writes.{Goes}
use inotify_tools.Format.Expand.{expand, piece, at}
use inotify_tools.Format.Prints.{Prints, single-Prints, directive-Prints}

module _ (a : Args) (size : ℕ) (dir : a.path.dirnamelen ≤ length a.path.filename)
    (small : size ≤ max_strlen) where
  round-Prints :
      (c : ℕ) (rest p q : Bytes)
      → length (p ++ q) ≡ max_strlen
      → Prints size p (piece a c rest) (round size a c rest (at p q))
  unfolding piece round
  round-Prints c [] p q full = elim (Bool-cases (c == b'%')) [
    | inl e ↦ rw e tt
    | inr e ↦ rw e (single-Prints size p q c [] small full)
  ]
  round-Prints c (ch1 ∷ rest) p q full = elim (Bool-cases (c == b'%')) [
    | inl e ↦ rw e (directive-Prints size a ch1 rest p q dir small full)
    | inr e ↦ rw e (single-Prints size p q c (ch1 ∷ rest) small full)
  ]

  -- one round, and the length of the buffer behind it
  round-piece :
      (c : ℕ) (rest p q t rest' : Bytes)
      → length (p ++ q) ≡ max_strlen
      → piece a c rest ≡ some (t, rest')
      → length p + length t + 1 < size
      → (q' : Bytes) × (round size a c rest (at p q) ≡ some (go rest' (at (p ++ t) q')))
        × (length ((p ++ t) ++ q') ≡ max_strlen)
  round-piece c rest p q t rest' full e room =
      let printed : Prints size p (some (t, rest')) (round size a c rest (at p q)) =
        transport (ap (λ m. Prints size p m (round size a c rest (at p q))) e)
          (round-Prints c rest p q full) in
      let (o, f, (q', w)) = printed room in
      let here = f ∙ ap (λ (o : NString). some (go rest' o)) w in
      let kept : Goes size (p ++ q) (some (go rest' (at (p ++ t) q'))) =
        transport (ap (Goes size (p ++ q)) here)
          (round-Goes size a c rest (at p q) (omega arith) small full) in
      (q', here, kept.0 ∙ full)

  loop-expand :
      (fuel : ℕ) (fmt p q u : Bytes)
      → length (p ++ q) ≡ max_strlen
      → expand fuel a fmt ≡ some u
      → length p + length u + 1 < size
      → (q' : Bytes) × (loop fuel size a fmt (at p q) ≡ some (at (p ++ u) q', true))
  unfolding loop expand
  loop-expand zero fmt p q u full e room = (
    q,
    ap (λ (y : Bytes). some (at y q, true)) (sym (append-nil p) ∙ ap (◌++◌ p) (ground (arith, e))),
  )
  loop-expand (suc fuel) [] p q u full e room = (
    q,
    ap (λ (y : Bytes). some (at y q, true)) (sym (append-nil p) ∙ ap (◌++◌ p) (ground (arith, e))),
  )
  loop-expand (suc fuel) (c ∷ rest) p q u full e room = elim (Option-cases (piece a c rest)) [
    | inl f ↦ absurd (ground (arith, e, f))
    | inr ((t, rest'), f) ↦ elim (Option-cases (expand fuel a rest')) [
      | inl g ↦ absurd (ground (arith, e, f, g))
      | inr (v, g) ↦
          let whole : t ++ v ≡ u = ground (arith, e, f, g) in
          let len : length u ≡ length t + length v =
            ap (λ (y : Bytes). length y) (sym whole) ∙ length-append t v in
          let (q', h, full') = round-piece c rest p q t rest' full f (omega arith) in
          let (q'', k) =
            loop-expand fuel rest' (p ++ t) q' v full' g
              (omega (arith, room, len, length-append p t)) in
          let go_on : ltb (length p + 1) size ≡ true = ground arith in
          rw (go_on, h)
            (
              q'',
              k
                  ∙ ap (λ (y : Bytes). some (at y q'', true))
                      (append_assoc p t v ∙ ap (◌++◌ p) whole),
            )
    ]
  ]

non_empty : (s : Bytes) → 0 < length s → is_empty s ≡ false
non_empty [] h = absurd (omega arith)
non_empty (c ∷ s) h = refl

-- A format that is not empty and not longer than 4096 bytes, whose text is `u`, prints `u` at the
-- start of the buffer and has its length there, if `u` leaves two of the given places free and the
-- part of the path that %w prints lies in the path. The result is the number of characters written
-- less one, as the comment on `snprintf` in inotify.rs says, and not the number itself, as
-- inotifytools.h says; for an empty text it is -1, which stands for an error, while `error` stays
-- as it was.
pub snprintf_lem :
    (a : Args) (out : NString) (error size : ℕ) (fmt u : Bytes)
    → a.path.dirnamelen ≤ length a.path.filename
    → length out.buf ≡ max_strlen
    → size ≤ max_strlen
    → 0 < length fmt
    → length fmt ≤ max_strlen
    → expand (length fmt) a fmt ≡ some u
    → length u + 1 < size
    → (rest : Bytes) × (snprintf a out error size (some fmt)
        ≡ some
            ((length u + minus_one) % u32_mod, error, record { buf = u ++ rest; len = length u }))
unfolding snprintf
snprintf_lem a out error size fmt u dir full small pos short e room =
    let whole : limit size ≡ size = ground arith in
    let fits : (ltb max_strlen (length fmt) || ltb max_strlen size) ≡ false = ground arith in
    let (rest, f) =
      loop-expand a size dir small (length fmt) fmt [] out.buf u full e (omega arith) in
    rw (non_empty fmt pos, whole, fits, f) (rest, refl)
