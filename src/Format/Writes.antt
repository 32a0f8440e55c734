-- ===== src/Format/Writes.antt =====
-- Which places of the buffer the writes of `snprintf` touch.
use inotify_tools.Prelude.{
  ℕ, zero, suc, ◌+◌, ◌-◌, ◌≤◌, ◌<◌, ◌≡◌, refl, ap, ◌∙◌, arith, Bytes, Bool, true, false, Option,
  none, some, [], ◌∷◌, ◌++◌, ltb, if◌then◌else◌, length, take, drop, Bool-cases, inl, inr,
  length-take, length-append,
}
use Prim.Native.Nat.{min}
use inotify_tools.Prelude.Buffer.{write_at, overlay}
use inotify_tools.Handle.{◌>>=◌}
use inotify_tools.Csv.{max_strlen}
use inotify_tools.Format.{
  NString, padded, strncpy, put, text, plain, put_cookie, hex, Round, go, stop,
}

-- a buffer that differs from `b` only in its first `size` places
abbrev pub Within : ℕ → Bytes → Bytes → Type 0
Within size b b' = (length b' ≡ length b) × (drop size b' ≡ drop size b)

length-overlay : (bs b : Bytes) → length (overlay bs b) ≡ length b
unfolding overlay
length-overlay [] b = refl
length-overlay (x ∷ bs) [] = refl
length-overlay (x ∷ bs) (y ∷ b) = ap suc (length-overlay bs b)

drop-overlay : (bs b : Bytes) (k : ℕ) → length bs ≤ k → drop k (overlay bs b) ≡ drop k b
unfolding overlay
drop-overlay [] b k h = refl
drop-overlay (x ∷ bs) [] k h = refl
drop-overlay (x ∷ bs) (y ∷ b) zero h = absurd (omega arith)
drop-overlay (x ∷ bs) (y ∷ b) (suc k) h = drop-overlay bs b k (omega arith)

pub length-write_at : (b : Bytes) (i : ℕ) (bs : Bytes) → length (write_at b i bs) ≡ length b
unfolding write_at
length-write_at b zero bs = length-overlay bs b
length-write_at [] (suc i) bs = refl
length-write_at (x ∷ b) (suc i) bs = ap suc (length-write_at b i bs)

drop-write_at :
    (b : Bytes) (i : ℕ) (bs : Bytes) (k : ℕ)
    → i + length bs ≤ k
    → drop k (write_at b i bs) ≡ drop k b
unfolding write_at
drop-write_at b zero bs k h = drop-overlay bs b k (omega arith)
drop-write_at [] (suc i) bs k h = refl
drop-write_at (x ∷ b) (suc i) bs zero h = absurd (omega arith)
drop-write_at (x ∷ b) (suc i) bs (suc k) h = drop-write_at b i bs k (omega arith)

pub length-padded : (n : ℕ) (s : Bytes) → length (padded n s) ≡ n
unfolding padded
length-padded zero s = refl
length-padded (suc n) [] = ap suc (length-padded n [])
length-padded (suc n) (x ∷ s) = ap suc (length-padded n s)

pub write_at-Within :
    (b : Bytes) (i : ℕ) (bs : Bytes) (size : ℕ)
    → i + length bs ≤ size
    → Within size b (write_at b i bs)
write_at-Within b i bs size h = (length-write_at b i bs, drop-write_at b i bs size h)

-- no panic, and only the first `size` places of `b` are written
abbrev pub Puts : ℕ → Bytes → Option NString → Type 0
Puts size b none = ⊥
Puts size b (some o) = Within size b o.buf

abbrev pub Goes : ℕ → Bytes → Option Round → Type 0
Goes size b none = ⊥
Goes size b (some (go rest o)) = Within size b o.buf
Goes size b (some (stop o)) = Within size b o.buf

if-Puts :
    (size : ℕ) (b : Bytes) (t : Bool) (x y : Option NString)
    → (t ≡ true → Puts size b x)
    → (t ≡ false → Puts size b y)
    → Puts size b (if t then x else y)
if-Puts size b true x y p q = p refl
if-Puts size b false x y p q = q refl

pub then-Goes :
    (size : ℕ) (b : Bytes) (m : Option NString) (rest : Bytes)
    → Puts size b m
    → Goes size b (m >>= λ o. some (go rest o))
then-Goes size b none rest h = h
then-Goes size b (some o) rest h = h

pub put-Puts :
    (size : ℕ) (out : NString) (c : ℕ)
    → out.len < size
    → size ≤ length out.buf
    → Puts size out.buf (put out c)
unfolding put
put-Puts size out c h fits =
    if-Puts size out.buf (ltb out.len (length out.buf)) _ none
      (λ t. write_at-Within out.buf out.len (c ∷ []) size (omega arith))
      (λ t. absurd (ground (arith, t, h, fits)))

pub put_cookie-Puts :
    (size : ℕ) (out : NString) (cookie : ℕ)
    → out.len + 1 < size
    → size ≤ length out.buf
    → Puts size out.buf (put_cookie out cookie (size - out.len))
unfolding put_cookie
put_cookie-Puts size out cookie h fits =
    let s = hex cookie in
    let n = min (length s) (size - out.len - 1) in
    if-Puts size out.buf (ltb (out.len + n) (length out.buf)) _ none
      (λ t.
        write_at-Within out.buf out.len (take n s ++ (0 ∷ [])) size
          (omega (arith, h, length-append (take n s) (0 ∷ []), length-take n s)))
      (λ t. absurd (ground (arith, t, h, fits)))

pub text-Within :
    (size : ℕ) (out : NString) (s : Bytes) (n : ℕ)
    → out.len + n ≤ size
    → Within size out.buf (text out s n).buf
unfolding text strncpy
text-Within size out s n h =
    write_at-Within out.buf out.len (padded n s) size (omega (arith, h, length-padded n s))

pub plain-Within :
    (size : ℕ) (out : NString) (c : ℕ) → out.len < size → Within size out.buf (plain out c).buf
unfolding plain
plain-Within size out c h = elim (Bool-cases (ltb out.len max_strlen)) [
  | inl t ↦ rw t (write_at-Within out.buf out.len (c ∷ []) size (omega arith))
  | inr t ↦ rw t (refl, refl)
]

plain-len :
    (size : ℕ) (out : NString) (c : ℕ)
    → out.len + 1 < size
    → size ≤ max_strlen
    → (plain out c).len ≡ out.len + 1
unfolding plain
plain-len size out c h small = ground arith

pub Within-trans : (size : ℕ) (a b c : Bytes) → Within size a b → Within size b c → Within size a c
Within-trans size a b c p q = (q.0 ∙ p.0, q.1 ∙ p.1)

pub plain2-Within :
    (size : ℕ) (out : NString) (c d : ℕ)
    → out.len + 1 < size
    → size ≤ max_strlen
    → Within size out.buf (plain (plain out c) d).buf
plain2-Within size out c d h small =
    Within-trans size out.buf (plain out c).buf (plain (plain out c) d).buf
      (plain-Within size out c (omega arith))
      (plain-Within size (plain out c) d (omega (arith, h, plain-len size out c h small)))
