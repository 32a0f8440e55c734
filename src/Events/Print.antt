-- ===== src/Events/Print.antt =====
-- `event_to_str_sep` against a description by the names that the mask shows, and its round trip.
use inotify_tools.Prelude.{
  ℕ, zero, suc, ◌+◌, ◌/◌, ◌%◌, ◌≤◌, ◌<◌, ◌≡◌, refl, Bytes, false, List, [], ◌∷◌, ◌++◌, arith, ◌==◌,
  if◌then◌else◌, length, length-append, drop, set, get_or, is_empty, until_nul, ◌≢◌, Bool-cases,
  inl, inr, ap, sym, ◌∙◌, All,
}
use mathlib.Core.List.{append_assoc, append-nil}
use inotify_tools.Prelude.Buffer.{
  write_at, strlen, NoNul, write_at-append, overlay-append, strlen-append, until_nul-append,
  NoNul-append,
}
use inotify_tools.Prelude.Word.{has}
use inotify_tools.Events.{
  flag_names, append_name, append_names, hex_digit, hex_digits, hex_mask, fill_evstr,
  event_to_str_sep,
}

-- the names of the flags that the mask has
unfoldable pub shown : ℕ → List (ℕ × Bytes) → List Bytes
shown events [] = []
shown events ((flag, name) ∷ names) =
    let rest = shown events names in if has flag events then name ∷ rest else rest

-- each name behind a separator, and the names between separators
unfoldable pub joined : ℕ → List Bytes → Bytes
joined sep [] = []
joined sep (n ∷ ns) = sep ∷ (n ++ joined sep ns)

unfoldable pub text : ℕ → List Bytes → Bytes
text sep [] = []
text sep (n ∷ ns) = n ++ joined sep ns

set-append : (p q : Bytes) (x v : ℕ) → set (p ++ (x ∷ q)) (length p) v ≡ p ++ (v ∷ q)
set-append [] q x v = refl
set-append (y ∷ p) q x v = ap (◌∷◌ y) (set-append p q x v)

drop_cons :
    (n : ℕ) (q : Bytes)
    → n < length q
    → (x : ℕ) × (q' : Bytes) × (drop n q ≡ x ∷ q') × (length q' + n + 1 ≡ length q)
drop_cons n [] h = absurd (omega arith)
drop_cons zero (x ∷ q) h = (x, q, refl, omega arith)
drop_cons (suc n) (x ∷ q) h =
    let (y, q', e, l) = drop_cons n q (omega arith) in (y, q', e, omega arith)

-- The buffer as two writes leave it: the old text, the separator, the end of the text.
with_sep :
    (sep : ℕ) (s r : Bytes) (x : ℕ)
    → NoNul s
    → (let ret = s ++ (0 ∷ x ∷ r) in set (set ret (strlen ret) sep) (strlen ret + 1) 0)
      ≡ (s ++ (sep ∷ [])) ++ (0 ∷ r)
with_sep sep s r x n =
    rw (strlen-append s (x ∷ r) n, set-append s (x ∷ r) 0 sep)
      (ap (λ (i : ℕ). set (s ++ (sep ∷ x ∷ r)) i 0) (omega (arith, length-append s (sep ∷ [])))
        ∙ ap (λ (b : Bytes). set b (length (s ++ (sep ∷ []))) 0)
            (sym (append_assoc s (sep ∷ []) (x ∷ r)))
        ∙ set-append (s ++ (sep ∷ [])) r x 0)

append_name_lem :
    (sep : ℕ) (name s r : Bytes)
    → NoNul s
    → sep ≢ 0
    → length name < length r
    → (r' : Bytes) × (append_name sep name (s ++ (0 ∷ r)) ≡ (s ++ (sep ∷ name)) ++ (0 ∷ r'))
      × (length r' + 1 + length name ≡ length r)
unfolding append_name
append_name_lem sep name s [] n ok room = absurd (omega arith)
append_name_lem sep name s (x ∷ r) n ok room =
    let s' = s ++ (sep ∷ []) in
    let n' : NoNul s' = NoNul-append s (sep ∷ []) n (ok, tt) in
    let (y, q, e, l) = drop_cons (length name) (0 ∷ r) (omega arith) in
    let written : write_at (s' ++ (0 ∷ r)) (length s') name ≡ (s' ++ name) ++ (y ∷ q) =
      write_at-append s' (0 ∷ r) name
      ∙ ap (λ (b : Bytes). s' ++ b) (overlay-append name (0 ∷ r) (omega arith))
      ∙ ap (λ (b : Bytes). s' ++ (name ++ b)) e
      ∙ sym (append_assoc s' name (y ∷ q)) in
    (
      q,
      rw (with_sep sep s r x n, strlen-append s' r n', written)
          (ap (λ (i : ℕ). set ((s' ++ name) ++ (y ∷ q)) i 0) (sym (length-append s' name))
            ∙ set-append (s' ++ name) q y 0
            ∙ ap (λ (b : Bytes). b ++ (0 ∷ q)) (append_assoc s (sep ∷ []) name)),
      omega arith,
    )

-- the room that the names take, each with its separator
need : List (ℕ × Bytes) → ℕ
need [] = 0
need ((flag, name) ∷ names) = length name + 1 + need names

abbrev pub Clean : List (ℕ × Bytes) → Type 0
Clean = All (λ e. NoNul e.1)

append_names_lem :
    (events sep : ℕ) (names : List (ℕ × Bytes)) (s r : Bytes)
    → sep ≢ 0
    → NoNul s
    → Clean names
    → need names < length r
    → (r' : Bytes) × (append_names events sep names (s ++ (0 ∷ r))
        ≡ (s ++ joined sep (shown events names)) ++ (0 ∷ r'))
      × (length r ≤ length r' + need names)
unfolding append_names joined shown need
append_names_lem events sep [] s r ok n clean room =
    (r, ap (λ (b : Bytes). b ++ (0 ∷ r)) (sym (append-nil s)), omega arith)
append_names_lem events sep ((flag, name) ∷ names) s r ok n clean room =
    elim (Bool-cases (has flag events)) [
      | inl e ↦
          let (r1, put, l1) = append_name_lem sep name s r n ok (omega arith) in
          let n1 : NoNul (s ++ (sep ∷ name)) = NoNul-append s (sep ∷ name) n (ok, clean.0) in
          let (r2, rest, l2) =
            append_names_lem events sep names (s ++ (sep ∷ name)) r1 ok n1 clean.1 (omega arith) in
          (
            r2,
            rw (e, put) (rest ∙ ap (λ (b : Bytes). b ++ (0 ∷ r2)) (append_assoc s (sep ∷ name) _)),
            omega arith,
          )
      | inr e ↦
          let (r2, rest, l2) = append_names_lem events sep names s r ok n clean.1 (omega arith) in
          (r2, rw e rest, omega arith)
    ]

hex_digit_nonzero : (d : ℕ) → d < 16 → hex_digit d ≢ 0
unfolding hex_digit
hex_digit_nonzero d h = λ e. ground arith

hex_digits-NoNul : (n v : ℕ) → NoNul (hex_digits n v)
unfolding hex_digits
hex_digits-NoNul zero v = tt
hex_digits-NoNul (suc n) v =
    NoNul-append (hex_digits n (v / 16)) (hex_digit (v % 16) ∷ []) (hex_digits-NoNul n (v / 16))
      (hex_digit_nonzero (v % 16) (omega arith), tt)

length-hex_digits : (n v : ℕ) → length (hex_digits n v) ≡ n
unfolding hex_digits
length-hex_digits zero v = refl
length-hex_digits (suc n) v = omega (
  arith,
  length-append (hex_digits n (v / 16)) (hex_digit (v % 16) ∷ []),
  length-hex_digits n (v / 16),
)

-- The second byte on, where no name is shown.
hexed :
    (sep : ℕ) (s r : Bytes)
    → NoNul s
    → length s < length r
    → until_nul (drop 1 (set (write_at (set (0 ∷ r) 0 sep) 1 s) (1 + length s) 0)) ≡ s
unfolding write_at
hexed sep s r n room =
    let (y, q, e, l) = drop_cons (length s) r room in
    let step : 1 + length s ≡ suc (length s) = omega arith in
    rw (step, overlay-append s r (omega arith), e, set-append s q y 0) (until_nul-append s q n)

starts_empty :
    (evstr : Bytes)
    → length evstr ≡ 1024
    → (r : Bytes) × (set (set evstr 0 0) 1 0 ≡ 0 ∷ 0 ∷ r) × (length r + 2 ≡ 1024)
starts_empty [] h = absurd (omega arith)
starts_empty (a ∷ []) h = absurd (omega arith)
starts_empty (a ∷ b ∷ r) h = (r, refl, omega arith)

pub flag_names-Clean : Clean flag_names
flag_names-Clean = omega arith

pub shown-NoNul :
    (events : ℕ) (names : List (ℕ × Bytes)) → Clean names → All NoNul (shown events names)
unfolding shown
shown-NoNul events [] clean = tt
shown-NoNul events ((flag, name) ∷ names) clean =
    ground (arith, shown-NoNul events names clean.1, clean.0)

pub joined-NoNul : (sep : ℕ) (ns : List Bytes) → sep ≢ 0 → All NoNul ns → NoNul (joined sep ns)
unfolding joined
joined-NoNul sep [] ok n = tt
joined-NoNul sep (m ∷ ns) ok n =
    (ok, NoNul-append m (joined sep ns) n.0 (joined-NoNul sep ns ok n.1))

-- the end of `event_to_str_sep`, on a buffer that holds the names
abbrev finished : ℕ → ℕ → Bytes → Bytes
finished events sep ret =
    let s = hex_mask events in
    let hexed = set (write_at (set ret 0 sep) 1 s) (1 + length s) 0 in
    if get_or ret 0 0 == 0 then hexed else ret

finished_lem :
    (events sep : ℕ) (ns : List Bytes) (r : Bytes)
    → sep ≢ 0
    → All NoNul ns
    → 12 < length r
    → until_nul (drop 1 (finished events sep (joined sep ns ++ (0 ∷ r))))
      ≡ (if is_empty ns then hex_mask events else text sep ns)
unfolding joined text
finished_lem events sep [] r ok n room =
    unfold hex_mask in
    hexed sep (b'0' ∷ b'x' ∷ hex_digits 8 events) r
      (λ e. omega arith, (λ e. omega arith, hex_digits-NoNul 8 events))
      (omega (arith, length-hex_digits 8 events))
finished_lem events sep (m ∷ ns) r ok n room =
    let visible : (sep == 0) ≡ false = ground arith in
    rw visible (
      until_nul-append (m ++ joined sep ns) r
        (NoNul-append m (joined sep ns) n.0 (joined-NoNul sep ns ok n.1)))

-- For a separator that is not NUL, the text in the buffer of 1024 bytes, whatever it held before,
-- is the names that the mask shows with the separator between them, or the mask in hexadecimal if
-- it shows none.
pub event_to_str_sep_lem :
    (evstr : Bytes) (events sep : ℕ)
    → length evstr ≡ 1024
    → sep ≢ 0
    → event_to_str_sep evstr events sep ≡ (
        if is_empty (shown events flag_names)
        then hex_mask events
        else text sep (shown events flag_names))
unfolding event_to_str_sep fill_evstr
event_to_str_sep_lem evstr events sep full ok =
    let (r, e, l) = starts_empty evstr full in
    let (r', put, l') =
      append_names_lem events sep flag_names [] (0 ∷ r) ok tt flag_names-Clean
        (unfold need in omega arith) in
    rw (e, put)
      (finished_lem events sep (shown events flag_names) r' ok
        (shown-NoNul events flag_names flag_names-Clean) (unfold need in omega (arith, l')))
