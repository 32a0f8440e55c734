-- ===== src/Reader/Wire.antt =====
-- The bytes of `struct inotify_event`, as the kernel writes them, and the event that is read back.
use inotify_tools.Prelude.{
  ℕ, zero, suc, ◌+◌, ◌-◌, ◌*◌, ◌/◌, ◌%◌, ◌≤◌, ◌<◌, ◌≡◌, ◌∙◌, sym, refl, ap, Bytes, [], ◌∷◌, ◌++◌,
  arith, length, take, drop, replicate, get_or, until_nul, length-append, ltb, if◌then◌else◌,
}
use mathlib.Core.List.{append_assoc, append-nil}
use inotify_tools.Prelude.Word.{u32_mod}
use inotify_tools.Prelude.Buffer.{NoNul, until_nul-append, until_nul-NoNul}
use inotify_tools.Fid.{byte_at}
use inotify_tools.Names.{Event}
use inotify_tools.Reader.{rd_u32, le_u32, event_at}

-- the name is padded with NULs to the length of the event
abbrev pub encode : Event → Bytes
encode ev =
    le_u32 ev.wd
    ++ (le_u32 ev.mask
        ++ (le_u32 ev.cookie
            ++ (le_u32 ev.len ++ (ev.name ++ replicate (ev.len - length ev.name) 0))))

-- what the kernel sends: 32-bit fields, and a name without NULs that fits the length
pub record IsEvent (ev : Event) : Type 0 where
  pub wd_fits : ev.wd < u32_mod
  pub mask_fits : ev.mask < u32_mod
  pub cookie_fits : ev.cookie < u32_mod
  pub len_fits : ev.len < u32_mod
  pub clean : NoNul ev.name
  pub name_fits : length ev.name ≤ ev.len

pub length-replicate : (n c : ℕ) → length (replicate n c) ≡ n
length-replicate zero c = refl
length-replicate (suc n) c = ap suc (length-replicate n c)

pub length-encode : (ev : Event) → IsEvent ev → length (encode ev) ≡ 16 + ev.len
length-encode ev v = omega (
  arith,
  length-append ev.name (replicate (ev.len - length ev.name) 0),
  length-replicate (ev.len - length ev.name) 0,
  v.name_fits,
)

suc_plus : (a n : ℕ) → suc a + n ≡ suc (a + n)
suc_plus a n = omega arith

pub drop-append : (p q : Bytes) (n : ℕ) → drop (length p + n) (p ++ q) ≡ drop n q
drop-append [] q n = ap (λ (t : ℕ). drop t q) (omega arith)
drop-append (x ∷ p) q n =
    ap (λ (t : ℕ). drop t (x ∷ (p ++ q))) (suc_plus (length p) n) ∙ drop-append p q n

pub take-append : (p q : Bytes) → take (length p) (p ++ q) ≡ p
take-append [] q = refl
take-append (x ∷ p) q = ap (◌∷◌ x) (take-append p q)

byte_at-append : (p q : Bytes) (n : ℕ) → byte_at (p ++ q) (length p + n) ≡ byte_at q n
unfolding byte_at
byte_at-append [] q n = ap (λ (t : ℕ). get_or q t 0) (omega arith)
byte_at-append (x ∷ p) q n =
    ap (λ (t : ℕ). get_or (x ∷ (p ++ q)) t 0) (suc_plus (length p) n) ∙ byte_at-append p q n

pub rd_u32-append : (p q : Bytes) (n : ℕ) → rd_u32 (p ++ q) (length p + n) ≡ rd_u32 q n
unfolding rd_u32
rd_u32-append p q n = ground (
  arith,
  byte_at-append p q n,
  byte_at-append p q (n + 1),
  byte_at-append p q (n + 2),
  byte_at-append p q (n + 3),
)

le_u32_value :
    (v : ℕ)
    → v < u32_mod
    → v % 256
        + 256 * ((v / 256) % 256)
        + 65536 * ((v / 65536) % 256)
        + 16777216 * ((v / 16777216) % 256)
      ≡ v
le_u32_value v h = omega arith

until_nul-padded : (s : Bytes) (n : ℕ) → NoNul s → until_nul (s ++ replicate n 0) ≡ s
unfolding until_nul
until_nul-padded s zero h = rw (append-nil s) (until_nul-NoNul s h)
until_nul-padded s (suc n) h = until_nul-append s (replicate n 0) h

-- the four fields, and the name
word :
    (p q : Bytes) (n v : ℕ)
    → v < u32_mod
    → rd_u32 q n
      ≡ v % 256
        + 256 * ((v / 256) % 256)
        + 65536 * ((v / 65536) % 256)
        + 16777216 * ((v / 16777216) % 256)
    → rd_u32 (p ++ q) (length p + n) ≡ v
word p q n v fits e = rd_u32-append p q n ∙ e ∙ le_u32_value v fits

name_at :
    (s q : Bytes) (len : ℕ)
    → NoNul s
    → length s ≤ len
    → (if ltb 0 len then until_nul (take len (s ++ (replicate (len - length s) 0 ++ q))) else [])
      ≡ s
name_at [] q zero clean fits = refl
name_at (x ∷ s) q zero clean fits = absurd (omega arith)
name_at s q (suc n) clean fits =
    let padded = s ++ replicate (suc n - length s) 0 in
    let whole : length padded ≡ suc n = omega (
      arith,
      length-append s (replicate (suc n - length s) 0),
      length-replicate (suc n - length s) 0,
    ) in
    let taken : take (suc n) (padded ++ q) ≡ padded =
      ap (λ (t : ℕ). take t (padded ++ q)) (sym whole) ∙ take-append padded q in
    rw (sym (append_assoc s (replicate (suc n - length s) 0) q))
      (ground (arith, ap until_nul taken, until_nul-padded s (suc n - length s) clean))

pub event_at-encode :
    (p q : Bytes) (ev : Event) → IsEvent ev → event_at (p ++ (encode ev ++ q)) (length p) ≡ ev
unfolding event_at
event_at-encode p q ev v =
    let b = encode ev ++ q in
    let wd : rd_u32 (p ++ b) (length p) ≡ ev.wd =
      ap (rd_u32 (p ++ b)) (omega arith) ∙ word p b 0 ev.wd v.wd_fits (unfold rd_u32 in refl) in
    let mask = word p b 4 ev.mask v.mask_fits (unfold rd_u32 in refl) in
    let cookie = word p b 8 ev.cookie v.cookie_fits (unfold rd_u32 in refl) in
    let len = word p b 12 ev.len v.len_fits (unfold rd_u32 in refl) in
    let behind : drop (length p + 12 + 4) (p ++ b)
        ≡ ev.name ++ (replicate (ev.len - length ev.name) 0 ++ q) =
      ap (λ (t : ℕ). drop t (p ++ b)) (omega arith)
      ∙ drop-append p b 16
      ∙ append_assoc ev.name _ q in
    let name = name_at ev.name q ev.len v.clean v.name_fits in
    ground (arith, wd, mask, cookie, len, behind, name)
