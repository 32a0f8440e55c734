-- ===== src/Fid/Fields.antt =====
-- Setters and getters of a fid, and which fids share a key.
use inotify_tools.Prelude.{
  ℕ, suc, ◌+◌, ◌<◌, ◌≤◌, ◌≡◌, refl, Bytes, [], ◌∷◌, arith, get_or, length, ◌↔◌, Ordering, ap, set,
  length-set, ◌∙◌, compare, ◌%◌, ◌/◌, sym,
}
use inotify_tools.Prelude.Ord.{Ord, cmp_bytes, cmp_bytes_refl, cmp_bytes-eq}
use inotify_tools.Fid.{
  FidKey, byte_at, info_type, hdr_len, set_hdr_len, bytes_from, fid_key, fsid_key, info_type_fid,
  fid_hdr, fsid_val, handle_bytes,
}

-- the derived order of `FidKey`: by length, then by bytes
abbrev pub cmp_key : FidKey → FidKey → Ordering
cmp_key a b = elim (compare a.len b.len) [
  | Ordering.eq ↦ cmp_bytes a.key_bytes b.key_bytes
  | Ordering.lt ↦ Ordering.lt
  | Ordering.gt ↦ Ordering.gt
]

pub cmp_key_refl : (a : FidKey) → cmp_key a a ≡ Ordering.eq
cmp_key_refl a = ground (arith, cmp_bytes_refl a.key_bytes)

pub cmp_key-eq : (a b : FidKey) → cmp_key a b ≡ Ordering.eq → a ≡ b
cmp_key-eq a b h = ground (arith, cmp_bytes-eq a.key_bytes b.key_bytes)

instance abbrev pub key_ord : Ord FidKey
key_ord = record { cmp = cmp_key; cmp_refl = cmp_key_refl; eq_of_cmp = cmp_key-eq }

get_or-set_self : (f : Bytes) (i v : ℕ) → i < length f → get_or (set f i v) i 0 ≡ v
get_or-set_self [] i v h = elim h [ ]
get_or-set_self (x ∷ f) ℕ.zero v h = refl
get_or-set_self (x ∷ f) (suc i) v h = get_or-set_self f i v (omega arith)

get_or-set_ne : (f : Bytes) (i j v : ℕ) → ¬ (i ≡ j) → get_or (set f i v) j 0 ≡ get_or f j 0
get_or-set_ne [] i j v h = refl
get_or-set_ne (x ∷ f) ℕ.zero ℕ.zero v h = absurd (h refl)
get_or-set_ne (x ∷ f) ℕ.zero (suc j) v h = refl
get_or-set_ne (x ∷ f) (suc i) ℕ.zero v h = refl
get_or-set_ne (x ∷ f) (suc i) (suc j) v h = get_or-set_ne f i j v (λ e. h (ap suc e))

-- only the bytes 2 and 3 change
set_hdr_len_other :
    (f : Bytes) (len j : ℕ) → ¬ (2 ≡ j) → ¬ (3 ≡ j) → byte_at (set_hdr_len f len) j ≡ byte_at f j
unfolding set_hdr_len byte_at
set_hdr_len_other f len j h k =
    get_or-set_ne (set f 2 (len % 256)) 3 j (len / 256) k ∙ get_or-set_ne f 2 j (len % 256) h

set_hdr_len_bytes :
    (f : Bytes) (len : ℕ)
    → 4 ≤ length f
    → (byte_at (set_hdr_len f len) 2 ≡ len % 256) × (byte_at (set_hdr_len f len) 3 ≡ len / 256)
unfolding set_hdr_len byte_at
set_hdr_len_bytes f len room = (
  get_or-set_ne (set f 2 (len % 256)) 3 2 (len / 256) (omega arith)
      ∙ get_or-set_self f 2 (len % 256) (omega arith),
  get_or-set_self (set f 2 (len % 256)) 3 (len / 256) (omega (arith, length-set f 2 (len % 256))),
)

-- A header length that is written reads back, in any buffer that holds the header and for any
-- 16-bit length; the type and the size of the handle stay as they were.
pub hdr_len-set_hdr_len :
    (f : Bytes) (len : ℕ)
    → 4 ≤ length f
    → len < 65536
    → (hdr_len (set_hdr_len f len) ≡ len)
      × (info_type (set_hdr_len f len) ≡ info_type f)
      × (handle_bytes (set_hdr_len f len) ≡ handle_bytes f)
unfolding hdr_len info_type handle_bytes
hdr_len-set_hdr_len f len room fits = (
  omega (arith, (set_hdr_len_bytes f len room).0, (set_hdr_len_bytes f len room).1),
  set_hdr_len_other f len 0 (omega arith) (omega arith),
  omega (
    arith,
    set_hdr_len_other f len 12 (omega arith) (omega arith),
    set_hdr_len_other f len 13 (omega arith) (omega arith),
    set_hdr_len_other f len 14 (omega arith) (omega arith),
    set_hdr_len_other f len 15 (omega arith) (omega arith),
  ),
)

bytes_from_eq :
    (n i : ℕ) (f g : Bytes)
    → ((j : ℕ) → j < i + n → byte_at f j ≡ byte_at g j)
    → bytes_from i n f ≡ bytes_from i n g
unfolding bytes_from
bytes_from_eq ℕ.zero i f g h = refl
bytes_from_eq (suc n) i f g h =
    ground (arith, h i (omega arith), bytes_from_eq n (i + 1) f g (λ j k. h j (omega arith)))

bytes_from_ext :
    (n i j : ℕ) (f g : Bytes)
    → bytes_from i n f ≡ bytes_from i n g
    → i ≤ j
    → j < i + n
    → byte_at f j ≡ byte_at g j
unfolding bytes_from
bytes_from_ext ℕ.zero i j f g e h k = absurd (omega arith)
bytes_from_ext (suc n) i j f g e h k = ground (arith, bytes_from_ext n (i + 1) j f g)

-- Two fids have the same key exactly if their header lengths agree and so does every byte below
-- that length.
pub fid_key_iff :
    (f g : Bytes)
    → (fid_key f ≡ fid_key g)
      ↔ ((hdr_len f ≡ hdr_len g) × ((i : ℕ) → i < hdr_len f → byte_at f i ≡ byte_at g i))
unfolding fid_key
fid_key_iff f g = (forth, back)
  where
    forth :
        fid_key f ≡ fid_key g
        → (hdr_len f ≡ hdr_len g) × ((i : ℕ) → i < hdr_len f → byte_at f i ≡ byte_at g i)
    forth e =
        let l : hdr_len f ≡ hdr_len g = ap (λ (k : FidKey). k.len) e in
        let b : bytes_from 0 (hdr_len f) f ≡ bytes_from 0 (hdr_len f) g =
          ap (λ (k : FidKey). k.key_bytes) e ∙ ap (λ (n : ℕ). bytes_from 0 n g) (sym l) in
        (l, λ i h. bytes_from_ext (hdr_len f) 0 i f g b (omega arith) (omega arith))

    back :
        (hdr_len f ≡ hdr_len g) × ((i : ℕ) → i < hdr_len f → byte_at f i ≡ byte_at g i)
        → fid_key f ≡ fid_key g
    back (l, h) =
        let b : bytes_from 0 (hdr_len f) f ≡ bytes_from 0 (hdr_len f) g =
          bytes_from_eq (hdr_len f) 0 f g (λ j k. h j (omega arith)) in
        ground (arith, b)

-- The key of the filesystem part has the type, the length and the filesystem of its fid, and a
-- null handle.
pub fsid_key_fields :
    (f : Bytes)
    → (info_type (fsid_key f) ≡ info_type_fid)
      × (hdr_len (fsid_key f) ≡ fid_hdr)
      × (fsid_val (fsid_key f) 0 ≡ fsid_val f 0)
      × (fsid_val (fsid_key f) 1 ≡ fsid_val f 1)
      × (handle_bytes (fsid_key f) ≡ 0)
unfolding fsid_key info_type hdr_len fsid_val handle_bytes
fsid_key_fields f = (refl, refl, refl, refl, refl)
