-- ===== src/Prelude/Ord.antt =====
-- The order of map keys (`K: Ord`): of numbers, of byte strings and of `i32` patterns.
use Prim.Native.Nat.{ℕ, compare, Ordering}
use Prim.Native.Nat.Ordering.{lt, eq, gt}
use mathlib.Core.Path.{◌≡◌, refl}
use mathlib.Core.List.{[], ◌∷◌}
use native.Mathlib.Omega.{arith}
use inotify_tools.Prelude.Lists.{Bytes}

pub record Ord {ℓ} (K : Type ℓ) : Type ℓ where
  pub cmp : K → K → Ordering
  pub cmp_refl : (a : K) → cmp a a ≡ eq
  pub eq_of_cmp : (a b : K) → cmp a b ≡ eq → a ≡ b

pub nat_refl : (a : ℕ) → compare a a ≡ eq
nat_refl a = ground arith

pub nat_eq : (a b : ℕ) → compare a b ≡ eq → a ≡ b
nat_eq a b h = ground arith

instance abbrev pub nat_ord : Ord ℕ
nat_ord = record { cmp = compare; cmp_refl = nat_refl; eq_of_cmp = nat_eq }

-- Byte strings compare lexicographically, a prefix first.
unfoldable pub cmp_bytes : Bytes → Bytes → Ordering
cmp_bytes [] [] = eq
cmp_bytes [] (_ ∷ _) = lt
cmp_bytes (_ ∷ _) [] = gt
cmp_bytes (x ∷ xs) (y ∷ ys) =
    let rest = cmp_bytes xs ys in elim (compare x y) [ eq ↦ rest | lt ↦ lt | gt ↦ gt ]

pub cmp_bytes_refl : (a : Bytes) → cmp_bytes a a ≡ eq
unfolding cmp_bytes
cmp_bytes_refl [] = refl
cmp_bytes_refl (x ∷ xs) = ground (arith, cmp_bytes_refl xs)

pub cmp_bytes-eq : (a b : Bytes) → cmp_bytes a b ≡ eq → a ≡ b
unfolding cmp_bytes
cmp_bytes-eq [] [] h = refl
cmp_bytes-eq [] (_ ∷ _) h = ground arith
cmp_bytes-eq (_ ∷ _) [] h = ground arith
cmp_bytes-eq (x ∷ xs) (y ∷ ys) h = ground (arith, cmp_bytes-eq xs ys)

instance abbrev pub bytes_ord : Ord Bytes
bytes_ord = record { cmp = cmp_bytes; cmp_refl = cmp_bytes_refl; eq_of_cmp = cmp_bytes-eq }
