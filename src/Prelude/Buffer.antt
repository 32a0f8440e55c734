-- ===== src/Prelude/Buffer.antt =====
-- Fixed buffers that are written in place, and the C string that one holds.
use Prim.Native.Nat.{ℕ, zero, suc, ◌≤◌}
use Prim.Native.Char.{code}
use Prim.Native.String.{String}
use mathlib.Core.Path.{◌≡◌, refl, ap}
use mathlib.Core.List.{[], ◌∷◌, ◌++◌}
use mathlib.Core.Logic.{◌≢◌}
use native.Mathlib.Omega.{arith}
use inotify_tools.Prelude.Tests.{◌==◌, if◌then◌else◌}
use inotify_tools.Prelude.Lists.{Bytes, length, All, until_nul, drop}

-- the bytes of an ASCII text
abbrev pub codes : String → Bytes
codes String.[] = []
codes (String.◌∷◌ c s) = code c ∷ codes s

unfoldable pub overlay : Bytes → Bytes → Bytes
overlay [] buf = buf
overlay (b ∷ bs) [] = []
overlay (b ∷ bs) (x ∷ xs) = b ∷ overlay bs xs

-- `buf[off..off + bs.len()].copy_from_slice(bs)`; what would lie past the end is left out
unfoldable pub write_at : Bytes → ℕ → Bytes → Bytes
unfolding overlay
write_at buf zero bs = overlay bs buf
write_at [] (suc n) bs = []
write_at (x ∷ xs) (suc n) bs = x ∷ write_at xs n bs

-- `iter().position(|&c| c == 0).unwrap_or(len)`
unfoldable pub strlen : Bytes → ℕ
strlen [] = 0
strlen (x ∷ xs) = let n = strlen xs in if x == 0 then 0 else suc n

abbrev pub NoNul : Bytes → Type 0
NoNul = All (λ c. c ≢ 0)

pub write_at-append : (p q bs : Bytes) → write_at (p ++ q) (length p) bs ≡ p ++ overlay bs q
unfolding write_at
write_at-append [] q bs = refl
write_at-append (x ∷ p) q bs = ap (◌∷◌ x) (write_at-append p q bs)

pub overlay-append : (bs q : Bytes) → length bs ≤ length q → overlay bs q ≡ bs ++ drop (length bs) q
unfolding overlay
overlay-append [] q h = refl
overlay-append (b ∷ bs) [] h = absurd (omega arith)
overlay-append (b ∷ bs) (x ∷ q) h = ap (◌∷◌ b) (overlay-append bs q (omega arith))

pub strlen-append : (s r : Bytes) → NoNul s → strlen (s ++ (0 ∷ r)) ≡ length s
unfolding strlen
strlen-append [] r n = refl
strlen-append (x ∷ s) r n = ground (arith, strlen-append s r n.1, n.0)

pub until_nul-append : (s r : Bytes) → NoNul s → until_nul (s ++ (0 ∷ r)) ≡ s
unfolding until_nul
until_nul-append [] r n = refl
until_nul-append (x ∷ s) r n = ground (arith, until_nul-append s r n.1, n.0)

pub NoNul-append : (s t : Bytes) → NoNul s → NoNul t → NoNul (s ++ t)
NoNul-append [] t m n = n
NoNul-append (x ∷ s) t m n = (m.0, NoNul-append s t m.1 n)

pub until_nul-NoNul : (s : Bytes) → NoNul s → until_nul s ≡ s
unfolding until_nul
until_nul-NoNul [] n = refl
until_nul-NoNul (x ∷ s) n = ground (arith, n.0, until_nul-NoNul s n.1)
