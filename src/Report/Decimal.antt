-- ===== src/Report/Decimal.antt =====
-- The digits that `print_info` gives to a counter: a decimal number that reads back as it.
use inotify_tools.Prelude.{
  ℕ, zero, suc, ◌+◌, ◌-◌, ◌*◌, ◌/◌, ◌%◌, ◌≤◌, ◌<◌, ◌≡◌, ◌∙◌, refl, Bytes, Bool, true, false, [],
  ◌∷◌, ◌++◌, ◌==◌, ◌⊎◌, inl, inr, arith, All, ltb, Bool-cases,
}
use inotify_tools.Report.{decimal}

-- what digits stand for, behind those that gave `n`
abbrev pub value_from : ℕ → Bytes → ℕ
value_from n [] = n
value_from n (d ∷ ds) = value_from (n * 10 + (d - b'0')) ds

abbrev pub IsDigit : ℕ → Type 0
IsDigit d = (b'0' ≤ d) × (d ≤ b'9')

abbrev pub leads_with_zero : Bytes → Bool
leads_with_zero [] = true
leads_with_zero (d ∷ ds) = d == b'0'

-- decimal digits, with no zero in front of others, that stand for a number
abbrev pub IsDecimal : Bytes → ℕ → Type 0
IsDecimal s n =
    All IsDigit s × (value_from 0 s ≡ n) × ((s ≡ b'0' ∷ []) ⊎ (leads_with_zero s ≡ false))

-- the numbers of at most so many digits lie below this
abbrev tens : ℕ → ℕ
tens zero = 1
tens (suc fuel) = 10 * tens fuel

value_from-append :
    (s : Bytes) (m d : ℕ) → value_from m (s ++ (d ∷ [])) ≡ value_from m s * 10 + (d - b'0')
value_from-append [] m d = refl
value_from-append (c ∷ s) m d = value_from-append s (m * 10 + (c - b'0')) d

IsDigit-append : (s : Bytes) (d : ℕ) → All IsDigit s → IsDigit d → All IsDigit (s ++ (d ∷ []))
IsDigit-append [] d h k = (k, tt)
IsDigit-append (c ∷ s) d h k = (h.0, IsDigit-append s d h.1 k)

leads-append :
    (s : Bytes) (d : ℕ) → leads_with_zero s ≡ false → leads_with_zero (s ++ (d ∷ [])) ≡ false
leads-append [] d h = cc
leads-append (c ∷ s) d h = h

decimal_positive : (fuel n : ℕ) → 0 < n → n < tens fuel → leads_with_zero (decimal fuel n) ≡ false
unfolding decimal
decimal_positive zero n pos small = absurd (omega arith)
decimal_positive (suc fuel) n pos small = elim (Bool-cases (ltb n 10)) [
  | inl e ↦ rw e (ground (arith, pos, e))
  | inr e ↦ rw e (
      leads-append (decimal fuel (n / 10)) (b'0' + n % 10)
        (decimal_positive fuel (n / 10) (ground (arith, e)) (omega arith)))
]

decimal_digits :
    (fuel n : ℕ)
    → n < tens fuel
    → All IsDigit (decimal fuel n) × (value_from 0 (decimal fuel n) ≡ n)
unfolding decimal
decimal_digits zero n small = (tt, omega arith)
decimal_digits (suc fuel) n small = elim (Bool-cases (ltb n 10)) [
  | inl e ↦ rw e ((ground (arith, e), tt), omega arith)
  | inr e ↦
      let (digits, value) = decimal_digits fuel (n / 10) (omega arith) in
      rw e (
        IsDigit-append (decimal fuel (n / 10)) (b'0' + n % 10) digits (omega arith, omega arith),
        value_from-append (decimal fuel (n / 10)) 0 (b'0' + n % 10) ∙ omega (arith, value),
      )
]

pub decimal-IsDecimal : (n : ℕ) → n < 0x100000000 → IsDecimal (decimal 10 n) n
decimal-IsDecimal n fits =
    let (digits, value) = decimal_digits 10 n (omega arith) in
    (
      digits,
      value,
      elim (Bool-cases (n == 0)) [
        | inl e ↦ inl (unfold decimal in ground (arith, e))
        | inr e ↦ inr (decimal_positive 10 n (ground (arith, e)) (omega arith))
      ],
    )
