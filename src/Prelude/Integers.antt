-- ===== src/Prelude/Integers.antt =====
-- Whole numbers with a sign, and Python's comparisons of them with zero.
use Prim.Native.Nat.{ℕ}
use mathlib.Core.Path.{◌≡◌, refl, ap}
use mathlib.Core.Logic.{◌≢◌, ◌↔◌}
use mathlib.Core.Bool.{Bool, true, false}
use native.Mathlib.Omega.{arith}
use mctrader_data.Prelude.Tests.{◌==◌, ltb}
use mctrader_data.Prelude.Dict.{Eq}

-- n, or -1 - n.
pub data ℤ : Type 0 where
  pos negsuc : ℕ → ℤ

-- k == 0
unfoldable pub is_zero : ℤ → Bool
is_zero (pos n) = n == 0
is_zero (negsuc n) = false

-- k > 0
unfoldable pub is_positive : ℤ → Bool
is_positive (pos n) = ltb 0 n
is_positive (negsuc n) = false

pub is_zero-pos : (k : ℤ) → is_zero k ≡ true → k ≡ pos 0
unfolding is_zero
is_zero-pos (pos n) h = ap pos (ground arith)
is_zero-pos (negsuc n) h = absurd (ground arith)

pub is_zero-nonzero : (k : ℤ) → is_zero k ≡ false → k ≢ pos 0
unfolding is_zero
is_zero-nonzero k h e =
    absurd (let zero_too : is_zero k ≡ true = rw e refl in ground (arith, zero_too, h))

unfoldable pub int_beq : ℤ → ℤ → Bool
int_beq (pos m) (pos n) = m == n
int_beq (negsuc m) (negsuc n) = m == n
int_beq (pos m) (negsuc n) = false
int_beq (negsuc m) (pos n) = false

pub int_iff : (a b : ℤ) → (int_beq a b ≡ true) ↔ (a ≡ b)
unfolding int_beq
int_iff (pos m) (pos n) = (λ h. ap pos (ground arith), λ h. ground arith)
int_iff (negsuc m) (negsuc n) = (λ h. ap negsuc (ground arith), λ h. ground arith)
int_iff (pos m) (negsuc n) = (λ h. absurd (ground arith), λ h. absurd (cc h))
int_iff (negsuc m) (pos n) = (λ h. absurd (ground arith), λ h. absurd (cc h))

instance abbrev pub int_eq : Eq ℤ
int_eq = record { beq = int_beq; beq_iff = int_iff }
