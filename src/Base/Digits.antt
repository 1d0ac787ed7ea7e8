-- ===== src/Base/Digits.antt =====
-- Operations on the binary digits of two numbers: the count of digits to go does not matter once it
-- is large enough.
use Prim.Native.Nat.{ℕ, zero, suc, ◌+◌, ◌*◌, ◌/◌, ◌%◌, ◌≤◌, digits}
use mathlib.Core.Path.{◌≡◌, refl, sym, ap, ◌∙◌}
use native.Mathlib.Omega.{arith}

module _ (z : ℕ → ℕ) (f : ℕ → ℕ → ℕ) where
  digits-done : (count b : ℕ) → digits z f count 0 b ≡ z b
  digits-done zero b = refl
  digits-done (suc count) b = refl

  pub digits-count :
      (a b count count' : ℕ) → a ≤ count → a ≤ count' → digits z f count a b ≡ digits z f count' a b
  digits-count zero b count count' le le' = digits-done count b ∙ sym (digits-done count' b)
  digits-count (suc a) b zero count' le le' = absurd (omega (arith, le))
  digits-count (suc a) b (suc count) zero le le' = absurd (omega (arith, le'))
  digits-count (suc a) b (suc count) (suc count') le le' =
      ap (λ t. t * 2 + f (suc a % 2) (b % 2))
        (digits-count (suc a / 2) (b / 2) count count' (omega (arith, le)) (omega (arith, le')))
