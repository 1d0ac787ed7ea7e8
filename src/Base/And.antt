-- ===== src/Base/And.antt =====
-- The bitwise and with the masks of the program: the low bits of a number, and all the others.
use Prim.Native.Nat.{
  ℕ, zero, suc, ◌+◌, ◌-◌, ◌*◌, ◌/◌, ◌%◌, ◌^◌, ◌≤◌, ◌<◌, bit_and, bit_and-bitwise, min,
}
use mathlib.Core.Path.{◌≡◌, sym, ap, ◌∙◌}
use partclone_utils.Base.Digits.{digits-count}
use native.Mathlib.Omega.{arith}
use native.Mathlib.Nat.{le_refl, pow-suc, div-div-eq-div-mul, mod-add-div, mod-eq_of_lt, div-one}

-- One digit at a time.
none-and : (b : ℕ) → bit_and 0 b ≡ 0
none-and b = bit_and-bitwise 0 b

and-split : (a b : ℕ) → bit_and a b ≡ 2 * bit_and (a / 2) (b / 2) + min (a % 2) (b % 2)
and-split zero b = let e = none-and (b / 2) in none-and b ∙ omega (arith, e)
and-split (suc a) b =
    let enough =
      digits-count (λ t. 0) min (suc a / 2) (b / 2) a (suc a / 2) (omega arith) (le_refl _) in
    let rest = bit_and-bitwise (suc a / 2) (b / 2) in
    bit_and-bitwise (suc a) b ∙ omega (arith, enough, rest)

and-none : (bound a : ℕ) → a ≤ bound → bit_and a 0 ≡ 0
and-none zero a small = ap (λ t. bit_and t 0) {y = 0} (omega (arith, small)) ∙ none-and 0
and-none (suc bound) a small =
    let half = and-none bound (a / 2) (omega (arith, small)) in and-split a 0 ∙ omega (arith, half)

two_pow : (k : ℕ) → 2 ^ suc k ≡ 2 * 2 ^ k
two_pow k = pow-suc 2 k ∙ omega arith

pub pow_pos : (k : ℕ) → 0 < 2 ^ k
pow_pos zero = omega arith
pow_pos (suc k) = omega (arith, two_pow k, pow_pos k)

div-two_pow : (a k : ℕ) → a / 2 ^ suc k ≡ a / 2 / 2 ^ k
div-two_pow a k = ap (λ d. a / d) (two_pow k) ∙ sym (div-div-eq-div-mul a 2 (2 ^ k))

-- The low `k` bits.
pub and-low : (k a : ℕ) → bit_and a (2 ^ k - 1) ≡ a % 2 ^ k
and-low zero a = and-none a a (le_refl a) ∙ omega arith
and-low (suc k) a =
    let half : (2 ^ suc k - 1) / 2 ≡ 2 ^ k - 1 = omega (arith, two_pow k) in
    let step = and-split a (2 ^ suc k - 1) in
    let rest = ap (bit_and (a / 2)) half ∙ and-low k (a / 2) in
    let q = a / 2 / 2 ^ k in
    let low = mod-add-div (a / 2) (2 ^ k) in
    let all = mod-add-div a (2 ^ suc k) in
    let double : 2 ^ suc k * (a / 2 ^ suc k) ≡ 2 * (2 ^ k * q) =
      ap (λ d. 2 ^ suc k * d) (div-two_pow a k) ∙ ap (λ t. t * q) (two_pow k) ∙ omega arith in
    omega (arith, two_pow k, pow_pos k, step, rest, low, all, double)

-- All but the low `k` of `n` bits.
pub and-high : (n k a : ℕ) → k ≤ n → a < 2 ^ n → bit_and a (2 ^ n - 2 ^ k) ≡ a / 2 ^ k * 2 ^ k
and-high n zero a le small =
    and-low n a ∙ mod-eq_of_lt small ∙ sym (ap (λ t. t * 1) (div-one a) ∙ omega arith)
and-high zero (suc k) a le small = absurd (omega arith)
and-high (suc n) (suc k) a le small =
    let half : (2 ^ suc n - 2 ^ suc k) / 2 ≡ 2 ^ n - 2 ^ k = omega (arith, two_pow n, two_pow k) in
    let step = and-split a (2 ^ suc n - 2 ^ suc k) in
    let rest =
      ap (bit_and (a / 2)) half ∙ and-high n k (a / 2) (omega arith) (omega (arith, two_pow n)) in
    let q = a / 2 / 2 ^ k in
    let double : a / 2 ^ suc k * 2 ^ suc k ≡ 2 * (q * 2 ^ k) =
      ap (λ d. d * 2 ^ suc k) (div-two_pow a k) ∙ ap (λ t. q * t) (two_pow k) ∙ omega arith in
    omega (arith, two_pow k, two_pow n, pow_pos k, pow_pos n, step, rest, double)
