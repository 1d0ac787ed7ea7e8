-- ===== src/Base/Xor.antt =====
-- Exclusive or at variables: its lowest digit, shifts, and the group laws that the checksum
-- routines rely on.
use Prim.Native.Nat.{ℕ, zero, suc, ◌+◌, ◌*◌, ◌/◌, ◌%◌, ◌^◌, ◌≤◌, ◌<◌, bit_xor, bit_xor-bitwise}
use Prim.Native.Nat.{differ}
use partclone_utils.Base.Digits.{digits-count}
use mathlib.Core.Path.{◌≡◌, refl, sym, ap, ◌∙◌}
use native.Mathlib.Omega.{arith}
use native.Mathlib.Nat.{le_refl, pow-suc, div-div-eq-div-mul, div-one}

-- The lowest digit of an exclusive or.
abbrev pub digit : ℕ → ℕ → ℕ
digit a b = (a + b) % 2

differ-digit : (a b : ℕ) → a < 2 → b < 2 → differ a b ≡ digit a b
differ-digit zero b p q = omega arith
differ-digit (suc zero) zero p q = refl
differ-digit (suc zero) (suc zero) p q = refl
differ-digit (suc zero) (suc (suc b)) p q = absurd (omega arith)
differ-digit (suc (suc a)) b p q = absurd (omega arith)

pub zero-xor : (b : ℕ) → bit_xor 0 b ≡ b
zero-xor b = bit_xor-bitwise 0 b

pub xor_step : (a b : ℕ) → bit_xor a b ≡ bit_xor (a / 2) (b / 2) * 2 + digit (a % 2) (b % 2)
xor_step zero b = omega (arith, zero-xor b, zero-xor (b / 2))
xor_step (suc a) b = omega (
  arith,
  bit_xor-bitwise (suc a) b,
  bit_xor-bitwise (suc a / 2) (b / 2),
  digits-count (λ t. t) differ (suc a / 2) (b / 2) a (suc a / 2) (omega arith) (le_refl _),
  differ-digit (suc a % 2) (b % 2) (omega arith) (omega arith),
)

pub xor-half : (a b : ℕ) → bit_xor a b / 2 ≡ bit_xor (a / 2) (b / 2)
xor-half a b = omega (arith, xor_step a b)

pub xor-digit : (a b : ℕ) → bit_xor a b % 2 ≡ digit (a % 2) (b % 2)
xor-digit a b = omega (arith, xor_step a b)

xor-zero_fuel : (n a : ℕ) → a ≤ n → bit_xor a 0 ≡ a
xor-zero_fuel zero a h = let e : a ≡ 0 = omega arith in rw e refl
xor-zero_fuel (suc n) a h = omega (arith, xor_step a 0, xor-zero_fuel n (a / 2) (omega arith))

pub xor-zero : (a : ℕ) → bit_xor a 0 ≡ a
xor-zero a = xor-zero_fuel a a (le_refl a)

xor_assoc_fuel :
    (n a b c : ℕ) → a ≤ n → b ≤ n → c ≤ n → bit_xor (bit_xor a b) c ≡ bit_xor a (bit_xor b c)
xor_assoc_fuel zero a b c p q r =
    let ea : a ≡ 0 = omega arith in
    let eb : b ≡ 0 = omega arith in let ec : c ≡ 0 = omega arith in rw (ea, eb, ec) refl
xor_assoc_fuel (suc n) a b c p q r =
    let ih = xor_assoc_fuel n (a / 2) (b / 2) (c / 2) (omega arith) (omega arith) (omega arith) in
    let left = xor_step (bit_xor a b) c in
    let right = xor_step a (bit_xor b c) in
    omega (
      arith,
      rw (xor-half a b) at left,
      rw (xor-half b c) at right,
      ih,
      xor-digit a b,
      xor-digit b c,
    )

pub xor_assoc : (a b c : ℕ) → bit_xor (bit_xor a b) c ≡ bit_xor a (bit_xor b c)
xor_assoc a b c = xor_assoc_fuel (a + b + c) a b c (omega arith) (omega arith) (omega arith)

xor_comm_fuel : (n a b : ℕ) → a ≤ n → b ≤ n → bit_xor a b ≡ bit_xor b a
xor_comm_fuel zero a b p q =
    let ea : a ≡ 0 = omega arith in let eb : b ≡ 0 = omega arith in rw (ea, eb) refl
xor_comm_fuel (suc n) a b p q =
    omega (
      arith,
      xor_step a b,
      xor_step b a,
      xor_comm_fuel n (a / 2) (b / 2) (omega arith) (omega arith),
    )

pub xor_comm : (a b : ℕ) → bit_xor a b ≡ bit_xor b a
xor_comm a b = xor_comm_fuel (a + b) a b (omega arith) (omega arith)

xor_self_fuel : (n a : ℕ) → a ≤ n → bit_xor a a ≡ 0
xor_self_fuel zero a h = let e : a ≡ 0 = omega arith in rw e refl
xor_self_fuel (suc n) a h = omega (arith, xor_step a a, xor_self_fuel n (a / 2) (omega arith))

pub xor_self : (a : ℕ) → bit_xor a a ≡ 0
xor_self a = xor_self_fuel a a (le_refl a)

-- An exclusive or has no more digits than its two sides.
pub xor-lt : (k a b : ℕ) → a < 2 ^ k → b < 2 ^ k → bit_xor a b < 2 ^ k
xor-lt zero a b p q =
    let ea : a ≡ 0 = omega arith in let eb : b ≡ 0 = omega arith in rw (ea, eb) (omega arith)
xor-lt (suc k) a b p q =
    let e = pow-suc 2 k in
    omega (arith, e, xor_step a b, xor-lt k (a / 2) (b / 2) (omega (arith, e)) (omega (arith, e)))

div_two_pow_suc : (k a : ℕ) → a / 2 ^ suc k ≡ a / 2 / 2 ^ k
div_two_pow_suc k a =
    let e : 2 ^ suc k ≡ 2 * 2 ^ k = omega (arith, pow-suc 2 k) in
    ap (λ t. a / t) e ∙ sym (div-div-eq-div-mul a 2 (2 ^ k))

-- A shift to the right goes through an exclusive or.
pub xor-shift : (k a b : ℕ) → bit_xor a b / 2 ^ k ≡ bit_xor (a / 2 ^ k) (b / 2 ^ k)
xor-shift zero a b = simp div-one
xor-shift (suc k) a b =
    rw (div_two_pow_suc k a, div_two_pow_suc k b, div_two_pow_suc k (bit_xor a b), xor-half a b)
      (xor-shift k (a / 2) (b / 2))

mul-two_pow_suc : (q k : ℕ) → q * 2 ^ suc k ≡ 2 * (q * 2 ^ k)
mul-two_pow_suc q k = omega (arith, ap (λ (t : ℕ). q * t) (pow-suc 2 k))

-- High and low digits that do not meet are joined by addition.
pub xor_join : (k q r : ℕ) → r < 2 ^ k → bit_xor (q * 2 ^ k) r ≡ q * 2 ^ k + r
xor_join zero q r h = let e : r ≡ 0 = omega arith in rw e (omega (arith, xor-zero (q * 1)))
xor_join (suc k) q r h =
    let low : r / 2 < 2 ^ k = omega (arith, pow-suc 2 k) in
    let high : bit_xor (q * 2 ^ suc k) r ≡ bit_xor (2 * (q * 2 ^ k)) r =
      ap (λ t. bit_xor t r) (mul-two_pow_suc q k) in
    let half : 2 * (q * 2 ^ k) / 2 ≡ q * 2 ^ k = omega arith in
    let step = xor_step (2 * (q * 2 ^ k)) r in
    omega (arith, high, rw half at step, mul-two_pow_suc q k, xor_join k q (r / 2) low)
