-- ===== src/Checksum/Linear.antt =====
-- The rounds of the checksum of src/libchecksum.c and exclusive or.
use native.Mathlib.Nat.{pow-suc}
use partclone_utils.Base.{ℕ, zero, suc, ◌*◌, ◌/◌, ◌%◌, ◌^◌, bit_xor, ◌<◌, ◌≡◌, refl, ap, ◌∙◌, arith}
use partclone_utils.Base.Xor.{
  xor-half, xor-digit, xor_assoc, xor_comm, xor_self, zero-xor, xor_join, xor-lt,
}
use partclone_utils.Checksum.{polynomial, crc_round, crc_rounds}

xor_cancel : (a b p : ℕ) → bit_xor (bit_xor a p) (bit_xor b p) ≡ bit_xor a b
xor_cancel a b p =
    rw (xor_comm b p, xor_assoc a p (bit_xor p b), ← xor_assoc p p b, xor_self p, zero-xor b)

xor_right : (a b p : ℕ) → bit_xor (bit_xor a p) b ≡ bit_xor (bit_xor a b) p
xor_right a b p = rw (xor_assoc a p b, xor_comm p b, xor_assoc a b p)

pub crc_round-xor : (a b : ℕ) → crc_round (bit_xor a b) ≡ bit_xor (crc_round a) (crc_round b)
unfolding crc_round
crc_round-xor a b = ground (
  arith,
  xor-half a b,
  xor-digit a b,
  xor_cancel (a / 2) (b / 2) polynomial,
  xor_right (a / 2) (b / 2) polynomial,
  xor_assoc (a / 2) (b / 2) polynomial,
)

pub crc_rounds-xor :
    (n a b : ℕ) → crc_rounds n (bit_xor a b) ≡ bit_xor (crc_rounds n a) (crc_rounds n b)
unfolding crc_rounds
crc_rounds-xor zero a b = refl
crc_rounds-xor (suc n) a b = rw (crc_round-xor a b) (crc_rounds-xor n (crc_round a) (crc_round b))

crc_round_even : (h : ℕ) → crc_round (2 * h) ≡ h
unfolding crc_round
crc_round_even h = ground arith

-- Rounds on a word whose low digits are zero only shift it.
pub crc_rounds-shift : (n h : ℕ) → crc_rounds n (h * 2 ^ n) ≡ h
unfolding crc_rounds
crc_rounds-shift zero h = omega arith
crc_rounds-shift (suc n) h =
    let e : h * 2 ^ suc n ≡ 2 * (h * 2 ^ n) = omega (arith, ap (λ (t : ℕ). h * t) (pow-suc 2 n)) in
    rw (e, crc_round_even (h * 2 ^ n)) (crc_rounds-shift n h)

-- Eight rounds on a word: the table entry of its low byte, on the word shifted by a byte.
pub crc_rounds_split : (x : ℕ) → crc_rounds 8 x ≡ bit_xor (x / 256) (crc_rounds 8 (x % 256))
crc_rounds_split x =
    let parts : x ≡ bit_xor (x / 256 * 2 ^ 8) (x % 256) =
      omega (arith, xor_join 8 (x / 256) (x % 256) (omega arith)) in
    ap (crc_rounds 8) parts
    ∙ crc_rounds-xor 8 (x / 256 * 2 ^ 8) (x % 256)
    ∙ ap (λ t. bit_xor t (crc_rounds 8 (x % 256))) (crc_rounds-shift 8 (x / 256))

crc_round-lt : (x : ℕ) → x < 2 ^ 32 → crc_round x < 2 ^ 32
unfolding crc_round
crc_round-lt x h = ground (arith, xor-lt 32 (x / 2) polynomial)

-- A checksum stays a 32-bit word.
pub crc_rounds-lt : (n x : ℕ) → x < 2 ^ 32 → crc_rounds n x < 2 ^ 32
unfolding crc_rounds
crc_rounds-lt zero x h = h
crc_rounds-lt (suc n) x h = crc_rounds-lt n (crc_round x) (crc_round-lt x h)
