-- ===== src/Ntfsclone/Bits.antt =====
-- `bitmap_set_bit` and `bitmap_bit_value` of src/libntfsclone.c: what a bit is once it, or another, is set or
-- cleared.
use native.Mathlib.Nat.{pow-suc, div-div-eq-div-mul}
use partclone_utils.Base.{
  ℕ, zero, suc, ◌+◌, ◌-◌, ◌*◌, ◌/◌, ◌%◌, ◌^◌, ◌≤◌, ◌<◌, ◌≡◌, ◌≢◌, refl, sym, ap, ◌∙◌, none, some,
  List, arith, ◌==◌, if◌then◌else◌, length, get_elem?, get_or, set, length-set, get_elem?-set_self,
  get_elem?-set_ne, get_elem?-eq-get_or, inl, inr, ℕ_discrete, Bool-cases,
}
use partclone_utils.Ntfsclone.Bitmap.{bit_on, bit_off, bitmap_set_bit, bitmap_bit_value}

-- Bit `k` of a number.
abbrev pub digit : ℕ → ℕ → ℕ
digit b k = b / 2 ^ k % 2

two_pow : (k : ℕ) → 2 ^ suc k ≡ 2 * 2 ^ k
two_pow k = pow-suc 2 k ∙ omega arith

digit-suc : (b k : ℕ) → digit b (suc k) ≡ digit (b / 2) k
digit-suc b k =
    ap (λ d. b / d % 2) (two_pow k) ∙ ap (λ q. q % 2) (sym (div-div-eq-div-mul b 2 (2 ^ k)))

-- A bit that is clear is set by adding its power, and one that is set cleared by taking it away; the
-- other bits stay.
digit-add_self : (b k : ℕ) → digit b k ≡ 0 → digit (b + 2 ^ k) k ≡ 1
digit-add_self b zero h = omega (arith, h)
digit-add_self b (suc k) h =
    let half : (b + 2 ^ suc k) / 2 ≡ b / 2 + 2 ^ k = omega (arith, two_pow k) in
    digit-suc (b + 2 ^ suc k) k
    ∙ ap (λ q. digit q k) half
    ∙ digit-add_self (b / 2) k (sym (digit-suc b k) ∙ h)

digit-add_ne : (b k m : ℕ) → digit b k ≡ 0 → m ≢ k → digit (b + 2 ^ k) m ≡ digit b m
digit-add_ne b zero zero h ne = absurd (ne refl)
digit-add_ne b zero (suc m) h ne =
    digit-suc (b + 1) m ∙ ap (λ q. digit q m) (omega (arith, h)) ∙ sym (digit-suc b m)
digit-add_ne b (suc k) zero h ne = omega (arith, two_pow k)
digit-add_ne b (suc k) (suc m) h ne =
    let half : (b + 2 ^ suc k) / 2 ≡ b / 2 + 2 ^ k = omega (arith, two_pow k) in
    digit-suc (b + 2 ^ suc k) m
    ∙ ap (λ q. digit q m) half
    ∙ digit-add_ne (b / 2) k m (sym (digit-suc b k) ∙ h) (λ e. ne (ap suc e))
    ∙ sym (digit-suc b m)

digit-sub_self : (b k : ℕ) → digit b k ≡ 1 → digit (b - 2 ^ k) k ≡ 0
digit-sub_self b zero h = omega (arith, h)
digit-sub_self b (suc k) h =
    let half : (b - 2 ^ suc k) / 2 ≡ b / 2 - 2 ^ k = omega (arith, two_pow k) in
    digit-suc (b - 2 ^ suc k) k
    ∙ ap (λ q. digit q k) half
    ∙ digit-sub_self (b / 2) k (sym (digit-suc b k) ∙ h)

pow_le : (b k : ℕ) → digit b k ≡ 1 → 2 ^ k ≤ b
pow_le b zero h = omega (arith, h)
pow_le b (suc k) h = omega (arith, two_pow k, pow_le (b / 2) k (sym (digit-suc b k) ∙ h))

digit-sub_ne : (b k m : ℕ) → digit b k ≡ 1 → m ≢ k → digit (b - 2 ^ k) m ≡ digit b m
digit-sub_ne b zero zero h ne = absurd (ne refl)
digit-sub_ne b zero (suc m) h ne =
    digit-suc (b - 1) m ∙ ap (λ q. digit q m) (omega (arith, h)) ∙ sym (digit-suc b m)
digit-sub_ne b (suc k) zero h ne = omega (arith, two_pow k, pow_le b (suc k) h)
digit-sub_ne b (suc k) (suc m) h ne =
    let half : (b - 2 ^ suc k) / 2 ≡ b / 2 - 2 ^ k = omega (arith, two_pow k) in
    digit-suc (b - 2 ^ suc k) m
    ∙ ap (λ q. digit q m) half
    ∙ digit-sub_ne (b / 2) k m (sym (digit-suc b k) ∙ h) (λ e. ne (ap suc e))
    ∙ sym (digit-suc b m)

-- The byte that `bitmap_set_bit` stores.
abbrev pub new_byte : ℕ → ℕ → ℕ → ℕ
new_byte value b k = if value == 0 then bit_off b k else bit_on b k

digit-new_byte : (value b k : ℕ) → value < 2 → digit (new_byte value b k) k ≡ value
digit-new_byte zero b k h = elim (Bool-cases (digit b k == 1)) [
  | inl e ↦ rw e (digit-sub_self b k (ground (arith, e)))
  | inr e ↦ rw e (ground (arith, e))
]
digit-new_byte (suc zero) b k h = elim (Bool-cases (digit b k == 1)) [
  | inl e ↦ rw e (ground (arith, e))
  | inr e ↦ rw e (digit-add_self b k (ground (arith, e)))
]
digit-new_byte (suc (suc v)) b k h = absurd (omega arith)

digit-new_byte_ne : (value b k m : ℕ) → m ≢ k → digit (new_byte value b k) m ≡ digit b m
digit-new_byte_ne value b k m ne = elim (Bool-cases (digit b k == 1)) [
  | inl e ↦ elim (Bool-cases (value == 0)) [
    | inl v ↦ rw (e, v) (digit-sub_ne b k m (ground (arith, e)) ne)
    | inr v ↦ rw (e, v) refl
  ]
  | inr e ↦ elim (Bool-cases (value == 0)) [
    | inl v ↦ rw (e, v) refl
    | inr v ↦ rw (e, v) (digit-add_ne b k m (ground (arith, e)) ne)
  ]
]

-- The bitmap once the bit is set or cleared.
abbrev pub with_bit : List ℕ → ℕ → ℕ → List ℕ
with_bit bitmap bit value =
    set bitmap (bit / 8) (new_byte value (get_or bitmap (bit / 8) 0) (bit % 8))

pub bitmap_set_bit-within :
    (bitmap : List ℕ) (bit value : ℕ)
    → bit / 8 < length bitmap
    → bitmap_set_bit bitmap bit value ≡ some (with_bit bitmap bit value)
unfolding bitmap_set_bit
bitmap_set_bit-within bitmap bit value h =
    rw (bitmap_set_bit, get_elem?-eq-get_or bitmap (bit / 8) 0 h) refl

-- The value of a bit of the byte that holds it.
bitmap_bit_value-digit :
    (bitmap : List ℕ) (bit byte : ℕ)
    → get_elem? bitmap (bit / 8) ≡ some byte
    → bitmap_bit_value bitmap bit ≡ some (digit byte (bit % 8))
unfolding bitmap_bit_value
bitmap_bit_value-digit bitmap bit byte e = rw (bitmap_bit_value, e) refl

pub bitmap_bit_value-with_bit_self :
    (bitmap : List ℕ) (bit value : ℕ)
    → value < 2
    → bit / 8 < length bitmap
    → bitmap_bit_value (with_bit bitmap bit value) bit ≡ some value
bitmap_bit_value-with_bit_self bitmap bit value small h =
    let stored = new_byte value (get_or bitmap (bit / 8) 0) (bit % 8) in
    bitmap_bit_value-digit (with_bit bitmap bit value) bit stored
      (get_elem?-set_self bitmap (bit / 8) stored h)
    ∙ ap some (digit-new_byte value (get_or bitmap (bit / 8) 0) (bit % 8) small)

pub bitmap_bit_value-with_bit_ne :
    (bitmap : List ℕ) (bit value other : ℕ)
    → bit / 8 < length bitmap
    → other ≢ bit
    → bitmap_bit_value (with_bit bitmap bit value) other ≡ bitmap_bit_value bitmap other
unfolding bitmap_bit_value
bitmap_bit_value-with_bit_ne bitmap bit value other h ne =
    let byte = get_or bitmap (bit / 8) 0 in
    let stored = new_byte value byte (bit % 8) in
    elim (ℕ_discrete (bit / 8) (other / 8)) [
      | yes e ↦
          bitmap_bit_value-digit (with_bit bitmap bit value) other stored (
            ap (get_elem? (with_bit bitmap bit value)) (sym e)
            ∙ get_elem?-set_self bitmap (bit / 8) stored h)
          ∙ ap some
              (digit-new_byte_ne value byte (bit % 8) (other % 8) (λ q. ne (omega (arith, e, q))))
          ∙ sym (
              bitmap_bit_value-digit bitmap other byte
                (ap (get_elem? bitmap) (sym e) ∙ get_elem?-eq-get_or bitmap (bit / 8) 0 h))
      | no differs ↦
          ap (λ o. elim o [ none ↦ none | some b ↦ some (digit b (other % 8)) ])
            (get_elem?-set_ne bitmap (bit / 8) (other / 8) stored differs)
    ]

-- `bitmap_set_bit` of a bit inside the bitmap to 0 or 1 gives a bitmap of the same length in
-- which that bit has the value and every other bit is as it was.
pub bitmap_set_bit-bitmap_bit_value :
    (bitmap : List ℕ) (bit value : ℕ)
    → value < 2
    → bit < 8 * length bitmap
    → (after : List ℕ) × (bitmap_set_bit bitmap bit value ≡ some after)
      × (length after ≡ length bitmap)
      × (bitmap_bit_value after bit ≡ some value)
      × ((other : ℕ) → other ≢ bit → bitmap_bit_value after other ≡ bitmap_bit_value bitmap other)
bitmap_set_bit-bitmap_bit_value bitmap bit value small h =
    let within : bit / 8 < length bitmap = omega arith in
    (
      with_bit bitmap bit value,
      bitmap_set_bit-within bitmap bit value within,
      length-set bitmap (bit / 8) (new_byte value (get_or bitmap (bit / 8) 0) (bit % 8)),
      bitmap_bit_value-with_bit_self bitmap bit value small within,
      λ other ne. bitmap_bit_value-with_bit_ne bitmap bit value other within ne,
    )

pub length-with_bit :
    (bitmap : List ℕ) (bit value : ℕ) → length (with_bit bitmap bit value) ≡ length bitmap
length-with_bit bitmap bit value =
    length-set bitmap (bit / 8) (new_byte value (get_or bitmap (bit / 8) 0) (bit % 8))
