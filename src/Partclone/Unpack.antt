-- ===== src/Partclone/Unpack.antt =====
-- The bitmap of format version 2 in src/libpartclone.c: one bit per block in the file, one byte per
-- block in memory.
use partclone_utils.Base.{
  ℕ, zero, suc, ◌+◌, ◌*◌, ◌/◌, ◌%◌, ◌^◌, ◌≤◌, ◌<◌, ◌≡◌, refl, ap, ◌∙◌, some, List, [], ◌∷◌, arith,
  length, get_elem?, get_or, get_elem?-eq-get_or,
}
use partclone_utils.Partclone.Rank.{IsBitmap}
use partclone_utils.Partclone.Version2.{bitmap_bit, unpack_loop}

-- Bit `i % 8` of byte `i / 8`.
abbrev pub bit_at : List ℕ → ℕ → ℕ
bit_at bits i = get_or bits (i / 8) 0 / 2 ^ (i % 8) % 2

-- Entry `k` is the bit of block `i + k`.
abbrev pub BitsFrom : List ℕ → ℕ → ℕ → List ℕ → Type 0
BitsFrom bits left i out = (k : ℕ) → k < left → get_elem? out k ≡ some (bit_at bits (i + k))

-- What the loop makes of the `left` blocks from block `i` on.
pub record Unpacked (bits : List ℕ) (left i : ℕ) (out : List ℕ) : Type 0 where
  pub same_size : length out ≡ left
  pub is_bitmap : IsBitmap out
  pub bit_of : BitsFrom bits left i out

cons-BitsFrom :
    (bits : List ℕ) (left i : ℕ) (rest : List ℕ)
    → BitsFrom bits left (i + 1) rest
    → BitsFrom bits (suc left) i (bit_at bits i ∷ rest)
cons-BitsFrom bits left i rest h zero q = ap (λ t. some (bit_at bits t)) (omega arith)
cons-BitsFrom bits left i rest h (suc k) q =
    h k (omega arith) ∙ ap (λ t. some (bit_at bits t)) (omega arith)

-- When the bits of all blocks are there, the loop of `v2_verify` yields a byte for each block, 0
-- or 1, and the byte of block `i + k` is bit `(i + k) % 8` of byte `(i + k) / 8`.
pub unpack_loop-Unpacked :
    (bits : List ℕ) (left i : ℕ)
    → i + left ≤ 8 * length bits
    → (out : List ℕ) × (unpack_loop bits left i ≡ some out) × Unpacked bits left i out
unfolding unpack_loop bitmap_bit
unpack_loop-Unpacked bits zero i h =
    ([], refl, record { same_size = refl; is_bitmap = tt; bit_of = λ k q. absurd (omega arith) })
unpack_loop-Unpacked bits (suc left) i h =
    let (rest, run, ok) = unpack_loop-Unpacked bits left (i + 1) (omega arith) in
    let bit = bit_at bits i in
    let found : get_elem? bits (i / 8) ≡ some (get_or bits (i / 8) 0) =
      get_elem?-eq-get_or bits (i / 8) 0 (omega arith) in
    (
      bit ∷ rest,
      ground (arith, found, run),
      record {
        same_size = ap suc ok.same_size;
        is_bitmap = (omega arith, ok.is_bitmap);
        bit_of = cons-BitsFrom bits left i rest ok.bit_of;
      },
    )
