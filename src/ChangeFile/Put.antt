-- ===== src/ChangeFile/Put.antt =====
-- The bytes of a change file after a block and its trailer have been written at an offset.
use partclone_utils.Base.{
  ℕ, ◌+◌, ◌≤◌, ◌≡◌, ◌⊎◌, inl, inr, ap, ◌∙◌, sym, List, arith, length, slice, IsBytes,
}
use partclone_utils.Base.Splice.{
  splice, length-splice, slice-splice_same, slice-splice_before, slice-splice_after,
}
use partclone_utils.Checksum.Reference.{crc_bitwise}
use partclone_utils.ChangeFile.{trailer_bytes, trailer_for, trailer_size}
use partclone_utils.ChangeFile.Format.{length-trailer_bytes}
use partclone_utils.ChangeFile.Map.{IsBlock}

-- The trailer that goes behind `block` as block `i`.
abbrev pub trailer_of_block : ℕ → List ℕ → List ℕ
trailer_of_block i block = trailer_bytes (trailer_for i (crc_bitwise 0 block))

abbrev pub put_block : ℕ → ℕ → List ℕ → List ℕ → List ℕ
put_block o i block bytes =
    splice (o + length block) (trailer_of_block i block) (splice o block bytes)

module _ (o i : ℕ) (block bytes : List ℕ) (inside : o ≤ length bytes) where
  length-trailer : length (trailer_of_block i block) ≡ trailer_size
  length-trailer = length-trailer_bytes (trailer_for i (crc_bitwise 0 block))

  half_inside : o + length block ≤ length (splice o block bytes)
  half_inside = omega (arith, length-splice o block bytes inside)

  pub length-put_block_ge : length bytes ≤ length (put_block o i block bytes)
  length-put_block_ge = omega (
    arith,
    length-splice (o + length block) (trailer_of_block i block) (splice o block bytes) half_inside,
    length-splice o block bytes inside,
  )

  pub length-put_block :
      (length (put_block o i block bytes) ≡ length bytes)
      ⊎ (length (put_block o i block bytes) ≡ o + length block + trailer_size)
  length-put_block = grind (
    arith,
    length-splice (o + length block) (trailer_of_block i block) (splice o block bytes) half_inside,
    length-splice o block bytes inside,
    length-trailer,
  )

  pub put_block_inside : o + (length block + trailer_size) ≤ length (put_block o i block bytes)
  put_block_inside = omega (
    arith,
    length-splice (o + length block) (trailer_of_block i block) (splice o block bytes) half_inside,
    length-trailer,
  )

  pub slice-put_block : slice o (length block) (put_block o i block bytes) ≡ block
  slice-put_block =
      slice-splice_before o (length block) (o + length block) (trailer_of_block i block)
        (splice o block bytes) half_inside (omega arith)
      ∙ slice-splice_same o block bytes inside

  slice-put_trailer :
      slice (o + length block) trailer_size (put_block o i block bytes) ≡ trailer_of_block i block
  slice-put_trailer =
      ap (λ n. slice (o + length block) n (put_block o i block bytes)) (sym length-trailer)
      ∙ slice-splice_same (o + length block) (trailer_of_block i block) (splice o block bytes)
          half_inside

  pub slice-put_ne :
      (e n : ℕ)
      → (e + n ≤ o) ⊎ (o + (length block + trailer_size) ≤ e)
      → slice e n (put_block o i block bytes) ≡ slice e n bytes
  slice-put_ne e n (inl before) =
      slice-splice_before e n (o + length block) (trailer_of_block i block) (splice o block bytes)
        half_inside (omega arith)
      ∙ slice-splice_before e n o block bytes inside before
  slice-put_ne e n (inr after) =
      slice-splice_after e n (o + length block) (trailer_of_block i block) (splice o block bytes)
        half_inside (omega (arith, length-trailer))
      ∙ slice-splice_after e n o block bytes inside (omega arith)

  pub put_block-IsBlock : IsBytes block → IsBlock (length block) (put_block o i block bytes) i o
  put_block-IsBlock b = record {
    inside = put_block_inside;
    is_bytes = rw slice-put_block b;
    trailer = slice-put_trailer ∙ ap (trailer_of_block i) (sym slice-put_block);
  }

  -- A block that does not meet the one that is written stays a block.
  pub IsBlock-put_block :
      {j e : ℕ}
      → (e + (length block + trailer_size) ≤ o) ⊎ (o + (length block + trailer_size) ≤ e)
      → IsBlock (length block) bytes j e
      → IsBlock (length block) (put_block o i block bytes) j e
  IsBlock-put_block {j} {e} apart good =
      let data_same = slice-put_ne e (length block) (weaken apart) in
      record {
        inside = omega (arith, good.inside, length-put_block_ge);
        is_bytes = rw data_same good.is_bytes;
        trailer =
            slice-put_ne (e + length block) trailer_size (shift apart)
            ∙ good.trailer
            ∙ ap (trailer_of_block j) (sym data_same);
      }
    where
      weaken :
          (e + (length block + trailer_size) ≤ o) ⊎ (o + (length block + trailer_size) ≤ e)
          → (e + length block ≤ o) ⊎ (o + (length block + trailer_size) ≤ e)
      weaken (inl p) = inl (omega arith)
      weaken (inr p) = inr p

      shift :
          (e + (length block + trailer_size) ≤ o) ⊎ (o + (length block + trailer_size) ≤ e)
          → (e + length block + trailer_size ≤ o)
            ⊎ (o + (length block + trailer_size) ≤ e + length block)
      shift (inl p) = inl (omega arith)
      shift (inr p) = inr (omega arith)
