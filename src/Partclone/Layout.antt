-- ===== src/Partclone/Layout.antt =====
-- Where the blocks of a partclone image stand in its file, walked off block by block, and
-- `rblock2offset` of src/libpartclone.c, which calculates the place.
use native.Mathlib.Nat.{
  div-add-mod', add-mul, mod-lt, mul-div_cancel, mul-mod_left, add-mul-div_right, div-eq_of_lt,
  add-mul-mod_self_right, mod-eq_of_lt, zero-div,
}
use partclone_utils.Base.{
  ℕ, zero, suc, ◌+◌, ◌*◌, ◌/◌, ◌%◌, ◌^◌, ◌<◌, ◌≡◌, ap, ◌∙◌, arith, ◌==◌, if◌then◌else◌, ℕ_discrete,
}
use partclone_utils.Partclone.{PcHead}
use partclone_utils.Partclone.Blocks.{rblock2offset}

-- The bytes of the checksum that stands before stored block `j`: one if the blocks before it fill
-- a strip of `blocks_per_checksum` blocks, none otherwise or if the image has no checksums.
abbrev pub checksum_before : PcHead → ℕ → ℕ
checksum_before head j =
    if head.blocks_per_checksum == 0
    then 0
    else if j % head.blocks_per_checksum == 0
    then head.checksum_size
    else 0

-- The place of the stored block `j`: the first one stands behind the header and the bitmap, and
-- each of the others behind the block before it and the checksum between them, if there is one.
unfoldable pub stored_offset : PcHead → ℕ → ℕ
stored_offset head zero = head.head_size
stored_offset head (suc j) = stored_offset head j + head.block_size + checksum_before head (suc j)

-- A quotient grows by one when the remainder comes back to 0.
div-add_one : (j n : ℕ) → 0 < n → (j + 1) / n ≡ j / n + (if (j + 1) % n == 0 then 1 else 0)
div-add_one j n pos =
    let whole = div-add-mod' j n in
    let small = mod-lt j pos in
    elim (ℕ_discrete (j % n + 1) n) [
      | yes full ↦
          let next : j + 1 ≡ (j / n + 1) * n = omega (arith, whole, full, add-mul (j / n) 1 n) in
          let quotient : (j + 1) / n ≡ j / n + 1 =
            ap (λ t. t / n) next ∙ mul-div_cancel (j / n + 1) pos in
          let remainder : (j + 1) % n ≡ 0 = ap (λ t. t % n) next ∙ mul-mod_left (j / n + 1) n in
          ground (arith, quotient, remainder)
      | no more ↦
          let inside : j % n + 1 < n = omega (arith, small, more) in
          let next : j + 1 ≡ j % n + 1 + j / n * n = omega (arith, whole) in
          let quotient : (j + 1) / n ≡ j / n =
            ap (λ t. t / n) next
            ∙ add-mul-div_right (j % n + 1) (j / n) pos
            ∙ ap (λ t. t + j / n) (div-eq_of_lt inside)
            ∙ omega arith in
          let remainder : (j + 1) % n ≡ j % n + 1 =
            ap (λ t. t % n) next
            ∙ add-mul-mod_self_right (j % n + 1) (j / n) n
            ∙ mod-eq_of_lt inside in
          ground (arith, quotient, remainder)
    ]

-- The checksums before stored block `j`, counted.
abbrev checksums : PcHead → ℕ → ℕ
checksums head j =
    if head.blocks_per_checksum == 0 then 0 else j / head.blocks_per_checksum * head.checksum_size

stored_offset-closed :
    (head : PcHead) (j : ℕ)
    → stored_offset head j ≡ head.head_size + j * head.block_size + checksums head j
unfolding stored_offset
stored_offset-closed head zero = ground (arith, zero-div head.blocks_per_checksum)
stored_offset-closed head (suc j) =
    let ih = stored_offset-closed head j in
    let n = head.blocks_per_checksum in
    let place : suc j * head.block_size ≡ j * head.block_size + head.block_size = omega arith in
    elim (ℕ_discrete n 0) [
      | yes none_there ↦ ground (arith, ih, place, none_there)
      | no some_there ↦
          let grows = div-add_one j n (omega (arith, some_there)) in
          let more = add-mul (j / n) (if (j + 1) % n == 0 then 1 else 0) head.checksum_size in
          ground (arith, ih, place, some_there, grows, more)
    ]

-- The offset that `rblock2offset` calculates for a stored block, if it is below 2 ^ 63, is the
-- one that a walk over the file gives: the first block stands behind the header and the bitmap,
-- each other one behind the block before it and, where that block ends a strip of
-- `blocks_per_checksum` blocks, behind a checksum.
pub rblock2offset-stored_offset :
    (head : PcHead) (j : ℕ)
    → stored_offset head j < 2 ^ 63
    → rblock2offset head j ≡ stored_offset head j
unfolding rblock2offset
rblock2offset-stored_offset head j small =
    let closed = stored_offset-closed head j in ground (arith, closed, small)
