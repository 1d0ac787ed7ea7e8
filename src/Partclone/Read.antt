-- ===== src/Partclone/Read.antt =====
-- `partclone_seek` and `partclone_readblocks` of src/libpartclone.c and the disk that the image stands
-- for.
use partclone_utils.Base.{
  ℕ, zero, suc, ◌+◌, ◌-◌, ◌*◌, ◌/◌, ◌%◌, ◌≤◌, ◌<◌, ◌^◌, ◌≡◌, ap, ◌∙◌, true, none, some, List, [],
  ◌∷◌, arith, ◌==◌, if◌then◌else◌, length, take, drop, length-take, length-drop,
}
use native.Mathlib.Nat.{div-mul-le_self}
use partclone_utils.Sysdep.{Sysdep, Array, einval}
use partclone_utils.Sysdep.Contract.{Contract, SameFiles, SameFiles-refl, SameFiles-trans}
use partclone_utils.Partclone.{PcContext, V1Context}
use partclone_utils.Partclone.Version1.{v1_seek, seek_cf}
use partclone_utils.Partclone.Blocks.{read_cf, v1_readblock}
use partclone_utils.Partclone.Handle.{partclone_seek, read_loop, partclone_readblocks}
use partclone_utils.Partclone.Rank.{IsBitmap, seek_loop-rank}
use partclone_utils.Partclone.OneBlock.{read_image-image_block}
use partclone_utils.Partclone.View.{image_block, image_blocks, IsLoaded, HoldsBlocks, placed_at}

module _ {pcp : PcContext} {v1p : V1Context} {bitmap sumcount ivblock : Array}
    (ok : IsLoaded pcp v1p bitmap sumcount ivblock) (bits : IsBitmap bitmap.cells)
    (alone : pcp.pc_cf_handle ≡ none) where
  abbrev at : ℕ → ℕ → PcContext
  at = placed_at pcp v1p bitmap

  abbrev total : ℕ
  total = pcp.pc_head.totalblock

  -- For a loaded context without a change file, of fewer than 2 ^ 63 blocks and with bitmap bytes
  -- that are all 0 or 1, `partclone_seek` to a block below the total returns 0, stands at that
  -- block, and leaves in `v1_nvbcount` the number of blocks before it that the image holds.
  pub partclone_seek-rank : (b : ℕ) → b < total → partclone_seek pcp b ≡ some (0, at b b)
  unfolding partclone_seek v1_seek seek_cf
  partclone_seek-rank b h =
      let p = 2 ^ v1p.v1_bitmap_factor in
      let start = b / p * p in
      let low : start ≤ b = div-mul-le_self b p in
      let hint = ok.hints (b / p) (omega arith) in
      let count = seek_loop-rank bitmap.cells (b - start) start bits (omega (arith, ok.size)) in
      let sum : start + (b - start) ≡ b = omega arith in
      ground (
        arith, ok.verdep, ok.bitmap_at, ok.sumcount_at, ok.ready, ok.have_verdep, ok.dispatched,
        alone, hint, count, sum,
      )

  module _ {W : Type 0} {sys : Sysdep W} (con : Contract sys) (bytes : List ℕ)
      (holds : HoldsBlocks pcp.pc_head bitmap.cells bytes) where
    abbrev bs : ℕ
    bs = pcp.pc_head.block_size

    -- The world is fit to read the image.
    abbrev Fit : W → Type 0
    Fit w = (con.is_open pcp.pc_fd w ≡ true) × (con.content pcp.pc_fd w ≡ bytes)

    Fit-SameFiles : {w w' : W} → SameFiles con w w' → Fit w → Fit w'
    Fit-SameFiles same f = (same.is_open pcp.pc_fd ∙ f.0, same.content pcp.pc_fd ∙ f.1)

    -- One block is read, and the count of preceding blocks is that of the next block.
    v1_readblock-image_block :
        (b : ℕ) (buffer : List ℕ) (w : W)
        → Fit w
        → b < total
        → length buffer ≡ bs
        → (w' : W) × (v1_readblock sys (at b b) buffer w
            ≡ some ((0, image_block pcp.pc_head bitmap.cells bytes b, at b (b + 1)), w'))
          × SameFiles con w w'
    unfolding v1_readblock read_cf
    v1_readblock-image_block b buffer w fit h size =
        let (w', run, same) =
          read_image-image_block ok bits con bytes holds b buffer w fit.0 fit.1 h size in
        (w', ground (arith, ok.ready, ok.have_verdep, alone, run), same)

    blocks : ℕ → ℕ → List ℕ
    blocks = image_blocks pcp.pc_head bitmap.cells bytes

    read_loop-blocks :
        (n error b : ℕ) (buffer : List ℕ) (w : W)
        → Fit w
        → b + n ≤ total
        → length buffer ≡ n * bs
        → (w' : W) × (read_loop sys n error (at b b) buffer w
            ≡ some ((if n == 0 then error else 0, blocks b n, at (b + n) (b + n)), w'))
          × SameFiles con w w'
    unfolding read_loop image_blocks blocks
    read_loop-blocks zero error b [] w fit h size =
        (w, ap (λ k. some ((error, [], at k k), w)) (omega arith), SameFiles-refl con w)
    read_loop-blocks zero error b (x ∷ buffer) w fit h size = absurd (omega arith)
    read_loop-blocks (suc n) error b buffer w fit h size =
        let grow : suc n * bs ≡ bs + n * bs = omega arith in
        let front : length (take bs buffer) ≡ bs = omega (arith, length-take bs buffer, grow) in
        let back : length (drop bs buffer) ≡ n * bs = omega (arith, length-drop bs buffer, grow) in
        let (w1, one, same1) =
          v1_readblock-image_block b (take bs buffer) w fit (omega arith) front in
        let (w2, rest, same2) =
          read_loop-blocks n 0 (b + 1) (drop bs buffer) w1 (Fit-SameFiles same1 fit) (omega arith)
            back in
        let small : (b + 1) % 2 ^ 64 ≡ b + 1 = omega (arith, ok.few) in
        let shift : b + 1 + n ≡ b + suc n = omega arith in
        (
          w2,
          ground (arith, ok.dispatched, one, rest, small, shift),
          SameFiles-trans con same1 same2,
        )

    -- For a loaded context without a change file, of fewer than 2 ^ 63 blocks and with bitmap
    -- bytes that are all 0 or 1, on an open image file that holds every block its bitmap names,
    -- each below 2 ^ 63 at the place that the layout of blocks and checksums gives it, under the
    -- contract of the services a seek to block `b` and a read of `n` blocks, one at least and
    -- none past the end, succeed: the buffer then holds blocks `b` to `b + n - 1` of the disk,
    -- zeros for those the image leaves out, the context stands at block `b + n`, and no file has
    -- changed.
    pub readblocks-image_blocks :
        (b n : ℕ) (buffer : List ℕ) (w : W)
        → con.is_open pcp.pc_fd w ≡ true
        → con.content pcp.pc_fd w ≡ bytes
        → 0 < n
        → b + n ≤ pcp.pc_head.totalblock
        → length buffer ≡ n * pcp.pc_head.block_size
        → (there : PcContext) × (w' : W) × (partclone_seek pcp b ≡ some (0, there))
          × (partclone_readblocks sys there buffer n w
              ≡ some ((0, image_blocks pcp.pc_head bitmap.cells bytes b n, at (b + n) (b + n)), w'))
          × SameFiles con w w'
    unfolding partclone_readblocks blocks
    readblocks-image_blocks b n buffer w opened same pos h size =
        let (w', run, kept) = read_loop-blocks n einval b buffer w (opened, same) h size in
        (at b b, w', partclone_seek-rank b (omega arith), ground (arith, ok.ready, run, pos), kept)
