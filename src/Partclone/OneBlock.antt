-- ===== src/Partclone/OneBlock.antt =====
-- The second half of `v1_readblock` of src/libpartclone.c, which reads one block from the image,
-- and the disk that the image stands for.
use partclone_utils.Base.{
  ℕ, ◌+◌, ◌<◌, ◌^◌, ◌≡◌, ap, ◌∙◌, true, some, List, arith, length, get_or, get_elem?, slice, take,
  replicate, ℕ_discrete, get_elem?-eq-get_or, overlay, overlay_full, length-slice, length-replicate,
  take-all,
}
use partclone_utils.Sysdep.{Sysdep, Array, seek_absolute}
use partclone_utils.Sysdep.Contract.{
  Contract, SameFiles, SameFiles-refl, SameFiles-trans, SameFiles-seek, SameFiles-read, read_at,
}
use partclone_utils.Partclone.{PcContext, V1Context}
use partclone_utils.Partclone.Layout.{stored_offset, rblock2offset-stored_offset}
use partclone_utils.Partclone.Blocks.{read_image}
use partclone_utils.Partclone.Rank.{IsBitmap, rank, rank-le, rank-add_one, IsBitmap-get}
use partclone_utils.Partclone.View.{image_block, IsLoaded, HoldsBlocks, placed_at}

module _ {pcp : PcContext} {v1p : V1Context} {bitmap sumcount ivblock : Array}
    (ok : IsLoaded pcp v1p bitmap sumcount ivblock) (bits : IsBitmap bitmap.cells) {W : Type 0}
    {sys : Sysdep W} (con : Contract sys) (bytes : List ℕ)
    (holds : HoldsBlocks pcp.pc_head bitmap.cells bytes) where
  abbrev at : ℕ → ℕ → PcContext
  at = placed_at pcp v1p bitmap

  abbrev total : ℕ
  total = pcp.pc_head.totalblock

  abbrev bs : ℕ
  bs = pcp.pc_head.block_size

  abbrev block : ℕ → List ℕ
  block = image_block pcp.pc_head bitmap.cells bytes

  pub length-block : (b : ℕ) → b < total → length (block b) ≡ bs
  unfolding image_block
  length-block b h = elim (ℕ_discrete (get_or bitmap.cells b 0) 0) [
    | yes gap ↦ ground (arith, gap, length-replicate {A = ℕ} bs 0)
    | no held ↦ ground (
      arith,
      held,
      length-slice (stored_offset pcp.pc_head (rank bitmap.cells b)) bs bytes (holds b h held).1,
    )
  ]

  -- One block is read, and the count of preceding blocks is that of the next block.
  pub read_image-image_block :
      (b : ℕ) (buffer : List ℕ) (w : W)
      → con.is_open pcp.pc_fd w ≡ true
      → con.content pcp.pc_fd w ≡ bytes
      → b < total
      → length buffer ≡ bs
      → (w' : W) × (read_image sys (at b b) buffer w ≡ some ((0, block b, at b (b + 1)), w'))
        × SameFiles con w w'
  unfolding read_image image_block
  read_image-image_block b buffer w opened same h size =
      let bit : get_elem? bitmap.cells b ≡ some (get_or bitmap.cells b 0) =
        get_elem?-eq-get_or bitmap.cells b 0 (omega (arith, ok.size)) in
      let next = rank-add_one bitmap.cells b (omega (arith, ok.size)) in
      let whole : take bs (replicate {A = ℕ} bs 0) ≡ replicate bs 0 =
        take-all bs (replicate bs 0) (omega (arith, length-replicate {A = ℕ} bs 0)) in
      let small : rank bitmap.cells b + 1 < 2 ^ 64 =
        omega (arith, rank-le bitmap.cells b, ok.few) in
      elim (ℕ_discrete (get_or bitmap.cells b 0) 0) [
        | yes gap ↦
            let covered : overlay (replicate bs 0) buffer ≡ replicate bs 0 =
              overlay_full (replicate bs 0) buffer (omega (arith, length-replicate {A = ℕ} bs 0)) in
            (
              w,
              ground (
                arith,
                gap,
                bit,
                next,
                ok.verdep,
                ok.bitmap_at,
                size,
                whole,
                covered,
                ok.ivblock_at,
                ok.zeros,
                length-replicate {A = ℕ} bs 0,
              ),
              SameFiles-refl con w,
            )
        | no held ↦
            let o = stored_offset pcp.pc_head (rank bitmap.cells b) in
            let fits = holds b h held in
            let place = rblock2offset-stored_offset pcp.pc_head (rank bitmap.cells b) fits.0 in
            let s = sys.sys_seek pcp.pc_fd o seek_absolute w in
            let r = sys.sys_read pcp.pc_fd bs s.1 in
            let got = read_at con pcp.pc_fd o bs w opened fits.0 (rw same fits.1) in
            let read : r.0.got ≡ slice o bs bytes = got.3 ∙ ap (slice o bs) same in
            let long : length r.0.got ≡ bs = ap length read ∙ length-slice o bs bytes fits.1 in
            let covered : overlay r.0.got buffer ≡ slice o bs bytes =
              overlay_full r.0.got buffer (omega (arith, long)) ∙ read in
            (
              r.1,
              ground (
                arith,
                held,
                place,
                IsBitmap-get bitmap.cells b bits,
                bit,
                next,
                ok.verdep,
                ok.bitmap_at,
                size,
                small,
                covered,
                got.0,
                got.2,
              ),
              SameFiles-trans con (SameFiles-seek con pcp.pc_fd o seek_absolute w)
                  (SameFiles-read con pcp.pc_fd bs s.1),
            )
      ]
