-- ===== src/Partclone/View.antt =====
-- The disk that a partclone image stands for, and the contexts of src/libpartclone.c that have loaded
-- their bitmap.
use partclone_utils.Base.{
  ℕ, zero, suc, ◌+◌, ◌≤◌, ◌<◌, ◌^◌, ◌≡◌, ◌≢◌, true, some, List, [], ◌++◌, ◌==◌, if◌then◌else◌,
  length, get_or, slice, replicate,
}
use partclone_utils.Sysdep.{Array}
use partclone_utils.Partclone.{PcContext, PcHead, V1Context, pctx_readready, is_set}
use partclone_utils.Partclone.Layout.{stored_offset}
use partclone_utils.Partclone.Rank.{rank, HintsBelow}

-- Block `b` of the disk: zeros if the image does not hold it, else the bytes of the stored block
-- of its rank, at the place that the layout of the file gives it.
unfoldable pub image_block : PcHead → List ℕ → List ℕ → ℕ → List ℕ
image_block head bitmap bytes b =
    if get_or bitmap b 0 == 0
    then replicate head.block_size 0
    else slice (stored_offset head (rank bitmap b)) head.block_size bytes

-- The `n` blocks from block `b` on.
unfoldable pub image_blocks : PcHead → List ℕ → List ℕ → ℕ → ℕ → List ℕ
image_blocks head bitmap bytes b zero = []
image_blocks head bitmap bytes b (suc n) =
    image_block head bitmap bytes b ++ image_blocks head bitmap bytes (b + 1) n

-- A context that has been verified: its bitmap is loaded, and each hint is the number of bytes 1 in
-- the bitmap before the hint's block. Bytes other than 0 and 1 are not excluded: the hints do not
-- count them, but `v1_seek` and `v1_readblock` take them as held.
pub record IsLoaded (pcp : PcContext) (v1p : V1Context) (bitmap sumcount ivblock : Array)
    : Type 0 where
  pub verdep : pcp.pc_verdep ≡ some v1p
  pub bitmap_at : v1p.v1_bitmap ≡ some bitmap
  pub sumcount_at : v1p.v1_sumcount ≡ some sumcount
  pub size : length bitmap.cells ≡ pcp.pc_head.totalblock
  pub hints : HintsBelow v1p.v1_bitmap_factor bitmap.cells pcp.pc_head.totalblock sumcount.cells
  pub ready : pctx_readready pcp ≡ true
  pub have_verdep : pcp.pc_flags.pc_have_verdep ≡ true
  pub dispatched : is_set pcp.pc_dispatch ≡ true
  pub ivblock_at : pcp.pc_ivblock ≡ some ivblock
  pub zeros : ivblock.cells ≡ replicate pcp.pc_head.block_size 0
  pub few : pcp.pc_head.totalblock < 2 ^ 63

-- The file holds every block that the bitmap says it does.
abbrev pub HoldsBlocks : PcHead → List ℕ → List ℕ → Type 0
HoldsBlocks head bitmap bytes =
    (b : ℕ)
    → b < head.totalblock
    → get_or bitmap b 0 ≢ 0
    → (stored_offset head (rank bitmap b) < 2 ^ 63)
      × (stored_offset head (rank bitmap b) + head.block_size ≤ length bytes)

-- The context at block `b`, with the rank of block `n` in its count of preceding blocks.
abbrev pub placed_at : PcContext → V1Context → Array → ℕ → ℕ → PcContext
placed_at pcp v1p bitmap b n = record pcp {
  pc_verdep = some (record v1p { v1_nvbcount = rank bitmap.cells n });
  pc_curblock = b;
}
