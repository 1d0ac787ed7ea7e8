-- ===== src/Partclone/Overlay.antt =====
-- `v1_readblock` of src/libpartclone.c when there is a change file in front of the image.
use partclone_utils.Base.{◌+◌, ℕ, ◌<◌, ◌≡◌, none, some, true, List, arith, length}
use partclone_utils.Sysdep.{Sysdep, Array}
use partclone_utils.Sysdep.Contract.{Contract, SameFiles}
use partclone_utils.ChangeFile.{Context, cf_seek}
use partclone_utils.ChangeFile.Map.{IsChangeFile, stored}
use partclone_utils.ChangeFile.Read.{cf_readblock-none, cf_readblock-some}
use partclone_utils.Partclone.{PcContext, V1Context, pctx_have_verdep}
use partclone_utils.Partclone.Blocks.{read_cf, v1_readblock}
use partclone_utils.Partclone.Rank.{IsBitmap}
use partclone_utils.Partclone.View.{image_block, IsLoaded, HoldsBlocks, placed_at}
use partclone_utils.Partclone.OneBlock.{read_image-image_block}

abbrev pub moved_to : Context → ℕ → Context
moved_to cf b = record cf { cfc_curpos = b }

abbrev pub behind : PcContext → Context → PcContext
behind pcp cf = record pcp { pc_cf_handle = some (moved_to cf pcp.pc_curblock) }

module _ {W : Type 0} {sys : Sysdep W} (con : Contract sys) (pcp : PcContext) {cf : Context}
    {map : Array} (w : W) (have : pctx_have_verdep pcp ≡ true) (handle : pcp.pc_cf_handle ≡ some cf)
    (ok : IsChangeFile (moved_to cf pcp.pc_curblock) map (con.content cf.cfc_fd w))
    (here : pcp.pc_curblock < cf.cfc_header.cf_total_blocks) where
  -- When the change file, open and well-formed, has the current block, `v1_readblock` into a
  -- buffer of its block size returns 0 and that block, and leaves all but the position of the
  -- change file as it was, the count of preceding blocks included.
  pub v1_readblock-stored :
      (buffer block : List ℕ)
      → con.is_open cf.cfc_fd w ≡ true
      → length buffer ≡ cf.cfc_blocksize
      → stored (moved_to cf pcp.pc_curblock) map (con.content cf.cfc_fd w) pcp.pc_curblock
        ≡ some block
      → (w' : W) × (v1_readblock sys pcp buffer w ≡ some ((0, block, behind pcp cf), w'))
        × SameFiles con w w'
  unfolding v1_readblock read_cf cf_seek
  v1_readblock-stored buffer block opened fits h =
      let (w', run, same) = cf_readblock-some con w ok here buffer block opened fits h in
      (w', ground (arith, have, handle, run, here), same)

-- The context at block `b`, with the rank of block `n` in its count of preceding blocks, and the
-- change file at block `b`.
abbrev pub overlaid_at : PcContext → V1Context → Array → Context → ℕ → ℕ → PcContext
overlaid_at pcp v1p bitmap cf b n = behind (placed_at pcp v1p bitmap b n) cf

-- A loaded context stays one, wherever its change file stands.
IsLoaded-moved :
    {pcp : PcContext} {v1p : V1Context} {bitmap sumcount ivblock : Array} (cf : Context) (b : ℕ)
    → IsLoaded pcp v1p bitmap sumcount ivblock
    → IsLoaded (record pcp { pc_cf_handle = some (moved_to cf b) }) v1p bitmap sumcount ivblock
IsLoaded-moved cf b ok = record {
  verdep = ok.verdep;
  bitmap_at = ok.bitmap_at;
  sumcount_at = ok.sumcount_at;
  size = ok.size;
  hints = ok.hints;
  ready = ok.ready;
  have_verdep = ok.have_verdep;
  dispatched = ok.dispatched;
  ivblock_at = ok.ivblock_at;
  zeros = ok.zeros;
  few = ok.few;
}

module _ {pcp : PcContext} {v1p : V1Context} {bitmap sumcount ivblock map : Array} {cf : Context}
    (loaded : IsLoaded pcp v1p bitmap sumcount ivblock) (bits : IsBitmap bitmap.cells) {W : Type 0}
    {sys : Sysdep W} (con : Contract sys) (bytes : List ℕ)
    (holds : HoldsBlocks pcp.pc_head bitmap.cells bytes) (handle : pcp.pc_cf_handle ≡ some cf) where
  -- In front of a loaded image of fewer than 2 ^ 63 blocks whose bitmap bytes are all 0 or 1,
  -- whose file is open and holds every block the bitmap names below 2 ^ 63, with the count of
  -- preceding blocks that belongs to the current block: when the change file is well-formed and
  -- does not have that block, under the contract of the services `v1_readblock` into a buffer of
  -- the block size returns 0 and the block of the disk that the image stands for, zeros if the
  -- image leaves it out, moves the count on to the next block, and changes no file.
  pub v1_readblock-absent :
      (b : ℕ) (buffer : List ℕ) (w : W)
      → con.is_open pcp.pc_fd w ≡ true
      → con.content pcp.pc_fd w ≡ bytes
      → IsChangeFile (moved_to cf b) map (con.content cf.cfc_fd w)
      → b < cf.cfc_header.cf_total_blocks
      → b < pcp.pc_head.totalblock
      → length buffer ≡ pcp.pc_head.block_size
      → stored (moved_to cf b) map (con.content cf.cfc_fd w) b ≡ none
      → (w' : W) × (v1_readblock sys (placed_at pcp v1p bitmap b b) buffer w
          ≡ some (
            (
              0,
              image_block pcp.pc_head bitmap.cells bytes b,
              overlaid_at pcp v1p bitmap cf b (b + 1),
            ),
            w',
          ))
        × SameFiles con w w'
  unfolding v1_readblock read_cf cf_seek
  v1_readblock-absent b buffer w opened same ok here inside size absent =
      let missed = cf_readblock-none con w ok here buffer absent in
      let (w', run, kept) =
        read_image-image_block (IsLoaded-moved cf b loaded) bits con bytes holds b buffer w opened
          same inside size in
      (w', ground (arith, loaded.ready, loaded.have_verdep, handle, missed, run, here), kept)
