-- ===== src/Partclone/Write.antt =====
-- `v1_writeblock` of src/libpartclone.c on a change file that is ready, and reading the block back.
use partclone_utils.Base.{
  ℕ, ◌+◌, ◌<◌, ◌^◌, ◌≡◌, refl, sym, ap, ◌∙◌, true, some, List, arith, length, IsBytes,
}
use partclone_utils.Sysdep.{Sysdep, Array}
use partclone_utils.Sysdep.Contract.{Contract, HasRoom}
use partclone_utils.ChangeFile.{Context, cf_seek}
use partclone_utils.ChangeFile.Blocks.{cf_writeblock}
use partclone_utils.ChangeFile.Map.{IsChangeFile, stored, record_size}
use partclone_utils.ChangeFile.Store.{Stores, cf_writeblock-Stores}
use partclone_utils.Partclone.{PcContext, pctx_have_verdep, pctx_writeready}
use partclone_utils.Partclone.Blocks.{ready_cf, v1_writeblock, v1_readblock}
use partclone_utils.Partclone.Overlay.{moved_to, behind, v1_readblock-stored}

-- The position of a change file does not matter to what it holds.
moved_to-IsChangeFile :
    (cf : Context) (map : Array) (bytes : List ℕ) (b : ℕ)
    → IsChangeFile cf map bytes
    → IsChangeFile (moved_to cf b) map bytes
moved_to-IsChangeFile cf map bytes b ok = record {
  loaded = ok.loaded;
  fits = ok.fits;
  table = ok.table;
  few = ok.few;
  short = ok.short;
  map_behind = ok.map_behind;
  map_inside = ok.map_inside;
  behind = ok.behind;
  whole = ok.whole;
  apart = ok.apart;
}

stored-moved_to :
    (cf : Context) (map : Array) (bytes : List ℕ) (b i : ℕ)
    → stored (moved_to cf b) map bytes i ≡ stored cf map bytes i
unfolding stored
stored-moved_to cf map bytes b i = refl

-- The context with another state of its change file.
abbrev pub with_cf : PcContext → Context → PcContext
with_cf pcp cf = record pcp { pc_cf_handle = some cf }

module _ {W : Type 0} {sys : Sysdep W} (con : Contract sys) (room : HasRoom sys) (pcp : PcContext)
    {cf : Context} {map : Array} (w : W) (have : pctx_have_verdep pcp ≡ true)
    (writable : pctx_writeready pcp ≡ true) (handle : pcp.pc_cf_handle ≡ some cf)
    (ok : IsChangeFile cf map (con.content cf.cfc_fd w))
    (here : pcp.pc_curblock < cf.cfc_header.cf_total_blocks)
    (opened : con.is_open cf.cfc_fd w ≡ true)
    (short : length (con.content cf.cfc_fd w) + record_size cf < 2 ^ 63) where
  -- The write is that of the change file at the current block.
  v1_writeblock-cf :
      (cf' : Context) (block : List ℕ) (w' : W)
      → cf_writeblock sys (moved_to cf pcp.pc_curblock) block w ≡ some ((0, cf'), w')
      → v1_writeblock sys pcp block w ≡ some ((0, with_cf pcp cf'), w')
  unfolding v1_writeblock ready_cf cf_seek
  v1_writeblock-cf cf' block w' run = ground (arith, have, writable, handle, here, run)

  -- For a context that can be written to, whose change file is open and well-formed and has the
  -- current block in its map, under the contract of the services and with room on the disk,
  -- `v1_writeblock` of a block of bytes of the block size returns 0 and stores it in the change
  -- file, and a `v1_readblock` of the same block afterwards returns 0 and that block.
  pub v1_writeblock-read_back :
      (block buffer : List ℕ)
      → IsBytes block
      → length block ≡ cf.cfc_blocksize
      → length buffer ≡ cf.cfc_blocksize
      → (cf' : Context) × (map' : Array) × (w' : W) × (w'' : W) × (v1_writeblock sys pcp block w
          ≡ some ((0, with_cf pcp cf'), w'))
        × Stores con (moved_to cf pcp.pc_curblock) map w block cf' map' w'
        × (v1_readblock sys (with_cf pcp cf') buffer w'
            ≡ some ((0, block, behind (with_cf pcp cf') cf'), w''))
  v1_writeblock-read_back block buffer is_bytes size fits =
      let b = pcp.pc_curblock in
      let (cf', map', w', run, s) =
        cf_writeblock-Stores con room {cfp = moved_to cf b} {map = map} w
          (moved_to-IsChangeFile cf map (con.content cf.cfc_fd w) b ok) here opened short block
          is_bytes size in
      let bytes' = con.content cf'.cfc_fd w' in
      let live : con.is_open cf'.cfc_fd w' ≡ true =
        s.is_open cf'.cfc_fd ∙ ap (λ h. con.is_open h w) s.same_fd ∙ opened in
      let below : b < cf'.cfc_header.cf_total_blocks = omega (arith, here, s.same_total) in
      let (w'', back, same) =
        v1_readblock-stored con (with_cf pcp cf') {cf = cf'} {map = map'} w' have refl
          (moved_to-IsChangeFile cf' map' bytes' b s.is_file) below buffer block live
          (fits ∙ sym s.same_blocksize) (stored-moved_to cf' map' bytes' b b ∙ s.now) in
      (cf', map', w', w'', v1_writeblock-cf cf' block w' run, s, back)
