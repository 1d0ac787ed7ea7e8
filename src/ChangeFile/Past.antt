-- ===== src/ChangeFile/Past.antt =====
-- The position one past the last block, and `cf_seek` of src/changefile.c.
use partclone_utils.Base.{ℕ, ◌≡◌, none, List, arith, get_elem?-none}
use partclone_utils.Sysdep.{Sysdep, Array}
use partclone_utils.ChangeFile.{Context, cf_seek, cf_blockused, current_entry}
use partclone_utils.ChangeFile.Blocks.{cf_readblock, cf_writeblock}
use partclone_utils.ChangeFile.Map.{IsChangeFile}

module _ {W : Type 0} (sys : Sysdep W) {cfp : Context} {map : Array} {bytes : List ℕ}
    (ok : IsChangeFile cfp map bytes) where
  abbrev pub past : Context
  past = record cfp { cfc_curpos = cfp.cfc_header.cf_total_blocks }

  -- For a well-formed change file, `cf_seek` to the block number that equals the total returns 0,
  -- and each of `cf_readblock`, `cf_writeblock` and `cf_blockused` then indexes the block map
  -- behind its end.
  pub cf_seek-faults :
      (buffer : List ℕ) (w : W)
      → (cf_seek cfp cfp.cfc_header.cf_total_blocks ≡ (0, past))
        × (cf_readblock sys past buffer w ≡ none)
        × (cf_writeblock sys past buffer w ≡ none)
        × (cf_blockused past ≡ none)
  unfolding cf_seek cf_readblock cf_writeblock cf_blockused current_entry
  cf_seek-faults buffer w = ground (
    arith,
    ok.loaded,
    get_elem?-none map.cells cfp.cfc_header.cf_total_blocks (omega (arith, ok.fits)),
  )
