-- ===== src/Ntfsclone/Table.antt =====
-- `ntfsclone_image_type` of src/libntfsclone.c: the table that src/libimage.c calls. `stack` and `fuel` are
-- those of the loops over the atoms.
use partclone_utils.Base.{ℕ, none, some, List, pos, negsuc, ◌^◌, ◌-◌}
use partclone_utils.Sysdep.{Sysdep, pure, ◌>>=◌, einval}
use partclone_utils.Image.{ImageType, on_handle}
use partclone_utils.Ntfsclone.{NcContext}
use partclone_utils.Ntfsclone.Handle.{
  ntfsclone_open, ntfsclone_close, ntfsclone_tolerant_mode, ntfsclone_verify, ntfsclone_blocksize,
  ntfsclone_blockcount, ntfsclone_seek, ntfsclone_tell, ntfsclone_readblocks, ntfsclone_block_used,
  ntfsclone_writeblocks, ntfsclone_sync, ntfsclone_probe,
}

module _ {W : Type 0} (sys : Sysdep W) (stack : ℕ → List ℕ) (fuel : ℕ) where
  abbrev pub ntfsclone_image_type : ImageType W NcContext
  ntfsclone_image_type = record {
    probe = ntfsclone_probe sys;
    open_type = ntfsclone_open sys;
    close = λ h. elim h [ none ↦ pure einval | some p ↦ ntfsclone_close sys p ];
    tolerant_mode = λ h. elim h [ none ↦ none | some p ↦ some (ntfsclone_tolerant_mode p) ];
    verify = λ h. on_handle sys h (ntfsclone_verify sys stack fuel);
    blocksize = λ h. elim h [ none ↦ pos (2 ^ 32 - 1) | some p ↦ ntfsclone_blocksize p ];
    blockcount = λ h. elim h [ none ↦ negsuc 0 | some p ↦ ntfsclone_blockcount p ];
    seek = λ h n.
        on_handle sys h (λ p w. elim (ntfsclone_seek p n) [ none ↦ none | some r ↦ some (r, w) ]);
    tell = λ h. elim h [ none ↦ 2 ^ 64 - 1 | some p ↦ ntfsclone_tell p ];
    readblocks = λ h buf n. elim h [
      | none ↦ pure (einval, buf, none)
      | some p ↦ do
        (error, buf, p) ← ntfsclone_readblocks sys stack fuel p buf n
        pure (error, buf, some p)
    ];
    block_used = λ h. elim h [
      | none ↦ pure (negsuc 1)
      | some p ↦ λ w. elim (ntfsclone_block_used p) [ none ↦ none | some u ↦ some (u, w) ]
    ];
    writeblocks = λ h buf n. on_handle sys h (λ p. ntfsclone_writeblocks sys p buf n);
    sync = λ h. on_handle sys h (ntfsclone_sync sys);
  }
