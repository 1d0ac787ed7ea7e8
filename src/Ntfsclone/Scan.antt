-- ===== src/Ntfsclone/Scan.antt =====
-- The scan of the image in `v10_verify` of src/libntfsclone.c, which builds the bitmap and the offsets of
-- the buckets.
--
-- The loops that walk over atoms need not end: an atom may stand for no cluster. They run on fuel, and
-- `none` also stands for fuel that has run out. `stack` is what the atom's buffer, an automatic variable
-- without an initial value, holds in the round that has the given fuel left.
use partclone_utils.Base.{
  ℕ, zero, suc, ◌+◌, ◌-◌, ◌/◌, ◌%◌, ◌^◌, true, false, ◌&&◌, Option, none, some, List, ◌==◌, ltb,
  if◌then◌else◌, get_elem?, set, overlay,
}
use partclone_utils.Sysdep.{Sysdep, M, pure, fault, ◌>>=◌, call, deref, seek_relative, edeadlk}
use partclone_utils.Ntfsclone.{
  NcContext, ImageHdr, atom_size, union_size, atom_to_data_offset, nca_atype, ncau_empty_count,
  ntctx_tolerant,
}
use partclone_utils.Ntfsclone.Bitmap.{bitmap_set_bit}

-- The variables of the scan.
pub record Scanned : Type 0 where
  pub cclust : ℕ
  pub nconsecsync : ℕ
  pub bits : List ℕ
  pub offsets : List ℕ

-- `cluster_size - sizeof(ibuf.nca_union)`
abbrev pub rest_of_cluster : ImageHdr → ℕ
rest_of_cluster head = (head.cluster_size + 2 ^ 64 - union_size) % 2 ^ 64

-- `cfoffs - cluster_size - ATOM_TO_DATA_OFFSET`
abbrev pub atom_offset : ImageHdr → ℕ → ℕ
atom_offset head cfoffs =
    ((cfoffs + 2 ^ 64 - head.cluster_size) % 2 ^ 64 + 2 ^ 64 - atom_to_data_offset) % 2 ^ 64

-- A used cluster whose data end at `cfoffs` is noted; `none` leaves an array.
unfoldable pub note_used : NcContext → ℕ → ℕ → Scanned → Option Scanned
note_used ntcp factor cfoffs s = elim (bitmap_set_bit s.bits s.cclust 1) [
  | none ↦ none
  | some bits ↦ elim (get_elem? s.offsets (s.cclust / 2 ^ factor)) [
    | none ↦ none
    | some offset ↦ some (record s {
      bits = bits;
      offsets =
          (if offset == 0
            then set s.offsets (s.cclust / 2 ^ factor) (atom_offset ntcp.nc_head cfoffs)
            else s.offsets);
      cclust = (s.cclust + 1) % 2 ^ 64;
      nconsecsync = 0;
    })
  ]
]

module _ {W : Type 0} (sys : Sysdep W) (stack : ℕ → List ℕ) where
  -- The `switch` of the scan on an atom that has been read.
  unfoldable pub scan_atom : NcContext → ℕ → List ℕ → Scanned → M W (ℕ × Scanned)
  scan_atom ntcp factor ibuf s =
      if nca_atype ibuf == 0
      then pure
          (0, record s { nconsecsync = 0; cclust = (s.cclust + ncau_empty_count ibuf) % 2 ^ 64 })
      else if nca_atype ibuf == 1
      then (do
        k ← call (sys.sys_seek ntcp.nc_fd (rest_of_cluster ntcp.nc_head) seek_relative)
        if k.error == 0
            then (do noted ← deref (note_used ntcp factor k.offset s); pure (0, noted))
            else if ntctx_tolerant ntcp
            then pure (0, record s { nconsecsync = 0; cclust = ntcp.nc_head.nr_clusters })
            else pure (k.error, record s { nconsecsync = 0 }))
      else if ntctx_tolerant ntcp
      then pure (
        0,
        (if ltb 128 s.nconsecsync
            then record s { cclust = ntcp.nc_head.nr_clusters }
            else record s { nconsecsync = s.nconsecsync + 1 }),
      )
      else pure (edeadlk, s)

  -- A read of the scan that has failed.
  unfoldable pub scan_failed : NcContext → ℕ → Scanned → M W (ℕ × Scanned)
  scan_failed ntcp error s =
      if ntctx_tolerant ntcp
      then (do
        _ ← call (sys.sys_seek ntcp.nc_fd atom_size seek_relative)
        pure (0, record s { cclust = (s.cclust + 1) % 2 ^ 64 }))
      else pure (error, s)

  -- One round of the loop of `v10_verify`, where `buffer` is what the atom's buffer holds.
  unfoldable pub scan_round : NcContext → ℕ → List ℕ → Scanned → M W (ℕ × Scanned)
  scan_round ntcp factor buffer s = do
    _ ← call (sys.sys_seek ntcp.nc_fd 0 seek_relative)
    r ← call (sys.sys_read ntcp.nc_fd atom_size)
    if r.error == 0
        then scan_atom ntcp factor (overlay r.got buffer) s
        else scan_failed ntcp r.error s

  -- The loop of `v10_verify`.
  unfoldable pub scan_loop : ℕ → NcContext → ℕ → ℕ → Scanned → M W (ℕ × Scanned)
  scan_loop zero ntcp factor error s =
      if error == 0 && ltb s.cclust ntcp.nc_head.nr_clusters then fault else pure (error, s)
  scan_loop (suc left) ntcp factor error s =
      elim (error == 0 && ltb s.cclust ntcp.nc_head.nr_clusters) [
        | false ↦ pure (error, s)
        | true ↦ do
          (error, s) ← scan_round ntcp factor (stack left) s
          scan_loop left ntcp factor error s
      ]
