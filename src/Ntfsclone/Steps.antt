-- ===== src/Ntfsclone/Steps.antt =====
-- The steps of `ntfsclone_verify` of src/libntfsclone.c on a file that holds an image.
use partclone_utils.Base.{
  ℕ, ◌+◌, ◌%◌, ◌^◌, ◌≤◌, ◌<◌, ◌≡◌, ◌≢◌, ap, ◌∙◌, true, false, some, List, arith, length, slice,
  replicate, overlay, same_bytes,
}
use partclone_utils.Sysdep.{Sysdep, is_writing}
use partclone_utils.Ntfsclone.{
  NcContext, NcVersion, ImageHdr, image_hdr_of, image_hdr_size, image_hdr_bytes, ntfsclone_magic,
  v10_context_size, ntctx_open,
}
use partclone_utils.Ntfsclone.Version10.{new_v10, v10_open_cf, v10_init, v10_verify}
use partclone_utils.Ntfsclone.Handle.{
  find_nc_version, nc_make_ivblock, ntfsclone_verify_common, ntfsclone_verify,
}
use partclone_utils.Ntfsclone.View.{Atom, cluster_at, use_bit, span}
use partclone_utils.Ntfsclone.Verified.{IsImage}

-- A file that holds an image: its header, and behind it the atoms of one cluster more than the header
-- counts. Cluster 0 is in use, and the count is no multiple of 8.
pub record IsNtfsclone (bytes : List ℕ) (version : NcVersion) (atoms : List Atom) : Type 0 where
  pub head_room : image_hdr_size ≤ length bytes
  pub magic : same_bytes (image_hdr_of (slice 0 image_hdr_size bytes)).magic ntfsclone_magic ≡ true
  pub known : find_nc_version (image_hdr_of (slice 0 image_hdr_size bytes)) ≡ some version
  pub image :
      IsImage
        (image_hdr_of (slice 0 image_hdr_size bytes)).cluster_size
        bytes
        (image_hdr_of (slice 0 image_hdr_size bytes)).offset_to_image_data
        atoms
  pub near : (image_hdr_of (slice 0 image_hdr_size bytes)).offset_to_image_data < 2 ^ 32
  pub total : span atoms ≡ (image_hdr_of (slice 0 image_hdr_size bytes)).nr_clusters + 1
  pub few : (image_hdr_of (slice 0 image_hdr_size bytes)).nr_clusters < 2 ^ 61
  pub odd : (image_hdr_of (slice 0 image_hdr_size bytes)).nr_clusters % 8 ≢ 0
  pub boot : use_bit (cluster_at atoms 0) ≡ 1

-- The context with the header, with the index's handle, and at its end.
abbrev pub headed : NcContext → ImageHdr → NcVersion → NcContext
headed ntcp head version = record ntcp { nc_head = head; nc_dispatch = some version }

abbrev pub initialised : NcContext → ℕ → NcContext
initialised ntcp addr = record ntcp {
  nc_verdep = some (new_v10 addr);
  nc_flags = record ntcp.nc_flags {
    nc_have_verdep = true;
    nc_version_init = true;
    nc_read_only = true;
  };
}

abbrev pub finished : NcContext → ℕ → NcContext
finished ntcp addr = record ntcp {
  nc_curblock = 0;
  nc_ivblock = some (record { addr = addr; cells = replicate ntcp.nc_head.cluster_size 69 });
  nc_flags = record ntcp.nc_flags { nc_verified = true; nc_have_ivblock = true };
}

module _ {W : Type 0} (sys : Sysdep W) (stack : ℕ → List ℕ) (fuel : ℕ) where
  pub v10_init-initialised :
      (ntcp : NcContext) (w : W)
      → ntctx_open ntcp ≡ true
      → is_writing ntcp.nc_omode ≡ false
      → (sys.sys_malloc v10_context_size w).0.error ≡ 0
      → v10_init sys ntcp w
        ≡ some (
          (0, initialised ntcp (sys.sys_malloc v10_context_size w).0.addr),
          (sys.sys_malloc v10_context_size w).1,
        )
  unfolding v10_init v10_open_cf
  v10_init-initialised ntcp w ready reading ok = ground (arith, ready, reading, ok)

  pub nc_make_ivblock-finished :
      (ntcp : NcContext) (w : W)
      → (sys.sys_malloc ntcp.nc_head.cluster_size w).0.error ≡ 0
      → nc_make_ivblock sys ntcp w
        ≡ some (
          (0, finished ntcp (sys.sys_malloc ntcp.nc_head.cluster_size w).0.addr),
          (sys.sys_malloc ntcp.nc_head.cluster_size w).1,
        )
  unfolding nc_make_ivblock
  nc_make_ivblock-finished ntcp w ok = ground (arith, ok)

  pub ntfsclone_verify-steps :
      (ntcp ntcp1 ntcp2 : NcContext) (head : ImageHdr) (version : NcVersion) (w w1 w2 : W)
      → ntctx_open ntcp ≡ true
      → let r = sys.sys_read ntcp.nc_fd image_hdr_size w in
        r.0.error ≡ 0
        → r.0.nread ≡ image_hdr_size
        → image_hdr_of (overlay r.0.got (image_hdr_bytes ntcp.nc_head)) ≡ head
        → find_nc_version head ≡ some version
        → v10_init sys (headed ntcp head version) r.1 ≡ some ((0, ntcp1), w1)
        → v10_verify sys stack fuel ntcp1 w1 ≡ some ((0, ntcp2), w2)
        → ntfsclone_verify sys stack fuel ntcp w ≡ nc_make_ivblock sys ntcp2 w2
  unfolding ntfsclone_verify ntfsclone_verify_common
  ntfsclone_verify-steps ntcp ntcp1 ntcp2 head version w w1 w2 ready ok full is_head known init
        verify =
      let r = sys.sys_read ntcp.nc_fd image_hdr_size w in
      let known' : find_nc_version (image_hdr_of (overlay r.0.got (image_hdr_bytes ntcp.nc_head)))
          ≡ some version =
        ap find_nc_version is_head ∙ known in
      let init' : v10_init sys
            (headed ntcp (image_hdr_of (overlay r.0.got (image_hdr_bytes ntcp.nc_head))) version)
            r.1
          ≡ some ((0, ntcp1), w1) =
        ap (λ h. v10_init sys (headed ntcp h version) r.1) is_head ∙ init in
      ground (arith, ready, ok, full, known', init', verify)
