-- ===== src/ChangeFile/Read.antt =====
-- `cf_readblock` of src/changefile.c and the map that the file stands for.
use partclone_utils.Base.{
  ℕ, ◌+◌, ◌<◌, ◌≡◌, ◌≢◌, overlay, sym, ap, ◌∙◌, true, none, some, List, arith, length, slice,
  overlay_full, length-slice,
}
use partclone_utils.Checksum.Reference.{crc_bitwise, crc_bitwise-lt}
use partclone_utils.Sysdep.{Sysdep, seek_absolute, enxio, Array}
use partclone_utils.Sysdep.Contract.{
  Contract, SameFiles, SameFiles-seek, SameFiles-read, SameFiles-trans, read_at, read_next,
}
use partclone_utils.ChangeFile.{
  Context, trailer_bytes, trailer_of, trailer_for, cf_crc32, trailer_size,
}
use partclone_utils.ChangeFile.Format.{trailer_of-trailer_bytes}
use partclone_utils.ChangeFile.Blocks.{cf_readblock}
use partclone_utils.ChangeFile.Map.{
  entry, stored, IsChangeFile, cf_crc32-bitwise, current_entry-some,
}

module _ {W : Type 0} {sys : Sysdep W} (con : Contract sys) {cfp : Context} {map : Array} (w : W)
    (ok : IsChangeFile cfp map (con.content cfp.cfc_fd w))
    (here : cfp.cfc_curpos < cfp.cfc_header.cf_total_blocks) where
  -- A block that is not in the map is refused.
  pub cf_readblock-none :
      (buffer : List ℕ)
      → stored cfp map (con.content cfp.cfc_fd w) cfp.cfc_curpos ≡ none
      → cf_readblock sys cfp buffer w ≡ some ((enxio, buffer), w)
  unfolding stored cf_readblock
  cf_readblock-none buffer h = ground (arith, current_entry-some ok here)

  -- When the current block of an open well-formed change file is in its map, `cf_readblock` into
  -- a buffer of the block size returns 0 and that block, its trailer and checksum being accepted,
  -- and changes no file.
  pub cf_readblock-some :
      (buffer block : List ℕ)
      → con.is_open cfp.cfc_fd w ≡ true
      → length buffer ≡ cfp.cfc_blocksize
      → stored cfp map (con.content cfp.cfc_fd w) cfp.cfc_curpos ≡ some block
      → (w' : W) × (cf_readblock sys cfp buffer w ≡ some ((0, block), w')) × SameFiles con w w'
  unfolding stored cf_readblock
  cf_readblock-some buffer block opened fits h =
      let bytes = con.content cfp.cfc_fd w in
      let i = cfp.cfc_curpos in
      let e = entry map i in
      let bs = cfp.cfc_blocksize in
      let present : e ≢ 0 = ground arith in
      let eq : slice e bs bytes ≡ block = ground arith in
      let good = ok.whole i present in
      let s = sys.sys_seek cfp.cfc_fd e seek_absolute w in
      let r = sys.sys_read cfp.cfc_fd bs s.1 in
      let t = sys.sys_read cfp.cfc_fd trailer_size r.1 in
      let same_s = SameFiles-seek con cfp.cfc_fd e seek_absolute w in
      let same_r = SameFiles-trans con same_s (SameFiles-read con cfp.cfc_fd bs s.1) in
      let same_t = SameFiles-trans con same_r (SameFiles-read con cfp.cfc_fd trailer_size r.1) in
      let first =
        read_at con cfp.cfc_fd e bs w opened (omega (arith, good.inside, ok.short))
          (omega (arith, good.inside)) in
      let second =
        read_next con cfp.cfc_fd (e + bs) trailer_size r.1 (same_r.is_open cfp.cfc_fd ∙ opened)
          first.4 (rw (same_r.content cfp.cfc_fd) (omega (arith, good.inside))) in
      let got : length r.0.got ≡ bs =
        ap length first.3 ∙ length-slice e bs bytes (omega (arith, good.inside)) in
      let filled : overlay r.0.got buffer ≡ block =
        overlay_full r.0.got buffer (omega (arith, got, fits)) ∙ first.3 ∙ eq in
      let size : length block ≡ bs =
        ap length (sym eq) ∙ length-slice e bs bytes (omega (arith, good.inside)) in
      let crc : cf_crc32 cfp 0 block bs ≡ some (crc_bitwise 0 block) =
        cf_crc32-bitwise ok block (rw (← eq) good.is_bytes) size in
      let trailer : trailer_of t.0.got ≡ trailer_for i (crc_bitwise 0 block) =
        ap trailer_of (
          second.2
          ∙ ap (slice (e + bs) trailer_size) (same_r.content cfp.cfc_fd)
          ∙ good.trailer
          ∙ ap (λ b. trailer_bytes (trailer_for i (crc_bitwise 0 b))) eq)
        ∙ trailer_of-trailer_bytes (trailer_for i (crc_bitwise 0 block)) (record {
          cfb_curblock = omega (arith, ok.few);
          cfb_crc = crc_bitwise-lt 0 block (omega arith) (rw (← eq) good.is_bytes);
          cfb_magic = omega arith;
        }) in
      (
        t.1,
        ground (
          arith,
          current_entry-some ok here,
          first.0,
          first.1,
          first.2,
          second.0,
          second.1,
          filled,
          crc,
          trailer,
        ),
        same_t,
      )
