-- ===== src/RawImage/Read.antt =====
-- `rawimage_seek` and `rawimage_readblocks` of src/librawimage.c without a change file.
use partclone_utils.Base.{
  ℕ, ◌+◌, ◌*◌, ◌%◌, ◌≤◌, ◌<◌, ◌^◌, ◌≡◌, ap, ◌∙◌, true, none, some, List, arith, length, slice,
  length-slice, overlay, overlay_full,
}
use native.Mathlib.Nat.{add-mul, mul-le-mul_right}
use partclone_utils.Sysdep.{Sysdep, seek_absolute}
use partclone_utils.Sysdep.Contract.{
  Contract, SameFiles, SameFiles-trans, SameFiles-seek, SameFiles-read, read_at,
}
use partclone_utils.RawImage.{RawContext, rawctx_verified, rawimage_seek}
use partclone_utils.RawImage.Handle.{rawimage_readblocks}

abbrev pub raw_at : RawContext → ℕ → RawContext
raw_at rcp b = record rcp { raw_curblock = b }

module _ {W : Type 0} {sys : Sysdep W} (con : Contract sys) (rcp : RawContext) (w : W)
    (verified : rawctx_verified rcp ≡ true) (alone : rcp.raw_cf_handle ≡ none)
    (opened : con.is_open rcp.raw_fd w ≡ true)
    (fits : rcp.raw_totalblocks * rcp.raw_blocksize ≤ length (con.content rcp.raw_fd w))
    (short : length (con.content rcp.raw_fd w) < 2 ^ 63) where
  -- For a verified raw context without a change file, on an open file shorter than 2 ^ 63 bytes
  -- that holds all its blocks, a seek to block `b` and a read of `n` blocks, none past the end,
  -- return 0; the buffer then holds those bytes of the file, no file has changed, and the context
  -- stays at block `b`.
  pub rawimage_readblocks-slice :
      (b n : ℕ) (buffer : List ℕ)
      → b + n ≤ rcp.raw_totalblocks
      → length buffer ≡ n * rcp.raw_blocksize
      → (w' : W) × (rawimage_seek rcp b ≡ (0, raw_at rcp b))
        × (rawimage_readblocks sys (raw_at rcp b) buffer n w
            ≡ some (
              (
                0,
                slice (b * rcp.raw_blocksize) (n * rcp.raw_blocksize) (con.content rcp.raw_fd w),
                raw_at rcp b,
              ),
              w',
            ))
        × SameFiles con w w'
  unfolding rawimage_seek rawimage_readblocks
  rawimage_readblocks-slice b n buffer h size =
      let fd = rcp.raw_fd in
      let bs = rcp.raw_blocksize in
      let bytes = con.content fd w in
      let whole : b * bs + n * bs ≤ length bytes =
        omega (arith, add-mul b n bs, mul-le-mul_right bs h, fits) in
      let s = sys.sys_seek fd (b * bs) seek_absolute w in
      let r = sys.sys_read fd (n * bs) s.1 in
      let got = read_at con fd (b * bs) (n * bs) w opened (omega (arith, whole, short)) whole in
      let long : length r.0.got ≡ n * bs =
        ap length got.3 ∙ length-slice (b * bs) (n * bs) bytes whole in
      let covered : overlay r.0.got buffer ≡ slice (b * bs) (n * bs) bytes =
        overlay_full r.0.got buffer (omega (arith, long, size)) ∙ got.3 in
      let o : (b * bs) % 2 ^ 64 ≡ b * bs = omega (arith, whole, short) in
      let z : (n * bs) % 2 ^ 64 ≡ n * bs = omega (arith, whole, short) in
      (
        r.1,
        ground (arith, verified, alone, h),
        ground (arith, verified, alone, o, z, got.0, got.1, covered, size),
        SameFiles-trans con (SameFiles-seek con fd (b * bs) seek_absolute w)
            (SameFiles-read con fd (n * bs) s.1),
      )
