-- ===== src/Partclone/Version2.antt =====
-- `v2_verify` of src/libpartclone.c: the header and the bitmap of format version 2.
use partclone_utils.Base.{
  ℕ, zero, suc, ◌+◌, ◌/◌, ◌%◌, ◌^◌, true, not, ◌&&◌, Option, none, some, List, [], ◌∷◌, ◌==◌, ltb,
  if◌then◌else◌, get_elem?, slice, overlay, same_bytes,
}
use partclone_utils.Base.Words.{le_value}
use partclone_utils.Checksum.{crc_table, crc32_seed, update_crc32}
use partclone_utils.Sysdep.{
  Sysdep, M, pure, ◌>>=◌, call, deref, in_bounds, Array, array_of, seek_absolute, einval,
}
use partclone_utils.Partclone.{PcContext, PcHead, V1Context, pctx_open}
use partclone_utils.Partclone.Head.{image_magic, crc_size, head_v2_size, head_v2}
use partclone_utils.Partclone.Version1.{precalculate_sumcount}

-- `bitmap_size`: the count of bytes that hold `totalblock` bits.
abbrev pub bitmap_bytes : ℕ → ℕ
bitmap_bytes totalblock = if totalblock % 8 == 0 then totalblock / 8 else totalblock / 8 + 1

-- `(bitmap[i >> 3] & (1 << (i & 7))) ? 1 : 0`; `none` leaves the bitmap.
unfoldable pub bitmap_bit : List ℕ → ℕ → Option ℕ
bitmap_bit bits i = elim (get_elem? bits (i / 8)) [
  | none ↦ none
  | some b ↦ some (b / 2 ^ (i % 8) % 2)
]

-- The loop that turns the bits from block `i` on, `left` of them, into the bytes of `v1_bitmap`.
unfoldable pub unpack_loop : List ℕ → ℕ → ℕ → Option (List ℕ)
unpack_loop bits zero i = some []
unpack_loop bits (suc left) i = elim (bitmap_bit bits i) [
  | none ↦ none
  | some bit ↦ elim (unpack_loop bits left (i + 1)) [ none ↦ none | some rest ↦ some (bit ∷ rest) ]
]

-- `pc_head` as `v2_verify` fills it.
unfoldable pub v2_fields : List ℕ → PcHead
v2_fields raw = record {
  head_size = (head_v2_size + bitmap_bytes (head_v2 raw).totalblock + crc_size) % 2 ^ 64;
  block_size = (head_v2 raw).block_size;
  totalblock = (head_v2 raw).totalblock;
  checksum_size = (head_v2 raw).checksum_size;
  device_size = (head_v2 raw).device_size;
  blocks_per_checksum = (head_v2 raw).blocks_per_checksum;
}

module _ {W : Type 0} (sys : Sysdep W) where
  -- The rest of `v2_verify`, once both buffers are allocated: the bits and their checksum. The
  -- static table of libchecksum.c has been filled by `init_crc32`.
  unfoldable pub v2_load : PcContext → V1Context → Array → M W (ℕ × PcContext)
  v2_load pcp v1p bitmap = do
    let total = pcp.pc_head.totalblock
    let size = bitmap_bytes total
    r ← call (sys.sys_read pcp.pc_fd (size + crc_size))
    let bits = overlay r.got bitmap.cells
    if not (r.error == 0 && r.nread == size + crc_size)
        then pure (if r.error == 0 then einval else r.error, pcp)
        else do
          crc ← deref (update_crc32 crc_table crc32_seed bits size)
          if not (crc == le_value (slice size crc_size bits)) then pure (einval, pcp) else do
            array ← deref v1p.v1_bitmap
            unpacked ← deref (unpack_loop bits total 0)
            _ ← call (sys.sys_free bitmap.addr)
            precalculate_sumcount sys (record pcp {
              pc_verdep =
                  some (record v1p { v1_bitmap = some (record array { cells = unpacked }) });
            })

  -- `v2_verify`. `bitmap_size` and the loop's index are `int`: an image of 2 ^ 31 blocks or more
  -- overflows them, which C leaves undefined.
  unfoldable pub v2_verify : PcContext → M W (ℕ × PcContext)
  v2_verify pcp =
      if not (pctx_open pcp && same_bytes (head_v2 pcp.pc_raw_head).magic image_magic)
      then pure (einval, pcp)
      else do
        v1p ← deref pcp.pc_verdep
        let head = v2_fields pcp.pc_raw_head
        _ ← in_bounds (ltb head.totalblock (2 ^ 31))
        let pcp = record pcp {
          pc_head = head;
          pc_flags = record pcp.pc_flags { pc_head_valid = true };
        }
        a ← call (sys.sys_malloc head.totalblock)
        let v1p = record v1p { v1_bitmap = array_of a 256 head.totalblock }
        let pcp = record pcp { pc_verdep = some v1p }
        if not (a.error == 0) then pure (a.error, pcp) else do
          _ ← call (sys.sys_seek pcp.pc_fd head_v2_size seek_absolute)
          let size = bitmap_bytes head.totalblock + crc_size
          b ← call (sys.sys_malloc size)
          if not (b.error == 0)
              then pure (b.error, pcp)
              else do bitmap ← deref (array_of b 256 size); v2_load pcp v1p bitmap
