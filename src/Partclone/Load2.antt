-- ===== src/Partclone/Load2.antt =====
-- `v2_verify` of src/libpartclone.c on a version 2 image file.
use partclone_utils.Base.{
  ℕ, ◌+◌, ◌*◌, ◌^◌, ◌≤◌, ◌<◌, ◌≡◌, ◌≢◌, refl, ap, ◌∙◌, sym, subst, true, none, some, List, arith,
  length, slice, take, same_bytes, length-slice, overlay, overlay_full, IsBytes,
}
use partclone_utils.Base.Words.{le_value}
use partclone_utils.Checksum.{crc_table, crc32_seed, update_crc32}
use partclone_utils.Checksum.Reference.{crc_bitwise, update_crc32-bitwise}
use partclone_utils.Sysdep.{
  Sysdep, Array, array_of, indeterminate, length-indeterminate, seek_absolute,
}
use partclone_utils.Sysdep.Contract.{
  Contract, HasMemory, SameFiles, SameFiles-trans, SameFiles-seek, SameFiles-read, SameFiles-malloc,
  SameFiles-free, read_next,
}
use partclone_utils.Partclone.{PcContext, V1Context, pctx_open}
use partclone_utils.Partclone.Head.{head_v2, head_v2_size, crc_size, image_magic}
use partclone_utils.Partclone.Version1.{precalculate_sumcount}
use partclone_utils.Partclone.Version2.{bitmap_bytes, unpack_loop, v2_fields, v2_load, v2_verify}
use partclone_utils.Partclone.Rank.{Filled}
use partclone_utils.Partclone.Unpack.{Unpacked, unpack_loop-Unpacked}
use partclone_utils.Partclone.Hints.{with_sums, hint_count, precalculate_sumcount-Filled}
use partclone_utils.Partclone.Load.{with_bitmap}

-- The context once `v2_verify` has read the header.
abbrev pub headed2 : PcContext → V1Context → PcContext
headed2 pcp v1p = record pcp {
  pc_head = v2_fields pcp.pc_raw_head;
  pc_flags = record pcp.pc_flags { pc_head_valid = true };
  pc_verdep = some v1p;
}

module _ {W : Type 0} (sys : Sysdep W) where
  -- `v2_verify` with a valid magic and memory goes on to `v2_load`.
  v2_verify-v2_load :
      (pcp : PcContext) (v1p : V1Context) (total : ℕ) (w : W)
      → pcp.pc_verdep ≡ some v1p
      → pctx_open pcp ≡ true
      → same_bytes (head_v2 pcp.pc_raw_head).magic image_magic ≡ true
      → (head_v2 pcp.pc_raw_head).totalblock ≡ total
      → total < 2 ^ 31
      → let a = sys.sys_malloc total w in
        let s = sys.sys_seek pcp.pc_fd head_v2_size seek_absolute a.1 in
        let size = bitmap_bytes total + crc_size in
        let b = sys.sys_malloc size s.1 in
        a.0.error ≡ 0
        → a.0.addr ≢ 0
        → b.0.error ≡ 0
        → b.0.addr ≢ 0
        → let v1p' = with_bitmap v1p a.0.addr (indeterminate a.0.garbage 256 total 0) in
          v2_verify sys pcp w
          ≡ v2_load sys
              (headed2 pcp v1p')
              v1p'
              (record { addr = b.0.addr; cells = indeterminate b.0.garbage 256 size 0 })
              b.1
  unfolding v2_verify array_of v2_fields
  v2_verify-v2_load pcp v1p total w dep ready magic eq small e1 n1 e2 n2 =
      ground (arith, dep, ready, magic, eq, small, e1, n1, e2, n2)

  -- `v2_load` that reads all its bytes, and finds the checksum, goes on to `precalculate_sumcount`.
  v2_load-precalculate_sumcount :
      (pcp : PcContext) (v1p : V1Context) (total addr crc : ℕ) (fresh unpacked : List ℕ)
      (bitmap : Array) (w : W)
      → pcp.pc_head.totalblock ≡ total
      → let size = bitmap_bytes total in
        let r = sys.sys_read pcp.pc_fd (size + crc_size) w in
        r.0.error ≡ 0
        → r.0.nread ≡ size + crc_size
        → overlay r.0.got bitmap.cells ≡ r.0.got
        → update_crc32 crc_table crc32_seed r.0.got size ≡ some crc
        → le_value (slice size crc_size r.0.got) ≡ crc
        → unpack_loop r.0.got total 0 ≡ some unpacked
        → v2_load sys pcp (with_bitmap v1p addr fresh) bitmap w
          ≡ precalculate_sumcount sys
              (record pcp { pc_verdep = some (with_bitmap v1p addr unpacked) })
              (sys.sys_free bitmap.addr r.1).1
  unfolding v2_load
  v2_load-precalculate_sumcount pcp v1p total addr crc fresh unpacked bitmap w eq e n covered sum
        found bits =
      ground (arith, eq, e, n, covered, sum, found, bits)

-- The bits of the bitmap, and the checksum behind them.
abbrev pub bits_of : List ℕ → ℕ → List ℕ
bits_of bytes total = slice head_v2_size (bitmap_bytes total + crc_size) bytes

-- A version 2 image file, whatever its blocks.
pub record IsVersion2 (raw bytes : List ℕ) (total : ℕ) : Type 0 where
  pub few : total < 2 ^ 31
  pub magic : same_bytes (head_v2 raw).magic image_magic ≡ true
  pub total_at : (head_v2 raw).totalblock ≡ total
  pub fits : head_v2_size + (bitmap_bytes total + crc_size) ≤ length bytes
  pub is_bytes : IsBytes (bits_of bytes total)
  pub checksum :
      le_value (slice (bitmap_bytes total) crc_size (bits_of bytes total))
      ≡ crc_bitwise crc32_seed (take (bitmap_bytes total) (bits_of bytes total))

-- What `v2_verify` establishes.
pub record Loads2 {W : Type 0} {sys : Sysdep W} (con : Contract sys) (pcp : PcContext)
    (v1p : V1Context) (bytes : List ℕ) (total : ℕ) (w : W) : Type 0 where
  pub addr : ℕ
  pub cells : List ℕ
  pub sumcount : Array
  pub after : W
  pub run :
      v2_verify sys pcp w
      ≡ some (
        (
          0,
          with_sums
              (headed2 pcp (with_bitmap v1p addr cells))
              (with_bitmap v1p addr cells)
              sumcount,
        ),
        after,
      )
  pub unpacked : Unpacked (bits_of bytes total) total 0 cells
  pub filled : Filled v1p.v1_bitmap_factor cells total (hint_count v1p total) sumcount.cells
  pub same : SameFiles con w after

bitmap_bytes-le : (total : ℕ) → total ≤ 8 * (bitmap_bytes total + crc_size)
bitmap_bytes-le total = ground arith

module _ {W : Type 0} {sys : Sysdep W} (con : Contract sys) (mem : HasMemory sys) where
  -- `v2_verify` of an open context without a change file that has the header of a version 2 image
  -- of fewer than 2 ^ 31 blocks, whose file has the bits of the bitmap and behind them their
  -- CRC-32, returns 0 and changes no file; the bitmap in memory has the bit of each block as a
  -- byte, and each hint is the number of held blocks before it. The services keep their contract
  -- and memory is to be had.
  pub v2_verify-Loads2 :
      (pcp : PcContext) (v1p : V1Context) (bytes : List ℕ) (total : ℕ) (w : W)
      → IsVersion2 pcp.pc_raw_head bytes total
      → pcp.pc_verdep ≡ some v1p
      → pcp.pc_cf_handle ≡ none
      → pctx_open pcp ≡ true
      → con.is_open pcp.pc_fd w ≡ true
      → con.content pcp.pc_fd w ≡ bytes
      → Loads2 con pcp v1p bytes total w
  unfolding v2_fields
  v2_verify-Loads2 pcp v1p bytes total w image dep alone ready opened same =
      let fd = pcp.pc_fd in
      let size = bitmap_bytes total in
      let all = size + crc_size in
      let a = sys.sys_malloc total w in
      let s = sys.sys_seek fd head_v2_size seek_absolute a.1 in
      let b = sys.sys_malloc all s.1 in
      let r = sys.sys_read fd all b.1 in
      let f = sys.sys_free b.0.addr r.1 in
      let same_a = SameFiles-malloc con total w in
      let same_s =
        SameFiles-trans con same_a (SameFiles-seek con fd head_v2_size seek_absolute a.1) in
      let same_b = SameFiles-trans con same_s (SameFiles-malloc con all s.1) in
      let same_r = SameFiles-trans con same_b (SameFiles-read con fd all b.1) in
      let same_f = SameFiles-trans con same_r (SameFiles-free con b.0.addr r.1) in
      let sought = con.seek_to fd head_v2_size a.1 (same_a.is_open fd ∙ opened) (omega arith) in
      let first =
        read_next con fd head_v2_size all b.1 (same_b.is_open fd ∙ opened)
          (con.malloc_position all s.1 fd ∙ sought.1) (rw (same_b.content fd, same) image.fits) in
      let bits = bits_of bytes total in
      let got : r.0.got ≡ bits = first.2 ∙ ap (slice head_v2_size all) (same_b.content fd ∙ same) in
      let long : length bits ≡ all = length-slice head_v2_size all bytes image.fits in
      let fresh = indeterminate b.0.garbage 256 all 0 in
      let covered : overlay r.0.got fresh ≡ r.0.got =
        overlay_full r.0.got fresh
          (omega (arith, ap length got, long, length-indeterminate b.0.garbage 256 all 0)) in
      let sum : update_crc32 crc_table crc32_seed r.0.got size
          ≡ some (crc_bitwise crc32_seed (take size bits)) =
        ap (λ t. update_crc32 crc_table crc32_seed t size) got
        ∙ update_crc32-bitwise crc32_seed bits size image.is_bytes (omega (arith, long)) in
      let (cells, unpacks, unpacked) =
        unpack_loop-Unpacked bits total 0 (omega (arith, long, bitmap_bytes-le total)) in
      let v1p' = with_bitmap v1p a.0.addr cells in
      let before = headed2 pcp v1p' in
      let (sumcount, after, sums, here, filled) =
        precalculate_sumcount-Filled sys mem before v1p' (record { addr = a.0.addr; cells = cells })
          f.1 refl refl alone (unpacked.same_size ∙ sym image.total_at)
          (rw image.total_at (omega (arith, image.few))) in
      let fit = mem total w in
      let fit_b = mem all s.1 in
      let empty = with_bitmap v1p a.0.addr (indeterminate a.0.garbage 256 total 0) in
      record {
        addr = a.0.addr;
        cells = cells;
        sumcount = sumcount;
        after = after;
        run =
            v2_verify-v2_load sys pcp v1p total w dep ready image.magic image.total_at image.few
              fit.0 fit.1 fit_b.0 fit_b.1
            ∙ v2_load-precalculate_sumcount sys (headed2 pcp empty) v1p total a.0.addr
                (crc_bitwise crc32_seed (take size bits)) (indeterminate a.0.garbage 256 total 0)
                cells (record { addr = b.0.addr; cells = fresh }) b.1 image.total_at first.0 first.1
                covered sum (ap (λ t. le_value (slice size crc_size t)) got ∙ image.checksum)
                (ap (λ t. unpack_loop t total 0) got ∙ unpacks)
            ∙ sums;
        unpacked = unpacked;
        filled =
            subst (λ t. Filled v1p.v1_bitmap_factor cells t (hint_count v1p t) sumcount.cells)
              image.total_at filled;
        same = subst (SameFiles con w) (sym here) (
            SameFiles-trans con same_f
              (SameFiles-malloc con (hint_count v1p' before.pc_head.totalblock * 8) f.1));
      }
