-- ===== src/Partclone/Load.antt =====
-- `v1_verify` of src/libpartclone.c on a version 1 image file.
use partclone_utils.Base.{
  ℕ, ◌+◌, ◌*◌, ◌^◌, ◌≤◌, ◌<◌, ◌≡◌, ◌≢◌, refl, ap, ◌∙◌, sym, subst, true, none, some, List, arith,
  length, slice, same_bytes, length-slice, overlay, overlay_full,
}
use partclone_utils.Sysdep.{
  Sysdep, Array, array_of, indeterminate, length-indeterminate, seek_absolute,
}
use partclone_utils.Sysdep.Contract.{
  Contract, HasMemory, SameFiles, SameFiles-trans, SameFiles-seek, SameFiles-read, SameFiles-malloc,
  read_at, read_next,
}
use partclone_utils.Partclone.{PcContext, V1Context, pctx_open}
use partclone_utils.Partclone.Head.{head_v1, head_v1_size, magic_len, cmagicstr, image_magic}
use partclone_utils.Partclone.Version1.{precalculate_sumcount, v1_head, v1_load, v1_verify}
use partclone_utils.Partclone.Rank.{Filled}
use partclone_utils.Partclone.Hints.{with_sums, hint_count, precalculate_sumcount-Filled}

-- A version 1 image file, whatever the bytes of its bitmap and its blocks: the header, room for the
-- bitmap, and the magic behind it.
pub record IsVersion1 (bytes : List ℕ) (total : ℕ) : Type 0 where
  pub few : total < 2 ^ 60
  pub magic : same_bytes (head_v1 (slice 0 head_v1_size bytes)).magic image_magic ≡ true
  pub total_at : (head_v1 (slice 0 head_v1_size bytes)).totalblock ≡ total
  pub fits : head_v1_size + total + magic_len ≤ length bytes
  pub behind : slice (head_v1_size + total) magic_len bytes ≡ cmagicstr

-- The context as `v1_verify` leaves it.
abbrev pub loaded : PcContext → V1Context → Array → Array → PcContext
loaded pcp v1p bitmap sumcount =
    with_sums
      (record pcp {
        pc_head = v1_head pcp.pc_raw_head;
        pc_flags = record pcp.pc_flags { pc_head_valid = true };
      })
      (record v1p { v1_bitmap = some bitmap }) sumcount

-- What `v1_verify` establishes.
pub record Loads {W : Type 0} {sys : Sysdep W} (con : Contract sys) (pcp : PcContext)
    (v1p : V1Context) (bytes : List ℕ) (total : ℕ) (w : W) : Type 0 where
  pub bitmap : Array
  pub sumcount : Array
  pub after : W
  pub run : v1_verify sys pcp w ≡ some ((0, loaded pcp v1p bitmap sumcount), after)
  pub cells : bitmap.cells ≡ slice head_v1_size total bytes
  pub filled : Filled v1p.v1_bitmap_factor bitmap.cells total (hint_count v1p total) sumcount.cells
  pub same : SameFiles con w after

-- The context once `v1_verify` has read the header.
abbrev pub headed : PcContext → PcContext
headed pcp = record pcp {
  pc_head = v1_head pcp.pc_raw_head;
  pc_flags = record pcp.pc_flags { pc_head_valid = true };
}

-- The context with its bitmap.
abbrev pub with_bitmap : V1Context → ℕ → List ℕ → V1Context
with_bitmap v1p addr cells = record v1p { v1_bitmap = some (record { addr = addr; cells = cells }) }

module _ {W : Type 0} (sys : Sysdep W) where
  -- `v1_verify` with a valid magic and memory goes on to `v1_load`.
  v1_verify-v1_load :
      (pcp : PcContext) (v1p : V1Context) (total : ℕ) (w : W)
      → pcp.pc_verdep ≡ some v1p
      → pctx_open pcp ≡ true
      → same_bytes (head_v1 pcp.pc_raw_head).magic image_magic ≡ true
      → (head_v1 pcp.pc_raw_head).totalblock ≡ total
      → let a = sys.sys_malloc total w in
        a.0.error ≡ 0
        → a.0.addr ≢ 0
        → v1_verify sys pcp w
          ≡ v1_load sys
              (headed pcp)
              (with_bitmap v1p a.0.addr (indeterminate a.0.garbage 256 total 0))
              a.1
  unfolding v1_verify array_of v1_head
  v1_verify-v1_load pcp v1p total w dep ready magic eq ok ne =
      ground (arith, dep, ready, magic, eq, ok, ne)

  -- `v1_load` that reads all its bytes, and finds the magic, goes on to `precalculate_sumcount`.
  v1_load-precalculate_sumcount :
      (pcp : PcContext) (v1p : V1Context) (total addr : ℕ) (fresh : List ℕ) (w : W)
      → pcp.pc_head.totalblock ≡ total
      → let s = sys.sys_seek pcp.pc_fd head_v1_size seek_absolute w in
        let r = sys.sys_read pcp.pc_fd total s.1 in
        let m = sys.sys_read pcp.pc_fd magic_len r.1 in
        r.0.error ≡ 0
        → r.0.nread ≡ total
        → m.0.error ≡ 0
        → m.0.nread ≡ magic_len
        → same_bytes m.0.got cmagicstr ≡ true
        → overlay r.0.got fresh ≡ r.0.got
        → v1_load sys pcp (with_bitmap v1p addr fresh) w
          ≡ precalculate_sumcount sys
              (record pcp { pc_verdep = some (with_bitmap v1p addr r.0.got) })
              m.1
  unfolding v1_load
  v1_load-precalculate_sumcount pcp v1p total addr fresh w eq e1 n1 e2 n2 magic covered =
      ground (arith, eq, e1, n1, e2, n2, magic, covered)

module _ {W : Type 0} {sys : Sysdep W} (con : Contract sys) (mem : HasMemory sys) where
  -- `v1_verify` of an open context without a change file that has the header of a version 1 image
  -- file, whatever the bytes of its bitmap, returns 0 and changes no file; it loads the file's
  -- bitmap, and each hint is the number of bytes 1 in the bitmap before the hint's block. The
  -- services keep their contract, memory is to be had, and the image has fewer than 2 ^ 60
  -- blocks.
  pub v1_verify-Loads :
      (pcp : PcContext) (v1p : V1Context) (bytes : List ℕ) (total : ℕ) (w : W)
      → IsVersion1 bytes total
      → pcp.pc_raw_head ≡ slice 0 head_v1_size bytes
      → pcp.pc_verdep ≡ some v1p
      → pcp.pc_cf_handle ≡ none
      → pctx_open pcp ≡ true
      → con.is_open pcp.pc_fd w ≡ true
      → con.content pcp.pc_fd w ≡ bytes
      → Loads con pcp v1p bytes total w
  unfolding v1_head
  v1_verify-Loads pcp v1p bytes total w image head dep alone ready opened same =
      let fd = pcp.pc_fd in
      let total_eq : (head_v1 pcp.pc_raw_head).totalblock ≡ total =
        ap (λ raw. (head_v1 raw).totalblock) head ∙ image.total_at in
      let magic : same_bytes (head_v1 pcp.pc_raw_head).magic image_magic ≡ true =
        ap (λ raw. same_bytes (head_v1 raw).magic image_magic) head ∙ image.magic in
      let a = sys.sys_malloc total w in
      let s = sys.sys_seek fd head_v1_size seek_absolute a.1 in
      let r = sys.sys_read fd total s.1 in
      let m = sys.sys_read fd magic_len r.1 in
      let fresh = indeterminate a.0.garbage 256 total 0 in
      let same_a = SameFiles-malloc con total w in
      let same_s =
        SameFiles-trans con same_a (SameFiles-seek con fd head_v1_size seek_absolute a.1) in
      let same_r = SameFiles-trans con same_s (SameFiles-read con fd total s.1) in
      let same_m = SameFiles-trans con same_r (SameFiles-read con fd magic_len r.1) in
      let first =
        read_at con fd head_v1_size total a.1 (same_a.is_open fd ∙ opened) (omega arith)
          (rw (same_a.content fd, same) (omega (arith, image.fits))) in
      let second =
        read_next con fd (head_v1_size + total) magic_len r.1 (same_r.is_open fd ∙ opened) first.4
          (rw (same_r.content fd, same) image.fits) in
      let got : r.0.got ≡ slice head_v1_size total bytes =
        first.3 ∙ ap (slice head_v1_size total) (same_a.content fd ∙ same) in
      let long : length r.0.got ≡ total =
        ap length got ∙ length-slice head_v1_size total bytes (omega (arith, image.fits)) in
      let covered : overlay r.0.got fresh ≡ r.0.got =
        overlay_full r.0.got fresh
          (omega (arith, long, length-indeterminate a.0.garbage 256 total 0)) in
      let trailer : m.0.got ≡ cmagicstr =
        second.2
        ∙ ap (slice (head_v1_size + total) magic_len) (same_r.content fd ∙ same)
        ∙ image.behind in
      let matches : same_bytes m.0.got cmagicstr ≡ true =
        ap (λ t. same_bytes t cmagicstr) trailer in
      let bitmap : Array = record { addr = a.0.addr; cells = r.0.got } in
      let v1p' = with_bitmap v1p a.0.addr r.0.got in
      let before : PcContext = record (headed pcp) { pc_verdep = some v1p' } in
      let (sumcount, after, sums, here, filled) =
        precalculate_sumcount-Filled sys mem before v1p' bitmap m.1 refl refl alone
          (long ∙ sym total_eq) (rw total_eq image.few) in
      let fit = mem total w in
      record {
        bitmap = bitmap;
        sumcount = sumcount;
        after = after;
        run =
            v1_verify-v1_load sys pcp v1p total w dep ready magic total_eq fit.0 fit.1
            ∙ v1_load-precalculate_sumcount sys (headed pcp) v1p total a.0.addr fresh a.1 total_eq
                first.1 first.2 second.0 second.1 matches covered
            ∙ sums;
        cells = got;
        filled =
            subst
              (λ t. Filled v1p.v1_bitmap_factor bitmap.cells t (hint_count v1p t) sumcount.cells)
              total_eq filled;
        same = subst (SameFiles con w) (sym here) (
            SameFiles-trans con same_m (
              SameFiles-malloc con (hint_count v1p' (v1_head pcp.pc_raw_head).totalblock * 8) m.1));
      }
