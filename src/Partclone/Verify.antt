-- ===== src/Partclone/Verify.antt =====
-- `partclone_verify` of src/libpartclone.c on a version 1 image file.
use partclone_utils.Base.{
  ℕ, ◌≡◌, refl, ap, ◌∙◌, sym, true, none, some, List, arith, length, slice, replicate, length-slice,
  overlay, overlay_full,
}
use partclone_utils.Sysdep.{Sysdep, Array, open_ro}
use partclone_utils.Sysdep.Contract.{
  Contract, HasMemory, SameFiles, SameFiles-trans, SameFiles-read, SameFiles-malloc, read_next,
}
use partclone_utils.Partclone.{
  PcContext, V1Context, version_0001, v1_context_size, pctx_valid, pctx_open,
}
use partclone_utils.Partclone.Head.{head_v1, head_v1_size}
use partclone_utils.Partclone.Version1.{new_v1, v1_open_cf, v1_init, v1_head, v1_verify}
use partclone_utils.Partclone.Handle.{find_version, make_ivblock, partclone_verify}
use partclone_utils.Partclone.View.{IsLoaded}
use partclone_utils.Partclone.Load.{IsVersion1, loaded, v1_verify-Loads}

-- The context that `v1_init` leaves of one that is only read.
abbrev pub inited : PcContext → ℕ → PcContext
inited pcp addr = record pcp {
  pc_verdep = some (new_v1 addr);
  pc_flags = record pcp.pc_flags {
    pc_have_verdep = true;
    pc_version_init = true;
    pc_read_only = true;
  };
}

-- The context that `make_ivblock` leaves.
abbrev pub finished : PcContext → ℕ → PcContext
finished pcp addr = record pcp {
  pc_curblock = 0;
  pc_ivblock = some (record { addr = addr; cells = replicate pcp.pc_head.block_size 0 });
  pc_flags = record pcp.pc_flags { pc_verified = true; pc_have_ivblock = true };
}

-- The context once `partclone_verify` has read the header `raw`.
abbrev pub recognised : PcContext → List ℕ → PcContext
recognised pcp raw = record pcp { pc_raw_head = raw; pc_dispatch = some version_0001 }

open-valid : (pcp : PcContext) → pctx_open pcp ≡ true → pctx_valid pcp ≡ true
open-valid pcp h = ground arith

module _ {W : Type 0} (sys : Sysdep W) (mem : HasMemory sys) where
  v1_init-inited :
      (pcp : PcContext) (w : W)
      → pctx_valid pcp ≡ true
      → pcp.pc_omode ≡ open_ro
      → let a = sys.sys_malloc v1_context_size w in
        v1_init sys pcp w ≡ some ((0, inited pcp a.0.addr), a.1)
  unfolding v1_init v1_open_cf
  v1_init-inited pcp w valid mode =
      let ok = mem v1_context_size w in ground (arith, valid, mode, ok.0)

  make_ivblock-finished :
      (pcp : PcContext) (w : W)
      → let a = sys.sys_malloc pcp.pc_head.block_size w in
        make_ivblock sys pcp w ≡ some ((0, finished pcp a.0.addr), a.1)
  unfolding make_ivblock
  make_ivblock-finished pcp w = let ok = mem pcp.pc_head.block_size w in ground (arith, ok.0)

  -- `partclone_verify`, one step after the other.
  verify_steps :
      (pcp a b c : PcContext) (raw : List ℕ) (w w1 w2 w3 : W)
      → pctx_open pcp ≡ true
      → let r = sys.sys_read pcp.pc_fd head_v1_size w in
        r.0.error ≡ 0
        → r.0.nread ≡ head_v1_size
        → overlay r.0.got pcp.pc_raw_head ≡ raw
        → find_version (head_v1 raw).version ≡ some version_0001
        → v1_init sys (recognised pcp raw) r.1 ≡ some ((0, a), w1)
        → v1_verify sys a w1 ≡ some ((0, b), w2)
        → make_ivblock sys b w2 ≡ some ((0, c), w3)
        → partclone_verify sys pcp w ≡ some ((0, c), w3)
  unfolding partclone_verify
  verify_steps pcp a b c raw w w1 w2 w3 ready e n covered found init verify make =
      ground (arith, ready, e, n, covered, found, init, verify, make)

-- What `partclone_verify` establishes.
pub record Verifies {W : Type 0} {sys : Sysdep W} (con : Contract sys) (pcp : PcContext)
    (bytes : List ℕ) (total : ℕ) (w : W) : Type 0 where
  pub verified : PcContext
  pub v1p : V1Context
  pub bitmap : Array
  pub sumcount : Array
  pub ivblock : Array
  pub after : W
  pub run : partclone_verify sys pcp w ≡ some ((0, verified), after)
  pub is_loaded : IsLoaded verified v1p bitmap sumcount ivblock
  pub alone : verified.pc_cf_handle ≡ none
  pub same_fd : verified.pc_fd ≡ pcp.pc_fd
  pub cells : bitmap.cells ≡ slice head_v1_size total bytes
  pub total_at : verified.pc_head.totalblock ≡ total
  pub block_size_at :
      verified.pc_head.block_size ≡ (head_v1 (slice 0 head_v1_size bytes)).block_size
  pub same : SameFiles con w after

module _ {W : Type 0} {sys : Sysdep W} (con : Contract sys) (mem : HasMemory sys) where
  -- For a context opened read-only at the first byte of a version 1 image file that is open and
  -- of fewer than 2 ^ 60 blocks, whatever the bytes of its bitmap, under the contract of the
  -- services and with memory to be had, `partclone_verify` returns 0, changes no file, and leaves
  -- a loaded context: the bitmap is the file's, every hint is the number of bytes 1 in the bitmap
  -- before the hint's block, and the block of zeros is there.
  pub partclone_verify-Verifies :
      (pcp : PcContext) (bytes : List ℕ) (total : ℕ) (w : W)
      → IsVersion1 bytes total
      → find_version (head_v1 (slice 0 head_v1_size bytes)).version ≡ some version_0001
      → length pcp.pc_raw_head ≡ head_v1_size
      → pcp.pc_cf_handle ≡ none
      → pcp.pc_omode ≡ open_ro
      → pctx_open pcp ≡ true
      → con.is_open pcp.pc_fd w ≡ true
      → con.position pcp.pc_fd w ≡ 0
      → con.content pcp.pc_fd w ≡ bytes
      → Verifies con pcp bytes total w
  unfolding v1_head
  partclone_verify-Verifies pcp bytes total w image found wide alone mode ready opened start same =
      let fd = pcp.pc_fd in
      let raw = slice 0 head_v1_size bytes in
      let r = sys.sys_read fd head_v1_size w in
      let same_r = SameFiles-read con fd head_v1_size w in
      let first =
        read_next con fd 0 head_v1_size w opened start (rw same (omega (arith, image.fits))) in
      let got : r.0.got ≡ raw = first.2 ∙ ap (slice 0 head_v1_size) same in
      let long : length r.0.got ≡ head_v1_size =
        ap length got ∙ length-slice 0 head_v1_size bytes (omega (arith, image.fits)) in
      let covered : overlay r.0.got pcp.pc_raw_head ≡ raw =
        overlay_full r.0.got pcp.pc_raw_head (omega (arith, long, wide)) ∙ got in
      let a = sys.sys_malloc v1_context_size r.1 in
      let same_a = SameFiles-trans con same_r (SameFiles-malloc con v1_context_size r.1) in
      let known = recognised pcp raw in
      let valid = open-valid pcp ready in
      let init = v1_init-inited sys mem known r.1 valid mode in
      let v1p = new_v1 a.0.addr in
      let l =
        v1_verify-Loads con mem (inited known a.0.addr) v1p bytes total a.1 image refl refl alone
          ready (same_a.is_open fd ∙ opened) (same_a.content fd ∙ same) in
      let body = loaded (inited known a.0.addr) v1p l.bitmap l.sumcount in
      let m = sys.sys_malloc body.pc_head.block_size l.after in
      let make = make_ivblock-finished sys mem body l.after in
      record {
        verified = finished body m.0.addr;
        v1p = record v1p { v1_bitmap = some l.bitmap; v1_sumcount = some l.sumcount };
        bitmap = l.bitmap;
        sumcount = l.sumcount;
        ivblock = record { addr = m.0.addr; cells = replicate body.pc_head.block_size 0 };
        after = m.1;
        run =
            verify_steps sys mem pcp (inited known a.0.addr) body (finished body m.0.addr) raw w a.1
              l.after m.1 ready first.0 first.1 covered found init l.run make;
        is_loaded = record {
          verdep = refl;
          bitmap_at = refl;
          sumcount_at = refl;
          size =
              ap length l.cells
              ∙ length-slice head_v1_size total bytes (omega (arith, image.fits))
              ∙ sym image.total_at;
          hints = λ k q. l.filled.hints k (omega (arith, image.total_at));
          ready = rw ready refl;
          have_verdep = refl;
          dispatched = refl;
          ivblock_at = refl;
          zeros = refl;
          few = omega (arith, image.total_at, image.few);
        };
        alone = alone;
        same_fd = refl;
        cells = l.cells;
        total_at = image.total_at;
        block_size_at = refl;
        same =
            SameFiles-trans con same_a
              (SameFiles-trans con l.same (SameFiles-malloc con body.pc_head.block_size l.after));
      }
