-- ===== src/Partclone/Hints.antt =====
-- `precalculate_sumcount` of src/libpartclone.c on a loaded bitmap.
use partclone_utils.Base.{
  ℕ, ◌+◌, ◌*◌, ◌/◌, ◌%◌, ◌^◌, ◌≤◌, ◌<◌, ◌≡◌, refl, ap, ◌∙◌, sym, subst, none, some, arith, length,
}
use native.Mathlib.Nat.{div-le_self}
use partclone_utils.Sysdep.{Sysdep, Array, array_of, indeterminate, length-indeterminate}
use partclone_utils.Sysdep.Contract.{HasMemory}
use partclone_utils.Partclone.{PcContext, V1Context}
use partclone_utils.Partclone.Version1.{sumcount_loop, verify_cf, precalculate_sumcount}
use partclone_utils.Partclone.Rank.{rank-zero, Filled, sumcount_loop-Filled}

-- The context with its hints.
abbrev pub with_sums : PcContext → V1Context → Array → PcContext
with_sums pcp v1p sumcount = record pcp {
  pc_verdep = some (record v1p { v1_sumcount = some sumcount });
  pc_head = record pcp.pc_head {
    device_size = (pcp.pc_head.totalblock * pcp.pc_head.block_size) % 2 ^ 64;
  };
}

-- The number of hints.
abbrev pub hint_count : V1Context → ℕ → ℕ
hint_count v1p total = total / 2 ^ v1p.v1_bitmap_factor + 1

hint_count-le : (v1p : V1Context) (total : ℕ) → hint_count v1p total ≤ total + 1
hint_count-le v1p total = omega (arith, div-le_self total (2 ^ v1p.v1_bitmap_factor))

module _ {W : Type 0} (sys : Sysdep W) (mem : HasMemory sys) where
  -- An image without a change file gets all its hints, and they are right.
  pub precalculate_sumcount-Filled :
      (pcp : PcContext) (v1p : V1Context) (bitmap : Array) (w : W)
      → pcp.pc_verdep ≡ some v1p
      → v1p.v1_bitmap ≡ some bitmap
      → pcp.pc_cf_handle ≡ none
      → length bitmap.cells ≡ pcp.pc_head.totalblock
      → pcp.pc_head.totalblock < 2 ^ 60
      → (sumcount : Array) × (w' : W) × (precalculate_sumcount sys pcp w
          ≡ some ((0, with_sums pcp v1p sumcount), w'))
        × (w' ≡ (sys.sys_malloc (hint_count v1p pcp.pc_head.totalblock * 8) w).1)
        × Filled v1p.v1_bitmap_factor bitmap.cells pcp.pc_head.totalblock
            (hint_count v1p pcp.pc_head.totalblock)
            sumcount.cells
  unfolding precalculate_sumcount verify_cf array_of
  precalculate_sumcount-Filled pcp v1p bitmap w dep map alone size few =
      let total = pcp.pc_head.totalblock in
      let n = hint_count v1p total in
      let small = hint_count-le v1p total in
      let wide : (n * 8) % 2 ^ 64 ≡ n * 8 = omega (arith, small) in
      let back : n * 8 / 8 ≡ n = omega arith in
      let whole : 0 + total ≡ total = omega arith in
      let a = sys.sys_malloc (n * 8) w in
      let cells = indeterminate a.0.garbage (2 ^ 64) n 0 in
      let (out, run, filled) =
        sumcount_loop-Filled v1p.v1_bitmap_factor bitmap.cells total 0 n cells (omega (arith, size))
          (rw whole (omega arith))
          (record {
            same_size = length-indeterminate a.0.garbage (2 ^ 64) n 0;
            hints = λ k q. absurd (omega arith);
          }) in
      let run' : sumcount_loop v1p.v1_bitmap_factor bitmap.cells total 0 0 cells ≡ some out =
        ap (λ r. sumcount_loop v1p.v1_bitmap_factor bitmap.cells total 0 r cells)
          (sym (rank-zero bitmap.cells))
        ∙ run in
      let ok = mem (n * 8) w in
      let filled' : Filled v1p.v1_bitmap_factor bitmap.cells total n out =
        subst (λ t. Filled v1p.v1_bitmap_factor bitmap.cells t n out) whole filled in
      (
        record { addr = a.0.addr; cells = out },
        a.1,
        ground (arith, dep, map, alone, wide, back, ok.0, ok.1, run'),
        refl,
        filled',
      )
