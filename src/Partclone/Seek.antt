-- ===== src/Partclone/Seek.antt =====
-- `v1_seek` of src/libpartclone.c on a bitmap whose bytes need not be 0 or 1: its hints, which
-- `precalculate_sumcount` makes, count the bytes 1, and its loop counts the bytes other than 0.
use native.Mathlib.Nat.{div-mul-le_self}
use partclone_utils.Base.{
  ℕ, zero, suc, ◌+◌, ◌-◌, ◌*◌, ◌/◌, ◌≤◌, ◌<◌, ◌^◌, ◌≡◌, refl, ap, none, some, List, [], ◌∷◌, arith,
  ◌==◌, if◌then◌else◌, length, get_or, get_elem?-eq-get_or, slice,
}
use partclone_utils.Sysdep.{Array}
use partclone_utils.Partclone.{PcContext, V1Context}
use partclone_utils.Partclone.Version1.{v1_seek, seek_loop, seek_cf}
use partclone_utils.Partclone.Handle.{partclone_seek}
use partclone_utils.Partclone.Rank.{rank}
use partclone_utils.Partclone.View.{IsLoaded}

-- The bytes of the list that are not 0.
unfoldable pub marks : List ℕ → ℕ
marks [] = 0
marks (b ∷ bits) = (if b == 0 then 0 else 1) + marks bits

-- The bytes from `at` on, with the first one split off.
marks-slice :
    (bitmap : List ℕ) (at left : ℕ)
    → at < length bitmap
    → marks (slice at (suc left) bitmap)
      ≡ (if get_or bitmap at 0 == 0 then 0 else 1) + marks (slice (at + 1) left bitmap)
unfolding marks
marks-slice [] at left h = absurd (omega arith)
marks-slice (b ∷ bitmap) zero left h = refl
marks-slice (b ∷ bitmap) (suc at) left h =
    let e : suc at + 1 ≡ suc (at + 1) = omega arith in
    rw e (marks-slice bitmap at left (omega arith))

seek_loop-marks :
    (bitmap : List ℕ) (left pbn n : ℕ)
    → pbn + left ≤ length bitmap
    → seek_loop bitmap left pbn n ≡ some (n + marks (slice pbn left bitmap))
unfolding seek_loop marks
seek_loop-marks bitmap zero pbn n h = ap some (omega arith)
seek_loop-marks bitmap (suc left) pbn n h =
    let bit = get_elem?-eq-get_or bitmap pbn 0 (omega arith) in
    let next = if get_or bitmap pbn 0 == 0 then n else n + 1 in
    let ih = seek_loop-marks bitmap left (pbn + 1) next (omega arith) in
    let split = marks-slice bitmap pbn left (omega arith) in ground (arith, bit, ih, split)

-- What `partclone_seek` leaves in `v1_nvbcount`: the bytes 1 before the group of 2 ^ factor blocks
-- that block `b` is in, and the bytes other than 0 from there up to the block.
abbrev pub mixed_count : V1Context → List ℕ → ℕ → ℕ
mixed_count v1p bitmap b =
    let start = b / 2 ^ v1p.v1_bitmap_factor * 2 ^ v1p.v1_bitmap_factor in
    rank bitmap start + marks (slice start (b - start) bitmap)

-- For a loaded context without a change file, of fewer than 2 ^ 63 blocks and whatever the bytes
-- of its bitmap, `partclone_seek` to a block below the total returns 0, stands at that block, and
-- leaves in `v1_nvbcount` the number of bytes 1 before the group of 2 ^ factor blocks that the
-- block is in, plus the number of bytes other than 0 from there up to the block.
pub partclone_seek-mixed_count :
    {pcp : PcContext} {v1p : V1Context} {bitmap sumcount ivblock : Array}
    → IsLoaded pcp v1p bitmap sumcount ivblock
    → pcp.pc_cf_handle ≡ none
    → (b : ℕ) → b < pcp.pc_head.totalblock
    → partclone_seek pcp b
      ≡ some (
        0,
        record pcp {
          pc_verdep = some (record v1p { v1_nvbcount = mixed_count v1p bitmap.cells b });
          pc_curblock = b;
        },
      )
unfolding partclone_seek v1_seek seek_cf
partclone_seek-mixed_count {v1p = v1p} {bitmap = bitmap} ok alone b h =
    let p = 2 ^ v1p.v1_bitmap_factor in
    let start = b / p * p in
    let low : start ≤ b = div-mul-le_self b p in
    let hint = ok.hints (b / p) (omega arith) in
    let count =
      seek_loop-marks bitmap.cells (b - start) start (rank bitmap.cells start)
        (omega (arith, ok.size)) in
    ground (
      arith, ok.verdep, ok.bitmap_at, ok.sumcount_at, ok.ready, ok.have_verdep, ok.dispatched,
      alone, hint, count,
    )
