-- ===== src/Ntfsclone/Limits.antt =====
-- Where src/libntfsclone.c goes wrong: the bit of the trailing cluster, the count of a bucket's free
-- clusters, and the scan of an image that is cut off.
use partclone_utils.Base.{
  ℕ, zero, suc, ◌+◌, ◌-◌, ◌*◌, ◌/◌, ◌%◌, ◌^◌, ◌≤◌, ◌<◌, ◌≡◌, ◌≢◌, ◌↔◌, ℕ_discrete, refl, sym, ap,
  subst, ◌∙◌, true, none, some, List, [], arith, ◌==◌, length, slice, take, drop-all,
  get_elem?-none, overlay,
}
use partclone_utils.Sysdep.{Sysdep, Array, seek_relative}
use partclone_utils.Sysdep.Memory.{Disk, memory, update_self}
use partclone_utils.Ntfsclone.{NcContext, V10Context, atom_size, nca_atype, ncau_empty_count}
use partclone_utils.Ntfsclone.Bitmap.{bitmap_set_bit, bitmap_bit_value, free_loop}
use partclone_utils.Ntfsclone.Bits.{bitmap_set_bit-within}
use partclone_utils.Ntfsclone.Scan.{Scanned, scan_round, scan_loop}
use partclone_utils.Ntfsclone.Version10.{bitmap_size}
use partclone_utils.Ntfsclone.Seek.{enter_bucket, start_of_walk}
use partclone_utils.Ntfsclone.Marks.{passed}
use partclone_utils.Ntfsclone.Scanning.{scan_round-empty}
use partclone_utils.Ntfsclone.Entered.{entered, enter_bucket-free_loop}

-- In a bitmap of the size that `v10_verify` allocates for `nr` clusters, fewer than 2 ^ 62, the
-- bit of the trailing cluster `nr` is outside, so that `bitmap_set_bit` faults, if and only if
-- `nr` is a multiple of 8.
pub bitmap_set_bit-trailing :
    (bits : List ℕ) (nr value : ℕ)
    → nr < 2 ^ 62
    → length bits ≡ bitmap_size nr
    → (bitmap_set_bit bits nr value ≡ none) ↔ (nr % 8 ≡ 0)
unfolding bitmap_set_bit
bitmap_set_bit-trailing bits nr value few size = (
  λ outside. elim (ℕ_discrete (nr % 8) 0) [
    | yes even ↦ even
    | no odd ↦
        let inside : nr / 8 < length bits = ground (arith, few, size, odd) in
        let stored = bitmap_set_bit-within bits nr value inside in
        absurd (ground (arith, outside, stored))
  ],
  λ even.
      let full : length bits ≤ nr / 8 = ground (arith, few, size, even) in
      rw (bitmap_set_bit, get_elem?-none bits (nr / 8) full) refl,
)

-- From a free cluster on, the count of free clusters stops at the cluster that is sought.
free_loop-all_free :
    (bitmap : List ℕ) (left from bsf : ℕ)
    → bsf + left < 2 ^ 16
    → ((i : ℕ) → i ≤ left → bitmap_bit_value bitmap (from + (bsf + i)) ≡ some 0)
    → free_loop bitmap left from bsf ≡ some (bsf + left)
unfolding free_loop
free_loop-all_free bitmap zero from bsf small free =
    let here : bitmap_bit_value bitmap (from + bsf) ≡ some 0 =
      ap (bitmap_bit_value bitmap) {y = from + (bsf + 0)} (omega arith) ∙ free 0 (omega arith) in
    rw (free_loop, here) (ap some (omega arith))
free_loop-all_free bitmap (suc left) from bsf small free =
    let here : bitmap_bit_value bitmap (from + bsf) ≡ some 0 =
      ap (bitmap_bit_value bitmap) {y = from + (bsf + 0)} (omega arith) ∙ free 0 (omega arith) in
    let next : (bsf + 1) % 2 ^ 16 ≡ bsf + 1 = omega (arith, small) in
    rw (free_loop, here, next)
      (free_loop-all_free bitmap left from (bsf + 1) (omega (arith, small)) (λ i h.
          ap (bitmap_bit_value bitmap) {y = from + (bsf + suc i)} (omega arith)
          ∙ free (suc i) (omega (arith, h)))
        ∙ ap some (omega arith))

-- For a handle with a bitmap and buckets of 2 ^ 10 clusters, let `a` be a cluster below 2 ^ 62,
-- not of the current bucket, such that it and the clusters of its bucket before it are free. A
-- seek to `a` and then to a cluster `b` of the same bucket does not count again: `seek2cluster`
-- then starts to count at `a` and not at the first used cluster of the bucket.
pub enter_bucket-stale :
    (v10p : V10Context) (bitmap : Array) (a b : ℕ)
    → v10p.v10_bitmap ≡ some bitmap
    → v10p.v10_bucket_factor ≡ 10
    → a < 2 ^ 62
    → a / 2 ^ 10 ≢ v10p.v10_current_bucket
    → b / 2 ^ 10 ≡ a / 2 ^ 10
    → ((i : ℕ) → i / 2 ^ 10 ≡ a / 2 ^ 10 → i ≤ a → bitmap_bit_value bitmap.cells i ≡ some 0)
    → (after : V10Context) × (enter_bucket v10p a ≡ some after)
      × (enter_bucket after b ≡ some after)
      × (start_of_walk after bitmap.cells b ≡ some a)
unfolding enter_bucket start_of_walk
enter_bucket-stale v10p bitmap a b bits factor few moves bucket free =
    let base = a / 2 ^ 10 * 2 ^ 10 in
    let run =
      free_loop-all_free bitmap.cells (a - base) base 0 (omega arith)
        (λ i h. free (base + (0 + i)) (omega (arith, h)) (omega (arith, h))) in
    let bsf = 0 + (a - base) in
    let after : V10Context = entered v10p bsf (a / 2 ^ 10) in
    let first : enter_bucket v10p a ≡ some after =
      subst (λ f. enter_bucket v10p a ≡ some (entered v10p bsf (a / 2 ^ f))) factor
        (enter_bucket-free_loop v10p bitmap a base bsf bits
          (λ e. moves (ap (λ f. a / 2 ^ f) (sym factor) ∙ e))
          (ap (λ f. (a / 2 ^ f * 2 ^ f) % 2 ^ 64) factor ∙ omega (arith, few)) run) in
    let current : (b / 2 ^ v10p.v10_bucket_factor == a / 2 ^ 10) ≡ true =
      ap (λ f. b / 2 ^ f == a / 2 ^ 10) factor ∙ ground (arith, bucket) in
    let total : (b / 2 ^ v10p.v10_bucket_factor * 2 ^ v10p.v10_bucket_factor + bsf) % 2 ^ 64 ≡ a =
      ap (λ f. (b / 2 ^ f * 2 ^ f + bsf) % 2 ^ 64) factor ∙ omega (arith, bucket, few) in
    (after, first, rw (enter_bucket, current) refl, rw (start_of_walk, current, total) refl)

-- The disk once the scan has tried to read an atom.
abbrev after_seek : ℕ → Disk → Disk
after_seek fd d = (memory.sys_seek fd 0 seek_relative d).1

take-nothing : (n : ℕ) → take {A = ℕ} n [] ≡ []
take-nothing zero = refl
take-nothing (suc n) = refl

slice-past : (at n : ℕ) (xs : List ℕ) → length xs ≤ at → slice at n xs ≡ []
slice-past at n xs h = ap (take n) (drop-all at xs h) ∙ take-nothing n

-- The scan goes through `n` rounds of its loop, none of which returns an error or faults, from one
-- state and world to another; `stack n` is what the atom's buffer holds in the round that `n` are
-- left behind.
pub data Rounds {W : Type 0} (sys : Sysdep W) (stack : ℕ → List ℕ) (ntcp : NcContext) (factor : ℕ)
    : ℕ → Scanned → W → Scanned → W → Type 0 where
  halt : {s : Scanned} {w : W} → Rounds sys stack ntcp factor 0 s w s w
  round :
      {n : ℕ} {s next last : Scanned} {w v u : W}
      → s.cclust < ntcp.nc_head.nr_clusters
      → scan_round sys stack ntcp factor (stack n) s w ≡ some ((0, next), v)
      → Rounds sys stack ntcp factor n next v last u
      → Rounds sys stack ntcp factor (suc n) s w last u

-- On a disk in memory, when the file is at its end before as many clusters as the header counts,
-- have been found, fewer than 2 ^ 63, and the atom's buffer always holds an empty run of no
-- clusters, the scan of `v10_verify` does not end: for every number `n` it goes through `n`
-- rounds without an error or a fault and still has found as many clusters as before, and it runs
-- out of a fuel of `n`.
pub scan_loop-cut_off :
    (n : ℕ) (stack : ℕ → List ℕ) (ntcp : NcContext) (factor : ℕ) (s : Scanned) (d : Disk)
    → ((left : ℕ) → (nca_atype (stack left) ≡ 0) × (ncau_empty_count (stack left) ≡ 0))
    → length (d.file ntcp.nc_fd) ≤ d.offset ntcp.nc_fd
    → s.cclust < ntcp.nc_head.nr_clusters
    → s.cclust < 2 ^ 63
    → (last : Scanned) × (after : Disk) × Rounds memory stack ntcp factor n s d last after
      × (last.cclust ≡ s.cclust)
      × (scan_loop memory stack n ntcp factor 0 s d ≡ none)
unfolding scan_loop
scan_loop-cut_off zero stack ntcp factor s d left end more few =
    (s, d, halt, refl, ground (arith, more))
scan_loop-cut_off (suc n) stack ntcp factor s d left end more few =
    let fd = ntcp.nc_fd in
    let k = after_seek fd d in
    let there : k.offset fd ≡ d.offset fd =
      update_self d.offset fd (d.offset fd + 0) ∙ omega arith in
    let r = memory.sys_read fd atom_size k in
    let nothing : r.0.got ≡ [] =
      slice-past (k.offset fd) atom_size (d.file fd) (omega (arith, there, end)) in
    let buffer : overlay r.0.got (stack n) ≡ stack n = ap (λ g. overlay g (stack n)) nothing in
    let stuck : length (d.file fd) ≤ r.1.offset fd =
      rw (update_self k.offset fd (k.offset fd + r.0.nread)) (omega (arith, there, end)) in
    let step =
      scan_round-empty memory stack ntcp factor 0 (stack n) s d (omega (arith, few)) refl
        (ap nca_atype buffer ∙ (left n).0) (ap ncau_empty_count buffer ∙ (left n).1) in
    let (last, after, rounds, same, rest) =
      scan_loop-cut_off n stack ntcp factor (passed 0 s) r.1 left stuck (omega (arith, more))
        (omega (arith, few)) in
    (last, after, round more step rounds, same ∙ omega arith, ground (arith, more, step, rest))
