-- ===== src/Ntfsclone/Counted.antt =====
-- Where `seek2cluster` of src/libntfsclone.c starts to count, on an image that holds atoms.
use partclone_utils.Base.{
  ℕ, zero, suc, ◌+◌, ◌-◌, ◌*◌, ◌/◌, ◌%◌, ◌^◌, ◌≤◌, ◌<◌, ◌≡◌, refl, sym, ap, ◌∙◌, true, false, some,
  List, [], ◌∷◌, arith, ◌==◌, length, inl, inr, ltb, Bool-cases, ℕ_discrete,
}
use partclone_utils.Sysdep.{Array}
use partclone_utils.Ntfsclone.{NcContext, V10Context, ntctx_have_verdep}
use partclone_utils.Ntfsclone.Bitmap.{bitmap_bit_value}
use partclone_utils.Ntfsclone.Seek.{start_of_walk}
use partclone_utils.Ntfsclone.View.{Atom, empty_run, used_cluster, cluster_at, span, HoldsAtoms}
use partclone_utils.Ntfsclone.Atoms.{room-empty, room-used}
use partclone_utils.Ntfsclone.Marks.{cluster_at-run, cluster_at-past_run}
use partclone_utils.Ntfsclone.Verified.{IsImage, IsIndex}
use partclone_utils.Ntfsclone.Found.{IsFirst, Found, HasGap, used_loop-HasGap}

-- A context with the index of the image.
pub record IsReady (ntcp : NcContext) (v10p : V10Context) (bytes : List ℕ) (at : ℕ)
    (atoms : List Atom) : Type 0 where
  pub bitmap : Array
  pub offsets : Array
  pub dep : ntcp.nc_verdep ≡ some v10p
  pub ready : ntctx_have_verdep ntcp ≡ true
  pub bits : v10p.v10_bitmap ≡ some bitmap
  pub starts : v10p.v10_bucket_offset ≡ some offsets
  pub factor : v10p.v10_bucket_factor ≡ 10
  pub image : IsImage ntcp.nc_head.cluster_size bytes at atoms
  pub index : IsIndex ntcp.nc_head.cluster_size at atoms bitmap.cells offsets.cells
  pub few : span atoms < 2 ^ 62

-- The free clusters of the current bucket are counted up to its first used one.
abbrev pub IsCounted : V10Context → List Atom → Type 0
IsCounted v10p atoms =
    (first : ℕ)
    → IsFirst atoms first
    → first / 2 ^ 10 ≡ v10p.v10_current_bucket
    → first / 2 ^ 10 * 2 ^ 10 + v10p.v10_bsfcount ≡ first

pub cluster_at-span :
    (atoms : List Atom) (j : ℕ) (cells : List ℕ) → cluster_at atoms j ≡ some cells → j < span atoms
cluster_at-span [] j cells h = absurd (ground (arith, h))
cluster_at-span (empty_run n ∷ atoms) j cells h = elim (Bool-cases (ltb j n)) [
  | inl e ↦
      let free = cluster_at-run n j atoms (ground (arith, e)) in absurd (ground (arith, h, free))
  | inr e ↦
      let past : n ≤ j = ground (arith, e) in
      omega (
        arith,
        past,
        cluster_at-span atoms (j - n) cells (sym (cluster_at-past_run n j atoms past) ∙ h),
      )
]
cluster_at-span (used_cluster first ∷ atoms) zero cells h = omega arith
cluster_at-span (used_cluster first ∷ atoms) (suc j) cells h =
    omega (arith, cluster_at-span atoms j cells h)

-- Atoms that hold a cluster start inside the file.
pub HoldsAtoms-within :
    (bytes : List ℕ) (at : ℕ) (atoms : List Atom) (j : ℕ) (cells : List ℕ)
    → HoldsAtoms bytes at atoms
    → cluster_at atoms j ≡ some cells
    → at ≤ length bytes
HoldsAtoms-within bytes at [] j cells held h = absurd (ground (arith, h))
HoldsAtoms-within bytes at (empty_run n ∷ atoms) j cells held h =
    omega (arith, room-empty bytes at atoms n held)
HoldsAtoms-within bytes at (used_cluster first ∷ atoms) j cells held h =
    omega (arith, room-used bytes at atoms first (length first) refl held)

-- The first used cluster of the bucket of a used cluster.
pub IsFirst-Found :
    (size : ℕ) (bytes : List ℕ) (at : ℕ) (atoms : List Atom) (cnum : ℕ) (cells : List ℕ)
    → (found : Found size bytes at atoms 0 cnum (cnum / 2 ^ 10) cells) → IsFirst atoms found.gap
IsFirst-Found size bytes at atoms cnum cells found = record {
  in_use = found.in_use;
  earlier = λ i h b. found.earlier i h (
      ap (λ t. t / 2 ^ 10) {x = 0 + i} {y = i} (omega arith)
      ∙ b
      ∙ ap (λ t. t / 2 ^ 10) {y = 0 + found.gap} (omega arith)
      ∙ found.bucket);
}

-- The bitmap from the start of a bucket to its first used cluster.
pub bucket-HasGap :
    (size at : ℕ) (atoms : List Atom) (bits offsets : List ℕ) (first : ℕ)
    → IsIndex size at atoms bits offsets
    → first < span atoms
    → IsFirst atoms first
    → let base = first / 2 ^ 10 * 2 ^ 10 in HasGap bits base (first - base)
bucket-HasGap size at atoms bits offsets first index inside is_first =
    let base = first / 2 ^ 10 * 2 ^ 10 in
    record {
      free = λ i h.
          index.used (base + i) (omega (arith, h, inside))
          ∙ ap some (is_first.earlier (base + i) (omega (arith, h)) (omega (arith, h)));
      ends =
          ap (bitmap_bit_value bits) {y = first} (omega arith)
          ∙ index.used first inside
          ∙ ap some is_first.in_use;
    }

pub start_of_walk-first :
    (ntcp : NcContext) (v10p : V10Context) (bytes : List ℕ) (at : ℕ) (atoms : List Atom)
    (first cnum : ℕ)
    → (loaded : IsReady ntcp v10p bytes at atoms) → IsCounted v10p atoms
    → IsFirst atoms first
    → first ≤ cnum
    → cnum < span atoms
    → first / 2 ^ 10 ≡ cnum / 2 ^ 10
    → start_of_walk v10p loaded.bitmap.cells cnum ≡ some first
unfolding start_of_walk
start_of_walk-first ntcp v10p bytes at atoms first cnum loaded counted is_first before inside
      bucket =
    let base = first / 2 ^ 10 * 2 ^ 10 in
    elim (ℕ_discrete (cnum / 2 ^ 10) v10p.v10_current_bucket) [
      | yes e ↦
          let here : (cnum / 2 ^ 10 == v10p.v10_current_bucket) ≡ true = ground (arith, e) in
          let value = counted first is_first (bucket ∙ e) in
          let total : (cnum / 2 ^ 10 * 2 ^ 10 + v10p.v10_bsfcount) % 2 ^ 64 ≡ first =
            omega (arith, value, bucket, before, inside, loaded.few) in
          rw (start_of_walk, loaded.factor, here) (ap some total)
      | no ne ↦
          let other : (cnum / 2 ^ 10 == v10p.v10_current_bucket) ≡ false = ground (arith, ne) in
          let gap =
            bucket-HasGap ntcp.nc_head.cluster_size at atoms loaded.bitmap.cells
              loaded.offsets.cells first loaded.index (omega (arith, before, inside)) is_first in
          let run =
            used_loop-HasGap loaded.bitmap.cells (cnum - base) base (first - base)
              (omega (arith, before)) gap in
          rw (start_of_walk, loaded.factor, other, sym bucket) (run ∙ ap some (omega arith))
    ]
