-- ===== src/Ntfsclone/Entered.antt =====
-- `ntfsclone_seek` of src/libntfsclone.c into another bucket.
use partclone_utils.Base.{
  ℕ, ◌+◌, ◌-◌, ◌*◌, ◌/◌, ◌%◌, ◌^◌, ◌≡◌, ◌≢◌, refl, sym, ap, subst, ◌∙◌, true, false, none, some,
  List, arith, ◌==◌, leb, le→leb, inl, inr, Bool-cases, le→leb,
}
use partclone_utils.Sysdep.{Array}
use partclone_utils.Ntfsclone.{NcContext, NcVersion, V10Context, ntctx_have_verdep, ntctx_readready}
use partclone_utils.Ntfsclone.Bitmap.{free_loop}
use partclone_utils.Ntfsclone.Seek.{enter_bucket, nc_seek_cf, v10_seek}
use partclone_utils.Ntfsclone.Handle.{ntfsclone_seek}
use partclone_utils.Ntfsclone.View.{Atom, cluster_at, span}
use partclone_utils.Ntfsclone.Found.{IsFirst, find_first, HasGap, free_loop-HasGap}
use partclone_utils.Ntfsclone.Counted.{
  IsReady, IsCounted, IsFirst-Found, bucket-HasGap, cluster_at-span,
}

-- A bucket has one first used cluster.
pub IsFirst-unique :
    (atoms : List Atom) (a b : ℕ)
    → IsFirst atoms a
    → IsFirst atoms b
    → a / 2 ^ 10 ≡ b / 2 ^ 10
    → a ≡ b
IsFirst-unique atoms a b p q same = elim (Bool-cases (leb a b)) [
  | inl le ↦ elim (Bool-cases (leb b a)) [
    | inl ge ↦ ground (arith, le, ge)
    | inr lt ↦
        let zero_bit = q.earlier a (ground (arith, lt)) same in
        absurd (omega (arith, zero_bit, p.in_use))
  ]
  | inr gt ↦
      let zero_bit = p.earlier b (ground (arith, gt)) (sym same) in
      absurd (omega (arith, zero_bit, q.in_use))
]

-- The index once a bucket has been entered.
abbrev pub entered : V10Context → ℕ → ℕ → V10Context
entered v10p bsf cbn = record v10p { v10_bsfcount = bsf; v10_current_bucket = cbn }

-- The context after a seek into another bucket.
abbrev pub sought : NcContext → V10Context → ℕ → ℕ → NcContext
sought ntcp v10p bsf cnum = record ntcp {
  nc_verdep = some (entered v10p bsf (cnum / 2 ^ 10));
  nc_curblock = cnum;
}

-- What a seek into another bucket establishes.
pub record Enters (ntcp : NcContext) (v10p : V10Context) (bytes : List ℕ) (at : ℕ)
    (atoms : List Atom) (cnum : ℕ) : Type 0 where
  pub bsf : ℕ
  pub runs : ntfsclone_seek ntcp cnum ≡ some (0, sought ntcp v10p bsf cnum)
  pub loaded : IsReady (sought ntcp v10p bsf cnum) (entered v10p bsf (cnum / 2 ^ 10)) bytes at atoms
  pub counted : IsCounted (entered v10p bsf (cnum / 2 ^ 10)) atoms

pub enter_bucket-free_loop :
    (v10p : V10Context) (bitmap : Array) (cnum base bsf : ℕ)
    → v10p.v10_bitmap ≡ some bitmap
    → let cbn = cnum / 2 ^ v10p.v10_bucket_factor in
      cbn ≢ v10p.v10_current_bucket
      → (cbn * 2 ^ v10p.v10_bucket_factor) % 2 ^ 64 ≡ base
      → free_loop bitmap.cells (cnum - base) base 0 ≡ some bsf
      → enter_bucket v10p cnum ≡ some (entered v10p bsf cbn)
unfolding enter_bucket
enter_bucket-free_loop v10p bitmap cnum base bsf bits moves start run =
    let other : (cnum / 2 ^ v10p.v10_bucket_factor == v10p.v10_current_bucket) ≡ false =
      ground (arith, moves) in
    let run' = subst (λ b. free_loop bitmap.cells (cnum - b) b 0 ≡ some bsf) (sym start) run in
    ground (arith, other, bits, run')

v10_seek-enter_bucket :
    (ntcp : NcContext) (v10p v10p' : V10Context) (version : NcVersion) (cnum : ℕ)
    → ntctx_have_verdep ntcp ≡ true
    → ntcp.nc_verdep ≡ some v10p
    → ntcp.nc_dispatch ≡ some version
    → ntcp.nc_cf_handle ≡ none
    → (cnum == ntcp.nc_head.nr_clusters) ≡ false
    → enter_bucket v10p cnum ≡ some v10p'
    → v10_seek ntcp cnum ≡ some (0, record ntcp { nc_verdep = some v10p' })
unfolding v10_seek nc_seek_cf
v10_seek-enter_bucket ntcp v10p v10p' version cnum dep there known alone inside run =
    ground (arith, dep, there, known, alone, inside, run)

ntfsclone_seek-v10_seek :
    (ntcp ntcp' : NcContext) (cnum : ℕ)
    → ntctx_readready ntcp ≡ true
    → leb cnum ntcp.nc_head.nr_clusters ≡ true
    → v10_seek ntcp cnum ≡ some (0, ntcp')
    → ntfsclone_seek ntcp cnum ≡ some (0, record ntcp' { nc_curblock = cnum })
unfolding ntfsclone_seek
ntfsclone_seek-v10_seek ntcp ntcp' cnum ready inside run = ground (arith, ready, inside, run)

have_verdep-set :
    (ntcp : NcContext) (v10p : V10Context)
    → ntctx_have_verdep ntcp ≡ true
    → ntctx_have_verdep (record ntcp { nc_verdep = some v10p }) ≡ true
have_verdep-set ntcp v10p h = ground (arith, h)

IsReady-sought :
    (ntcp : NcContext) (v10p : V10Context) (bytes : List ℕ) (at : ℕ) (atoms : List Atom)
    (cnum bsf : ℕ)
    → IsReady ntcp v10p bytes at atoms
    → IsReady (sought ntcp v10p bsf cnum) (entered v10p bsf (cnum / 2 ^ 10)) bytes at atoms
IsReady-sought ntcp v10p bytes at atoms cnum bsf loaded = record {
  bitmap = loaded.bitmap;
  offsets = loaded.offsets;
  dep = refl;
  ready = have_verdep-set ntcp (entered v10p bsf (cnum / 2 ^ 10)) loaded.ready;
  bits = loaded.bits;
  starts = loaded.starts;
  factor = loaded.factor;
  image = loaded.image;
  index = loaded.index;
  few = loaded.few;
}

-- For a context that is ready to read and has the index of the atoms in its file, without a
-- change file, `ntfsclone_seek` to a used cluster of another bucket returns 0 and makes that
-- cluster and its bucket the current ones; the index stays, and the count of free clusters is
-- that of the new bucket.
pub ntfsclone_seek-Enters :
    (ntcp : NcContext) (v10p : V10Context) (bytes : List ℕ) (at : ℕ) (atoms : List Atom)
    (version : NcVersion) (cells : List ℕ) (cnum : ℕ)
    → IsReady ntcp v10p bytes at atoms
    → ntctx_readready ntcp ≡ true
    → ntcp.nc_dispatch ≡ some version
    → ntcp.nc_cf_handle ≡ none
    → span atoms ≡ ntcp.nc_head.nr_clusters
    → cluster_at atoms cnum ≡ some cells
    → cnum / 2 ^ 10 ≢ v10p.v10_current_bucket
    → Enters ntcp v10p bytes at atoms cnum
ntfsclone_seek-Enters ntcp v10p bytes at atoms version cells cnum loaded ready known alone total
      used moves =
    let size = ntcp.nc_head.cluster_size in
    let inside = cluster_at-span atoms cnum cells used in
    let found =
      find_first size bytes atoms at 0 cnum (cnum / 2 ^ 10) cells loaded.image.valid
        loaded.image.held loaded.image.positive used
        (ap (λ t. t / 2 ^ 10) {x = 0 + cnum} (omega arith)) in
    let first = found.gap in
    let is_first = IsFirst-Found size bytes at atoms cnum cells found in
    let base = cnum / 2 ^ 10 * 2 ^ 10 in
    let bucket : first / 2 ^ 10 ≡ cnum / 2 ^ 10 =
      ap (λ t. t / 2 ^ 10) {y = 0 + first} (omega arith) ∙ found.bucket in
    let gap =
      bucket-HasGap size at atoms loaded.bitmap.cells loaded.offsets.cells first loaded.index
        (omega (arith, found.before, inside)) is_first in
    let gap' : HasGap loaded.bitmap.cells (base + 0) (first - base) =
      subst (λ t. HasGap loaded.bitmap.cells t (first - base)) (omega arith)
        (subst (λ k. HasGap loaded.bitmap.cells (k * 2 ^ 10) (first - k * 2 ^ 10)) bucket gap) in
    let run =
      free_loop-HasGap loaded.bitmap.cells (cnum - base) base 0 (first - base)
        (omega (arith, found.before)) (omega (arith, bucket)) gap' in
    let below : (cnum == ntcp.nc_head.nr_clusters) ≡ false = ground (arith, inside, total) in
    let entry : enter_bucket v10p cnum ≡ some (entered v10p (0 + (first - base)) (cnum / 2 ^ 10)) =
      subst (λ f. enter_bucket v10p cnum ≡ some (entered v10p (0 + (first - base)) (cnum / 2 ^ f)))
        loaded.factor
        (enter_bucket-free_loop v10p loaded.bitmap cnum base (0 + (first - base)) loaded.bits
          (λ e. moves (ap (λ f. cnum / 2 ^ f) (sym loaded.factor) ∙ e))
          (ap (λ f. (cnum / 2 ^ f * 2 ^ f) % 2 ^ 64) loaded.factor
            ∙ omega (arith, inside, loaded.few))
          run) in
    record {
      bsf = 0 + (first - base);
      runs =
          ntfsclone_seek-v10_seek ntcp _ cnum ready
            (le→leb cnum ntcp.nc_head.nr_clusters (omega (arith, inside, total)))
            (v10_seek-enter_bucket ntcp v10p _ version cnum loaded.ready loaded.dep known alone
              below entry);
      loaded = IsReady-sought ntcp v10p bytes at atoms cnum (0 + (first - base)) loaded;
      counted = λ other other_first same.
          let e = IsFirst-unique atoms other first other_first is_first (same ∙ sym bucket) in
          omega (arith, e, bucket);
    }
