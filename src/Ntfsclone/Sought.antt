-- ===== src/Ntfsclone/Sought.antt =====
-- `seek2cluster` of src/libntfsclone.c on an image that holds atoms.
use partclone_utils.Base.{
  ℕ, ◌+◌, ◌-◌, ◌/◌, ◌^◌, ◌≤◌, ◌<◌, ◌≡◌, refl, ap, ◌∙◌, true, some, List, arith, length, slice,
  get_elem?,
}
use partclone_utils.Sysdep.{Sysdep, Array, seek_absolute, seek_relative}
use partclone_utils.Sysdep.Contract.{Contract, SameFiles, SameFiles-trans, SameFiles-seek}
use partclone_utils.Ntfsclone.{NcContext, V10Context, atom_to_data_offset}
use partclone_utils.Ntfsclone.Bitmap.{bitmap_bit_value}
use partclone_utils.Ntfsclone.Seek.{start_of_walk, walk_loop, seek2cluster}
use partclone_utils.Ntfsclone.View.{Atom, cluster_at, use_bit}
use partclone_utils.Ntfsclone.Walk.{walk_loop-Reaches}
use partclone_utils.Ntfsclone.Found.{Found, find_first}
use partclone_utils.Ntfsclone.Counted.{
  IsReady, IsCounted, cluster_at-span, IsFirst-Found, HoldsAtoms-within, start_of_walk-first,
}

-- What `seek2cluster` establishes.
pub record Positions {W : Type 0} {sys : Sysdep W} (con : Contract sys) (stack : ℕ → List ℕ)
    (fuel : ℕ) (ntcp : NcContext) (bytes cells : List ℕ) (cnum : ℕ) (w : W) : Type 0 where
  pub world : W
  pub runs : seek2cluster sys stack fuel ntcp cnum w ≡ some (0, world)
  pub same : SameFiles con w world
  pub data_at : slice (con.position ntcp.nc_fd world) ntcp.nc_head.cluster_size bytes ≡ cells
  pub room : con.position ntcp.nc_fd world + ntcp.nc_head.cluster_size ≤ length bytes

module _ {W : Type 0} (sys : Sysdep W) (stack : ℕ → List ℕ) (fuel : ℕ) where
  seek2cluster-walk_loop :
      (ntcp : NcContext) (v10p : V10Context) (offsets bitmap : Array) (cnum imgpos first : ℕ)
      (w w' : W)
      → ntcp.nc_verdep ≡ some v10p
      → v10p.v10_bucket_offset ≡ some offsets
      → v10p.v10_bitmap ≡ some bitmap
      → get_elem? offsets.cells (cnum / 2 ^ v10p.v10_bucket_factor) ≡ some imgpos
      → 0 < imgpos
      → bitmap_bit_value bitmap.cells cnum ≡ some 1
      → start_of_walk v10p bitmap.cells cnum ≡ some first
      → let k = sys.sys_seek ntcp.nc_fd imgpos seek_absolute w in
        k.0.error ≡ 0
        → walk_loop sys stack fuel ntcp cnum 0 first k.1 ≡ some ((0, cnum), w')
        → let q = sys.sys_seek ntcp.nc_fd atom_to_data_offset seek_relative w' in
          q.0.error ≡ 0 → seek2cluster sys stack fuel ntcp cnum w ≡ some (0, q.1)
  unfolding seek2cluster
  seek2cluster-walk_loop ntcp v10p offsets bitmap cnum imgpos first w w' dep starts bits pos
        positive used counts ok run sought =
      ground (arith, dep, starts, bits, pos, positive, used, counts, ok, run, sought)

module _ {W : Type 0} {sys : Sysdep W} (con : Contract sys) (stack : ℕ → List ℕ) where
  seek2cluster-Found :
      (fuel : ℕ) (ntcp : NcContext) (v10p : V10Context) (bytes : List ℕ) (at : ℕ)
      (atoms : List Atom) (cells : List ℕ) (cnum : ℕ) (w : W)
      → IsReady ntcp v10p bytes at atoms
      → IsCounted v10p atoms
      → cluster_at atoms cnum ≡ some cells
      → Found ntcp.nc_head.cluster_size bytes at atoms 0 cnum (cnum / 2 ^ 10) cells
      → con.is_open ntcp.nc_fd w ≡ true
      → con.content ntcp.nc_fd w ≡ bytes
      → length atoms ≤ fuel
      → Positions con stack fuel ntcp bytes cells cnum w
  seek2cluster-Found fuel ntcp v10p bytes at atoms cells cnum w loaded counted used found opened
        content enough =
      let fd = ntcp.nc_fd in
      let size = ntcp.nc_head.cluster_size in
      let inside = cluster_at-span atoms cnum cells used in
      let is_first = IsFirst-Found size bytes at atoms cnum cells found in
      let bucket : found.gap / 2 ^ 10 ≡ cnum / 2 ^ 10 =
        ap (λ t. t / 2 ^ 10) {y = 0 + found.gap} (omega arith) ∙ found.bucket in
      let start =
        start_of_walk-first ntcp v10p bytes at atoms found.gap cnum loaded counted is_first
          found.before inside bucket in
      let hint : get_elem? loaded.offsets.cells (cnum / 2 ^ v10p.v10_bucket_factor)
          ≡ some found.at' =
        ap (λ f. get_elem? loaded.offsets.cells (cnum / 2 ^ f)) loaded.factor
        ∙ loaded.index.starts cnum inside
        ∙ ap some found.hint in
      let bit : bitmap_bit_value loaded.bitmap.cells cnum ≡ some 1 =
        loaded.index.used cnum inside ∙ ap (λ o. some (use_bit o)) used in
      let k = sys.sys_seek fd found.at' seek_absolute w in
      let near : found.at' < 2 ^ 63 = omega (
        arith,
        HoldsAtoms-within bytes found.at' found.atoms' (cnum - found.gap) cells found.held
            found.here,
        found.held.short,
      ) in
      let sought = con.seek_to fd found.at' w opened near in
      let same_k = SameFiles-seek con fd found.at' seek_absolute w in
      let walk =
        walk_loop-Reaches con stack ntcp size cnum bytes cells loaded.image.fits loaded.image.word
          refl (omega (arith, inside, loaded.few)) found.atoms' found.at' fuel found.gap
          (cnum - found.gap) k.1 found.valid found.held (omega (arith, enough, found.shorter))
          (omega (arith, found.before)) found.here (same_k.is_open fd ∙ opened)
          (same_k.content fd ∙ content) sought.1 in
      let q = sys.sys_seek fd atom_to_data_offset seek_relative walk.world in
      let same_w = SameFiles-trans con same_k walk.same in
      let last =
        con.seek_by fd atom_to_data_offset walk.world (same_w.is_open fd ∙ opened)
          (omega (arith, walk.position, walk.room, found.held.short)) in
      let landed : con.position fd q.1 ≡ walk.at + 1 = last.2 ∙ omega (arith, walk.position) in
      record {
        world = q.1;
        runs =
            seek2cluster-walk_loop sys stack fuel ntcp v10p loaded.offsets loaded.bitmap cnum
              found.at' found.gap w walk.world loaded.dep loaded.starts loaded.bits hint
              found.positive bit start sought.0 walk.runs last.0;
        same =
            SameFiles-trans con same_w
              (SameFiles-seek con fd atom_to_data_offset seek_relative walk.world);
        data_at = ap (λ p. slice p size bytes) landed ∙ walk.data_at;
        room = omega (arith, landed, walk.room);
      }

  -- For a context that has the index of the atoms in its open file, and whose count of free
  -- clusters is that of the current bucket, under the contract of the services and with as much
  -- fuel as there are atoms, `seek2cluster` to a used cluster returns 0, changes no file, and
  -- leaves the file at the cluster's data, which are all there.
  pub seek2cluster-Positions :
      (fuel : ℕ) (ntcp : NcContext) (v10p : V10Context) (bytes : List ℕ) (at : ℕ)
      (atoms : List Atom) (cells : List ℕ) (cnum : ℕ) (w : W)
      → IsReady ntcp v10p bytes at atoms
      → IsCounted v10p atoms
      → cluster_at atoms cnum ≡ some cells
      → con.is_open ntcp.nc_fd w ≡ true
      → con.content ntcp.nc_fd w ≡ bytes
      → length atoms ≤ fuel
      → Positions con stack fuel ntcp bytes cells cnum w
  seek2cluster-Positions fuel ntcp v10p bytes at atoms cells cnum w loaded counted used opened
        content enough =
      let found =
        find_first ntcp.nc_head.cluster_size bytes atoms at 0 cnum (cnum / 2 ^ 10) cells
          loaded.image.valid loaded.image.held loaded.image.positive used
          (ap (λ t. t / 2 ^ 10) {x = 0 + cnum} (omega arith)) in
      seek2cluster-Found fuel ntcp v10p bytes at atoms cells cnum w loaded counted used found opened
        content enough
