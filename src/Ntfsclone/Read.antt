-- ===== src/Ntfsclone/Read.antt =====
-- `v10_readblock` and `ntfsclone_readblocks` of src/libntfsclone.c against the clusters that the image
-- stands for.
use partclone_utils.Base.{
  ℕ, zero, suc, ◌+◌, ◌≤◌, ◌<◌, ◌≡◌, sym, ap, ◌∙◌, true, Option, none, some, List, [], ◌++◌, arith,
  length, slice, take, take-all, drop, replicate, overlay, overlay_full, length-slice,
  length-replicate, leb, le→leb, inl, inr, Option-cases,
}
use partclone_utils.Sysdep.{Sysdep, M, Array}
use partclone_utils.Sysdep.Contract.{
  Contract, SameFiles, SameFiles-refl, SameFiles-trans, SameFiles-read,
}
use partclone_utils.Ntfsclone.{NcContext, NcVersion, V10Context, ntctx_have_verdep}
use partclone_utils.Ntfsclone.Seek.{seek2cluster}
use partclone_utils.Ntfsclone.Blocks.{
  current_bit, nc_read_cf, nc_read_used, nc_read_image, v10_readblock,
}
use partclone_utils.Ntfsclone.Handle.{next_cluster, nc_read_loop}
use partclone_utils.Ntfsclone.View.{Atom, cluster_at, use_bit, span}
use partclone_utils.Ntfsclone.Sought.{Positions, seek2cluster-Positions}
use partclone_utils.Ntfsclone.Counted.{IsReady, IsCounted}

-- What a read gives for a cluster: its data, or bytes 69 if it is not in use.
abbrev pub cluster_bytes : ℕ → Option (List ℕ) → List ℕ
cluster_bytes size none = replicate size 69
cluster_bytes size (some cells) = cells

-- The clusters from `b` on, one behind another.
abbrev pub clusters_from : ℕ → List Atom → ℕ → ℕ → List ℕ
clusters_from size atoms zero b = []
clusters_from size atoms (suc n) b =
    cluster_bytes size (cluster_at atoms b) ++ clusters_from size atoms n (b + 1)

-- A context without a change file, and with the buffer for clusters that are not in use.
pub record IsPlain (ntcp : NcContext) : Type 0 where
  pub ivblock : Array
  pub buffer : ntcp.nc_ivblock ≡ some ivblock
  pub filled : ivblock.cells ≡ replicate ntcp.nc_head.cluster_size 69
  pub alone : ntcp.nc_cf_handle ≡ none

-- What a read of clusters establishes.
pub record Reads {W : Type 0} {sys : Sysdep W} (con : Contract sys)
    (run : M W (ℕ × List ℕ × NcContext)) (error : ℕ) (bytes : List ℕ) (ntcp : NcContext) (w : W)
    : Type 0 where
  pub world : W
  pub runs : run w ≡ some ((error, bytes, ntcp), world)
  pub same : SameFiles con w world

module _ {W : Type 0} (sys : Sysdep W) (stack : ℕ → List ℕ) (fuel : ℕ) where
  v10_readblock-nc_read_image :
      (ntcp : NcContext) (buffer bytes : List ℕ) (w w' : W)
      → ntctx_have_verdep ntcp ≡ true
      → ntcp.nc_cf_handle ≡ none
      → nc_read_image sys stack fuel ntcp buffer w ≡ some ((0, bytes), w')
      → v10_readblock sys stack fuel ntcp buffer w ≡ some ((0, bytes, ntcp), w')
  unfolding v10_readblock nc_read_cf
  v10_readblock-nc_read_image ntcp buffer bytes w w' ready alone run =
      ground (arith, ready, alone, run)

  nc_read_image-free :
      (ntcp : NcContext) (buffer : List ℕ) (ivblock : Array) (w : W)
      → current_bit ntcp ≡ some 0
      → ntcp.nc_ivblock ≡ some ivblock
      → leb ntcp.nc_head.cluster_size (length ivblock.cells) ≡ true
      → leb ntcp.nc_head.cluster_size (length buffer) ≡ true
      → nc_read_image sys stack fuel ntcp buffer w
        ≡ some ((0, overlay (take ntcp.nc_head.cluster_size ivblock.cells) buffer), w)
  unfolding nc_read_image
  nc_read_image-free ntcp buffer ivblock w bit iv long room = ground (arith, bit, iv, long, room)

  nc_read_image-used :
      (ntcp : NcContext) (buffer : List ℕ) (w : W)
      → current_bit ntcp ≡ some 1
      → nc_read_image sys stack fuel ntcp buffer w ≡ nc_read_used sys stack fuel ntcp buffer w
  unfolding nc_read_image
  nc_read_image-used ntcp buffer w bit = ground (arith, bit)

  nc_read_used-seek2cluster :
      (ntcp : NcContext) (buffer : List ℕ) (w w' : W)
      → seek2cluster sys stack fuel ntcp ntcp.nc_curblock w ≡ some (0, w')
      → leb ntcp.nc_head.cluster_size (length buffer) ≡ true
      → let r = sys.sys_read ntcp.nc_fd ntcp.nc_head.cluster_size w' in
        r.0.nread ≡ ntcp.nc_head.cluster_size
        → nc_read_used sys stack fuel ntcp buffer w ≡ some ((0, overlay r.0.got buffer), r.1)
  unfolding nc_read_used
  nc_read_used-seek2cluster ntcp buffer w w' sought room full = ground (arith, sought, room, full)

  pub nc_read_loop-next :
      (left error : ℕ) (ntcp : NcContext) (buffer block : List ℕ) (w w' : W)
      → v10_readblock sys stack fuel ntcp (take ntcp.nc_head.cluster_size buffer) w
        ≡ some ((0, block, ntcp), w')
      → (rest : List ℕ) (ntcp' : NcContext) (e : ℕ) (w'' : W) → (version : NcVersion)
      → ntcp.nc_dispatch ≡ some version
      → nc_read_loop sys stack fuel left 0
          (next_cluster ntcp)
          (drop ntcp.nc_head.cluster_size buffer)
          w'
        ≡ some ((e, rest, ntcp'), w'')
      → nc_read_loop sys stack fuel (suc left) error ntcp buffer w
        ≡ some ((e, block ++ rest, ntcp'), w'')
  unfolding nc_read_loop
  nc_read_loop-next left error ntcp buffer block w w' step rest ntcp' e w'' version there run =
      ground (arith, there, step, run)

current_bit-value :
    (ntcp : NcContext) (v10p : V10Context) (bytes : List ℕ) (at : ℕ) (atoms : List Atom)
    → IsReady ntcp v10p bytes at atoms
    → ntcp.nc_curblock < span atoms
    → current_bit ntcp ≡ some (use_bit (cluster_at atoms ntcp.nc_curblock))
unfolding current_bit
current_bit-value ntcp v10p bytes at atoms loaded inside =
    rw (current_bit, loaded.dep, loaded.bits) (loaded.index.used ntcp.nc_curblock inside)

-- A read of a cluster's size fills the buffer.
overlay-take :
    (size : ℕ) (cells buffer : List ℕ)
    → length cells ≡ size
    → length buffer ≡ size
    → overlay cells buffer ≡ cells
overlay-take size cells buffer long fits = overlay_full cells buffer (omega (arith, long, fits))

module _ {W : Type 0} {sys : Sysdep W} (con : Contract sys) (stack : ℕ → List ℕ) (fuel : ℕ) where
  -- A used cluster.
  nc_read_image-Positions :
      (ntcp : NcContext) (bytes cells buffer : List ℕ) (w : W)
      → current_bit ntcp ≡ some 1
      → Positions con stack fuel ntcp bytes cells ntcp.nc_curblock w
      → length buffer ≡ ntcp.nc_head.cluster_size
      → con.is_open ntcp.nc_fd w ≡ true
      → con.content ntcp.nc_fd w ≡ bytes
      → (w' : W) × (nc_read_image sys stack fuel ntcp buffer w ≡ some ((0, cells), w'))
        × SameFiles con w w'
  nc_read_image-Positions ntcp bytes cells buffer w bit pos fits opened content =
      let fd = ntcp.nc_fd in
      let size = ntcp.nc_head.cluster_size in
      let r = sys.sys_read fd size pos.world in
      let content' : con.content fd pos.world ≡ bytes = pos.same.content fd ∙ content in
      let read =
        con.read_within fd size pos.world (pos.same.is_open fd ∙ opened) (rw content' pos.room) in
      let got : r.0.got ≡ cells =
        read.2 ∙ ap (slice (con.position fd pos.world) size) content' ∙ pos.data_at in
      let long : length cells ≡ size =
        ap length (sym pos.data_at)
        ∙ length-slice (con.position fd pos.world) size bytes pos.room in
      (
        r.1,
        nc_read_image-used sys stack fuel ntcp buffer w bit
            ∙ nc_read_used-seek2cluster sys stack fuel ntcp buffer w pos.world pos.runs
                (le→leb size (length buffer) (omega (arith, fits))) read.1
            ∙ ap (λ g. some ((0, g), r.1))
                (ap (λ g. overlay g buffer) got ∙ overlay-take size cells buffer long fits),
        SameFiles-trans con pos.same (SameFiles-read con fd size pos.world),
      )

  -- Any cluster.
  nc_read_image-cluster :
      (ntcp : NcContext) (v10p : V10Context) (bytes : List ℕ) (at : ℕ) (atoms : List Atom)
      (buffer : List ℕ) (w : W)
      → IsReady ntcp v10p bytes at atoms
      → IsCounted v10p atoms
      → IsPlain ntcp
      → ntcp.nc_curblock < span atoms
      → length buffer ≡ ntcp.nc_head.cluster_size
      → con.is_open ntcp.nc_fd w ≡ true
      → con.content ntcp.nc_fd w ≡ bytes
      → length atoms ≤ fuel
      → (w' : W) × (nc_read_image sys stack fuel ntcp buffer w
          ≡ some (
            (0, cluster_bytes ntcp.nc_head.cluster_size (cluster_at atoms ntcp.nc_curblock)),
            w',
          ))
        × SameFiles con w w'
  nc_read_image-cluster ntcp v10p bytes at atoms buffer w loaded counted plain inside fits opened
        content enough =
      let size = ntcp.nc_head.cluster_size in
      let bit = current_bit-value ntcp v10p bytes at atoms loaded inside in
      elim (Option-cases (cluster_at atoms ntcp.nc_curblock)) [
        | inl free ↦
            let filler : length plain.ivblock.cells ≡ size =
              ap length plain.filled ∙ length-replicate {A = ℕ} size 69 in
            let block : take size plain.ivblock.cells ≡ replicate size 69 =
              take-all size plain.ivblock.cells (omega (arith, filler)) ∙ plain.filled in
            (
              w,
              nc_read_image-free sys stack fuel ntcp buffer plain.ivblock w
                    (bit ∙ ap (λ o. some (use_bit o)) free) plain.buffer
                    (le→leb size (length plain.ivblock.cells) (omega (arith, filler)))
                    (le→leb size (length buffer) (omega (arith, fits)))
                  ∙ ap (λ g. some ((0, g), w))
                      (ap (λ g. overlay g buffer) block
                        ∙ overlay-take size (replicate size 69) buffer
                            (length-replicate {A = ℕ} size 69) fits
                        ∙ ap (cluster_bytes size) (sym free)),
              SameFiles-refl con w,
            )
        | inr (cells, used) ↦
            let pos =
              seek2cluster-Positions con stack fuel ntcp v10p bytes at atoms cells ntcp.nc_curblock
                w loaded counted used opened content enough in
            let (w', run, same) =
              nc_read_image-Positions ntcp bytes cells buffer w
                (bit ∙ ap (λ o. some (use_bit o)) used) pos fits opened content in
            (w', run ∙ ap (λ o. some ((0, cluster_bytes size o), w')) (sym used), same)
      ]

  pub v10_readblock-Reads :
      (ntcp : NcContext) (v10p : V10Context) (bytes : List ℕ) (at : ℕ) (atoms : List Atom)
      (buffer : List ℕ) (w : W)
      → IsReady ntcp v10p bytes at atoms
      → IsCounted v10p atoms
      → IsPlain ntcp
      → ntcp.nc_curblock < span atoms
      → length buffer ≡ ntcp.nc_head.cluster_size
      → con.is_open ntcp.nc_fd w ≡ true
      → con.content ntcp.nc_fd w ≡ bytes
      → length atoms ≤ fuel
      → Reads con
          (v10_readblock sys stack fuel ntcp buffer)
          0
          (cluster_bytes ntcp.nc_head.cluster_size (cluster_at atoms ntcp.nc_curblock))
          ntcp
          w
  v10_readblock-Reads ntcp v10p bytes at atoms buffer w loaded counted plain inside fits opened
        content enough =
      let (w', run, same) =
        nc_read_image-cluster ntcp v10p bytes at atoms buffer w loaded counted plain inside fits
          opened content enough in
      record {
        world = w';
        runs =
            v10_readblock-nc_read_image sys stack fuel ntcp buffer
              (cluster_bytes ntcp.nc_head.cluster_size (cluster_at atoms ntcp.nc_curblock)) w w'
              loaded.ready plain.alone run;
        same = same;
      }
