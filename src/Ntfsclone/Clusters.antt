-- ===== src/Ntfsclone/Clusters.antt =====
-- `ntfsclone_readblocks` of src/libntfsclone.c against the clusters that the image stands for.
use partclone_utils.Base.{
  length-eq_zero, ℕ, zero, suc, ◌+◌, ◌*◌, ◌%◌, ◌^◌, ◌≤◌, ◌<◌, ◌≡◌, refl, ap, ap₂, ◌∙◌, true, some,
  List, [], ◌++◌, arith, length, take, drop, length-take, length-drop,
}
use partclone_utils.Sysdep.{Sysdep, einval}
use partclone_utils.Sysdep.Contract.{Contract, SameFiles-refl, SameFiles-trans}
use partclone_utils.Ntfsclone.{NcContext, NcVersion, V10Context, ntctx_readready}
use partclone_utils.Ntfsclone.Handle.{next_cluster, nc_read_loop, ntfsclone_readblocks}
use partclone_utils.Ntfsclone.View.{Atom, cluster_at, span}
use partclone_utils.Ntfsclone.Counted.{IsReady, IsCounted}
use partclone_utils.Ntfsclone.Read.{
  cluster_bytes, clusters_from, IsPlain, Reads, nc_read_loop-next, v10_readblock-Reads,
}

-- The context at another cluster.
abbrev pub at_cluster : NcContext → ℕ → NcContext
at_cluster ntcp b = record ntcp { nc_curblock = b }

IsReady-at :
    (ntcp : NcContext) (v10p : V10Context) (bytes : List ℕ) (at : ℕ) (atoms : List Atom) (b : ℕ)
    → IsReady ntcp v10p bytes at atoms
    → IsReady (at_cluster ntcp b) v10p bytes at atoms
IsReady-at ntcp v10p bytes at atoms b loaded = record {
  bitmap = loaded.bitmap;
  offsets = loaded.offsets;
  dep = loaded.dep;
  ready = loaded.ready;
  bits = loaded.bits;
  starts = loaded.starts;
  factor = loaded.factor;
  image = loaded.image;
  index = loaded.index;
  few = loaded.few;
}

IsPlain-at : (ntcp : NcContext) (b : ℕ) → IsPlain ntcp → IsPlain (at_cluster ntcp b)
IsPlain-at ntcp b plain = record {
  ivblock = plain.ivblock;
  buffer = plain.buffer;
  filled = plain.filled;
  alone = plain.alone;
}

module _ {W : Type 0} {sys : Sysdep W} (con : Contract sys) (stack : ℕ → List ℕ) (fuel : ℕ)
    (v10p : V10Context) (bytes : List ℕ) (at : ℕ) (atoms : List Atom) (version : NcVersion)
    (counted : IsCounted v10p atoms) (enough : length atoms ≤ fuel) where
  nc_read_loop-Reads :
      (n error : ℕ) (ntcp : NcContext) (buffer : List ℕ) (w : W)
      → (n ≡ 0 → error ≡ 0)
      → IsReady ntcp v10p bytes at atoms
      → IsPlain ntcp
      → ntcp.nc_dispatch ≡ some version
      → ntcp.nc_curblock + n ≤ span atoms
      → length buffer ≡ n * ntcp.nc_head.cluster_size
      → con.is_open ntcp.nc_fd w ≡ true
      → con.content ntcp.nc_fd w ≡ bytes
      → Reads con
          (nc_read_loop sys stack fuel n error ntcp buffer)
          0
          (clusters_from ntcp.nc_head.cluster_size atoms n ntcp.nc_curblock)
          (at_cluster ntcp (ntcp.nc_curblock + n))
          w
  unfolding nc_read_loop
  nc_read_loop-Reads zero error ntcp buffer w first loaded plain known inside fits opened content =
      let stay : ntcp.nc_curblock ≡ ntcp.nc_curblock + 0 = omega arith in
      record {
        world = w;
        runs =
            ap (λ e. some ((e, buffer, ntcp), w)) (first refl)
            ∙ ap (λ g. some ((0, g, ntcp), w)) (length-eq_zero buffer (omega (arith, fits)))
            ∙ ap (λ b. some ((0, [], at_cluster ntcp b), w)) stay;
        same = SameFiles-refl con w;
      }
  nc_read_loop-Reads (suc n) error ntcp buffer w first loaded plain known inside fits opened
        content =
      let size = ntcp.nc_head.cluster_size in
      let b = ntcp.nc_curblock in
      let more : length buffer ≡ size + n * size = omega (arith, fits) in
      let step =
        v10_readblock-Reads con stack fuel ntcp v10p bytes at atoms (take size buffer) w loaded
          counted plain (omega (arith, inside)) (length-take size buffer ∙ omega (arith, more))
          opened content enough in
      let next : (b + 1) % 2 ^ 64 ≡ b + 1 = omega (arith, inside, loaded.few) in
      let rest =
        nc_read_loop-Reads n 0 (next_cluster ntcp) (drop size buffer) step.world (λ e. refl)
          (IsReady-at ntcp v10p bytes at atoms ((b + 1) % 2 ^ 64) loaded)
          (IsPlain-at ntcp ((b + 1) % 2 ^ 64) plain) known (omega (arith, inside, next))
          (length-drop size buffer ∙ omega (arith, more)) (step.same.is_open ntcp.nc_fd ∙ opened)
          (step.same.content ntcp.nc_fd ∙ content) in
      let last : (b + 1) % 2 ^ 64 + n ≡ b + suc n = omega (arith, next) in
      let block = cluster_bytes size (cluster_at atoms b) in
      record {
        world = rest.world;
        runs =
            nc_read_loop-next sys stack fuel n error ntcp buffer block w step.world step.runs
              (clusters_from size atoms n ((b + 1) % 2 ^ 64))
              (at_cluster ntcp ((b + 1) % 2 ^ 64 + n)) 0 rest.world version known rest.runs
            ∙ ap₂
                (λ c l.
                  some ((0, block ++ clusters_from size atoms n c, at_cluster ntcp l), rest.world))
                next last;
        same = SameFiles-trans con step.same rest.same;
      }

  -- For a context that is ready to read, has the index of the atoms in its open file, the buffer
  -- of bytes 69 and no change file, and whose count of free clusters is that of the current
  -- bucket, under the contract of the services and with as much fuel as there are atoms,
  -- `ntfsclone_readblocks` of `n` clusters, one at least and none past the end, into a buffer of
  -- their size returns 0, changes no file, moves on by `n`, and fills the buffer with the
  -- clusters from the current one on, bytes 69 for one not in use.
  pub ntfsclone_readblocks-Reads :
      (n : ℕ) (ntcp : NcContext) (buffer : List ℕ) (w : W)
      → 0 < n
      → ntctx_readready ntcp ≡ true
      → IsReady ntcp v10p bytes at atoms
      → IsPlain ntcp
      → ntcp.nc_dispatch ≡ some version
      → ntcp.nc_curblock + n ≤ span atoms
      → length buffer ≡ n * ntcp.nc_head.cluster_size
      → con.is_open ntcp.nc_fd w ≡ true
      → con.content ntcp.nc_fd w ≡ bytes
      → Reads con
          (ntfsclone_readblocks sys stack fuel ntcp buffer n)
          0
          (clusters_from ntcp.nc_head.cluster_size atoms n ntcp.nc_curblock)
          (at_cluster ntcp (ntcp.nc_curblock + n))
          w
  unfolding ntfsclone_readblocks
  ntfsclone_readblocks-Reads n ntcp buffer w some_blocks ready loaded plain known inside fits opened
        content =
      let loop =
        nc_read_loop-Reads n einval ntcp buffer w (λ e. absurd (omega (arith, some_blocks, e)))
          loaded plain known inside fits opened content in
      record {
        world = loop.world;
        runs = rw (ntfsclone_readblocks, ready) loop.runs;
        same = loop.same;
      }
