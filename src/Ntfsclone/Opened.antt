-- ===== src/Ntfsclone/Opened.antt =====
-- `ntfsclone_verify` of src/libntfsclone.c on a file that holds an image, and a read of its clusters.
use partclone_utils.Base.{
  ℕ, ◌+◌, ◌*◌, ◌%◌, ◌^◌, ◌≤◌, ◌<◌, ◌≡◌, refl, sym, ap, ap₂, ◌∙◌, true, false, none, some, List,
  arith, length, slice, replicate, length-slice, overlay, overlay_full,
}
use partclone_utils.Base.Words.{le_bytes}
use partclone_utils.Sysdep.{Sysdep, Array, is_writing}
use partclone_utils.Sysdep.Contract.{
  Contract, HasMemory, SameFiles, SameFiles-trans, SameFiles-read, SameFiles-malloc, read_next,
}
use partclone_utils.Ntfsclone.{
  NcContext, NcVersion, V10Context, ImageHdr, image_hdr_of, image_hdr_size, image_hdr_bytes,
  v10_context_size, ntctx_open, ntctx_have_verdep, ntctx_readready,
}
use partclone_utils.Ntfsclone.Version10.{new_v10}
use partclone_utils.Ntfsclone.Handle.{ntfsclone_verify, ntfsclone_readblocks}
use partclone_utils.Ntfsclone.View.{Atom, cluster_at, use_bit, span}
use partclone_utils.Ntfsclone.Verified.{scanned, v10_verify-Indexes}
use partclone_utils.Ntfsclone.Found.{IsFirst}
use partclone_utils.Ntfsclone.Counted.{IsReady, IsCounted}
use partclone_utils.Ntfsclone.Read.{IsPlain, clusters_from}
use partclone_utils.Ntfsclone.Clusters.{at_cluster, ntfsclone_readblocks-Reads}
use partclone_utils.Ntfsclone.Entered.{IsFirst-unique}
use partclone_utils.Ntfsclone.Steps.{
  IsNtfsclone, headed, initialised, finished, v10_init-initialised, nc_make_ivblock-finished,
  ntfsclone_verify-steps,
}

-- What `ntfsclone_verify` establishes.
pub record Opens {W : Type 0} {sys : Sysdep W} (con : Contract sys) (stack : ℕ → List ℕ) (fuel : ℕ)
    (ntcp : NcContext) (bytes : List ℕ) (version : NcVersion) (atoms : List Atom) (w : W)
    : Type 0 where
  pub after : NcContext
  pub v10p : V10Context
  pub world : W
  pub runs : ntfsclone_verify sys stack fuel ntcp w ≡ some ((0, after), world)
  pub same : SameFiles con w world
  pub ready : ntctx_readready after ≡ true
  pub loaded :
      IsReady after v10p bytes
        (image_hdr_of (slice 0 image_hdr_size bytes)).offset_to_image_data
        atoms
  pub counted : IsCounted v10p atoms
  pub plain : IsPlain after
  pub known : after.nc_dispatch ≡ some version
  pub total : after.nc_head.nr_clusters ≡ span atoms
  pub size : after.nc_head.cluster_size ≡ (image_hdr_of (slice 0 image_hdr_size bytes)).cluster_size
  pub same_fd : after.nc_fd ≡ ntcp.nc_fd
  pub front : after.nc_curblock ≡ 0

-- In bucket 0 the count starts at cluster 0, if that is in use.
pub new_v10-IsCounted :
    (v10p : V10Context) (atoms : List Atom)
    → v10p.v10_current_bucket ≡ 0
    → v10p.v10_bsfcount ≡ 0
    → use_bit (cluster_at atoms 0) ≡ 1
    → IsCounted v10p atoms
new_v10-IsCounted v10p atoms current bsf boot first is_first same =
    let is_first_0 : IsFirst atoms 0 = record {
      in_use = boot;
      earlier = λ i h b. absurd (omega (arith, h));
    } in
    let e = IsFirst-unique atoms first 0 is_first is_first_0 (omega (arith, same, current)) in
    omega (arith, e, bsf)

readready-finished :
    (ntcp : NcContext) (head : ImageHdr) (version : NcVersion) (addr addr' : ℕ)
    (bitmap offsets : Array)
    → ntctx_open ntcp ≡ true
    → let after =
        finished
          (scanned (initialised (headed ntcp head version) addr) addr bitmap offsets)
          addr' in
      (ntctx_readready after ≡ true) × (ntctx_have_verdep after ≡ true)
readready-finished ntcp head version addr addr' bitmap offsets ready =
    (ground (arith, ready), ground (arith, ready))

head_read :
    (got bytes : List ℕ)
    → image_hdr_size ≤ length bytes
    → got ≡ slice 0 image_hdr_size bytes
    → image_hdr_of (overlay got (image_hdr_bytes (image_hdr_of (replicate image_hdr_size 0))))
      ≡ image_hdr_of (slice 0 image_hdr_size bytes)
unfolding image_hdr_bytes image_hdr_of le_bytes
head_read got bytes room e =
    let long = ap length e ∙ length-slice 0 image_hdr_size bytes (omega (arith, room)) in
    ap image_hdr_of (
      overlay_full got (image_hdr_bytes (image_hdr_of (replicate image_hdr_size 0)))
        (omega (arith, long))
      ∙ e)

module _ {W : Type 0} {sys : Sysdep W} (con : Contract sys) (mem : HasMemory sys)
    (stack : ℕ → List ℕ) where
  pub ntfsclone_verify-Opens :
      (fuel : ℕ) (ntcp : NcContext) (bytes : List ℕ) (version : NcVersion) (atoms : List Atom)
      (w : W)
      → IsNtfsclone bytes version atoms
      → ntctx_open ntcp ≡ true
      → is_writing ntcp.nc_omode ≡ false
      → ntcp.nc_head ≡ image_hdr_of (replicate image_hdr_size 0)
      → ntcp.nc_cf_handle ≡ none
      → con.is_open ntcp.nc_fd w ≡ true
      → con.content ntcp.nc_fd w ≡ bytes
      → con.position ntcp.nc_fd w ≡ 0
      → length atoms ≤ fuel
      → Opens con stack fuel ntcp bytes version atoms w
  ntfsclone_verify-Opens fuel ntcp bytes version atoms w file ready reading fresh alone opened
        content here enough =
      let fd = ntcp.nc_fd in
      let head = image_hdr_of (slice 0 image_hdr_size bytes) in
      let r = sys.sys_read fd image_hdr_size w in
      let read =
        read_next con fd 0 image_hdr_size w opened here
          (rw content (omega (arith, file.head_room))) in
      let same_r = SameFiles-read con fd image_hdr_size w in
      let got : r.0.got ≡ slice 0 image_hdr_size bytes =
        read.2 ∙ ap (slice 0 image_hdr_size) content in
      let is_head : image_hdr_of (overlay r.0.got (image_hdr_bytes ntcp.nc_head)) ≡ head =
        ap (λ h. image_hdr_of (overlay r.0.got (image_hdr_bytes h))) fresh
        ∙ head_read r.0.got bytes file.head_room got in
      let a = sys.sys_malloc v10_context_size r.1 in
      let same_a = SameFiles-trans con same_r (SameFiles-malloc con v10_context_size r.1) in
      let ntcp1 = initialised (headed ntcp head version) a.0.addr in
      let index =
        v10_verify-Indexes con mem stack fuel ntcp1 a.0.addr bytes atoms a.1 file.image file.total
          (omega (arith, file.few)) file.odd file.near file.magic refl alone ready
          (same_a.is_open fd ∙ opened) (same_a.content fd ∙ content) enough in
      let ntcp2 = scanned ntcp1 a.0.addr index.bitmap index.offsets in
      let m = sys.sys_malloc head.cluster_size index.world in
      let flags =
        readready-finished ntcp head version a.0.addr m.0.addr index.bitmap index.offsets ready in
      let more : (head.nr_clusters + 1) % 2 ^ 64 ≡ head.nr_clusters + 1 = omega (arith, file.few) in
      let v10p : V10Context = record (new_v10 a.0.addr) {
        v10_bitmap = some index.bitmap;
        v10_bucket_offset = some index.offsets;
      } in
      record {
        after = finished ntcp2 m.0.addr;
        v10p = v10p;
        world = m.1;
        runs =
            ntfsclone_verify-steps sys stack fuel ntcp ntcp1 ntcp2 head version w a.1 index.world
              ready read.0 read.1 is_head file.known
              (v10_init-initialised sys stack fuel (headed ntcp head version) r.1 ready reading
                (mem v10_context_size r.1).0)
              index.runs
            ∙ nc_make_ivblock-finished sys stack fuel ntcp2 index.world
                (mem head.cluster_size index.world).0;
        same =
            SameFiles-trans con (SameFiles-trans con same_a index.same)
              (SameFiles-malloc con head.cluster_size index.world);
        ready = flags.0;
        loaded = record {
          bitmap = index.bitmap;
          offsets = index.offsets;
          dep = refl;
          ready = flags.1;
          bits = refl;
          starts = refl;
          factor = refl;
          image = file.image;
          index = index.index;
          few = omega (arith, file.few, file.total);
        };
        counted = new_v10-IsCounted v10p atoms refl refl file.boot;
        plain = record { ivblock = _; buffer = refl; filled = refl; alone = alone };
        known = refl;
        total = more ∙ sym file.total;
        size = refl;
        same_fd = refl;
        front = refl;
      }

  -- Take a file that holds the header of a known version and, from the header's offset on, atoms
  -- of one cluster more than the header counts, with clusters of at least 8 bytes, no empty run
  -- of length 0, cluster 0 in use, fewer than 2 ^ 61 clusters and a count that is no multiple of
  -- 8. For a fresh context opened read-only at the first byte of that open file, without a change
  -- file, under the contract of the services, with memory to be had and as much fuel as there are
  -- atoms, `ntfsclone_verify` returns 0, and then `ntfsclone_readblocks` of `n` clusters, one at
  -- least and none past the end, into a buffer of their size returns 0, changes no file, and
  -- fills the buffer with the first `n` clusters that the atoms stand for, bytes 69 for one not
  -- in use.
  pub ntfsclone_verify-ntfsclone_readblocks :
      (fuel : ℕ) (ntcp : NcContext) (bytes : List ℕ) (version : NcVersion) (atoms : List Atom)
      (n : ℕ) (buffer : List ℕ) (w : W)
      → IsNtfsclone bytes version atoms
      → ntctx_open ntcp ≡ true
      → is_writing ntcp.nc_omode ≡ false
      → ntcp.nc_head ≡ image_hdr_of (replicate image_hdr_size 0)
      → ntcp.nc_cf_handle ≡ none
      → con.is_open ntcp.nc_fd w ≡ true
      → con.content ntcp.nc_fd w ≡ bytes
      → con.position ntcp.nc_fd w ≡ 0
      → length atoms ≤ fuel
      → 0 < n
      → n ≤ span atoms
      → let size = (image_hdr_of (slice 0 image_hdr_size bytes)).cluster_size in
        length buffer ≡ n * size
        → (after after' : NcContext) × (world world' : W) × (ntfsclone_verify sys stack fuel ntcp w
            ≡ some ((0, after), world))
          × (ntfsclone_readblocks sys stack fuel after buffer n world
              ≡ some ((0, clusters_from size atoms n 0, after'), world'))
          × SameFiles con w world'
  ntfsclone_verify-ntfsclone_readblocks fuel ntcp bytes version atoms n buffer w file ready reading
        fresh alone opened content here enough some_blocks inside fits =
      let fd = ntcp.nc_fd in
      let v =
        ntfsclone_verify-Opens fuel ntcp bytes version atoms w file ready reading fresh alone opened
          content here enough in
      let size : n * v.after.nc_head.cluster_size
          ≡ n * (image_hdr_of (slice 0 image_hdr_size bytes)).cluster_size =
        ap (λ (t : ℕ). n * t) v.size in
      let still : con.is_open v.after.nc_fd v.world ≡ true =
        ap (λ f. con.is_open f v.world) v.same_fd ∙ v.same.is_open fd ∙ opened in
      let bytes' : con.content v.after.nc_fd v.world ≡ bytes =
        ap (λ f. con.content f v.world) v.same_fd ∙ v.same.content fd ∙ content in
      let read =
        ntfsclone_readblocks-Reads con stack fuel v.v10p bytes
          (image_hdr_of (slice 0 image_hdr_size bytes)).offset_to_image_data atoms version v.counted
          enough n v.after buffer v.world some_blocks v.ready v.loaded v.plain v.known
          (omega (arith, inside, v.front)) (fits ∙ sym size) still bytes' in
      (
        v.after,
        at_cluster v.after (v.after.nc_curblock + n),
        v.world,
        read.world,
        v.runs,
        read.runs
            ∙ ap₂
                (λ s b. some (
                  (0, clusters_from s atoms n b, at_cluster v.after (v.after.nc_curblock + n)),
                  read.world,
                ))
                v.size v.front,
        SameFiles-trans con v.same read.same,
      )
