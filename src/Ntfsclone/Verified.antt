-- ===== src/Ntfsclone/Verified.antt =====
-- `v10_verify` of src/libntfsclone.c on an image that holds atoms.
use partclone_utils.Base.{
  ℕ, ◌+◌, ◌-◌, ◌/◌, ◌%◌, ◌^◌, ◌≤◌, ◌<◌, ◌≡◌, ◌≢◌, refl, ap, ◌∙◌, true, false, none, some, List,
  arith, ◌==◌, length, get_elem?, same_bytes,
}
use partclone_utils.Sysdep.{Sysdep, Array, array_of, indeterminate, seek_absolute}
use partclone_utils.Sysdep.Contract.{
  Contract, HasMemory, SameFiles, SameFiles-trans, SameFiles-seek, SameFiles-malloc,
}
use partclone_utils.Ntfsclone.{NcContext, V10Context, ntfsclone_magic, ntctx_open}
use partclone_utils.Ntfsclone.Bitmap.{bitmap_bit_value}
use partclone_utils.Ntfsclone.Scan.{Scanned, scan_loop}
use partclone_utils.Ntfsclone.Version10.{
  new_v10, bitmap_size, offsets_size, v10_verify_cf, v10_scan, v10_verify,
}
use partclone_utils.Ntfsclone.View.{
  Atom, cluster_at, use_bit, span, AreAtoms, first_used, HoldsAtoms,
}
use partclone_utils.Ntfsclone.Scanning.{scan_loop-Scans}
use partclone_utils.Ntfsclone.Start.{get_elem?-replicate, start, offsets_size-value, start-CanScan}

-- A file holds atoms of clusters of `size` bytes from offset `at` on.
pub record IsImage (size : ℕ) (bytes : List ℕ) (at : ℕ) (atoms : List Atom) : Type 0 where
  pub valid : AreAtoms size atoms
  pub held : HoldsAtoms bytes at atoms
  pub positive : 0 < at
  pub fits : 8 ≤ size
  pub word : size < 2 ^ 32

-- The context as `v10_verify` leaves it.
abbrev pub scanned : NcContext → ℕ → Array → Array → NcContext
scanned ntcp addr bitmap offsets = record ntcp {
  nc_head = record ntcp.nc_head { nr_clusters = (ntcp.nc_head.nr_clusters + 1) % 2 ^ 64 };
  nc_flags = record ntcp.nc_flags { nc_head_valid = true };
  nc_verdep =
      some (record (new_v10 addr) { v10_bitmap = some bitmap; v10_bucket_offset = some offsets });
}

-- The bitmap and the offsets are those of the atoms.
pub record IsIndex (size at : ℕ) (atoms : List Atom) (bits offsets : List ℕ) : Type 0 where
  pub used :
      (i : ℕ) → i < span atoms → bitmap_bit_value bits i ≡ some (use_bit (cluster_at atoms i))
  pub starts :
      (i : ℕ)
      → i < span atoms
      → get_elem? offsets (i / 2 ^ 10) ≡ some (first_used size 10 atoms at 0 (i / 2 ^ 10))

-- What `v10_verify` establishes.
pub record Indexes {W : Type 0} {sys : Sysdep W} (con : Contract sys) (stack : ℕ → List ℕ)
    (fuel : ℕ) (ntcp : NcContext) (addr : ℕ) (atoms : List Atom) (w : W) : Type 0 where
  pub bitmap : Array
  pub offsets : Array
  pub world : W
  pub runs : v10_verify sys stack fuel ntcp w ≡ some ((0, scanned ntcp addr bitmap offsets), world)
  pub index :
      IsIndex ntcp.nc_head.cluster_size ntcp.nc_head.offset_to_image_data atoms bitmap.cells
        offsets.cells
  pub same : SameFiles con w world

-- The context once `v10_verify` has seen the magic.
abbrev headed : NcContext → NcContext
headed ntcp = record ntcp { nc_flags = record ntcp.nc_flags { nc_head_valid = true } }

-- The context while the scan runs.
abbrev scanning : NcContext → NcContext
scanning ntcp = record ntcp {
  nc_head = record ntcp.nc_head { nr_clusters = (ntcp.nc_head.nr_clusters + 1) % 2 ^ 64 };
}

module _ {W : Type 0} (sys : Sysdep W) (stack : ℕ → List ℕ) (fuel : ℕ) where
  -- The index of the context, once both arrays are there.
  abbrev allotted : ℕ → Array → Array → V10Context
  allotted addr bitmap offsets = record (new_v10 addr) {
    v10_bitmap = some bitmap;
    v10_bucket_offset = some offsets;
  }

  v10_verify-v10_scan :
      (ntcp : NcContext) (addr : ℕ) (w : W)
      → ntcp.nc_verdep ≡ some (new_v10 addr)
      → ntctx_open ntcp ≡ true
      → same_bytes ntcp.nc_head.magic ntfsclone_magic ≡ true
      → let nr = ntcp.nc_head.nr_clusters in
        let a = sys.sys_malloc (bitmap_size nr) w in
        let b = sys.sys_malloc (offsets_size nr 10) a.1 in
        a.0.error ≡ 0
        → a.0.addr ≢ 0
        → b.0.error ≡ 0
        → b.0.addr ≢ 0
        → v10_verify sys stack fuel ntcp w
          ≡ v10_scan sys stack fuel
              (headed ntcp)
              (allotted addr
                (record {
                  addr = a.0.addr;
                  cells = indeterminate a.0.garbage 256 (bitmap_size nr) 0;
                })
                (record {
                  addr = b.0.addr;
                  cells = indeterminate b.0.garbage (2 ^ 64) (offsets_size nr 10 / 8) 0;
                }))
              a.0.addr
              b.0.addr
              b.1
  unfolding v10_verify array_of
  v10_verify-v10_scan ntcp addr w dep ready magic ok ne ok' ne' =
      ground (arith, dep, ready, magic, ok, ne, ok', ne')

  v10_scan-scan_loop :
      (ntcp : NcContext) (addr bits_addr offsets_addr : ℕ) (old_bits old_offsets : Array)
      (after : Scanned) (w w' : W)
      → ntcp.nc_head.nr_clusters < 2 ^ 62
      → ntcp.nc_cf_handle ≡ none
      → scan_loop sys stack fuel
          (scanning ntcp)
          10
          0
          (start ntcp.nc_head.nr_clusters)
          (sys.sys_seek ntcp.nc_fd ntcp.nc_head.offset_to_image_data seek_absolute w).1
        ≡ some ((0, after), w')
      → v10_scan sys stack fuel ntcp (allotted addr old_bits old_offsets) bits_addr offsets_addr w
        ≡ some (
          (
            0,
            record (scanning ntcp) {
              nc_verdep = some (
                  allotted addr
                    (record { addr = bits_addr; cells = after.bits })
                    (record { addr = offsets_addr; cells = after.offsets }));
            },
          ),
          w',
        )
  unfolding v10_scan v10_verify_cf
  v10_scan-scan_loop ntcp addr bits_addr offsets_addr old_bits old_offsets after w w' few alone
        run =
      let goes : (ntcp.nc_head.nr_clusters == 2 ^ 63 - 1) ≡ false = ground (arith, few) in
      ground (arith, goes, run, alone)

module _ {W : Type 0} {sys : Sysdep W} (con : Contract sys) (mem : HasMemory sys) where
  -- For an open context with the magic and a new handle, without a change file, whose header's
  -- offset is where the open file holds atoms of one cluster more than the header counts
  -- (clusters of at least 8 bytes, no empty run of length 0, a count below 2 ^ 62 that is no
  -- multiple of 8), under the contract of the services and with memory to be had, `v10_verify`
  -- ends with as much fuel as there are atoms and returns 0; it changes no file, bit `i` of the
  -- bitmap is 1 if cluster `i` is in use and 0 if not, and the offset of the bucket of every
  -- cluster is that of the bucket's first atom of a used cluster, 0 if it has none.
  pub v10_verify-Indexes :
      (stack : ℕ → List ℕ) (fuel : ℕ) (ntcp : NcContext) (addr : ℕ) (bytes : List ℕ)
      (atoms : List Atom) (w : W)
      → IsImage ntcp.nc_head.cluster_size bytes ntcp.nc_head.offset_to_image_data atoms
      → span atoms ≡ ntcp.nc_head.nr_clusters + 1
      → ntcp.nc_head.nr_clusters < 2 ^ 62
      → ntcp.nc_head.nr_clusters % 8 ≢ 0
      → ntcp.nc_head.offset_to_image_data < 2 ^ 32
      → same_bytes ntcp.nc_head.magic ntfsclone_magic ≡ true
      → ntcp.nc_verdep ≡ some (new_v10 addr)
      → ntcp.nc_cf_handle ≡ none
      → ntctx_open ntcp ≡ true
      → con.is_open ntcp.nc_fd w ≡ true
      → con.content ntcp.nc_fd w ≡ bytes
      → length atoms ≤ fuel
      → Indexes con stack fuel ntcp addr atoms w
  v10_verify-Indexes stack fuel ntcp addr bytes atoms w image total few odd near magic dep alone
        ready opened content enough =
      let fd = ntcp.nc_fd in
      let nr = ntcp.nc_head.nr_clusters in
      let at = ntcp.nc_head.offset_to_image_data in
      let a = sys.sys_malloc (bitmap_size nr) w in
      let b = sys.sys_malloc (offsets_size nr 10) a.1 in
      let s = sys.sys_seek fd at seek_absolute b.1 in
      let same_b =
        SameFiles-trans con (SameFiles-malloc con (bitmap_size nr) w)
          (SameFiles-malloc con (offsets_size nr 10) a.1) in
      let same_s = SameFiles-trans con same_b (SameFiles-seek con fd at seek_absolute b.1) in
      let sought = con.seek_to fd at b.1 (same_b.is_open fd ∙ opened) (omega (arith, near)) in
      let more : (nr + 1) % 2 ^ 64 ≡ nr + 1 = omega (arith, few) in
      let scan =
        scan_loop-Scans con stack (scanning (headed ntcp)) 10 ntcp.nc_head.cluster_size bytes
          image.fits image.word refl (omega (arith, few)) atoms at fuel (start nr) s.1 image.valid
          image.held image.positive enough (omega (arith, total, more))
          (start-CanScan nr atoms few odd total) (same_s.is_open fd ∙ opened)
          (same_s.content fd ∙ content) sought.1 in
      let fit = mem (bitmap_size nr) w in
      let fit' = mem (offsets_size nr 10) a.1 in
      record {
        bitmap = record { addr = a.0.addr; cells = scan.after.bits };
        offsets = record { addr = b.0.addr; cells = scan.after.offsets };
        world = scan.world;
        runs =
            v10_verify-v10_scan sys stack fuel ntcp addr w dep ready magic fit.0 fit.1 fit'.0 fit'.1
            ∙ v10_scan-scan_loop sys stack fuel (headed ntcp) addr a.0.addr b.0.addr _ _ scan.after
                b.1 scan.world few alone scan.runs;
        index = record {
          used = λ i h.
              ap (bitmap_bit_value scan.after.bits) {y = 0 + i} (omega arith) ∙ scan.scan.marks i h;
          starts = λ i h. scan.scan.hints (i / 2 ^ 10) 0 (
              get_elem?-replicate (offsets_size nr 10 / 8) (i / 2 ^ 10) 0
                (omega (arith, h, total, offsets_size-value nr few)));
        };
        same = SameFiles-trans con same_s scan.same;
      }
