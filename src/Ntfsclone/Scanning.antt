-- ===== src/Ntfsclone/Scanning.antt =====
-- The scan of `v10_verify` in src/libntfsclone.c over an image that holds atoms.
use partclone_utils.Base.{
  ℕ, zero, suc, ◌+◌, ◌-◌, ◌%◌, ◌^◌, ◌≤◌, ◌<◌, ◌≡◌, ap, ◌∙◌, true, some, List, [], ◌∷◌, arith,
  length, overlay, slice, ltb, lt→ltb,
}
use partclone_utils.Base.Words.{le_bytes}
use partclone_utils.Sysdep.{Sysdep, M, seek_relative}
use partclone_utils.Sysdep.Contract.{
  Contract, SameFiles, SameFiles-refl, SameFiles-trans, SameFiles-seek, SameFiles-read, read_next,
}
use partclone_utils.Ntfsclone.{NcContext, atom_size, nca_atype, ncau_empty_count}
use partclone_utils.Ntfsclone.Scan.{
  Scanned, note_used, atom_offset, rest_of_cluster, scan_atom, scan_round, scan_loop,
}
use partclone_utils.Ntfsclone.View.{Atom, empty_run, used_cluster, span, AreAtoms, HoldsAtoms}
use partclone_utils.Ntfsclone.Atoms.{
  HoldsAtoms-empty, HoldsAtoms-used, room-empty, room-used, slice-empty, slice-used,
  ncau_empty_count-overlay, nca_atype-overlay,
}
use partclone_utils.Ntfsclone.Marks.{
  CanScan, IsScan, passed, noted, IsScan-refl, CanScan-passed, IsScan-passed, CanScan-noted,
  IsScan-noted, note_used-noted,
}

module _ {W : Type 0} (sys : Sysdep W) (stack : ℕ → List ℕ) (ntcp : NcContext) (factor : ℕ) where
  -- A round that reads a run of empty clusters.
  pub scan_round-empty :
      (n : ℕ) (buffer : List ℕ) (s : Scanned) (w : W)
      → s.cclust + n < 2 ^ 64
      → let k = sys.sys_seek ntcp.nc_fd 0 seek_relative w in
        let r = sys.sys_read ntcp.nc_fd atom_size k.1 in
        r.0.error ≡ 0
        → nca_atype (overlay r.0.got buffer) ≡ 0
        → ncau_empty_count (overlay r.0.got buffer) ≡ n
        → scan_round sys stack ntcp factor buffer s w ≡ some ((0, passed n s), r.1)
  unfolding scan_round scan_atom
  scan_round-empty n buffer s w small ok kind count =
      let total : (s.cclust + n) % 2 ^ 64 ≡ s.cclust + n = omega arith in
      ground (arith, ok, kind, count, total)

  -- The loop with such a round first.
  scan_loop-empty :
      (left n : ℕ) (s : Scanned) (w : W)
      → s.cclust < ntcp.nc_head.nr_clusters
      → s.cclust + n < 2 ^ 64
      → let k = sys.sys_seek ntcp.nc_fd 0 seek_relative w in
        let r = sys.sys_read ntcp.nc_fd atom_size k.1 in
        r.0.error ≡ 0
        → nca_atype (overlay r.0.got (stack left)) ≡ 0
        → ncau_empty_count (overlay r.0.got (stack left)) ≡ n
        → scan_loop sys stack (suc left) ntcp factor 0 s w
          ≡ scan_loop sys stack left ntcp factor 0 (passed n s) r.1
  unfolding scan_loop
  scan_loop-empty left n s w more small ok kind count =
      let goes : ltb s.cclust ntcp.nc_head.nr_clusters ≡ true =
        lt→ltb s.cclust ntcp.nc_head.nr_clusters more in
      let round = scan_round-empty n (stack left) s w small ok kind count in
      ground (arith, goes, round)

  scan_atom-used :
      (s s' : Scanned) (ibuf : List ℕ) (w : W)
      → let q = sys.sys_seek ntcp.nc_fd (rest_of_cluster ntcp.nc_head) seek_relative w in
        nca_atype ibuf ≡ 1
        → q.0.error ≡ 0
        → note_used ntcp factor q.0.offset s ≡ some s'
        → scan_atom sys stack ntcp factor ibuf s w ≡ some ((0, s'), q.1)
  unfolding scan_atom
  scan_atom-used s s' ibuf w kind sought noted_eq = ground (arith, kind, sought, noted_eq)

  -- A round that reads the atom of a used cluster.
  scan_loop-used :
      (left : ℕ) (s s' : Scanned) (w : W)
      → s.cclust < ntcp.nc_head.nr_clusters
      → let k = sys.sys_seek ntcp.nc_fd 0 seek_relative w in
        let r = sys.sys_read ntcp.nc_fd atom_size k.1 in
        let q = sys.sys_seek ntcp.nc_fd (rest_of_cluster ntcp.nc_head) seek_relative r.1 in
        r.0.error ≡ 0
        → nca_atype (overlay r.0.got (stack left)) ≡ 1
        → q.0.error ≡ 0
        → note_used ntcp factor q.0.offset s ≡ some s'
        → scan_loop sys stack (suc left) ntcp factor 0 s w
          ≡ scan_loop sys stack left ntcp factor 0 s' q.1
  unfolding scan_loop scan_round
  scan_loop-used left s s' w more ok kind sought noted_eq =
      let goes : ltb s.cclust ntcp.nc_head.nr_clusters ≡ true =
        lt→ltb s.cclust ntcp.nc_head.nr_clusters more in
      let k = sys.sys_seek ntcp.nc_fd 0 seek_relative w in
      let r = sys.sys_read ntcp.nc_fd atom_size k.1 in
      let step = scan_atom-used s s' (overlay r.0.got (stack left)) r.1 kind sought noted_eq in
      ground (arith, goes, ok, step)

  -- The loop is over.
  scan_loop-end :
      (fuel : ℕ) (s : Scanned) (w : W)
      → s.cclust ≡ ntcp.nc_head.nr_clusters
      → scan_loop sys stack fuel ntcp factor 0 s w ≡ some ((0, s), w)
  unfolding scan_loop
  scan_loop-end zero s w e = ground (arith, e)
  scan_loop-end (suc left) s w e = ground (arith, e)

-- A run of the scan over atoms from offset `at` on.
pub record Scans {W : Type 0} {sys : Sysdep W} (con : Contract sys) (size factor at : ℕ)
    (atoms : List Atom) (s : Scanned) (run : M W (ℕ × Scanned)) (w : W) : Type 0 where
  pub after : Scanned
  pub world : W
  pub runs : run w ≡ some ((0, after), world)
  pub same : SameFiles con w world
  pub scan : IsScan size factor at atoms s after

module _ {W : Type 0} {sys : Sysdep W} (con : Contract sys) (stack : ℕ → List ℕ) (ntcp : NcContext)
    (factor size : ℕ) (bytes : List ℕ) (fits : 8 ≤ size) (word : size < 2 ^ 32)
    (same_size : ntcp.nc_head.cluster_size ≡ size) (few : ntcp.nc_head.nr_clusters < 2 ^ 63) where
  rest_value : rest_of_cluster ntcp.nc_head ≡ size - 8
  rest_value = omega (arith, same_size)

  atom_offset-behind :
      (at cfoffs : ℕ)
      → cfoffs ≡ at + suc size
      → cfoffs < 2 ^ 63
      → atom_offset ntcp.nc_head cfoffs ≡ at
  atom_offset-behind at cfoffs e short = omega (arith, same_size, e)

  -- What the services say while an atom is read: the seek to where the file already is, and the read.
  record AtomRead (at : ℕ) (w : W) : Type 0 where
    ok :
        (sys.sys_read ntcp.nc_fd atom_size (sys.sys_seek ntcp.nc_fd 0 seek_relative w).1).0.error
        ≡ 0
    got :
        (sys.sys_read ntcp.nc_fd atom_size (sys.sys_seek ntcp.nc_fd 0 seek_relative w).1).0.got
        ≡ slice at atom_size bytes
    position :
        con.position ntcp.nc_fd
          (sys.sys_read ntcp.nc_fd atom_size (sys.sys_seek ntcp.nc_fd 0 seek_relative w).1).1
        ≡ at + atom_size
    same :
        SameFiles con w
          (sys.sys_read ntcp.nc_fd atom_size (sys.sys_seek ntcp.nc_fd 0 seek_relative w).1).1

  read_atom :
      (at : ℕ) (w : W)
      → con.is_open ntcp.nc_fd w ≡ true
      → con.content ntcp.nc_fd w ≡ bytes
      → con.position ntcp.nc_fd w ≡ at
      → at + atom_size ≤ length bytes
      → length bytes < 2 ^ 63
      → AtomRead at w
  read_atom at w opened content here room short =
      let fd = ntcp.nc_fd in
      let k = sys.sys_seek fd 0 seek_relative w in
      let same_k = SameFiles-seek con fd 0 seek_relative w in
      let sought = con.seek_by fd 0 w opened (omega (arith, here)) in
      let content_k : con.content fd k.1 ≡ bytes = same_k.content fd ∙ content in
      let r =
        read_next con fd at atom_size k.1 (same_k.is_open fd ∙ opened)
          (sought.2 ∙ omega (arith, here)) (rw content_k room) in
      record {
        ok = r.0;
        got = r.2 ∙ ap (slice at atom_size) content_k;
        position = r.3;
        same = SameFiles-trans con same_k (SameFiles-read con fd atom_size k.1);
      }

  pub scan_loop-Scans :
      (atoms : List Atom) (at fuel : ℕ) (s : Scanned) (w : W)
      → AreAtoms size atoms
      → HoldsAtoms bytes at atoms
      → 0 < at
      → length atoms ≤ fuel
      → s.cclust + span atoms ≡ ntcp.nc_head.nr_clusters
      → CanScan factor atoms s
      → con.is_open ntcp.nc_fd w ≡ true
      → con.content ntcp.nc_fd w ≡ bytes
      → con.position ntcp.nc_fd w ≡ at
      → Scans con size factor at atoms s (scan_loop sys stack fuel ntcp factor 0 s) w
  scan_loop-Scans [] at fuel s w valid held positive enough ends can opened content here = record {
    after = s;
    world = w;
    runs = scan_loop-end sys stack ntcp factor fuel s w (omega (arith, ends));
    same = SameFiles-refl con w;
    scan = IsScan-refl size factor at [] s;
  }
  scan_loop-Scans (atom ∷ atoms) at zero s w valid held positive enough ends can opened content
        here =
      absurd (omega (arith, enough))
  scan_loop-Scans (empty_run n ∷ atoms) at (suc fuel) s w valid held positive enough ends can opened
        content here =
      let fd = ntcp.nc_fd in
      let k = sys.sys_seek fd 0 seek_relative w in
      let r = sys.sys_read fd atom_size k.1 in
      let read = read_atom at w opened content here (room-empty bytes at atoms n held) held.short in
      let got : r.0.got ≡ 0 ∷ le_bytes 8 n = read.got ∙ slice-empty bytes at atoms n held in
      let more : s.cclust < ntcp.nc_head.nr_clusters = omega (arith, ends, valid.0) in
      let rest =
        scan_loop-Scans atoms (at + atom_size) fuel (passed n s) r.1 valid.1
          (HoldsAtoms-empty bytes at atoms n held) (omega arith) (omega (arith, enough))
          (omega (arith, ends)) (CanScan-passed size factor at atoms s n can)
          (read.same.is_open fd ∙ opened) (read.same.content fd ∙ content) read.position in
      record {
        after = rest.after;
        world = rest.world;
        runs =
            scan_loop-empty sys stack ntcp factor fuel n s w more (omega (arith, ends)) read.ok
              (nca_atype-overlay 0 r.0.got (le_bytes 8 n) (stack fuel) got)
              (ncau_empty_count-overlay n r.0.got (stack fuel) (omega (arith, ends)) got)
            ∙ rest.runs;
        same = SameFiles-trans con read.same rest.same;
        scan = IsScan-passed size factor at atoms s n rest.after can rest.scan;
      }
  scan_loop-Scans (used_cluster cells ∷ atoms) at (suc fuel) s w valid held positive enough ends can
        opened content here =
      let fd = ntcp.nc_fd in
      let room = room-used bytes at atoms cells size valid.0 held in
      let k = sys.sys_seek fd 0 seek_relative w in
      let r = sys.sys_read fd atom_size k.1 in
      let q = sys.sys_seek fd (rest_of_cluster ntcp.nc_head) seek_relative r.1 in
      let read = read_atom at w opened content here (omega (arith, room)) held.short in
      let got = read.got ∙ slice-used bytes at atoms cells size valid.0 held in
      let target : con.position fd r.1 + rest_of_cluster ntcp.nc_head ≡ at + suc size =
        omega (arith, read.position, rest_value) in
      let sought =
        con.seek_by fd (rest_of_cluster ntcp.nc_head) r.1 (read.same.is_open fd ∙ opened)
          (omega (arith, target, room, held.short)) in
      let same_q =
        SameFiles-trans con read.same
          (SameFiles-seek con fd (rest_of_cluster ntcp.nc_head) seek_relative r.1) in
      let behind : q.0.offset ≡ at + suc size = sought.1 ∙ target in
      let more : s.cclust < ntcp.nc_head.nr_clusters = omega (arith, ends) in
      let marked =
        note_used-noted size factor at atoms s ntcp cells q.0.offset can (omega arith)
          (atom_offset-behind at q.0.offset behind (omega (arith, behind, room, held.short))) in
      let rest =
        scan_loop-Scans atoms (at + suc size) fuel (noted factor at s) q.1 valid.1
          (HoldsAtoms-used bytes at atoms cells size valid.0 held) (omega arith)
          (omega (arith, enough)) (omega (arith, ends))
          (CanScan-noted size factor at atoms s cells can) (same_q.is_open fd ∙ opened)
          (same_q.content fd ∙ content) (sought.2 ∙ target) in
      record {
        after = rest.after;
        world = rest.world;
        runs =
            scan_loop-used sys stack ntcp factor fuel s (noted factor at s) w more read.ok
              (nca_atype-overlay 1 r.0.got _ (stack fuel) got) sought.0 marked
            ∙ rest.runs;
        same = SameFiles-trans con same_q rest.same;
        scan = IsScan-noted size factor at atoms s cells rest.after positive can rest.scan;
      }
