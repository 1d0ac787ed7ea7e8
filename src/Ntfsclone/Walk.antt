-- ===== src/Ntfsclone/Walk.antt =====
-- The walk of `seek2cluster` in src/libntfsclone.c over an image that holds atoms.
use partclone_utils.Base.{
  ℕ, zero, suc, ◌+◌, ◌-◌, ◌%◌, ◌^◌, ◌≤◌, ◌<◌, ◌≡◌, refl, sym, ap, ◌∙◌, true, some, List, [], ◌∷◌,
  arith, length, overlay, slice, ltb, lt→ltb, inl, inr, Bool-cases,
}
use partclone_utils.Base.Words.{le_bytes}
use partclone_utils.Sysdep.{Sysdep, M, seek_relative}
use partclone_utils.Sysdep.Contract.{
  Contract, SameFiles, SameFiles-refl, SameFiles-trans, SameFiles-seek, SameFiles-read, read_next,
}
use partclone_utils.Ntfsclone.{NcContext, atom_size, nca_atype, ncau_empty_count}
use partclone_utils.Ntfsclone.Scan.{rest_of_cluster}
use partclone_utils.Ntfsclone.Seek.{walk_atom, walk_loop}
use partclone_utils.Ntfsclone.View.{Atom, empty_run, used_cluster, cluster_at, AreAtoms, HoldsAtoms}
use partclone_utils.Ntfsclone.Atoms.{
  HoldsAtoms-empty, HoldsAtoms-used, room-empty, room-used, slice-empty, slice-used, slice-cells,
  ncau_empty_count-overlay, nca_atype-overlay,
}
use partclone_utils.Ntfsclone.Marks.{cluster_at-run, cluster_at-past_run}

module _ {W : Type 0} (sys : Sysdep W) (stack : ℕ → List ℕ) (ntcp : NcContext) (cnum : ℕ) where
  walk_loop-empty :
      (left n cpos : ℕ) (w : W)
      → cpos < cnum
      → cpos + n < 2 ^ 64
      → let r = sys.sys_read ntcp.nc_fd atom_size w in
        r.0.error ≡ 0
        → nca_atype (overlay r.0.got (stack left)) ≡ 0
        → ncau_empty_count (overlay r.0.got (stack left)) ≡ n
        → walk_loop sys stack (suc left) ntcp cnum 0 cpos w
          ≡ walk_loop sys stack left ntcp cnum 0 (cpos + n) r.1
  unfolding walk_loop walk_atom
  walk_loop-empty left n cpos w more small ok kind count =
      let goes : ltb cpos cnum ≡ true = lt→ltb cpos cnum more in
      let total : (cpos + n) % 2 ^ 64 ≡ cpos + n = omega arith in
      rw (walk_loop, goes, ok, kind, count, total) refl

  walk_atom-used :
      (cpos : ℕ) (ibuf : List ℕ) (w : W)
      → let q = sys.sys_seek ntcp.nc_fd (rest_of_cluster ntcp.nc_head) seek_relative w in
        nca_atype ibuf ≡ 1
        → q.0.error ≡ 0
        → cpos < 2 ^ 63
        → walk_atom sys stack ntcp ibuf cpos w ≡ some ((0, cpos + 1), q.1)
  unfolding walk_atom
  walk_atom-used cpos ibuf w kind sought small =
      let next : (cpos + 1) % 2 ^ 64 ≡ cpos + 1 = omega arith in ground (arith, kind, sought, next)

  walk_loop-used :
      (left cpos : ℕ) (w : W)
      → cpos < cnum
      → cpos < 2 ^ 63
      → let r = sys.sys_read ntcp.nc_fd atom_size w in
        let q = sys.sys_seek ntcp.nc_fd (rest_of_cluster ntcp.nc_head) seek_relative r.1 in
        r.0.error ≡ 0
        → nca_atype (overlay r.0.got (stack left)) ≡ 1
        → q.0.error ≡ 0
        → walk_loop sys stack (suc left) ntcp cnum 0 cpos w
          ≡ walk_loop sys stack left ntcp cnum 0 (cpos + 1) q.1
  unfolding walk_loop
  walk_loop-used left cpos w more small ok kind sought =
      let goes : ltb cpos cnum ≡ true = lt→ltb cpos cnum more in
      let r = sys.sys_read ntcp.nc_fd atom_size w in
      let step = walk_atom-used cpos (overlay r.0.got (stack left)) r.1 kind sought small in
      ground (arith, goes, ok, step)

  walk_loop-end :
      (fuel cpos : ℕ) (w : W)
      → cpos ≡ cnum
      → walk_loop sys stack fuel ntcp cnum 0 cpos w ≡ some ((0, cnum), w)
  unfolding walk_loop
  walk_loop-end zero cpos w e = ground (arith, e)
  walk_loop-end (suc left) cpos w e = ground (arith, e)

-- A walk that ends at the atom of a used cluster.
pub record Reaches {W : Type 0} {sys : Sysdep W} (con : Contract sys) (fd size : ℕ)
    (bytes cells : List ℕ) (cnum : ℕ) (run : M W (ℕ × ℕ)) (w : W) : Type 0 where
  pub world : W
  pub at : ℕ
  pub runs : run w ≡ some ((0, cnum), world)
  pub same : SameFiles con w world
  pub position : con.position fd world ≡ at
  pub data_at : slice (at + 1) size bytes ≡ cells
  pub room : at + suc size ≤ length bytes

module _ {W : Type 0} {sys : Sysdep W} (con : Contract sys) (stack : ℕ → List ℕ) (ntcp : NcContext)
    (size cnum : ℕ) (bytes cells : List ℕ) (fits : 8 ≤ size) (word : size < 2 ^ 32)
    (same_size : ntcp.nc_head.cluster_size ≡ size) (few : cnum < 2 ^ 62) where
  rest_value : rest_of_cluster ntcp.nc_head ≡ size - 8
  rest_value = omega (arith, same_size)

  pub walk_loop-Reaches :
      (atoms : List Atom) (at fuel cpos j : ℕ) (w : W)
      → AreAtoms size atoms
      → HoldsAtoms bytes at atoms
      → length atoms ≤ fuel
      → cpos + j ≡ cnum
      → cluster_at atoms j ≡ some cells
      → con.is_open ntcp.nc_fd w ≡ true
      → con.content ntcp.nc_fd w ≡ bytes
      → con.position ntcp.nc_fd w ≡ at
      → Reaches con ntcp.nc_fd size bytes cells cnum (walk_loop sys stack fuel ntcp cnum 0 cpos) w
  walk_loop-Reaches [] at fuel cpos j w valid held enough ends used opened content here =
      absurd (ground (arith, used))
  walk_loop-Reaches (atom ∷ atoms) at zero cpos j w valid held enough ends used opened content
        here =
      absurd (omega (arith, enough))
  walk_loop-Reaches (empty_run n ∷ atoms) at (suc fuel) cpos j w valid held enough ends used opened
        content here =
      elim (Bool-cases (ltb j n)) [
        | inl e ↦
            let inside = cluster_at-run n j atoms (ground (arith, e)) in
            absurd (ground (arith, used, inside))
        | inr e ↦
            let past : n ≤ j = ground (arith, e) in
            let fd = ntcp.nc_fd in
            let r = sys.sys_read fd atom_size w in
            let read =
              read_next con fd at atom_size w opened here
                (rw content (room-empty bytes at atoms n held)) in
            let same_r = SameFiles-read con fd atom_size w in
            let got : r.0.got ≡ 0 ∷ le_bytes 8 n =
              read.2 ∙ ap (slice at atom_size) content ∙ slice-empty bytes at atoms n held in
            let rest =
              walk_loop-Reaches atoms (at + atom_size) fuel (cpos + n) (j - n) r.1 valid.1
                (HoldsAtoms-empty bytes at atoms n held) (omega (arith, enough))
                (omega (arith, ends, past)) (sym (cluster_at-past_run n j atoms past) ∙ used)
                (same_r.is_open fd ∙ opened) (same_r.content fd ∙ content) read.3 in
            record {
              world = rest.world;
              at = rest.at;
              runs =
                  walk_loop-empty sys stack ntcp cnum fuel n cpos w
                    (omega (arith, ends, past, valid.0)) (omega (arith, ends, past, few)) read.0
                    (nca_atype-overlay 0 r.0.got (le_bytes 8 n) (stack fuel) got)
                    (ncau_empty_count-overlay n r.0.got (stack fuel)
                      (omega (arith, ends, past, few)) got)
                  ∙ rest.runs;
              same = SameFiles-trans con same_r rest.same;
              position = rest.position;
              data_at = rest.data_at;
              room = rest.room;
            }
      ]
  walk_loop-Reaches (used_cluster first ∷ atoms) at (suc fuel) cpos zero w valid held enough ends
        used opened content here =
      record {
        world = w;
        at = at;
        runs = walk_loop-end sys stack ntcp cnum (suc fuel) cpos w (omega (arith, ends));
        same = SameFiles-refl con w;
        position = here;
        data_at = slice-cells bytes at atoms first size valid.0 held ∙ ground (arith, used);
        room = room-used bytes at atoms first size valid.0 held;
      }
  walk_loop-Reaches (used_cluster first ∷ atoms) at (suc fuel) cpos (suc j) w valid held enough ends
        used opened content here =
      let fd = ntcp.nc_fd in
      let room = room-used bytes at atoms first size valid.0 held in
      let r = sys.sys_read fd atom_size w in
      let q = sys.sys_seek fd (rest_of_cluster ntcp.nc_head) seek_relative r.1 in
      let read = read_next con fd at atom_size w opened here (rw content (omega (arith, room))) in
      let same_r = SameFiles-read con fd atom_size w in
      let got =
        read.2
        ∙ ap (slice at atom_size) content
        ∙ slice-used bytes at atoms first size valid.0 held in
      let target : con.position fd r.1 + rest_of_cluster ntcp.nc_head ≡ at + suc size =
        omega (arith, read.3, rest_value) in
      let sought =
        con.seek_by fd (rest_of_cluster ntcp.nc_head) r.1 (same_r.is_open fd ∙ opened)
          (omega (arith, target, room, held.short)) in
      let same_q =
        SameFiles-trans con same_r
          (SameFiles-seek con fd (rest_of_cluster ntcp.nc_head) seek_relative r.1) in
      let rest =
        walk_loop-Reaches atoms (at + suc size) fuel (cpos + 1) j q.1 valid.1
          (HoldsAtoms-used bytes at atoms first size valid.0 held) (omega (arith, enough))
          (omega (arith, ends)) used (same_q.is_open fd ∙ opened) (same_q.content fd ∙ content)
          (sought.2 ∙ target) in
      record {
        world = rest.world;
        at = rest.at;
        runs =
            walk_loop-used sys stack ntcp cnum fuel cpos w (omega (arith, ends))
              (omega (arith, ends, few)) read.0 (nca_atype-overlay 1 r.0.got _ (stack fuel) got)
              sought.0
            ∙ rest.runs;
        same = SameFiles-trans con same_q rest.same;
        position = rest.position;
        data_at = rest.data_at;
        room = rest.room;
      }
