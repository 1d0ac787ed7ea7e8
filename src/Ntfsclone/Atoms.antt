-- ===== src/Ntfsclone/Atoms.antt =====
-- Where the atoms of an image of ntfsclone (src/ntfsclone.h) lie in the file, and what the buffer of
-- `v10_verify` and `seek2cluster` in src/libntfsclone.c holds once an atom is read.
use partclone_utils.Base.{
  ℕ, suc, ◌+◌, ◌^◌, ◌≤◌, ◌<◌, ◌≡◌, sym, ap, ◌∙◌, List, ◌∷◌, ◌++◌, arith, length, take, drop, slice,
  overlay, drop-drop, length-drop, length-append, drop-append_length, append_assoc,
  take-append_length,
}
use partclone_utils.Base.Words.{le_bytes, le_value, length-le_bytes, le_value-le_bytes}
use partclone_utils.Ntfsclone.{atom_size, nca_atype, ncau_empty_count}
use partclone_utils.Ntfsclone.View.{Atom, empty_run, used_cluster, atoms_bytes, HoldsAtoms}

-- What is behind the front of a file's end.
drop-front :
    (bytes xs ys : List ℕ) (at : ℕ) → drop at bytes ≡ xs ++ ys → drop (at + length xs) bytes ≡ ys
drop-front bytes xs ys at h =
    sym (drop-drop (length xs) at bytes) ∙ ap (drop (length xs)) h ∙ drop-append_length xs ys

room-front :
    (bytes xs ys : List ℕ) (at : ℕ)
    → 0 < length xs
    → drop at bytes ≡ xs ++ ys
    → at + length xs ≤ length bytes
room-front bytes xs ys at some_bytes h =
    let e = ap length h in omega (arith, length-drop at bytes, length-append xs ys, e)

module _ (bytes : List ℕ) (at : ℕ) (atoms : List Atom) where
  -- Behind a run of empty clusters.
  module _ (n : ℕ) (held : HoldsAtoms bytes at (empty_run n ∷ atoms)) where
    front : drop at bytes ≡ (0 ∷ le_bytes 8 n) ++ (atoms_bytes atoms ++ held.tail)
    front = held.here ∙ append_assoc (0 ∷ le_bytes 8 n) (atoms_bytes atoms) held.tail

    size_of : length (0 ∷ le_bytes 8 n) ≡ atom_size
    size_of = ap suc (length-le_bytes 8 n)

    pub HoldsAtoms-empty : HoldsAtoms bytes (at + atom_size) atoms
    HoldsAtoms-empty = record {
      tail = held.tail;
      here =
          ap (λ k. drop (at + k) bytes) (sym size_of)
          ∙ drop-front bytes (0 ∷ le_bytes 8 n) (atoms_bytes atoms ++ held.tail) at front;
      short = held.short;
    }

    pub room-empty : at + atom_size ≤ length bytes
    room-empty =
        let r =
          room-front bytes (0 ∷ le_bytes 8 n) (atoms_bytes atoms ++ held.tail) at (omega arith)
            front in
        omega (arith, r, size_of)

    pub slice-empty : slice at atom_size bytes ≡ 0 ∷ le_bytes 8 n
    slice-empty =
        ap (take atom_size) front
        ∙ ap (λ k. take k ((0 ∷ le_bytes 8 n) ++ (atoms_bytes atoms ++ held.tail))) (sym size_of)
        ∙ take-append_length (0 ∷ le_bytes 8 n) (atoms_bytes atoms ++ held.tail)

  -- Behind a used cluster.
  module _ (cells : List ℕ) (size : ℕ) (sized : length cells ≡ size)
      (held : HoldsAtoms bytes at (used_cluster cells ∷ atoms)) where
    front_used : drop at bytes ≡ (1 ∷ cells) ++ (atoms_bytes atoms ++ held.tail)
    front_used = held.here ∙ append_assoc (1 ∷ cells) (atoms_bytes atoms) held.tail

    pub HoldsAtoms-used : HoldsAtoms bytes (at + suc size) atoms
    HoldsAtoms-used = record {
      tail = held.tail;
      here =
          ap (λ k. drop (at + suc k) bytes) (sym sized)
          ∙ drop-front bytes (1 ∷ cells) (atoms_bytes atoms ++ held.tail) at front_used;
      short = held.short;
    }

    pub room-used : at + suc size ≤ length bytes
    room-used =
        let r =
          room-front bytes (1 ∷ cells) (atoms_bytes atoms ++ held.tail) at (omega arith)
            front_used in
        omega (arith, r, sized)

    pub slice-used :
        slice at atom_size bytes ≡ 1 ∷ take 8 (cells ++ (atoms_bytes atoms ++ held.tail))
    slice-used = ap (take atom_size) front_used

    -- The data are behind the type.
    pub slice-cells : slice (at + 1) size bytes ≡ cells
    slice-cells =
        let e = drop-drop 1 at bytes in
        ap (take size) (sym e ∙ ap (drop 1) front_used)
        ∙ ap (λ k. take k (cells ++ (atoms_bytes atoms ++ held.tail))) (sym sized)
        ∙ take-append_length cells (atoms_bytes atoms ++ held.tail)

-- The type and the count of an empty run in the buffer.
pub ncau_empty_count-overlay :
    (n : ℕ) (got buffer : List ℕ)
    → n < 2 ^ 64
    → got ≡ 0 ∷ le_bytes 8 n
    → ncau_empty_count (overlay got buffer) ≡ n
ncau_empty_count-overlay n got buffer small e =
    let behind = drop (length (0 ∷ le_bytes 8 n)) buffer in
    ap (λ g. ncau_empty_count (overlay g buffer)) e
    ∙ ap (λ k. le_value (take k (le_bytes 8 n ++ behind))) (sym (length-le_bytes 8 n))
    ∙ ap le_value (take-append_length (le_bytes 8 n) behind)
    ∙ le_value-le_bytes 8 n small

pub nca_atype-overlay :
    (kind : ℕ) (got rest buffer : List ℕ)
    → got ≡ kind ∷ rest
    → nca_atype (overlay got buffer) ≡ kind
nca_atype-overlay kind got rest buffer e = ap (λ g. nca_atype (overlay g buffer)) e
