-- ===== src/Ntfsclone/View.antt =====
-- The specification of images of ntfsclone (src/ntfsclone.h): a list of atoms, its bytes in the image
-- file, and the clusters that it stands for.
use partclone_utils.Base.{
  ℕ, zero, suc, ◌+◌, ◌-◌, ◌/◌, ◌^◌, ◌<◌, ◌≡◌, Option, none, some, List, [], ◌∷◌, ◌++◌, ltb, ◌==◌,
  if◌then◌else◌, length, drop,
}
use partclone_utils.Base.Words.{le_bytes}
use partclone_utils.Ntfsclone.{atom_size}

-- A number of clusters that are not in use, or one cluster with its data.
pub data Atom : Type 0 where
  empty_run : ℕ → Atom
  used_cluster : List ℕ → Atom

-- The bytes of atoms, one behind another: a 0 and the number, or a 1 and the data.
abbrev pub atoms_bytes : List Atom → List ℕ
atoms_bytes [] = []
atoms_bytes (empty_run n ∷ atoms) = (0 ∷ le_bytes 8 n) ++ atoms_bytes atoms
atoms_bytes (used_cluster cells ∷ atoms) = (1 ∷ cells) ++ atoms_bytes atoms

-- The data of cluster `i`; `none` for one that is not in use.
abbrev pub cluster_at : List Atom → ℕ → Option (List ℕ)
cluster_at [] i = none
cluster_at (empty_run n ∷ atoms) i = if ltb i n then none else cluster_at atoms (i - n)
cluster_at (used_cluster cells ∷ atoms) zero = some cells
cluster_at (used_cluster cells ∷ atoms) (suc i) = cluster_at atoms i

-- 1 for a cluster in use, 0 for one that is not.
abbrev pub use_bit : Option (List ℕ) → ℕ
use_bit none = 0
use_bit (some cells) = 1

-- The number of clusters.
abbrev pub span : List Atom → ℕ
span [] = 0
span (empty_run n ∷ atoms) = n + span atoms
span (used_cluster cells ∷ atoms) = suc (span atoms)

-- Runs are not empty, and every cluster has its size.
abbrev pub AreAtoms : ℕ → List Atom → Type 0
AreAtoms size [] = Unit
AreAtoms size (empty_run n ∷ atoms) = (0 < n) × AreAtoms size atoms
AreAtoms size (used_cluster cells ∷ atoms) = (length cells ≡ size) × AreAtoms size atoms

-- The offset of the first atom of a used cluster in bucket `k`, 0 if there is none, for atoms that
-- start at offset `at` with cluster `c`.
abbrev pub first_used : ℕ → ℕ → List Atom → ℕ → ℕ → ℕ → ℕ
first_used size factor [] at c k = 0
first_used size factor (empty_run n ∷ atoms) at c k =
    first_used size factor atoms (at + atom_size) (c + n) k
first_used size factor (used_cluster cells ∷ atoms) at c k =
    let later = first_used size factor atoms (at + suc size) (c + 1) k in
    if c / 2 ^ factor == k then at else later

-- A file holds atoms from offset `at` on.
pub record HoldsAtoms (bytes : List ℕ) (at : ℕ) (atoms : List Atom) : Type 0 where
  pub tail : List ℕ
  pub here : drop at bytes ≡ atoms_bytes atoms ++ tail
  pub short : length bytes < 2 ^ 63
