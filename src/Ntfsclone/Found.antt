-- ===== src/Ntfsclone/Found.antt =====
-- The first used cluster of a bucket, where `seek2cluster` of src/libntfsclone.c starts to count, and the
-- loops that look for it in the bitmap.
use partclone_utils.Base.{
  ℕ, zero, suc, ◌+◌, ◌-◌, ◌/◌, ◌%◌, ◌^◌, ◌≤◌, ◌<◌, ◌≡◌, ◌≢◌, refl, sym, ap, subst, ◌∙◌, true, false,
  some, List, [], ◌∷◌, arith, ◌==◌, length, ltb, inl, inr, Bool-cases, ℕ_discrete,
}
use partclone_utils.Ntfsclone.Bitmap.{bitmap_bit_value, free_loop, used_loop}
use partclone_utils.Ntfsclone.View.{
  Atom, empty_run, used_cluster, cluster_at, use_bit, AreAtoms, first_used, HoldsAtoms,
}
use partclone_utils.Ntfsclone.Atoms.{HoldsAtoms-empty, HoldsAtoms-used}
use partclone_utils.Ntfsclone.Marks.{cluster_at-run, cluster_at-past_run}

-- Cluster `first` is the first one in use in its bucket of 2 ^ 10 clusters.
pub record IsFirst (atoms : List Atom) (first : ℕ) : Type 0 where
  pub in_use : use_bit (cluster_at atoms first) ≡ 1
  pub earlier : (i : ℕ) → i < first → i / 2 ^ 10 ≡ first / 2 ^ 10 → use_bit (cluster_at atoms i) ≡ 0

-- The atom at which bucket `k` starts, on the way to cluster `c + j` of atoms that start with cluster
-- `c`: the atoms from there on, which start with cluster `c + gap`.
pub record Found (size : ℕ) (bytes : List ℕ) (at : ℕ) (atoms : List Atom) (c j k : ℕ)
    (cells : List ℕ) : Type 0 where
  pub gap : ℕ
  pub at' : ℕ
  pub atoms' : List Atom
  pub hint : first_used size 10 atoms at c k ≡ at'
  pub valid : AreAtoms size atoms'
  pub held : HoldsAtoms bytes at' atoms'
  pub positive : 0 < at'
  pub shorter : length atoms' ≤ length atoms
  pub before : gap ≤ j
  pub here : cluster_at atoms' (j - gap) ≡ some cells
  pub bucket : (c + gap) / 2 ^ 10 ≡ k
  pub in_use : use_bit (cluster_at atoms gap) ≡ 1
  pub earlier : (i : ℕ) → i < gap → (c + i) / 2 ^ 10 ≡ k → use_bit (cluster_at atoms i) ≡ 0

-- It is the first atom.
Found-used_cluster :
    (size : ℕ) (bytes : List ℕ) (first : List ℕ) (atoms : List Atom) (at c j k : ℕ) (cells : List ℕ)
    → AreAtoms size (used_cluster first ∷ atoms)
    → HoldsAtoms bytes at (used_cluster first ∷ atoms)
    → 0 < at
    → cluster_at (used_cluster first ∷ atoms) j ≡ some cells
    → c / 2 ^ 10 ≡ k
    → Found size bytes at (used_cluster first ∷ atoms) c j k cells
Found-used_cluster size bytes first atoms at c j k cells valid held positive used e =
    let found : (c / 2 ^ 10 == k) ≡ true = ground (arith, e) in
    record {
      gap = 0;
      at' = at;
      atoms' = used_cluster first ∷ atoms;
      hint = rw found refl;
      valid = valid;
      held = held;
      positive = positive;
      shorter = omega arith;
      before = omega arith;
      here = ap (cluster_at (used_cluster first ∷ atoms)) (omega arith) ∙ used;
      bucket = ap (λ i. i / 2 ^ 10) (omega arith) ∙ e;
      in_use = refl;
      earlier = λ i h b. absurd (omega (arith, h));
    }

-- Clusters of the bucket before the gap, when the first one is of another bucket.
free_before :
    (first : List ℕ) (atoms : List Atom) (c k i gap : ℕ)
    → c / 2 ^ 10 ≢ k
    → ((i : ℕ) → i < gap → (c + 1 + i) / 2 ^ 10 ≡ k → use_bit (cluster_at atoms i) ≡ 0)
    → i < suc gap
    → (c + i) / 2 ^ 10 ≡ k
    → use_bit (cluster_at (used_cluster first ∷ atoms) i) ≡ 0
free_before first atoms c k zero gap ne rest h b =
    absurd (ne (ap (λ i. i / 2 ^ 10) {y = c + 0} (omega arith) ∙ b))
free_before first atoms c k (suc i) gap ne rest h b =
    rest i (omega (arith, h)) (ap (λ t. t / 2 ^ 10) {y = c + suc i} (omega arith) ∙ b)

pub find_first :
    (size : ℕ) (bytes : List ℕ) (atoms : List Atom) (at c j k : ℕ) (cells : List ℕ)
    → AreAtoms size atoms
    → HoldsAtoms bytes at atoms
    → 0 < at
    → cluster_at atoms j ≡ some cells
    → (c + j) / 2 ^ 10 ≡ k
    → Found size bytes at atoms c j k cells
find_first size bytes [] at c j k cells valid held positive used inside =
    absurd (ground (arith, used))
find_first size bytes (empty_run n ∷ atoms) at c j k cells valid held positive used inside =
    elim (Bool-cases (ltb j n)) [
      | inl e ↦
          let free = cluster_at-run n j atoms (ground (arith, e)) in
          absurd (ground (arith, used, free))
      | inr e ↦
          let past : n ≤ j = ground (arith, e) in
          let same : c + n + (j - n) ≡ c + j = omega (arith, past) in
          let rest =
            find_first size bytes atoms (at + 9) (c + n) (j - n) k cells valid.1
              (HoldsAtoms-empty bytes at atoms n held) (omega arith)
              (sym (cluster_at-past_run n j atoms past) ∙ used)
              (ap (λ i. i / 2 ^ 10) same ∙ inside) in
          record {
            gap = n + rest.gap;
            at' = rest.at';
            atoms' = rest.atoms';
            hint = rest.hint;
            valid = rest.valid;
            held = rest.held;
            positive = rest.positive;
            shorter = omega (arith, rest.shorter);
            before = omega (arith, rest.before, past);
            here = ap (cluster_at rest.atoms') (omega arith) ∙ rest.here;
            bucket = ap (λ i. i / 2 ^ 10) (omega arith) ∙ rest.bucket;
            in_use =
                ap use_bit (
                  cluster_at-past_run n (n + rest.gap) atoms (omega arith)
                  ∙ ap (cluster_at atoms) (omega arith))
                ∙ rest.in_use;
            earlier = λ i h b. elim (Bool-cases (ltb i n)) [
              | inl q ↦ ap use_bit (cluster_at-run n i atoms (ground (arith, q)))
              | inr q ↦
                  let behind : n ≤ i = ground (arith, q) in
                  ap use_bit (cluster_at-past_run n i atoms behind)
                  ∙ rest.earlier (i - n) (omega (arith, h, behind))
                      (ap (λ t. t / 2 ^ 10) (omega (arith, behind)) ∙ b)
            ];
          }
    ]
find_first size bytes (used_cluster first ∷ atoms) at c zero k cells valid held positive used
      inside =
    Found-used_cluster size bytes first atoms at c zero k cells valid held positive used
      (ap (λ i. i / 2 ^ 10) {y = c + 0} (omega arith) ∙ inside)
find_first size bytes (used_cluster first ∷ atoms) at c (suc j) k cells valid held positive used
      inside =
    elim (ℕ_discrete (c / 2 ^ 10) k) [
      | yes e ↦
          Found-used_cluster size bytes first atoms at c (suc j) k cells valid held positive used e
      | no ne ↦
          let other : (c / 2 ^ 10 == k) ≡ false = ground (arith, ne) in
          let rest =
            find_first size bytes atoms (at + suc size) (c + 1) j k cells valid.1
              (HoldsAtoms-used bytes at atoms first size valid.0 held) (omega arith) used
              (ap (λ i. i / 2 ^ 10) {x = c + 1 + j} {y = c + suc j} (omega arith) ∙ inside) in
          record {
            gap = suc rest.gap;
            at' = rest.at';
            atoms' = rest.atoms';
            hint = rw other rest.hint;
            valid = rest.valid;
            held = rest.held;
            positive = rest.positive;
            shorter = omega (arith, rest.shorter);
            before = omega (arith, rest.before);
            here = ap (cluster_at rest.atoms') (omega arith) ∙ rest.here;
            bucket = ap (λ i. i / 2 ^ 10) (omega arith) ∙ rest.bucket;
            in_use = rest.in_use;
            earlier = λ i h b. free_before first atoms c k i rest.gap ne rest.earlier h b;
          }
    ]

-- What the bitmap has from a cluster on: `gap` clusters that are not in use, and one that is.
pub record HasGap (bitmap : List ℕ) (from gap : ℕ) : Type 0 where
  pub free : (i : ℕ) → i < gap → bitmap_bit_value bitmap (from + i) ≡ some 0
  pub ends : bitmap_bit_value bitmap (from + gap) ≡ some 1

HasGap-next :
    (bitmap : List ℕ) (from gap : ℕ) → HasGap bitmap from (suc gap) → HasGap bitmap (from + 1) gap
HasGap-next bitmap from gap g = record {
  free = λ i h. ap (bitmap_bit_value bitmap) (omega arith) ∙ g.free (suc i) (omega (arith, h));
  ends = ap (bitmap_bit_value bitmap) (omega arith) ∙ g.ends;
}

HasGap-first :
    (bitmap : List ℕ) (from gap : ℕ)
    → HasGap bitmap from (suc gap)
    → bitmap_bit_value bitmap from ≡ some 0
HasGap-first bitmap from gap g =
    ap (bitmap_bit_value bitmap) {y = from + 0} (omega arith) ∙ g.free 0 (omega arith)

HasGap-ends :
    (bitmap : List ℕ) (from : ℕ) → HasGap bitmap from 0 → bitmap_bit_value bitmap from ≡ some 1
HasGap-ends bitmap from g = ap (bitmap_bit_value bitmap) {y = from + 0} (omega arith) ∙ g.ends

pub used_loop-HasGap :
    (bitmap : List ℕ) (left from gap : ℕ)
    → gap ≤ left
    → HasGap bitmap from gap
    → used_loop bitmap left from ≡ some (from + gap)
unfolding used_loop
used_loop-HasGap bitmap zero from gap enough g = ap some (omega (arith, enough))
used_loop-HasGap bitmap (suc left) from zero enough g =
    rw (used_loop, HasGap-ends bitmap from g) (ap some (omega arith))
used_loop-HasGap bitmap (suc left) from (suc gap) enough g =
    rw (used_loop, HasGap-first bitmap from gap g)
      (used_loop-HasGap bitmap left (from + 1) gap (omega (arith, enough))
          (HasGap-next bitmap from gap g)
        ∙ ap some (omega arith))

pub free_loop-HasGap :
    (bitmap : List ℕ) (left from bsf gap : ℕ)
    → gap ≤ left
    → bsf + gap < 2 ^ 16
    → HasGap bitmap (from + bsf) gap
    → free_loop bitmap left from bsf ≡ some (bsf + gap)
unfolding free_loop
free_loop-HasGap bitmap zero from bsf zero enough small g =
    rw (free_loop, HasGap-ends bitmap (from + bsf) g) (ap some (omega arith))
free_loop-HasGap bitmap zero from bsf (suc gap) enough small g = absurd (omega (arith, enough))
free_loop-HasGap bitmap (suc left) from bsf zero enough small g =
    rw (free_loop, HasGap-ends bitmap (from + bsf) g) (ap some (omega arith))
free_loop-HasGap bitmap (suc left) from bsf (suc gap) enough small g =
    let next : (bsf + 1) % 2 ^ 16 ≡ bsf + 1 = omega (arith, small) in
    let same : from + bsf + 1 ≡ from + (bsf + 1) = omega arith in
    rw (free_loop, HasGap-first bitmap (from + bsf) gap g, next)
      (free_loop-HasGap bitmap left from (bsf + 1) gap (omega (arith, enough))
          (omega (arith, small))
          (subst (λ t. HasGap bitmap t gap) same (HasGap-next bitmap (from + bsf) gap g))
        ∙ ap some (omega arith))
