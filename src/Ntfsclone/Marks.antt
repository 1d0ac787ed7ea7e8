-- ===== src/Ntfsclone/Marks.antt =====
-- What the scan of `v10_verify` in src/libntfsclone.c notes of atoms: the bits of used clusters, and where
-- the buckets start.
use partclone_utils.Base.{
  ℕ, zero, suc, ◌+◌, ◌-◌, ◌*◌, ◌/◌, ◌%◌, ◌^◌, ◌≤◌, ◌<◌, ◌≡◌, refl, sym, ap, subst, ◌∙◌, true, false,
  none, some, List, [], ◌∷◌, arith, ◌==◌, if◌then◌else◌, length, get_elem?, get_or, set, length-set,
  get_elem?-set_self, get_elem?-set_ne, get_elem?-eq-get_or, ltb, lt→ltb, inl, inr, ℕ_discrete,
  Bool-cases,
}
use partclone_utils.Ntfsclone.{NcContext}
use partclone_utils.Ntfsclone.Bitmap.{bitmap_bit_value}
use partclone_utils.Ntfsclone.Bits.{
  with_bit, bitmap_set_bit-within, bitmap_bit_value-with_bit_self, bitmap_bit_value-with_bit_ne,
  length-with_bit,
}
use partclone_utils.Ntfsclone.Scan.{Scanned, note_used, atom_offset}
use partclone_utils.Ntfsclone.View.{
  Atom, empty_run, used_cluster, cluster_at, use_bit, span, first_used,
}

-- There is room for what atoms add, and their clusters are not marked yet.
pub record CanScan (factor : ℕ) (atoms : List Atom) (s : Scanned) : Type 0 where
  pub clear : (j : ℕ) → j < span atoms → bitmap_bit_value s.bits (s.cclust + j) ≡ some 0
  pub wide : s.cclust + span atoms ≤ 8 * length s.bits
  pub buckets : (j : ℕ) → j < span atoms → (s.cclust + j) / 2 ^ factor < length s.offsets

-- The atoms that start at offset `at` have been added to `s`.
pub record IsScan (size factor at : ℕ) (atoms : List Atom) (s after : Scanned) : Type 0 where
  pub at_end : after.cclust ≡ s.cclust + span atoms
  pub earlier : (i : ℕ) → i < s.cclust → bitmap_bit_value after.bits i ≡ bitmap_bit_value s.bits i
  pub marks :
      (j : ℕ)
      → j < span atoms
      → bitmap_bit_value after.bits (s.cclust + j) ≡ some (use_bit (cluster_at atoms j))
  pub hints :
      (k g : ℕ)
      → get_elem? s.offsets k ≡ some g
      → get_elem? after.offsets k
        ≡ some (if g == 0 then first_used size factor atoms at s.cclust k else g)

-- After a run of empty clusters.
abbrev pub passed : ℕ → Scanned → Scanned
passed n s = record s { nconsecsync = 0; cclust = s.cclust + n }

-- After a used cluster whose atom is at offset `at`.
abbrev pub noted : ℕ → ℕ → Scanned → Scanned
noted factor at s = record s {
  bits = with_bit s.bits s.cclust 1;
  offsets =
      (if get_or s.offsets (s.cclust / 2 ^ factor) 0 == 0
        then set s.offsets (s.cclust / 2 ^ factor) at
        else s.offsets);
  cclust = s.cclust + 1;
  nconsecsync = 0;
}

-- The clusters of a run, and those behind it.
pub cluster_at-run :
    (n j : ℕ) (atoms : List Atom) → j < n → cluster_at (empty_run n ∷ atoms) j ≡ none
cluster_at-run n j atoms h = rw (lt→ltb j n h) refl

pub cluster_at-past_run :
    (n j : ℕ) (atoms : List Atom)
    → n ≤ j
    → cluster_at (empty_run n ∷ atoms) j ≡ cluster_at atoms (j - n)
cluster_at-past_run n j atoms h = let e : ltb j n ≡ false = ground (arith, h) in rw e refl

get_or-some : (xs : List ℕ) (i g : ℕ) → get_elem? xs i ≡ some g → get_or xs i 0 ≡ g
get_or-some [] i g h = ground (arith, h)
get_or-some (x ∷ xs) zero g h = ground (arith, h)
get_or-some (x ∷ xs) (suc i) g h = get_or-some xs i g h

-- What the array of offsets holds once bucket `b` has an offset.
get_elem?-store :
    (offsets : List ℕ) (b k g at : ℕ)
    → b < length offsets
    → get_elem? offsets k ≡ some g
    → get_elem? (if get_or offsets b 0 == 0 then set offsets b at else offsets) k
      ≡ some (if g == 0 then (if b == k then at else 0) else g)
get_elem?-store offsets b k g at inside h = elim (ℕ_discrete b k) [
  | yes e ↦
      let value : get_or offsets b 0 ≡ g =
        ap (λ i. get_or offsets i 0) e ∙ get_or-some offsets k g h in
      let same : (b == k) ≡ true = ground (arith, e) in
      elim (Bool-cases (g == 0)) [
        | inl z ↦
            rw (value, z, same)
              (ap (get_elem? (set offsets b at)) (sym e) ∙ get_elem?-set_self offsets b at inside)
        | inr z ↦ rw (value, z) h
      ]
  | no ne ↦
      let differs : (b == k) ≡ false = ground (arith, ne) in
      let kept : get_elem? (if get_or offsets b 0 == 0 then set offsets b at else offsets) k
          ≡ some g =
        elim (Bool-cases (get_or offsets b 0 == 0)) [
          | inl z ↦ rw z (get_elem?-set_ne offsets b k at ne ∙ h)
          | inr z ↦ rw z h
        ] in
      kept ∙ rw differs (ground arith)
]

-- A hint that is stored first, and one that is noted later.
hint_value :
    (g b k at later : ℕ)
    → 0 < at
    → let v = (if g == 0 then (if b == k then at else 0) else g) in
      (if v == 0 then later else v) ≡ (if g == 0 then (if b == k then at else later) else g)
hint_value g b k at later positive = ground (arith, positive)

module _ (size factor at : ℕ) (atoms : List Atom) (s : Scanned) where
  pub IsScan-refl : IsScan size factor at [] s s
  IsScan-refl = record {
    at_end = omega arith;
    earlier = λ i h. refl;
    marks = λ j h. absurd (omega arith);
    hints = λ k g h. h ∙ ground arith;
  }

  pub CanScan-passed :
      (n : ℕ) → CanScan factor (empty_run n ∷ atoms) s → CanScan factor atoms (passed n s)
  CanScan-passed n can = record {
    clear = λ j h. ap (bitmap_bit_value s.bits) (omega arith) ∙ can.clear (n + j) (omega arith);
    wide = omega (arith, can.wide);
    buckets = λ j h.
        subst (λ i. i / 2 ^ factor < length s.offsets) {x = s.cclust + (n + j)} (omega arith)
          (can.buckets (n + j) (omega arith));
  }

  pub IsScan-passed :
      (n : ℕ) (after : Scanned)
      → CanScan factor (empty_run n ∷ atoms) s
      → IsScan size factor (at + 9) atoms (passed n s) after
      → IsScan size factor at (empty_run n ∷ atoms) s after
  IsScan-passed n after can rest = record {
    at_end = omega (arith, rest.at_end);
    earlier = λ i h. rest.earlier i (omega arith);
    marks = λ j h. elim (Bool-cases (ltb j n)) [
      | inl e ↦
          let inside : j < n = ground (arith, e) in
          rest.earlier (s.cclust + j) (omega arith)
          ∙ can.clear j (omega arith)
          ∙ ap (λ c. some (use_bit c)) (sym (cluster_at-run n j atoms inside))
      | inr e ↦
          let past : n ≤ j = ground (arith, e) in
          ap (bitmap_bit_value after.bits) (omega arith)
          ∙ rest.marks (j - n) (omega arith)
          ∙ ap (λ c. some (use_bit c)) (sym (cluster_at-past_run n j atoms past))
    ];
    hints = rest.hints;
  }

  -- A used cluster that there is room for is noted.
  pub note_used-noted :
      (ntcp : NcContext) (cells : List ℕ) (cfoffs : ℕ)
      → CanScan factor (used_cluster cells ∷ atoms) s
      → s.cclust < 2 ^ 63
      → atom_offset ntcp.nc_head cfoffs ≡ at
      → note_used ntcp factor cfoffs s ≡ some (noted factor at s)
  unfolding note_used
  note_used-noted ntcp cells cfoffs can short e =
      let within : s.cclust / 8 < length s.bits = omega (arith, can.wide) in
      let bucket : s.cclust / 2 ^ factor < length s.offsets =
        subst (λ i. i / 2 ^ factor < length s.offsets) {x = s.cclust + 0} (omega arith)
          (can.buckets 0 (omega arith)) in
      let next : (s.cclust + 1) % 2 ^ 64 ≡ s.cclust + 1 = omega arith in
      rw
        (
          note_used,
          bitmap_set_bit-within s.bits s.cclust 1 within,
          get_elem?-eq-get_or s.offsets (s.cclust / 2 ^ factor) 0 bucket,
          e,
          next,
        )
        refl

  length-noted : length (noted factor at s).offsets ≡ length s.offsets
  length-noted = elim (Bool-cases (get_or s.offsets (s.cclust / 2 ^ factor) 0 == 0)) [
    | inl e ↦ rw e (length-set s.offsets (s.cclust / 2 ^ factor) at)
    | inr e ↦ rw e refl
  ]

  pub CanScan-noted :
      (cells : List ℕ)
      → CanScan factor (used_cluster cells ∷ atoms) s
      → CanScan factor atoms (noted factor at s)
  CanScan-noted cells can =
      let within : s.cclust / 8 < length s.bits = omega (arith, can.wide) in
      record {
        clear = λ j h.
            bitmap_bit_value-with_bit_ne s.bits s.cclust 1 (s.cclust + 1 + j) within
              (λ e. absurd (omega (arith, e)))
            ∙ ap (bitmap_bit_value s.bits) (omega arith)
            ∙ can.clear (suc j) (omega arith);
        wide = omega (arith, can.wide, length-with_bit s.bits s.cclust 1);
        buckets = λ j h. rw length-noted (
            subst (λ i. i / 2 ^ factor < length s.offsets) {x = s.cclust + suc j} (omega arith)
              (can.buckets (suc j) (omega arith)));
      }

  marks-noted :
      (cells : List ℕ) (after : Scanned) (j : ℕ)
      → s.cclust / 8 < length s.bits
      → IsScan size factor (at + suc size) atoms (noted factor at s) after
      → j < suc (span atoms)
      → bitmap_bit_value after.bits (s.cclust + j)
        ≡ some (use_bit (cluster_at (used_cluster cells ∷ atoms) j))
  marks-noted cells after zero within rest h =
      ap (bitmap_bit_value after.bits) (omega arith)
      ∙ rest.earlier s.cclust (omega arith)
      ∙ bitmap_bit_value-with_bit_self s.bits s.cclust 1 (omega arith) within
  marks-noted cells after (suc j) within rest h =
      ap (bitmap_bit_value after.bits) (omega arith) ∙ rest.marks j (omega arith)

  pub IsScan-noted :
      (cells : List ℕ) (after : Scanned)
      → 0 < at
      → CanScan factor (used_cluster cells ∷ atoms) s
      → IsScan size factor (at + suc size) atoms (noted factor at s) after
      → IsScan size factor at (used_cluster cells ∷ atoms) s after
  IsScan-noted cells after positive can rest =
      let within : s.cclust / 8 < length s.bits = omega (arith, can.wide) in
      let bucket : s.cclust / 2 ^ factor < length s.offsets =
        subst (λ i. i / 2 ^ factor < length s.offsets) {x = s.cclust + 0} (omega arith)
          (can.buckets 0 (omega arith)) in
      record {
        at_end = omega (arith, rest.at_end);
        earlier = λ i h.
            rest.earlier i (omega arith)
            ∙ bitmap_bit_value-with_bit_ne s.bits s.cclust 1 i within
                (λ e. absurd (omega (arith, e)));
        marks = λ j h. marks-noted cells after j within rest h;
        hints = λ k g h.
            rest.hints k _ (get_elem?-store s.offsets (s.cclust / 2 ^ factor) k g at bucket h)
            ∙ ap some (
                hint_value g (s.cclust / 2 ^ factor) k at
                  (first_used size factor atoms (at + suc size) (s.cclust + 1) k) positive);
      }
