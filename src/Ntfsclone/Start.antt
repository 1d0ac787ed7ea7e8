-- ===== src/Ntfsclone/Start.antt =====
-- The variables of the scan of `v10_verify` in src/libntfsclone.c at its start.
use partclone_utils.Base.{
  ℕ, zero, suc, ◌+◌, ◌*◌, ◌/◌, ◌%◌, ◌^◌, ◌≤◌, ◌<◌, ◌≡◌, ◌≢◌, refl, ap, subst, ◌∙◌, some, List,
  arith, length, get_elem?, replicate, length-replicate,
}
use partclone_utils.Ntfsclone.Bitmap.{bitmap_bit_value}
use partclone_utils.Ntfsclone.Scan.{Scanned}
use partclone_utils.Ntfsclone.Version10.{bitmap_size, offsets_size}
use partclone_utils.Ntfsclone.View.{Atom, span}
use partclone_utils.Ntfsclone.Marks.{CanScan}

pub get_elem?-replicate : (n i v : ℕ) → i < n → get_elem? (replicate n v) i ≡ some v
get_elem?-replicate zero i v h = absurd (omega arith)
get_elem?-replicate (suc n) zero v h = refl
get_elem?-replicate (suc n) (suc i) v h = get_elem?-replicate n i v (omega arith)

zero_digit : (k : ℕ) → 0 / 2 ^ k % 2 ≡ 0
zero_digit k = omega arith

bitmap_bit_value-replicate : (n i : ℕ) → i < 8 * n → bitmap_bit_value (replicate n 0) i ≡ some 0
unfolding bitmap_bit_value
bitmap_bit_value-replicate n i h =
    rw (bitmap_bit_value, get_elem?-replicate n (i / 8) 0 (omega arith))
      (ap some (zero_digit (i % 8)))

-- The variables of the scan at its start.
abbrev pub start : ℕ → Scanned
start nr = record {
  cclust = 0;
  nconsecsync = 0;
  bits = replicate (bitmap_size nr) 0;
  offsets = replicate (offsets_size nr 10 / 8) 0;
}

bitmap_size-value : (nr : ℕ) → nr < 2 ^ 62 → nr % 8 ≢ 0 → bitmap_size nr ≡ nr / 8 + 1
bitmap_size-value nr small ne = ground (arith, small, ne)

pub offsets_size-value : (nr : ℕ) → nr < 2 ^ 62 → offsets_size nr 10 / 8 ≡ nr / 2 ^ 10 + 1
offsets_size-value nr small = ground (arith, small)

pub start-CanScan :
    (nr : ℕ) (atoms : List Atom)
    → nr < 2 ^ 62
    → nr % 8 ≢ 0
    → span atoms ≡ nr + 1
    → CanScan 10 atoms (start nr)
start-CanScan nr atoms small odd total =
    let bytes = bitmap_size-value nr small odd in
    let wide : nr + 1 ≤ 8 * bitmap_size nr = omega (arith, bytes) in
    let long = offsets_size-value nr small in
    record {
      clear = λ j h.
          ap (bitmap_bit_value (replicate (bitmap_size nr) 0)) {y = j} (omega arith)
          ∙ bitmap_bit_value-replicate (bitmap_size nr) j (omega (arith, h, total, wide));
      wide = omega (arith, total, wide, length-replicate {A = ℕ} (bitmap_size nr) 0);
      buckets = λ j h.
          subst (λ i. i / 2 ^ 10 < length {A = ℕ} (replicate (offsets_size nr 10 / 8) 0)) {x = j}
            (omega arith)
            (omega (arith, h, total, long, length-replicate {A = ℕ} (offsets_size nr 10 / 8) 0));
    }
