-- ===== src/Partclone/Rank.antt =====
-- The number of blocks that precede a block in the image, and the two loops of src/libpartclone.c
-- that compute it: `sumcount_loop` for every 2 ^ factor blocks, `seek_loop` from there on.
use partclone_utils.Base.{
  ℕ, zero, suc, ◌+◌, ◌*◌, ◌/◌, ◌%◌, ◌^◌, ◌≤◌, ◌<◌, ◌≡◌, ◌≢◌, refl, ap, ◌∙◌, sym, subst, some, List,
  [], ◌∷◌, arith, ◌==◌, if◌then◌else◌, length, get_elem?, get_or, set, get_elem?-eq-get_or,
  length-set, get_elem?-set_self, get_elem?-set_ne, ℕ_discrete,
}
use native.Mathlib.Nat.{
  one-le-pow, div-add-mod', mul-div_cancel, mul-mod_left, div-mul-le_self, le-div_iff_mul-le,
}
use partclone_utils.Partclone.Version1.{sumcount_loop, seek_loop}

-- The blocks before block `n` whose byte in the bitmap is 1.
unfoldable pub rank : List ℕ → ℕ → ℕ
rank [] n = 0
rank (b ∷ bitmap) zero = 0
rank (b ∷ bitmap) (suc n) = (if b == 1 then 1 else 0) + rank bitmap n

-- Every byte of the map is 0 or 1. Images with other bytes occur: `precalculate_sumcount` takes
-- such a byte as not held, `v1_seek` and `v1_readblock` as held.
abbrev pub IsBitmap : List ℕ → Type 0
IsBitmap [] = Unit
IsBitmap (b ∷ bitmap) = (b ≤ 1) × IsBitmap bitmap

pub rank-zero : (bitmap : List ℕ) → rank bitmap 0 ≡ 0
unfolding rank
rank-zero [] = refl
rank-zero (b ∷ bitmap) = refl

pub rank-add_one :
    (bitmap : List ℕ) (n : ℕ)
    → n < length bitmap
    → rank bitmap (n + 1) ≡ rank bitmap n + (if get_or bitmap n 0 == 1 then 1 else 0)
unfolding rank
rank-add_one [] n h = absurd (omega arith)
rank-add_one (b ∷ bitmap) zero h = omega (arith, rank-zero bitmap)
rank-add_one (b ∷ bitmap) (suc n) h =
    let ih = rank-add_one bitmap n (omega arith) in
    let e : suc n + 1 ≡ suc (n + 1) = omega arith in rw e (omega (arith, ih))

pub rank-le : (bitmap : List ℕ) (n : ℕ) → rank bitmap n ≤ n
unfolding rank
rank-le [] n = omega arith
rank-le (b ∷ bitmap) zero = omega arith
rank-le (b ∷ bitmap) (suc n) = ground (arith, rank-le bitmap n)

pub IsBitmap-get : (bitmap : List ℕ) (n : ℕ) → IsBitmap bitmap → get_or bitmap n 0 ≤ 1
IsBitmap-get [] n h = omega arith
IsBitmap-get (b ∷ bitmap) zero h = h.0
IsBitmap-get (b ∷ bitmap) (suc n) h = IsBitmap-get bitmap n h.1

-- From a block whose rank is known, `seek_loop` counts up to the rank of the block that is sought.
pub seek_loop-rank :
    (bitmap : List ℕ) (left pbn : ℕ)
    → IsBitmap bitmap
    → pbn + left ≤ length bitmap
    → seek_loop bitmap left pbn (rank bitmap pbn) ≡ some (rank bitmap (pbn + left))
unfolding seek_loop
seek_loop-rank bitmap zero pbn h p = ap (λ k. some (rank bitmap k)) (omega arith)
seek_loop-rank bitmap (suc left) pbn h p =
    let bit = get_or bitmap pbn 0 in
    let step : (if bit == 0 then rank bitmap pbn else rank bitmap pbn + 1) ≡ rank bitmap (pbn + 1) =
      ground (arith, rank-add_one bitmap pbn, IsBitmap-get bitmap pbn h) in
    rw (get_elem?-eq-get_or bitmap pbn 0 (omega arith), seek_loop)
      (ap (seek_loop bitmap left (pbn + 1)) step
        ∙ seek_loop-rank bitmap left (pbn + 1) h (omega arith)
        ∙ ap (λ k. some (rank bitmap k)) (omega arith))

-- The hints for the blocks below `n` are right.
abbrev pub HintsBelow : ℕ → List ℕ → ℕ → List ℕ → Type 0
HintsBelow factor bitmap n sumcount =
    (k : ℕ) → k * 2 ^ factor < n → get_elem? sumcount k ≡ some (rank bitmap (k * 2 ^ factor))

pub record Filled (factor : ℕ) (bitmap : List ℕ) (n size : ℕ) (sumcount : List ℕ) : Type 0 where
  pub same_size : length sumcount ≡ size
  pub hints : HintsBelow factor bitmap n sumcount

module _ (factor : ℕ) (bitmap : List ℕ) where
  abbrev p : ℕ
  p = 2 ^ factor

  p_pos : 0 < p
  p_pos = one-le-pow factor 2 (omega arith)

  keep :
      (i size : ℕ) (sumcount : List ℕ)
      → i % p ≢ 0
      → Filled factor bitmap i size sumcount
      → Filled factor bitmap (i + 1) size sumcount
  keep i size sumcount ne f = record {
    same_size = f.same_size;
    hints = λ k h.
        let off : k * p ≢ i = λ e. ne (rw (← e) (mul-mod_left k p)) in f.hints k (omega arith);
  }

  add :
      (i size : ℕ) (sumcount : List ℕ)
      → i % p ≡ 0
      → i / p < size
      → Filled factor bitmap i size sumcount
      → Filled factor bitmap (i + 1) size (set sumcount (i / p) (rank bitmap i))
  add i size sumcount e h f = record {
    same_size = length-set sumcount (i / p) (rank bitmap i) ∙ f.same_size;
    hints = λ k q. elim (ℕ_discrete k (i / p)) [
      | yes same ↦
          let back : k * p ≡ i = ap (λ t. t * p) same ∙ omega (arith, div-add-mod' i p) in
          ap (get_elem? (set sumcount (i / p) (rank bitmap i))) same
          ∙ get_elem?-set_self sumcount (i / p) (rank bitmap i) (omega (arith, f.same_size))
          ∙ ap (λ t. some (rank bitmap t)) (sym back)
      | no other ↦
          let ne : k * p ≢ i =
            λ back. other (sym (mul-div_cancel k p_pos) ∙ ap (λ t. t / p) back) in
          get_elem?-set_ne sumcount (i / p) k (rank bitmap i) (λ t. other (sym t))
          ∙ f.hints k (omega arith)
    ];
  }

  -- From block `i` with the rank of `i` and right hints below `i`, over a bitmap that has `left`
  -- more blocks and hints for all of them, the loop of `precalculate_sumcount` stays in its
  -- arrays and makes every hint below `i + left` right.
  pub sumcount_loop-Filled :
      (left i size : ℕ) (sumcount : List ℕ)
      → i + left ≤ length bitmap
      → (i + left) / p < size
      → Filled factor bitmap i size sumcount
      → (out : List ℕ) × (sumcount_loop factor bitmap left i (rank bitmap i) sumcount ≡ some out)
        × Filled factor bitmap (i + left) size out
  unfolding sumcount_loop
  sumcount_loop-Filled zero i size sumcount h r f =
      (sumcount, refl, subst (λ n. Filled factor bitmap n size sumcount) (omega arith) f)
  sumcount_loop-Filled (suc left) i size sumcount h r f =
      let bit : get_elem? bitmap i ≡ some (get_or bitmap i 0) =
        get_elem?-eq-get_or bitmap i 0 (omega arith) in
      let next : (if get_or bitmap i 0 == 1 then rank bitmap i + 1 else rank bitmap i)
          ≡ rank bitmap (i + 1) =
        ground (arith, rank-add_one bitmap i) in
      let low : i / p ≤ (i + suc left) / p =
        (le-div_iff_mul-le p_pos).1 (omega (arith, div-mul-le_self i p)) in
      let e : i + 1 + left ≡ i + suc left = omega arith in
      elim (ℕ_discrete (i % p) 0) [
        | yes starts ↦
            let here = set sumcount (i / p) (rank bitmap i) in
            let (out, run, filled) =
              sumcount_loop-Filled left (i + 1) size here (omega arith) (rw e r)
                (add i size sumcount starts (omega arith) f) in
            (
              out,
              ground (arith, bit, starts, next, run, f.same_size),
              subst (λ n. Filled factor bitmap n size out) e filled,
            )
        | no inner ↦
            let (out, run, filled) =
              sumcount_loop-Filled left (i + 1) size sumcount (omega arith) (rw e r)
                (keep i size sumcount inner f) in
            (
              out,
              ground (arith, bit, inner, next, run),
              subst (λ n. Filled factor bitmap n size out) e filled,
            )
      ]
