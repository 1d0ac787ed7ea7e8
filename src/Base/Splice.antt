-- ===== src/Base/Splice.antt =====
-- Writing over a part of a file, and what a reader finds afterwards.
use partclone_utils.Base.Lists.{
  length, take, drop, slice, length-append, length-take, length-drop, take-append_length,
  take-append_le, drop-append_le, drop-append_ge, drop-drop, take-all, drop-all, append_nil,
}
use Prim.Native.Nat.{ℕ, zero, suc, ◌+◌, ◌-◌, ◌≤◌, max}
use mathlib.Core.Path.{◌≡◌, refl, sym, ap, ap₂, ◌∙◌}
use mathlib.Core.List.{List, [], ◌∷◌, ◌++◌}
use native.Mathlib.Omega.{arith}

module _ {ℓ} {A : Type ℓ} where
  -- `bs` written over what stands from index `off` on.
  abbrev pub splice : ℕ → List A → List A → List A
  splice off bs xs = take off xs ++ (bs ++ drop (off + length bs) xs)

  pub length-splice :
      (off : ℕ) (bs xs : List A)
      → off ≤ length xs
      → length (splice off bs xs) ≡ max (length xs) (off + length bs)
  length-splice off bs xs h = omega (
    arith,
    length-append (take off xs) (bs ++ drop (off + length bs) xs),
    length-append bs (drop (off + length bs) xs),
    length-take off xs,
    length-drop (off + length bs) xs,
  )

  drop-splice :
      (off : ℕ) (bs xs : List A)
      → off ≤ length xs
      → drop off (splice off bs xs) ≡ bs ++ drop (off + length bs) xs
  drop-splice off bs xs h =
      let rest = bs ++ drop (off + length bs) xs in
      let e : off - length (take off xs) ≡ 0 = omega (arith, length-take off xs) in
      drop-append_ge off (take off xs) rest (omega (arith, length-take off xs))
      ∙ ap (λ k. drop k rest) e

  -- What has been written is read back.
  pub slice-splice_same :
      (off : ℕ) (bs xs : List A) → off ≤ length xs → slice off (length bs) (splice off bs xs) ≡ bs
  slice-splice_same off bs xs h =
      ap (take (length bs)) (drop-splice off bs xs h) ∙ take-append_length bs _

  pub take-drop-take :
      (n e off : ℕ) (xs : List A) → e + n ≤ off → take n (drop e (take off xs)) ≡ take n (drop e xs)
  take-drop-take zero e off xs h = refl
  take-drop-take (suc n) zero zero xs h = absurd (omega arith)
  take-drop-take (suc n) zero (suc off) [] h = refl
  take-drop-take (suc n) zero (suc off) (x ∷ xs) h =
      ap (λ t. x ∷ t) (take-drop-take n zero off xs (omega arith))
  take-drop-take (suc n) (suc e) zero xs h = absurd (omega arith)
  take-drop-take (suc n) (suc e) (suc off) [] h = refl
  take-drop-take (suc n) (suc e) (suc off) (x ∷ xs) h =
      take-drop-take (suc n) e off xs (omega arith)

  -- What stands before the write, or behind it, is read as it was.
  pub slice-splice_before :
      (e n off : ℕ) (bs xs : List A)
      → off ≤ length xs
      → e + n ≤ off
      → slice e n (splice off bs xs) ≡ slice e n xs
  slice-splice_before e n off bs xs h p =
      let rest = bs ++ drop (off + length bs) xs in
      ap (take n) (drop-append_le e (take off xs) rest (omega (arith, length-take off xs)))
      ∙ take-append_le n (drop e (take off xs)) rest
          (omega (arith, length-drop e (take off xs), length-take off xs))
      ∙ take-drop-take n e off xs p

  pub slice-splice_after :
      (e n off : ℕ) (bs xs : List A)
      → off ≤ length xs
      → off + length bs ≤ e
      → slice e n (splice off bs xs) ≡ slice e n xs
  slice-splice_after e n off bs xs h p =
      let behind = drop (off + length bs) xs in
      ap (take n) (
        ap (λ k. drop k (splice off bs xs)) {y = off + (e - off)} (omega arith)
        ∙ sym (drop-drop (e - off) off (splice off bs xs))
        ∙ ap (drop (e - off)) (drop-splice off bs xs h)
        ∙ drop-append_ge (e - off) bs behind (omega arith)
        ∙ drop-drop (e - off - length bs) (off + length bs) xs
        ∙ ap (λ k. drop k xs) {y = e} (omega arith))

  -- A write at the end appends.
  pub splice-end : (bs xs : List A) → splice (length xs) bs xs ≡ xs ++ bs
  splice-end bs xs =
      ap₂ (λ front back. front ++ (bs ++ back)) (take-all (length xs) xs (omega arith))
        (drop-all (length xs + length bs) xs (omega arith))
      ∙ ap (λ t. xs ++ t) (append_nil bs)
