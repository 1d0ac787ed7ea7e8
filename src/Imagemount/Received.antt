-- ===== src/Imagemount/Received.antt =====
-- The data of a request to write in `nbd_service_requests` of src/imagemount.c.
use partclone_utils.Base.{
  length-eq_zero, ℕ, ◌+◌, ◌-◌, ◌≤◌, ◌<◌, ◌≡◌, sym, ap, ap₂, ◌∙◌, arith, ◌==◌, false, true, List, [],
  ◌∷◌, ◌++◌, length, take, drop, drop-append_ge, drop-drop, length-append, length-take,
  take-append_length, append_nil, append_assoc, leb, le→leb, Bool-cases, inl, inr,
}
use partclone_utils.Base.Splice.{splice, length-splice}
use partclone_utils.Imagemount.{
  Extent, ImageOps, Arrival, piece, store_at, write_request, receive_loop,
}

-- The pieces, one behind another.
abbrev pub joined : List (List ℕ) → List ℕ
joined [] = []
joined (bytes ∷ pieces) = bytes ++ joined pieces

-- The reads that answer these pieces.
abbrev pub arriving : List (List ℕ) → List Arrival
arriving [] = []
arriving (bytes ∷ pieces) = piece bytes ∷ arriving pieces

-- Two parts that are replaced, one behind the other.
splice-append :
    (at : ℕ) (xs ys buffer : List ℕ)
    → at + length xs ≤ length buffer
    → splice (at + length xs) ys (splice at xs buffer) ≡ splice at (xs ++ ys) buffer
splice-append at xs ys buffer room =
    let front = take at buffer ++ xs in
    let tail = drop (at + length xs) buffer in
    let size : length front ≡ at + length xs =
      omega (arith, length-append (take at buffer) xs, length-take at buffer, room) in
    let whole : take at buffer ++ (xs ++ tail) ≡ front ++ tail =
      sym (append_assoc (take at buffer) xs tail) in
    let first : take (at + length xs) (take at buffer ++ (xs ++ tail)) ≡ front =
      ap₂ take (sym size) whole ∙ take-append_length front tail in
    let rest : drop (at + length xs + length ys) (take at buffer ++ (xs ++ tail))
        ≡ drop (at + length (xs ++ ys)) buffer =
      ap (drop (at + length xs + length ys)) whole
      ∙ drop-append_ge (at + length xs + length ys) front tail (omega (arith, size))
      ∙ ap (λ n. drop n tail) {y = length ys} (omega (arith, size))
      ∙ drop-drop (length ys) (at + length xs) buffer
      ∙ ap (λ n. drop n buffer) (omega (arith, length-append xs ys)) in
    ap₂ (λ f r. f ++ (ys ++ r)) first rest
    ∙ append_assoc (take at buffer) xs (ys ++ drop (at + length (xs ++ ys)) buffer)
    ∙ ap (λ t. take at buffer ++ t)
        (sym (append_assoc xs ys (drop (at + length (xs ++ ys)) buffer)))

module _ {W I : Type 0} (ops : ImageOps W I) (image : I) (e : Extent) where
  receive_loop-last :
      (at len : ℕ) (buffer bytes : List ℕ) (arrivals : List Arrival) (w : W)
      → (len == 0) ≡ false
      → leb (at + length bytes) (length buffer) ≡ true
      → (length bytes == len) ≡ true
      → receive_loop ops image e at len buffer (piece bytes ∷ arrivals) w
        ≡ write_request ops image e (splice at bytes buffer) w
  unfolding receive_loop store_at
  receive_loop-last at len buffer bytes arrivals w more room all = ground (arith, more, room, all)

  receive_loop-next :
      (at len : ℕ) (buffer bytes : List ℕ) (arrivals : List Arrival) (w : W)
      → (len == 0) ≡ false
      → leb (at + length bytes) (length buffer) ≡ true
      → (length bytes == len) ≡ false
      → receive_loop ops image e at len buffer (piece bytes ∷ arrivals) w
        ≡ receive_loop ops image e
            (at + length bytes)
            (len - length bytes)
            (splice at bytes buffer)
            arrivals
            w
  unfolding receive_loop store_at
  receive_loop-next at len buffer bytes arrivals w more room part = ground (arith, more, room, part)

  -- However the data of a request to write, one byte at least, are split into the pieces that
  -- arrive, the loop that receives them at a place in the read buffer with room for them does
  -- what a single write of the blocks does with the joined pieces in that place.
  pub receive_loop-joined :
      (at len : ℕ) (buffer : List ℕ) (pieces : List (List ℕ)) (w : W)
      → 0 < len
      → length (joined pieces) ≡ len
      → at + len ≤ length buffer
      → receive_loop ops image e at len buffer (arriving pieces) w
        ≡ write_request ops image e (splice at (joined pieces) buffer) w
  receive_loop-joined at len buffer [] w some_bytes size room =
      absurd (omega (arith, some_bytes, size))
  receive_loop-joined at len buffer (bytes ∷ pieces) w some_bytes size room =
      let parts = length-append bytes (joined pieces) in
      let more : (len == 0) ≡ false = ground (arith, some_bytes) in
      let inside : leb (at + length bytes) (length buffer) ≡ true =
        le→leb (at + length bytes) (length buffer) (omega (arith, parts, size, room)) in
      elim (Bool-cases (length bytes == len)) [
        | inl all ↦
            let last : length bytes ≡ len = ground (arith, all) in
            let rest = length-eq_zero (joined pieces) (omega (arith, parts, size, last)) in
            receive_loop-last at len buffer bytes (arriving pieces) w more inside all
            ∙ ap (λ t. write_request ops image e (splice at t buffer) w)
                (sym (ap (λ t. bytes ++ t) rest ∙ append_nil bytes))
        | inr part ↦
            let short : length bytes < len = ground (arith, part, parts, size) in
            receive_loop-next at len buffer bytes (arriving pieces) w more inside part
            ∙ receive_loop-joined (at + length bytes) (len - length bytes) (splice at bytes buffer)
                pieces w (omega (arith, short)) (omega (arith, parts, size))
                (omega (arith, room, short, length-splice at bytes buffer (omega (arith, room))))
            ∙ ap (λ t. write_request ops image e t w)
                (splice-append at bytes (joined pieces) buffer (omega (arith, parts, size, room)))
      ]
