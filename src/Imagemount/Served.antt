-- ===== src/Imagemount/Served.antt =====
-- The reply to a request to read in `nbd_service_requests` of src/imagemount.c.
use native.Mathlib.Nat.{add-mul}
use partclone_utils.Base.{
  ℕ, ◌+◌, ◌-◌, ◌*◌, ◌/◌, ◌%◌, ◌^◌, ◌≤◌, ◌<◌, ◌≡◌, ap, subst, ◌∙◌, refl, ◌∷◌, arith, true, some,
  List, ◌++◌, length, take, drop, slice, drop-append_le, take-append_le, drop-drop, length-drop,
  length-append, length-slice, leb, le→leb, lt→ltb, ltb, Bool-cases, inl, inr,
}
use partclone_utils.Base.And.{pow_pos}
use partclone_utils.Base.Splice.{take-drop-take}
use partclone_utils.Imagemount.{
  NbdContext, nbd_geometry, Extent, request_extent, Malloc, alloc_loop, grow_readbuf, ImageOps,
  serve_read, reply_read,
}
use partclone_utils.Imagemount.Covers.{
  Covers, plain_extent, request_extent-plain, request_extent-Covers,
}

-- An image whose blocks are those of a disk: what a seek and a read of blocks inside it do.
pub record ServesImage {W I : Type 0} (ops : ImageOps W I) (image : I) (w : W) (bs : ℕ)
    (disk : List ℕ) : Type 0 where
  pub reads :
      (b n : ℕ) (buffer : List ℕ)
      → 0 < n
      → (b + n) * bs ≤ length disk
      → n * bs ≤ length buffer
      → (i i' : I) × (v v' : W) × (ops.seek image b w ≡ some ((0, i), v))
        × (ops.readblocks i buffer n v
            ≡ some (((0, slice (b * bs) (n * bs) disk ++ drop (n * bs) buffer), i'), v'))

-- The bytes of a request in the blocks that have been read.
slice-blocks :
    (disk rest : List ℕ) (at size skip len : ℕ)
    → at + size ≤ length disk
    → skip + len ≤ size
    → take len (drop skip (slice at size disk ++ rest)) ≡ slice (at + skip) len disk
slice-blocks disk rest at size skip len room inside =
    let blocks = slice at size disk in
    let long = length-slice at size disk room in
    ap (take len) (drop-append_le skip blocks rest (omega (arith, long, inside)))
    ∙ take-append_le len (drop skip blocks) rest
        (omega (arith, long, inside, length-drop skip blocks))
    ∙ take-drop-take len skip size (drop at disk) inside
    ∙ ap (take len) (drop-drop skip at disk)

mul-lt : (s l d : ℕ) → 0 < d → s < l → s * d < l * d
mul-lt s l d pos h =
    let e : l * d ≡ (s + 1) * d + (l - s - 1) * d =
      ap (λ t. t * d) (omega (arith, h)) ∙ add-mul (s + 1) (l - s - 1) d in
    omega (arith, e, add-mul s 1 d, pos)

mul-le : (s l d : ℕ) → s ≤ l → s * d ≤ l * d
mul-le s l d h =
    let e : l * d ≡ s * d + (l - s) * d =
      ap (λ t. t * d) (omega (arith, h)) ∙ add-mul s (l - s) d in
    omega (arith, e)

lt-of_mul_lt : (d s l : ℕ) → 0 < d → s * d < l * d → s < l
lt-of_mul_lt d s l pos h = elim (Bool-cases (ltb s l)) [
  | inl e ↦ ground (arith, e)
  | inr e ↦ let back = mul-le l s d (ground (arith, e)) in absurd (omega (arith, back, h))
]

-- A larger buffer at the first call of `malloc`, if one is needed.
alloc_loop-room :
    (req : ℕ) (fresh : ℕ → List ℕ) (readbuf : List ℕ) (later : List Malloc)
    → length (fresh req) ≡ req
    → (grown : List ℕ) × (alloc_loop req readbuf ((λ n. some (fresh n)) ∷ later) ≡ some (0, grown))
      × (req ≤ length grown)
unfolding alloc_loop
alloc_loop-room req fresh readbuf later sized = elim (Bool-cases (ltb (length readbuf) req)) [
  | inl more ↦ (fresh req, ground (arith, more), omega (arith, sized))
  | inr fits ↦ (readbuf, ground (arith, fits), ground (arith, fits))
]

-- The grown buffer has room for the blocks.
grow_readbuf-room :
    (k offset last : ℕ) (fresh : ℕ → List ℕ) (readbuf : List ℕ) (later : List Malloc)
    → let bs = 2 ^ k in
      let e = plain_extent bs offset last in
      ((n : ℕ) → length (fresh n) ≡ n)
      → bs ≤ length readbuf
      → e.blockcount * bs < 2 ^ 64
      → (grown : List ℕ) × (grow_readbuf ((λ n. some (fresh n)) ∷ later) (nbd_geometry bs) e readbuf
          ≡ some (0, grown))
        × (e.blockcount * bs ≤ length grown)
unfolding grow_readbuf
grow_readbuf-room k offset last fresh readbuf later sized room small =
    let bs = 2 ^ k in
    let e = plain_extent bs offset last in
    let req = (e.blockcount * bs) % 2 ^ 64 in
    let exact : req ≡ e.blockcount * bs = omega (arith, small) in
    elim (Bool-cases (ltb e.startblockoffs e.endblockoffs)) [
      | inl grows ↦
          let (grown, run, wide) = alloc_loop-room req fresh readbuf later (sized req) in
          (grown, rw (grow_readbuf, grows) run, omega (arith, wide, exact))
      | inr stays ↦ (
        readbuf,
        rw (grow_readbuf, stays) refl,
        elim (Bool-cases (ltb (offset / bs) (last / bs))) [
          | inr same ↦
              let one : (last / bs - offset / bs + 1) * bs ≡ bs =
                ap (λ t. t * bs) {y = 1} (ground (arith, same)) ∙ omega arith in
              omega (arith, one, room)
          | inl more ↦
              let wider : ltb e.startblockoffs e.endblockoffs ≡ true =
                lt→ltb (offset / bs * bs) (last / bs * bs)
                  (mul-lt (offset / bs) (last / bs) bs (pow_pos k) (ground (arith, more))) in
              absurd (ground (arith, stays, wider))
        ],
      )
    ]

module _ {W I : Type 0} (ops : ImageOps W I) where
  reply_read-serve_read :
      (mallocs : List Malloc) (ncp : NbdContext) (image image' : I) (offset len : ℕ)
      (readbuf grown buffer : List ℕ) (e : Extent) (w w' : W)
      → request_extent ncp offset len ≡ e
      → grow_readbuf mallocs ncp e readbuf ≡ some (0, grown)
      → serve_read ops image e grown w ≡ some ((0, buffer, image'), w')
      → leb (e.sboffs + len) (length buffer) ≡ true
      → reply_read ops mallocs ncp image offset len readbuf w
        ≡ some ((0, take len (drop e.sboffs buffer), image'), w')
  unfolding reply_read
  reply_read-serve_read mallocs ncp image image' offset len readbuf grown buffer e w w' extent grow
        run room =
      rw (reply_read, extent) (ground (arith, grow, run, room))

  serve_read-reads :
      (image i i' : I) (e : Extent) (readbuf buffer : List ℕ) (w v v' : W)
      → ops.seek image e.startblock w ≡ some ((0, i), v)
      → ops.readblocks i readbuf e.blockcount v ≡ some (((0, buffer), i'), v')
      → serve_read ops image e readbuf w ≡ some ((0, buffer, i'), v')
  unfolding serve_read
  serve_read-reads image i i' e readbuf buffer w v v' seek read = ground (arith, seek, read)

  -- For an image whose seeks and reads of blocks give the blocks of a disk of fewer than 2 ^ 63
  -- bytes and of whole blocks of 2 ^ k bytes, less than 2 ^ 32, with a read buffer of one block
  -- at least and a first call of `malloc` that hands out the size asked for, the reply to a
  -- request to read `len` bytes, one at least, at `offset`, all inside the disk, has error 0 and
  -- those bytes of the disk.
  pub reply_read-slice :
      (k offset len total : ℕ) (fresh : ℕ → List ℕ) (later : List Malloc) (image : I)
      (readbuf disk : List ℕ) (w : W)
      → ServesImage ops image w (2 ^ k) disk
      → 2 ^ k < 2 ^ 32
      → k ≤ 64
      → length disk ≡ total * 2 ^ k
      → length disk < 2 ^ 63
      → ((n : ℕ) → length (fresh n) ≡ n)
      → 2 ^ k ≤ length readbuf
      → 0 < len
      → offset + len ≤ length disk
      → (i : I) × (w' : W) × (reply_read ops
            ((λ n. some (fresh n)) ∷ later)
            (nbd_geometry (2 ^ k))
            image
            offset
            len
            readbuf
            w
          ≡ some ((0, slice offset len disk, i), w'))
  reply_read-slice k offset len total fresh later image readbuf disk w serves small few whole short
        sized room some_bytes inside =
      let bs = 2 ^ k in
      let e = plain_extent bs offset (offset + len - 1) in
      let plain =
        request_extent-plain k offset len small few some_bytes (omega (arith, inside, short)) in
      let covers : Covers bs offset len e =
        subst (Covers bs offset len) plain (
          request_extent-Covers k offset len small few some_bytes (omega (arith, inside, short))) in
      let blocks : e.startblock + e.blockcount < total + 1 =
        lt-of_mul_lt bs (e.startblock + e.blockcount) (total + 1) (pow_pos k)
          (omega (arith, covers.fewest, inside, whole, add-mul total 1 bs)) in
      let within : (e.startblock + e.blockcount) * bs ≤ length disk =
        rw whole (mul-le (e.startblock + e.blockcount) total bs (omega (arith, blocks))) in
      let parts = add-mul e.startblock e.blockcount bs in
      let mallocs = (λ n. some (fresh n)) ∷ later in
      let (grown, grow, wide) =
        grow_readbuf-room k offset (offset + len - 1) fresh readbuf later sized room
          (omega (arith, within, parts, short)) in
      let (i, i', v, v', seek, read) =
        serves.reads e.startblock e.blockcount grown covers.some_blocks within wide in
      let buffer =
        slice (e.startblock * bs) (e.blockcount * bs) disk ++ drop (e.blockcount * bs) grown in
      let long =
        length-slice (e.startblock * bs) (e.blockcount * bs) disk (omega (arith, within, parts)) in
      let ends : e.sboffs + len ≤ e.blockcount * bs =
        omega (arith, covers.start, covers.enough, parts) in
      let run = serve_read-reads image i i' e grown buffer w v v' seek read in
      (
        i',
        v',
        reply_read-serve_read mallocs (nbd_geometry bs) image i' offset len readbuf grown buffer e w
              v' plain grow run
              (le→leb (e.sboffs + len) (length buffer) (
                omega (
                  arith,
                  ends,
                  long,
                  length-append (slice (e.startblock * bs) (e.blockcount * bs) disk)
                      (drop (e.blockcount * bs) grown),
                )))
            ∙ ap (λ g. some ((0, g, i'), v'))
                (slice-blocks disk (drop (e.blockcount * bs) grown) (e.startblock * bs)
                    (e.blockcount * bs) e.sboffs len (omega (arith, within, parts)) ends
                  ∙ ap (λ t. slice t len disk) covers.start),
      )
