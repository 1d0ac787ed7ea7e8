-- ===== src/Imagemount/Covers.antt =====
-- The blocks of a request in `nbd_service_requests` of src/imagemount.c against its bytes.
use native.Mathlib.Nat.{
  mod-add-div', mod-lt, mul-div_cancel, add-mul, div-lt_iff_lt-mul, div-le_self,
}
use partclone_utils.Base.{
  ℕ, ◌+◌, ◌-◌, ◌*◌, ◌/◌, ◌%◌, ◌^◌, ◌≤◌, ◌<◌, ◌≡◌, sym, ap, ◌∙◌, arith, ◌==◌, bit_and, false,
}
use partclone_utils.Base.And.{and-low, and-high, pow_pos}
use partclone_utils.Imagemount.{nbd_geometry, Extent, request_extent}

-- The blocks are the fewest that hold the bytes.
pub record Covers (bs offset len : ℕ) (e : Extent) : Type 0 where
  pub start : e.startblock * bs + e.sboffs ≡ offset
  pub inside : e.sboffs < bs
  pub some_blocks : 0 < e.blockcount
  pub enough : offset + len ≤ (e.startblock + e.blockcount) * bs
  pub fewest : (e.startblock + e.blockcount) * bs < offset + len + bs

-- The extent without masks and wrap-around.
abbrev pub plain_extent : ℕ → ℕ → ℕ → Extent
plain_extent bs offset last = record {
  startblockoffs = offset / bs * bs;
  sboffs = offset % bs;
  endblockoffs = last / bs * bs;
  eboffs = last % bs;
  startblock = offset / bs;
  blockcount = last / bs - offset / bs + 1;
}

div_mono : (a b d : ℕ) → 0 < d → a ≤ b → a / d ≤ b / d
div_mono a b d pos h =
    let split : (b / d + 1) * d ≡ b / d * d + d = add-mul (b / d) 1 d ∙ omega arith in
    let below : a / d < b / d + 1 =
      (div-lt_iff_lt-mul pos).1 (omega (arith, h, split, mod-add-div' b d, mod-lt b pos)) in
    omega (arith, below)

module _ (k offset len : ℕ) (small : 2 ^ k < 2 ^ 32) (few : k ≤ 64) (some_bytes : 0 < len)
    (short : offset + len < 2 ^ 63) where
  offsetmask : (nbd_geometry (2 ^ k)).svc_offsetmask ≡ 2 ^ k - 1
  offsetmask = omega (arith, pow_pos k)

  blockmask : (nbd_geometry (2 ^ k)).svc_blockmask ≡ 2 ^ 64 - 2 ^ k
  blockmask = omega (arith, pow_pos k)

  low : (a : ℕ) → bit_and a (nbd_geometry (2 ^ k)).svc_offsetmask ≡ a % 2 ^ k
  low a = ap (bit_and a) offsetmask ∙ and-low k a

  high : (a : ℕ) → a < 2 ^ 64 → bit_and a (nbd_geometry (2 ^ k)).svc_blockmask ≡ a / 2 ^ k * 2 ^ k
  high a h = ap (bit_and a) blockmask ∙ and-high 64 k a few h

  last_value : (offset + len + 2 ^ 64 - 1) % 2 ^ 64 ≡ offset + len - 1
  last_value = omega arith

  difference :
      (s l : ℕ)
      → s ≤ l
      → l * 2 ^ k < 2 ^ 64
      → (l * 2 ^ k + 2 ^ 64 - s * 2 ^ k) % 2 ^ 64 / 2 ^ k ≡ l - s
  difference s l le bound =
      let e : (l - s) * 2 ^ k + s * 2 ^ k ≡ l * 2 ^ k =
        sym (add-mul (l - s) s (2 ^ k)) ∙ ap (λ t. t * 2 ^ k) (omega (arith, le)) in
      let d : (l * 2 ^ k + 2 ^ 64 - s * 2 ^ k) % 2 ^ 64 ≡ (l - s) * 2 ^ k =
        omega (arith, e, bound) in
      ap (λ t. t / 2 ^ k) d ∙ mul-div_cancel (l - s) (pow_pos k)

  pub request_extent-plain :
      request_extent (nbd_geometry (2 ^ k)) offset len
      ≡ plain_extent (2 ^ k) offset (offset + len - 1)
  unfolding request_extent
  request_extent-plain =
      let bs = 2 ^ k in
      let last = offset + len - 1 in
      let le : offset / bs ≤ last / bs = div_mono offset last bs (pow_pos k) (omega arith) in
      let below : last / bs * bs ≤ last = omega (arith, mod-add-div' last bs) in
      let count : (last / bs * bs + 2 ^ 64 - offset / bs * bs) % 2 ^ 64 / bs
          ≡ last / bs - offset / bs =
        difference (offset / bs) (last / bs) le (omega (arith, below)) in
      let block : offset / bs * bs / bs ≡ offset / bs = mul-div_cancel (offset / bs) (pow_pos k) in
      let few_blocks : last / bs ≤ last = div-le_self last bs in
      let more : (len == 0) ≡ false = ground (arith, some_bytes) in
      rw
        (
          request_extent,
          last_value,
          low offset,
          low last,
          high offset (omega arith),
          high last (omega arith),
          count,
          block,
          more,
        )
        (ap (λ c. record (plain_extent bs offset last) { blockcount = c })
          (omega (arith, few_blocks)))

  -- For blocks of 2 ^ k bytes, less than 2 ^ 32, and a request of one byte at least that ends
  -- below 2 ^ 63, the start block and the offset in it give the offset of the request, and the
  -- blocks counted from it, one at least, hold all its bytes, which one block fewer would not.
  pub request_extent-Covers :
      Covers (2 ^ k) offset len (request_extent (nbd_geometry (2 ^ k)) offset len)
  request_extent-Covers =
      let bs = 2 ^ k in
      let last = offset + len - 1 in
      let le : offset / bs ≤ last / bs = div_mono offset last bs (pow_pos k) (omega arith) in
      let ends : (offset / bs + (last / bs - offset / bs + 1)) * bs ≡ last / bs * bs + bs =
        ap (λ t. t * bs) (omega (arith, le)) ∙ add-mul (last / bs) 1 bs ∙ omega arith in
      rw request_extent-plain (record {
        start = omega (arith, mod-add-div' offset bs);
        inside = mod-lt offset (pow_pos k);
        some_blocks = omega arith;
        enough = omega (arith, ends, mod-add-div' last bs, mod-lt last (pow_pos k));
        fewest = omega (arith, ends, mod-add-div' last bs, some_bytes);
      })
