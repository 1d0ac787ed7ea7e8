-- ===== src/ChangeFile/Write.antt =====
-- The two cases of `cf_writeblock` of src/changefile.c, a block that is there and a new one.
use partclone_utils.Base.{
  ℕ, ◌+◌, ◌≤◌, ◌<◌, ◌^◌, ◌≡◌, ◌≢◌, ◌⊎◌, inl, inr, refl, ap, ◌∙◌, sym, subst, ℕ_discrete, List,
  arith, length, set, IsBytes, length-set, get_or-set_self, get_or-set_ne,
}
use partclone_utils.Sysdep.{Array}
use partclone_utils.ChangeFile.{Context, trailer_size}
use partclone_utils.ChangeFile.Blocks.{record_block}
use partclone_utils.ChangeFile.Map.{entry, record_size, IsBlock, IsChangeFile}
use partclone_utils.ChangeFile.Put.{
  put_block, length-put_block, length-put_block_ge, put_block-IsBlock, IsBlock-put_block,
}

-- The map after the current block has got the offset `o`.
abbrev pub placed : Context → Array → ℕ → Array
placed cfp map o = record map { cells = set map.cells cfp.cfc_curpos o }

module _ {cfp : Context} {map : Array} {bytes : List ℕ} (ok : IsChangeFile cfp map bytes)
    (here : cfp.cfc_curpos < cfp.cfc_header.cf_total_blocks) (block : List ℕ)
    (is_bytes : IsBytes block) (size : length block ≡ cfp.cfc_blocksize) where
  abbrev cur : ℕ
  cur = cfp.cfc_curpos

  put-IsBlock :
      (o : ℕ) → o ≤ length bytes → IsBlock cfp.cfc_blocksize (put_block o cur block bytes) cur o
  put-IsBlock o h =
      subst (λ n. IsBlock n (put_block o cur block bytes) cur o) size
        (put_block-IsBlock o cur block bytes h is_bytes)

  other-IsBlock :
      (o j e : ℕ)
      → o ≤ length bytes
      → (e + record_size cfp ≤ o) ⊎ (o + record_size cfp ≤ e)
      → IsBlock cfp.cfc_blocksize bytes j e
      → IsBlock cfp.cfc_blocksize (put_block o cur block bytes) j e
  other-IsBlock o j e h apart good =
      subst (λ n. IsBlock n (put_block o cur block bytes) j e) size
        (IsBlock-put_block o cur block bytes h
          (subst (λ n. (e + (n + trailer_size) ≤ o) ⊎ (o + (n + trailer_size) ≤ e)) (sym size)
            apart)
          (subst (λ n. IsBlock n bytes j e) (sym size) good))

  -- A block that was there is written over.
  pub over_room : entry map cur ≢ 0 → entry map cur + record_size cfp ≤ length bytes
  over_room present = (ok.whole cur present).inside

  pub over-IsChangeFile :
      entry map cur ≢ 0 → IsChangeFile cfp map (put_block (entry map cur) cur block bytes)
  over-IsChangeFile present =
      let o = entry map cur in
      let room : o ≤ length bytes = omega (arith, over_room present) in
      record {
        loaded = ok.loaded;
        fits = ok.fits;
        table = ok.table;
        few = ok.few;
        short =
            grind
              (arith, length-put_block o cur block bytes room, over_room present, ok.short, size);
        map_behind = ok.map_behind;
        map_inside = omega (arith, ok.map_inside, length-put_block_ge o cur block bytes room);
        behind = ok.behind;
        whole = λ j p. elim (ℕ_discrete j cur) [
          | yes e ↦ rw e (put-IsBlock o room)
          | no ne ↦
              other-IsBlock o j (entry map j) room (ok.apart j cur ne p present) (ok.whole j p)
        ];
        apart = ok.apart;
      }

  -- A new block goes behind all others.
  pub new_self : (o : ℕ) → entry (placed cfp map o) cur ≡ o
  new_self o = get_or-set_self map.cells cur o 0 (omega (arith, ok.fits))

  pub new_other : (o j : ℕ) → j ≢ cur → entry (placed cfp map o) j ≡ entry map j
  new_other o j ne = get_or-set_ne map.cells cur j o 0 (λ e. ne (sym e))

  -- The end of the file is not 0, so it is no mark of a missing block.
  pub end_pos : 0 < length bytes
  end_pos = omega (arith, ok.map_behind, ok.map_inside)

  pub below_end : (j : ℕ) → entry map j ≢ 0 → entry map j + record_size cfp ≤ length bytes
  below_end j p = (ok.whole j p).inside

  pub new-IsChangeFile :
      length bytes + record_size cfp < 2 ^ 63
      → IsChangeFile
          (record_block cfp map (length bytes))
          (placed cfp map (length bytes))
          (put_block (length bytes) cur block bytes)
  new-IsChangeFile short =
      let o = length bytes in
      let room : o ≤ length bytes = omega arith in
      record {
        loaded = refl;
        fits = length-set map.cells cur o ∙ ok.fits;
        table = ok.table;
        few = ok.few;
        short = grind (arith, length-put_block o cur block bytes room, short, size);
        map_behind = ok.map_behind;
        map_inside = omega (arith, ok.map_inside, length-put_block_ge o cur block bytes room);
        behind = λ j p. elim (ℕ_discrete j cur) [
          | yes e ↦ rw (e, new_self o) ok.map_inside
          | no ne ↦ rw (new_other o j ne) (ok.behind j (rw (new_other o j ne) at p))
        ];
        whole = λ j p. elim (ℕ_discrete j cur) [
          | yes e ↦ rw (e, new_self o) (put-IsBlock o room)
          | no ne ↦
              let q : entry map j ≢ 0 = rw (new_other o j ne) at p in
              rw (new_other o j ne)
                (other-IsBlock o j (entry map j) room (inl (below_end j q)) (ok.whole j q))
        ];
        apart = λ j k ne p q. elim (ℕ_discrete j cur) [
          | yes e ↦
              let other : k ≢ cur = λ f. ne (e ∙ sym f) in
              let behind = below_end k (rw (new_other o k other) at q) in
              inr (
                omega
                  (arith, behind, new_other o k other, ap (entry (placed cfp map o)) e, new_self o))
          | no nj ↦ elim (ℕ_discrete k cur) [
            | yes f ↦
                let behind = below_end j (rw (new_other o j nj) at p) in
                inl (
                  omega
                    (arith, behind, new_other o j nj, ap (entry (placed cfp map o)) f, new_self o))
            | no nk ↦
                rw (new_other o j nj, new_other o k nk)
                  (ok.apart j k ne (rw (new_other o j nj) at p) (rw (new_other o k nk) at q))
          ]
        ];
      }
