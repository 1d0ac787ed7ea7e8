-- ===== src/ChangeFile/Store.antt =====
-- `cf_writeblock` of src/changefile.c and the map that the file stands for.
use partclone_utils.Base.{
  ℕ, ◌%◌, ◌==◌, if◌then◌else◌, ◌+◌, ◌≤◌, ◌<◌, ◌^◌, ◌≡◌, ◌≢◌, ◌⊎◌, inl, refl, ap, ap₂, ◌∙◌, sym,
  true, some, List, arith, ℕ_discrete, length, slice, IsBytes, take, take-all,
}
use partclone_utils.Base.Splice.{splice, length-splice}
use partclone_utils.Checksum.Reference.{crc_bitwise}
use partclone_utils.Sysdep.{Sysdep, Array, seek_absolute, seek_end}
use partclone_utils.Sysdep.Contract.{Contract, HasRoom}
use partclone_utils.ChangeFile.{Context, trailer_for, trailer_size, cf_crc32, is_dirty, set_dirty}
use partclone_utils.ChangeFile.Format.{length-trailer_bytes}
use partclone_utils.ChangeFile.Blocks.{cf_writeblock, record_block}
use partclone_utils.ChangeFile.Map.{
  entry, stored, record_size, IsChangeFile, cf_crc32-bitwise, current_entry-some,
}
use partclone_utils.ChangeFile.Put.{put_block, trailer_of_block, slice-put_block, slice-put_ne}
use partclone_utils.ChangeFile.Write.{
  placed, over_room, over-IsChangeFile, new-IsChangeFile, new_self, new_other, below_end, end_pos,
}

-- What a successful write of `block` to the current block of `cfp` leaves behind.
pub record Stores {W : Type 0} {sys : Sysdep W} (con : Contract sys) (cfp : Context) (map : Array)
    (w : W) (block : List ℕ) (cfp' : Context) (map' : Array) (w' : W) : Type 0 where
  pub is_file : IsChangeFile cfp' map' (con.content cfp'.cfc_fd w')
  pub same_fd : cfp'.cfc_fd ≡ cfp.cfc_fd
  pub same_curpos : cfp'.cfc_curpos ≡ cfp.cfc_curpos
  pub same_total : cfp'.cfc_header.cf_total_blocks ≡ cfp.cfc_header.cf_total_blocks
  pub same_blocksize : cfp'.cfc_blocksize ≡ cfp.cfc_blocksize
  pub used : cfp'.cfc_header.cf_used_blocks ≡ (
      if entry map cfp.cfc_curpos == 0
      then (cfp.cfc_header.cf_used_blocks + 1) % 2 ^ 64
      else cfp.cfc_header.cf_used_blocks)
  pub dirty : entry map cfp.cfc_curpos ≡ 0 → is_dirty cfp'.cfc_header.cf_flags ≡ true
  pub is_open : (g : ℕ) → con.is_open g w' ≡ con.is_open g w
  pub now : stored cfp' map' (con.content cfp'.cfc_fd w') cfp.cfc_curpos ≡ some block
  pub others :
      (j : ℕ)
      → j ≢ cfp.cfc_curpos
      → stored cfp' map' (con.content cfp'.cfc_fd w') j
        ≡ stored cfp map (con.content cfp.cfc_fd w) j

dirty_set : (flags : ℕ) → is_dirty (set_dirty flags) ≡ true
dirty_set flags = ground arith

module _ {W : Type 0} {sys : Sysdep W} (con : Contract sys) (room : HasRoom sys) where
  -- Two writes behind one another, at an offset `o` that the file has.
  two_writes :
      (h o i : ℕ) (block : List ℕ) (w : W)
      → con.is_open h w ≡ true
      → con.position h w ≡ o
      → o ≤ length (con.content h w)
      → let b = sys.sys_write h block w in
        let t = sys.sys_write h (trailer_of_block i block) b.1 in
        (b.0.error ≡ 0)
        × (t.0.error ≡ 0)
        × (t.0.nwritten ≡ trailer_size)
        × (con.content h t.1 ≡ put_block o i block (con.content h w))
  two_writes h o i block w opened at inside =
      let b = sys.sys_write h block w in
      let trailer = trailer_of_block i block in
      let first = con.write_all h block w opened (rw at inside) (room h block w) in
      let content_b : con.content h b.1 ≡ splice o block (con.content h w) =
        first.1 ∙ ap (λ p. splice p block (con.content h w)) at in
      let position_b : con.position h b.1 ≡ o + length block =
        first.2 ∙ ap (λ p. p + length block) at in
      let inside_b : con.position h b.1 ≤ length (con.content h b.1) =
        rw (position_b, content_b)
          (omega (arith, length-splice o block (con.content h w) inside)) in
      let second =
        con.write_all h trailer b.1 (con.write_is_open h block w h ∙ opened) inside_b
          (room h trailer b.1) in
      (
        first.0,
        second.0,
        room h trailer b.1 ∙ length-trailer_bytes (trailer_for i (crc_bitwise 0 block)),
        second.1 ∙ ap₂ (λ p c. splice p trailer c) position_b content_b,
      )

  module _ {cfp : Context} {map : Array} (w : W)
      (ok : IsChangeFile cfp map (con.content cfp.cfc_fd w))
      (here : cfp.cfc_curpos < cfp.cfc_header.cf_total_blocks)
      (opened : con.is_open cfp.cfc_fd w ≡ true)
      (short : length (con.content cfp.cfc_fd w) + record_size cfp < 2 ^ 63) (block : List ℕ)
      (is_bytes : IsBytes block) (size : length block ≡ cfp.cfc_blocksize) where
    abbrev bytes : List ℕ
    bytes = con.content cfp.cfc_fd w

    abbrev fd : ℕ
    fd = cfp.cfc_fd

    abbrev cur : ℕ
    cur = cfp.cfc_curpos

    abbrev Stored : Type 0
    Stored =
        (cfp' : Context) × (map' : Array) × (w' : W) × (cf_writeblock sys cfp block w
          ≡ some ((0, cfp'), w'))
        × Stores con cfp map w block cfp' map' w'

    whole : take cfp.cfc_blocksize block ≡ block
    whole = take-all cfp.cfc_blocksize block (omega (arith, size))

    crc : cf_crc32 cfp 0 block cfp.cfc_blocksize ≡ some (crc_bitwise 0 block)
    crc = cf_crc32-bitwise ok block is_bytes size

    -- Block `cur` of a map that has it at `o`, and a block `j` that does not meet it.
    now_at :
        (o : ℕ)
        → o ≤ length bytes
        → (map' : Array) → entry map' cur ≡ o
        → o ≢ 0
        → stored cfp map' (put_block o cur block bytes) cur ≡ some block
    unfolding stored
    now_at o inside map' at ne =
        let same : slice o cfp.cfc_blocksize (put_block o cur block bytes) ≡ block =
          ap (λ n. slice o n (put_block o cur block bytes)) (sym size)
          ∙ slice-put_block o cur block bytes inside in
        ground (arith, at, ne, same)

    other_at :
        (o : ℕ)
        → o ≤ length bytes
        → (map' : Array) (j : ℕ) → entry map' j ≡ entry map j
        → (entry map j ≢ 0
            → (entry map j + record_size cfp ≤ o) ⊎ (o + record_size cfp ≤ entry map j))
        → stored cfp map' (put_block o cur block bytes) j ≡ stored cfp map bytes j
    unfolding stored
    other_at o inside map' j at apart = elim (ℕ_discrete (entry map j) 0) [
      | yes e ↦ ground arith
      | no ne ↦
          let meets : (entry map j + cfp.cfc_blocksize ≤ o)
              ⊎ (o + (length block + trailer_size) ≤ entry map j) =
            grind (arith, apart ne, size) in
          let same = slice-put_ne o cur block bytes inside (entry map j) cfp.cfc_blocksize meets in
          ground (arith, at, same)
    ]

    over : entry map cur ≢ 0 → Stored
    unfolding cf_writeblock stored
    over present =
        let o = entry map cur in
        let inside : o ≤ length bytes =
          omega (arith, over_room ok here block is_bytes size present) in
        let s = sys.sys_seek fd o seek_absolute w in
        let sought = con.seek_to fd o w opened (omega (arith, inside, ok.short)) in
        let still = con.seek_is_open fd o seek_absolute w fd ∙ opened in
        let same : con.content fd s.1 ≡ bytes = con.seek_content fd o seek_absolute w fd in
        let wrote = two_writes fd o cur block s.1 still sought.1 (rw same inside) in
        let b = sys.sys_write fd block s.1 in
        let t = sys.sys_write fd (trailer_of_block cur block) b.1 in
        let final : con.content fd t.1 ≡ put_block o cur block bytes =
          wrote.3 ∙ ap (put_block o cur block) same in
        (
          cfp,
          map,
          t.1,
          ground (
            arith,
            current_entry-some ok here,
            ok.loaded,
            sought.0,
            crc,
            whole,
            wrote.0,
            wrote.1,
            wrote.2,
            room fd block s.1,
            size,
          ),
          record {
            is_file = rw final (over-IsChangeFile ok here block is_bytes size present);
            same_fd = refl;
            same_curpos = refl;
            same_total = refl;
            same_blocksize = refl;
            used = ground (arith, present);
            dirty = λ e. absurd (present e);
            is_open = λ g.
                con.write_is_open fd (trailer_of_block cur block) b.1 g
                ∙ con.write_is_open fd block s.1 g
                ∙ con.seek_is_open fd o seek_absolute w g;
            now = rw final (now_at o inside map refl present);
            others =
                λ j ne. rw final (other_at o inside map j refl (λ p. ok.apart j cur ne p present));
          },
        )

    fresh : entry map cur ≡ 0 → Stored
    unfolding cf_writeblock stored
    fresh absent =
        let o = length bytes in
        let inside : o ≤ length bytes = omega arith in
        let s = sys.sys_seek fd 0 seek_end w in
        let sought = con.seek_to_end fd w opened in
        let still = con.seek_is_open fd 0 seek_end w fd ∙ opened in
        let same : con.content fd s.1 ≡ bytes = con.seek_content fd 0 seek_end w fd in
        let wrote = two_writes fd o cur block s.1 still sought.2 (rw same inside) in
        let b = sys.sys_write fd block s.1 in
        let t = sys.sys_write fd (trailer_of_block cur block) b.1 in
        let final : con.content fd t.1 ≡ put_block o cur block bytes =
          wrote.3 ∙ ap (put_block o cur block) same in
        let nonzero : o ≢ 0 = λ e. absurd (omega (arith, end_pos ok here block is_bytes size)) in
        (
          record_block cfp map o,
          placed cfp map o,
          t.1,
          ground (
            arith,
            absent,
            current_entry-some ok here,
            ok.loaded,
            sought.0,
            sought.1,
            crc,
            whole,
            wrote.0,
            wrote.1,
            wrote.2,
            room fd block s.1,
            size,
          ),
          record {
            is_file = rw final (new-IsChangeFile ok here block is_bytes size short);
            same_fd = refl;
            same_curpos = refl;
            same_total = refl;
            same_blocksize = refl;
            used = ground (arith, absent);
            dirty = λ e. dirty_set cfp.cfc_header.cf_flags;
            is_open = λ g.
                con.write_is_open fd (trailer_of_block cur block) b.1 g
                ∙ con.write_is_open fd block s.1 g
                ∙ con.seek_is_open fd 0 seek_end w g;
            now = rw final (
                now_at o inside (placed cfp map o) (new_self ok here block is_bytes size o)
                  nonzero);
            others = λ j ne. rw final (
                other_at o inside (placed cfp map o) j
                  (new_other ok here block is_bytes size o j ne)
                  (λ p. inl (below_end ok here block is_bytes size j p)));
          },
        )

    -- On an open well-formed change file at a block of the map, under the contract of the
    -- services and with room on the disk, a write of a block of bytes of the block size returns
    -- 0: the file is well-formed again, the block is the one stored at its number, and every
    -- other block is as it was, whether the block was new or is overwritten; a new block is
    -- counted and sets the dirty flag, an overwritten one is not counted.
    pub cf_writeblock-Stores : Stored
    cf_writeblock-Stores = elim (ℕ_discrete (entry map cur) 0) [
      | yes absent ↦ fresh absent
      | no present ↦ over present
    ]
