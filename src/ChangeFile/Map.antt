-- ===== src/ChangeFile/Map.antt =====
-- What a change file stands for: a finite map from block numbers to blocks.
use native.Mathlib.Nat.{mod-eq_of_lt}
use partclone_utils.Base.And.{and-low}
use partclone_utils.Base.{
  bit_and, bit_xor, get_elem?, ◌/◌, ◌%◌, ℕ, zero, suc, ◌+◌, ◌*◌, ◌≤◌, ◌<◌, ◌^◌, ◌≡◌, refl, ◌≢◌, ◌⊎◌,
  ap, ◌∙◌, Option, none, some, List, [], ◌∷◌, arith, ◌==◌, if◌then◌else◌, length, get_or, slice,
  IsBytes, get_elem?-eq-get_or, Option-cases, take-all, inl, inr,
}
use partclone_utils.Checksum.{crc_byte, crc_table, update_crc32}
use partclone_utils.Checksum.Reference.{crc_bitwise, update_crc32-bitwise}
use partclone_utils.Sysdep.{Array}
use partclone_utils.ChangeFile.{
  header_size, trailer_size, trailer_bytes, trailer_for, Context, current_entry, cf_crc32,
}

-- The offset of block `i`, 0 for none.
abbrev pub entry : Array → ℕ → ℕ
entry map i = get_or map.cells i 0

-- The bytes that a block and its trailer take.
abbrev pub record_size : Context → ℕ
record_size cfp = cfp.cfc_blocksize + trailer_size

-- Block `i` of the map, read off the bytes of the file.
unfoldable pub stored : Context → Array → List ℕ → ℕ → Option (List ℕ)
stored cfp map bytes i =
    if entry map i == 0 then none else some (slice (entry map i) cfp.cfc_blocksize bytes)

-- A block at offset `e` that `cf_readblock` accepts as block `i`.
pub record IsBlock (blocksize : ℕ) (bytes : List ℕ) (i e : ℕ) : Type 0 where
  pub inside : e + (blocksize + trailer_size) ≤ length bytes
  pub is_bytes : IsBytes (slice e blocksize bytes)
  pub trailer :
      slice (e + blocksize) trailer_size bytes
      ≡ trailer_bytes (trailer_for i (crc_bitwise 0 (slice e blocksize bytes)))

-- The context describes the file: its block map is loaded and fits the header, its table is filled,
-- and its blocks are whole, lie behind the header and the block map, and do not overlap.
pub record IsChangeFile (cfp : Context) (map : Array) (bytes : List ℕ) : Type 0 where
  pub loaded : cfp.cfc_blockmap ≡ some map
  pub fits : length map.cells ≡ cfp.cfc_header.cf_total_blocks
  pub table : cfp.cfc_crc_tab32 ≡ crc_table
  pub few : cfp.cfc_header.cf_total_blocks < 2 ^ 61
  pub short : length bytes < 2 ^ 63
  pub map_behind : header_size ≤ cfp.cfc_header.cf_blockmap_offset
  pub map_inside :
      cfp.cfc_header.cf_blockmap_offset + 8 * cfp.cfc_header.cf_total_blocks ≤ length bytes
  pub behind :
      (i : ℕ)
      → entry map i ≢ 0
      → cfp.cfc_header.cf_blockmap_offset + 8 * cfp.cfc_header.cf_total_blocks ≤ entry map i
  pub whole : (i : ℕ) → entry map i ≢ 0 → IsBlock cfp.cfc_blocksize bytes i (entry map i)
  pub apart :
      (i j : ℕ)
      → i ≢ j
      → entry map i ≢ 0
      → entry map j ≢ 0
      → (entry map i + record_size cfp ≤ entry map j)
        ⊎ (entry map j + record_size cfp ≤ entry map i)

-- On bytes, the masks of `cf_crc32` make the index that `update_crc32` makes.
mask_byte :
    (crc c : ℕ) → c < 256 → bit_and (bit_xor crc (bit_and c 0xff)) 0xff ≡ bit_xor crc c % 256
mask_byte crc c small =
    ap (λ t. bit_and (bit_xor crc t) 0xff) (and-low 8 c ∙ mod-eq_of_lt small)
    ∙ and-low 8 (bit_xor crc c)

-- The checksum loop of the change file, with the context's table, is the one of the checksum
-- library with that table.
cf_crc32-update_crc32 :
    (cfp : Context) (crc : ℕ) (buf : List ℕ) (size : ℕ)
    → IsBytes buf
    → cf_crc32 cfp crc buf size ≡ update_crc32 cfp.cfc_crc_tab32 crc buf size
unfolding cf_crc32 update_crc32 crc_byte
cf_crc32-update_crc32 cfp crc [] zero b = refl
cf_crc32-update_crc32 cfp crc (c ∷ buf) zero b = refl
cf_crc32-update_crc32 cfp crc [] (suc size) b = refl
cf_crc32-update_crc32 cfp crc (c ∷ buf) (suc size) b =
    let index = mask_byte crc c b.0 in
    elim (Option-cases (get_elem? cfp.cfc_crc_tab32 (bit_xor crc c % 256))) [
      | inl e ↦ ground (arith, index, e)
      | inr (tabled, e) ↦
          let rest = cf_crc32-update_crc32 cfp (bit_xor (crc / 256) tabled) buf size b.1 in
          ground (arith, index, e, rest)
    ]

module _ {cfp : Context} {map : Array} {bytes : List ℕ} (ok : IsChangeFile cfp map bytes) where
  -- The checksum that `cf_crc32` of a well-formed change file's context makes, from the seed 0,
  -- of a block of bytes of the block size is the bit by bit CRC-32 of the block.
  pub cf_crc32-bitwise :
      (buf : List ℕ)
      → IsBytes buf
      → length buf ≡ cfp.cfc_blocksize
      → cf_crc32 cfp 0 buf cfp.cfc_blocksize ≡ some (crc_bitwise 0 buf)
  cf_crc32-bitwise buf b e =
      cf_crc32-update_crc32 cfp 0 buf cfp.cfc_blocksize b
      ∙ ap (λ t. update_crc32 t 0 buf cfp.cfc_blocksize) ok.table
      ∙ update_crc32-bitwise 0 buf cfp.cfc_blocksize b (omega arith)
      ∙ ap (λ t. some (crc_bitwise 0 t)) (take-all cfp.cfc_blocksize buf (omega arith))

  -- The look-up of the current block is in bounds.
  pub current_entry-some :
      cfp.cfc_curpos < cfp.cfc_header.cf_total_blocks
      → current_entry cfp ≡ some (entry map cfp.cfc_curpos)
  unfolding current_entry
  current_entry-some h =
      rw (ok.loaded, current_entry)
        (get_elem?-eq-get_or map.cells cfp.cfc_curpos 0 (omega (arith, ok.fits)))
