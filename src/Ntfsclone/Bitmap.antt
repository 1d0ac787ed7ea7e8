-- ===== src/Ntfsclone/Bitmap.antt =====
-- The bitmap of used clusters in src/libntfsclone.c: `bitmap_set_bit` and `bitmap_bit_value`, and the
-- loops that look for a cluster in it.
use partclone_utils.Base.{
  ℕ, zero, suc, ◌+◌, ◌-◌, ◌/◌, ◌%◌, ◌^◌, true, false, Option, none, some, List, ◌==◌, if◌then◌else◌,
  get_elem?, set,
}

-- A byte with bit `k` set, and with bit `k` cleared.
abbrev pub bit_on : ℕ → ℕ → ℕ
bit_on b k = if b / 2 ^ k % 2 == 1 then b else b + 2 ^ k

abbrev pub bit_off : ℕ → ℕ → ℕ
bit_off b k = if b / 2 ^ k % 2 == 1 then b - 2 ^ k else b

-- `bitmap_set_bit`; `none` leaves the bitmap.
unfoldable pub bitmap_set_bit : List ℕ → ℕ → ℕ → Option (List ℕ)
bitmap_set_bit bitmap bit value = elim (get_elem? bitmap (bit / 8)) [
  | none ↦ none
  | some b ↦
      some (set bitmap (bit / 8) (if value == 0 then bit_off b (bit % 8) else bit_on b (bit % 8)))
]

-- `bitmap_bit_value`; `none` leaves the bitmap.
unfoldable pub bitmap_bit_value : List ℕ → ℕ → Option ℕ
bitmap_bit_value bitmap bit = elim (get_elem? bitmap (bit / 8)) [
  | none ↦ none
  | some b ↦ some (b / 2 ^ (bit % 8) % 2)
]

-- The loop of `v10_seek`: the free clusters from `pbn + bsf` on, up to the block that is sought, which
-- is `left` clusters on. The bit is looked at before the bound.
unfoldable pub free_loop : List ℕ → ℕ → ℕ → ℕ → Option ℕ
free_loop bitmap zero pbn bsf = elim (bitmap_bit_value bitmap (pbn + bsf)) [
  | none ↦ none
  | some bit ↦ some bsf
]
free_loop bitmap (suc left) pbn bsf = elim (bitmap_bit_value bitmap (pbn + bsf)) [
  | none ↦ none
  | some bit ↦ elim (bit == 0) [
    | true ↦ free_loop bitmap left pbn ((bsf + 1) % 2 ^ 16)
    | false ↦ some bsf
  ]
]

-- The loop of `seek2cluster`: the first used cluster from `cpos` on; the one that is sought, `left`
-- clusters on, is used.
unfoldable pub used_loop : List ℕ → ℕ → ℕ → Option ℕ
used_loop bitmap zero cpos = some cpos
used_loop bitmap (suc left) cpos = elim (bitmap_bit_value bitmap cpos) [
  | none ↦ none
  | some bit ↦ elim (bit == 0) [ true ↦ used_loop bitmap left (cpos + 1) | false ↦ some cpos ]
]
