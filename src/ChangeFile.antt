-- ===== src/ChangeFile.antt =====
-- src/changefile.c and src/changefileint.h: the change file, which holds the blocks that have been
-- written to an image. A function that changes its context returns the new one; `none` for a
-- context is a handle that has not been stored. The theorems are in the modules below.
pub mod Format
pub mod Open
pub mod Sync
pub mod Blocks
pub mod Map
pub mod Read
pub mod Put
pub mod Write
pub mod Store
pub mod Past
pub mod Saved
pub mod Durable
pub mod Fresh
pub mod Failure
pub mod Sample
mod Tests
mod FailureTests
use partclone_utils.Base.{
  ℕ, zero, suc, ◌+◌, ◌*◌, ◌/◌, ◌%◌, ◌^◌, bit_and, bit_xor, Bool, true, false, not, ◌&&◌, ◌||◌,
  Option, none, some, List, [], ◌∷◌, ◌++◌, ◌==◌, leb, if◌then◌else◌, length, get_elem?, set, take,
  drop, slice, replicate, overlay,
}
use partclone_utils.Base.Words.{le_bytes, le_value, words_bytes, words_of}
use partclone_utils.Checksum.{crc_table}
use partclone_utils.Sysdep.{
  Sysdep, M, pure, fault, ◌>>=◌, ◌>>◌, call, deref, in_bounds, Array, array_of, open_rw, create,
  seek_absolute, seek_end, enxio, enodev, eio, esrch,
}

abbrev pub cf_magic_1 : ℕ
cf_magic_1 = 0xdeadbeef

abbrev pub cf_magic_2 : ℕ
cf_magic_2 = 0xfeedf00d

abbrev pub cf_magic_3 : ℕ
cf_magic_3 = 0x3a070045

abbrev pub cf_version_1 : ℕ
cf_version_1 = 1

-- `cf_header_t`
pub record Header : Type 0 where
  pub cf_magic : ℕ
  pub cf_version : ℕ
  pub cf_flags : ℕ
  pub cf_total_blocks : ℕ
  pub cf_used_blocks : ℕ
  pub cf_blockmap_offset : ℕ
  pub cf_magic2 : ℕ

-- `sizeof(cf_header_t)`
abbrev pub header_size : ℕ
header_size = 32

-- The header in memory, field by field at the offsets that its comment gives.
unfoldable pub header_bytes : Header → List ℕ
header_bytes h =
    le_bytes 4 h.cf_magic
    ++ (le_bytes 2 h.cf_version
        ++ (le_bytes 2 h.cf_flags
            ++ (le_bytes 8 h.cf_total_blocks
                ++ (le_bytes 8 h.cf_used_blocks
                    ++ (le_bytes 4 h.cf_blockmap_offset ++ le_bytes 4 h.cf_magic2)))))

unfoldable pub header_of : List ℕ → Header
header_of bs = record {
  cf_magic = le_value (slice 0x00 4 bs);
  cf_version = le_value (slice 0x04 2 bs);
  cf_flags = le_value (slice 0x06 2 bs);
  cf_total_blocks = le_value (slice 0x08 8 bs);
  cf_used_blocks = le_value (slice 0x10 8 bs);
  cf_blockmap_offset = le_value (slice 0x18 4 bs);
  cf_magic2 = le_value (slice 0x1c 4 bs);
}

-- `cf_block_trailer_t`
pub record Trailer : Type 0 where
  pub cfb_curblock : ℕ
  pub cfb_crc : ℕ
  pub cfb_magic : ℕ

abbrev pub trailer_size : ℕ
trailer_size = 16

unfoldable pub trailer_bytes : Trailer → List ℕ
trailer_bytes t = le_bytes 8 t.cfb_curblock ++ (le_bytes 4 t.cfb_crc ++ le_bytes 4 t.cfb_magic)

unfoldable pub trailer_of : List ℕ → Trailer
trailer_of bs = record {
  cfb_curblock = le_value (slice 0 8 bs);
  cfb_crc = le_value (slice 8 4 bs);
  cfb_magic = le_value (slice 12 4 bs);
}

-- `cf_context_t`, with its own address; the system services are a parameter of the functions.
pub record Context : Type 0 where
  pub addr : ℕ
  pub cfc_header : Header
  pub cfc_fd : ℕ
  pub cfc_blockmap : Option Array
  pub cfc_blocksize : ℕ
  pub cfc_blockcount : ℕ
  pub cfc_curpos : ℕ
  pub cfc_crc_tab32 : List ℕ

-- `sizeof(cf_context_t)`: the header, six words of eight bytes, and the table.
abbrev pub context_size : ℕ
context_size = 32 + 48 + 4 * 256

-- `CF_HEADER_DIRTY` is bit 0 of the flags: its test, `|=` and `&= ~`.
abbrev pub is_dirty : ℕ → Bool
is_dirty flags = flags % 2 == 1

abbrev pub set_dirty : ℕ → ℕ
set_dirty flags = flags / 2 * 2 + 1

abbrev pub clear_dirty : ℕ → ℕ
clear_dirty flags = flags / 2 * 2

abbrev pub zero_header : Header
zero_header = record {
  cf_magic = 0;
  cf_version = 0;
  cf_flags = 0;
  cf_total_blocks = 0;
  cf_used_blocks = 0;
  cf_blockmap_offset = 0;
  cf_magic2 = 0;
}

-- `bytes * 8` as a `uint64_t`
abbrev pub words_size : ℕ → ℕ
words_size n = (n * 8) % 2 ^ 64

-- `cfp->cfc_blockmap[cfp->cfc_curpos]`; `none` follows NULL or leaves the array.
unfoldable pub current_entry : Context → Option ℕ
current_entry cfp = elim cfp.cfc_blockmap [
  | none ↦ none
  | some map ↦ get_elem? map.cells cfp.cfc_curpos
]

-- `cf_seek`
unfoldable pub cf_seek : Context → ℕ → ℕ × Context
cf_seek cfp blockno =
    if leb blockno cfp.cfc_header.cf_total_blocks
    then (0, record cfp { cfc_curpos = blockno })
    else (enxio, cfp)

-- `cf_crc32` over `size` bytes of `buf`; `none` is a read outside the buffer or the table.
unfoldable pub cf_crc32 : Context → ℕ → List ℕ → ℕ → Option ℕ
cf_crc32 cfp crc buf zero = some crc
cf_crc32 cfp crc [] (suc size) = none
cf_crc32 cfp crc (c ∷ buf) (suc size) =
    let tmp = bit_xor crc (bit_and c 0x000000ff) in
    elim (get_elem? cfp.cfc_crc_tab32 (bit_and tmp 0xff)) [
      | none ↦ none
      | some tabled ↦ cf_crc32 cfp (bit_xor (crc / 2 ^ 8) tabled) buf size
    ]

-- `cf_blockused`
unfoldable pub cf_blockused : Context → Option ℕ
cf_blockused cfp = elim (current_entry cfp) [
  | none ↦ none
  | some entry ↦ some (if entry == 0 then 0 else 1)
]

-- The trailer that `cf_writeblock` puts behind a block.
abbrev pub trailer_for : ℕ → ℕ → Trailer
trailer_for curpos crc = record { cfb_curblock = curpos; cfb_crc = crc; cfb_magic = cf_magic_3 }

-- The check of a block's trailer in `cf_readblock`.
abbrev pub trailer_fits : Trailer → ℕ → ℕ → Bool
trailer_fits btrail curpos crc =
    btrail.cfb_curblock == curpos && (btrail.cfb_magic == cf_magic_3 && btrail.cfb_crc == crc)

-- A failed transfer: the error, or `EIO` for a short one that reports none.
abbrev pub or_eio : ℕ → ℕ
or_eio error = if error == 0 then eio else error
