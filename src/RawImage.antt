-- ===== src/RawImage.antt =====
-- src/librawimage.c: access to the blocks of a raw image. Here are the state, its flags and the
-- functions that keep off the disk; the others are in `RawImage.Handle`.
pub mod Handle
pub mod Read
mod Tests
use partclone_utils.Base.{
  ℕ, ◌+◌, ◌-◌, ◌*◌, ◌%◌, ◌^◌, Bool, true, false, not, ◌&&◌, Option, none, some, List, ltb, leb,
  if◌then◌else◌, ℤ, pos, negsuc,
}
use partclone_utils.Sysdep.{Array, OpenMode, open_none, einval}
use partclone_utils.ChangeFile.{Context, cf_seek}

-- The flag bits `RAW_*` of `raw_flags` that are used.
pub record RawFlags : Type 0 where
  pub raw_open : Bool
  pub raw_cf_open : Bool
  pub raw_verified : Bool
  pub raw_have_cfdep : Bool
  pub raw_cf_verified : Bool
  pub raw_have_path : Bool
  pub raw_have_cf_path : Bool
  pub raw_valid : Bool
  pub raw_tolerant : Bool
  pub raw_read_only : Bool

abbrev pub no_raw_flags : RawFlags
no_raw_flags = record {
  raw_open = false;
  raw_cf_open = false;
  raw_verified = false;
  raw_have_cfdep = false;
  raw_cf_verified = false;
  raw_have_path = false;
  raw_have_cf_path = false;
  raw_valid = false;
  raw_tolerant = false;
  raw_read_only = false;
}

-- `raw_context_t`, with its address. `raw_path` is allocated and never filled.
pub record RawContext : Type 0 where
  pub raw_addr : ℕ
  pub raw_fd : ℕ
  pub raw_path : Option Array
  pub raw_cf_path : Option Array
  pub raw_cf_handle : Option Context
  pub raw_blocksize : ℕ
  pub raw_totalblocks : ℕ
  pub raw_curblock : ℕ
  pub raw_flags : RawFlags
  pub raw_omode : OpenMode

abbrev pub raw_default_blocksize : ℕ
raw_default_blocksize = 512

-- `sizeof(raw_context_t)`
abbrev pub raw_context_size : ℕ
raw_context_size = 72

abbrev pub is_set {ℓ} : {A : Type ℓ} → Option A → Bool
is_set none = false
is_set (some a) = true

-- The macros `RAWCTX_*`.
abbrev pub rawctx_open : RawContext → Bool
rawctx_open p = p.raw_flags.raw_valid && p.raw_flags.raw_open

abbrev pub rawctx_cf_open : RawContext → Bool
rawctx_cf_open p = p.raw_flags.raw_valid && p.raw_flags.raw_cf_open

abbrev pub rawctx_verified : RawContext → Bool
rawctx_verified p = rawctx_open p && p.raw_flags.raw_verified

abbrev pub rawctx_cfready : RawContext → Bool
rawctx_cfready p = rawctx_verified p && (p.raw_flags.raw_have_cfdep && p.raw_flags.raw_cf_verified)

abbrev pub rawctx_writeable : RawContext → Bool
rawctx_writeable p = not p.raw_flags.raw_read_only && rawctx_verified p

abbrev pub rawctx_writeready : RawContext → Bool
rawctx_writeready p = not p.raw_flags.raw_read_only && rawctx_cfready p

abbrev pub rawctx_have_path : RawContext → Bool
rawctx_have_path p = p.raw_flags.raw_valid && (p.raw_flags.raw_have_path && is_set p.raw_path)

abbrev pub rawctx_have_cf_path : RawContext → Bool
rawctx_have_cf_path p =
    p.raw_flags.raw_valid && (p.raw_flags.raw_have_cf_path && is_set p.raw_cf_path)

-- `rblock2offset` of src/librawimage.c
abbrev pub raw_offset : RawContext → ℕ → ℕ
raw_offset rcp rbnum = (rbnum * rcp.raw_blocksize) % 2 ^ 64

-- `rawimage_tolerant_mode`
unfoldable pub rawimage_tolerant_mode : RawContext → RawContext
rawimage_tolerant_mode rcp =
    if rawctx_open rcp
    then record rcp { raw_flags = record rcp.raw_flags { raw_tolerant = true } }
    else rcp

-- `rawimage_blocksize`
unfoldable pub rawimage_blocksize : RawContext → ℤ
rawimage_blocksize rcp = if rawctx_verified rcp then pos rcp.raw_blocksize else negsuc 0

-- `rawimage_blockcount`
unfoldable pub rawimage_blockcount : RawContext → ℤ
rawimage_blockcount rcp = if rawctx_verified rcp then pos rcp.raw_totalblocks else negsuc 0

-- `rawimage_seek`
unfoldable pub rawimage_seek : RawContext → ℕ → ℕ × RawContext
rawimage_seek rcp blockno =
    if not (rawctx_verified rcp && leb blockno rcp.raw_totalblocks)
    then (einval, rcp)
    else let moved = record rcp { raw_curblock = blockno } in
      elim rcp.raw_cf_handle [
        | none ↦ (0, moved)
        | some cf ↦
            let (error, cf') = cf_seek cf blockno in
            (error, record moved { raw_cf_handle = some cf' })
      ]

-- `rawimage_tell`
unfoldable pub rawimage_tell : RawContext → ℕ
rawimage_tell rcp = if rawctx_verified rcp then rcp.raw_curblock else 2 ^ 64 - 1

-- `rawimage_block_used`
unfoldable pub rawimage_block_used : RawContext → ℤ
rawimage_block_used rcp =
    if rawctx_verified rcp && ltb rcp.raw_curblock rcp.raw_totalblocks then pos 1 else negsuc 1
