-- ===== src/Partclone.antt =====
-- src/libpartclone.c, src/libpartclone.h and src/partclone.h: access to the blocks of a partclone
-- image. Here are the state and its flags; the functions and the theorems are in the modules below.
--
-- A handle is its context `PcContext`, never NULL; a function that changes it returns the new one.
-- Each bit of `pc_flags` is a Boolean field.
pub mod Head
pub mod Version1
pub mod Version2
pub mod Blocks
pub mod Handle
pub mod Rank
pub mod Layout
pub mod View
pub mod OneBlock
pub mod Read
pub mod Seek
pub mod Overlay
pub mod Write
pub mod Unpack
pub mod Hints
pub mod Load
pub mod Load2
pub mod Verify
mod Sample
mod Tests
mod OverlayTests
mod Load2Tests
use partclone_utils.Base.{ℕ, ◌+◌, Bool, true, false, not, ◌&&◌, Option, none, some, List}
use partclone_utils.Sysdep.{Array, OpenMode, open_none}
use partclone_utils.ChangeFile.{Context}

-- The flag bits `PC_*` of `pc_flags`.
pub record PcFlags : Type 0 where
  pub pc_open : Bool
  pub pc_cf_open : Bool
  pub pc_verified : Bool
  pub pc_have_cfdep : Bool
  pub pc_have_verdep : Bool
  pub pc_have_ivblock : Bool
  pub pc_cf_verified : Bool
  pub pc_version_init : Bool
  pub pc_head_valid : Bool
  pub pc_have_path : Bool
  pub pc_have_cf_path : Bool
  pub pc_valid : Bool
  pub pc_tolerant : Bool
  pub pc_read_only : Bool

abbrev pub no_flags : PcFlags
no_flags = record {
  pc_open = false;
  pc_cf_open = false;
  pc_verified = false;
  pc_have_cfdep = false;
  pc_have_verdep = false;
  pc_have_ivblock = false;
  pc_cf_verified = false;
  pc_version_init = false;
  pc_head_valid = false;
  pc_have_path = false;
  pc_have_cf_path = false;
  pc_valid = false;
  pc_tolerant = false;
  pc_read_only = false;
}

-- `v1_context_t`, with its address.
pub record V1Context : Type 0 where
  pub v1_addr : ℕ
  pub v1_bitmap : Option Array
  pub v1_sumcount : Option Array
  pub v1_nvbcount : ℕ
  pub v1_crc_tab32 : List ℕ
  pub v1_bitmap_factor : ℕ

-- `sizeof(v1_context_t)`
abbrev pub v1_context_size : ℕ
v1_context_size = 1056

abbrev pub v1_default_factor : ℕ
v1_default_factor = 10

-- The struct `pc_head`, which both format versions fill.
pub record PcHead : Type 0 where
  pub head_size : ℕ
  pub block_size : ℕ
  pub totalblock : ℕ
  pub checksum_size : ℕ
  pub device_size : ℕ
  pub blocks_per_checksum : ℕ

-- The rows of `version_table`.
pub data Version : Type 0 where
  version_0001 version_0002 : Version

-- `pc_context_t`, with its address; `pc_raw_head` is the union of `pc_head_v1` and `pc_head_v2`.
pub record PcContext : Type 0 where
  pub pc_addr : ℕ
  pub pc_fd : ℕ
  pub pc_path : Option Array
  pub pc_cf_path : Option Array
  pub pc_cf_handle : Option Context
  pub pc_ivblock : Option Array
  pub pc_verdep : Option V1Context
  pub pc_dispatch : Option Version
  pub pc_raw_head : List ℕ
  pub pc_head : PcHead
  pub pc_curblock : ℕ
  pub pc_flags : PcFlags
  pub pc_omode : OpenMode

-- `sizeof(pc_context_t)`
abbrev pub pc_context_size : ℕ
pc_context_size = 64 + 4160 + 48 + 16

-- A pointer is not NULL.
abbrev pub is_set {ℓ} : {A : Type ℓ} → Option A → Bool
is_set none = false
is_set (some a) = true

-- The macros `PCTX_*`.
abbrev pub pctx_valid : PcContext → Bool
pctx_valid p = p.pc_flags.pc_valid

abbrev pub pctx_open : PcContext → Bool
pctx_open p = pctx_valid p && p.pc_flags.pc_open

abbrev pub pctx_read_only : PcContext → Bool
pctx_read_only p = p.pc_flags.pc_read_only

abbrev pub pctx_cf_open : PcContext → Bool
pctx_cf_open p = pctx_valid p && p.pc_flags.pc_cf_open

abbrev pub pctx_verified : PcContext → Bool
pctx_verified p = pctx_open p && p.pc_flags.pc_verified

abbrev pub pctx_readready : PcContext → Bool
pctx_readready p = pctx_verified p && (p.pc_flags.pc_head_valid && p.pc_flags.pc_version_init)

abbrev pub pctx_cfready : PcContext → Bool
pctx_cfready p = pctx_readready p && (p.pc_flags.pc_have_cfdep && p.pc_flags.pc_cf_verified)

abbrev pub pctx_writeable : PcContext → Bool
pctx_writeable p = not (pctx_read_only p) && pctx_readready p

abbrev pub pctx_writeready : PcContext → Bool
pctx_writeready p = not (pctx_read_only p) && pctx_cfready p

abbrev pub pctx_have_path : PcContext → Bool
pctx_have_path p = pctx_valid p && (p.pc_flags.pc_have_path && is_set p.pc_path)

abbrev pub pctx_have_cf_path : PcContext → Bool
pctx_have_cf_path p = pctx_valid p && (p.pc_flags.pc_have_cf_path && is_set p.pc_cf_path)

abbrev pub pctx_have_verdep : PcContext → Bool
pctx_have_verdep p = pctx_valid p && (p.pc_flags.pc_have_verdep && is_set p.pc_verdep)

abbrev pub pctx_have_ivblock : PcContext → Bool
pctx_have_ivblock p = pctx_valid p && (p.pc_flags.pc_have_ivblock && is_set p.pc_ivblock)
