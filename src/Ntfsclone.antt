-- ===== src/Ntfsclone.antt =====
-- src/libntfsclone.c, src/libntfsclone.h and src/ntfsclone.h: access to the clusters of an image of
-- ntfsclone. Here are the state, its flags and the header; the functions are in the modules below.
--
-- A handle is its context `NcContext`, never NULL; a function that changes it returns the new one.
-- Each bit of `nc_flags` is a Boolean field. `NC_HAVE_CF_PATH` and `NC_TOLERANT` are the same bit.
pub mod View
pub mod Bitmap
mod Bits
mod Atoms
mod Marks
mod Scanning
mod Start
mod Verified
mod Walk
mod Found
mod Counted
mod Sought
mod Read
mod Clusters
mod Entered
mod Steps
mod Opened
mod Limits
mod Sample
mod Tests
mod ReadTests
pub mod Scan
pub mod Version10
pub mod Seek
pub mod Blocks
pub mod Handle
pub mod Table
use partclone_utils.Base.{
  ℕ, zero, suc, ◌+◌, ◌-◌, ◌*◌, ◌/◌, ◌%◌, ◌^◌, Bool, true, false, not, ◌&&◌, Option, none, some,
  List, [], ◌∷◌, ◌++◌, ltb, if◌then◌else◌, slice, get_or, ℤ, pos, negsuc,
}
use partclone_utils.Base.Words.{le_bytes, le_value}
use partclone_utils.Sysdep.{Array, OpenMode, open_none}
use partclone_utils.ChangeFile.{Context}

-- The flag bits `NC_*` of `nc_flags`.
pub record NcFlags : Type 0 where
  pub nc_open : Bool
  pub nc_cf_open : Bool
  pub nc_verified : Bool
  pub nc_have_cfdep : Bool
  pub nc_have_verdep : Bool
  pub nc_have_ivblock : Bool
  pub nc_cf_verified : Bool
  pub nc_version_init : Bool
  pub nc_head_valid : Bool
  pub nc_have_path : Bool
  pub nc_have_cf_path : Bool
  pub nc_valid : Bool
  pub nc_read_only : Bool

abbrev pub no_nc_flags : NcFlags
no_nc_flags = record {
  nc_open = false;
  nc_cf_open = false;
  nc_verified = false;
  nc_have_cfdep = false;
  nc_have_verdep = false;
  nc_have_ivblock = false;
  nc_cf_verified = false;
  nc_version_init = false;
  nc_head_valid = false;
  nc_have_path = false;
  nc_have_cf_path = false;
  nc_valid = false;
  nc_read_only = false;
}

-- `image_hdr`; the signed fields are kept as the 64-bit words that hold them.
pub record ImageHdr : Type 0 where
  pub magic : List ℕ
  pub major_ver : ℕ
  pub minor_ver : ℕ
  pub cluster_size : ℕ
  pub device_size : ℕ
  pub nr_clusters : ℕ
  pub inuse : ℕ
  pub offset_to_image_data : ℕ

-- `sizeof(image_hdr)`, a packed struct
abbrev pub image_hdr_size : ℕ
image_hdr_size = 50

unfoldable pub image_hdr_bytes : ImageHdr → List ℕ
image_hdr_bytes h =
    h.magic
    ++ ((h.major_ver ∷ h.minor_ver ∷ [])
        ++ (le_bytes 4 h.cluster_size
            ++ (le_bytes 8 h.device_size
                ++ (le_bytes 8 h.nr_clusters
                    ++ (le_bytes 8 h.inuse ++ le_bytes 4 h.offset_to_image_data)))))

unfoldable pub image_hdr_of : List ℕ → ImageHdr
image_hdr_of bs = record {
  magic = slice 0 16 bs;
  major_ver = get_or bs 16 0;
  minor_ver = get_or bs 17 0;
  cluster_size = le_value (slice 18 4 bs);
  device_size = le_value (slice 22 8 bs);
  nr_clusters = le_value (slice 30 8 bs);
  inuse = le_value (slice 38 8 bs);
  offset_to_image_data = le_value (slice 46 4 bs);
}

-- "\0ntfsclone-image", without the final NUL
abbrev pub ntfsclone_magic : List ℕ
ntfsclone_magic =
    0 ∷ 110 ∷ 116 ∷ 102 ∷ 115 ∷ 99 ∷ 108 ∷ 111 ∷ 110 ∷ 101 ∷ 45 ∷ 105 ∷ 109 ∷ 97 ∷ 103 ∷ 101 ∷ []

-- `sizeof(ntfsclone_atom_t)`, a packed struct, and `sizeof(nca_union)`
abbrev pub atom_size : ℕ
atom_size = 9

abbrev pub union_size : ℕ
union_size = 8

-- `ATOM_TO_DATA_OFFSET`
abbrev pub atom_to_data_offset : ℕ
atom_to_data_offset = 1

-- `nca_atype` and `ncau_empty_count` of the bytes of an atom
abbrev pub nca_atype : List ℕ → ℕ
nca_atype ibuf = get_or ibuf 0 0

abbrev pub ncau_empty_count : List ℕ → ℕ
ncau_empty_count ibuf = le_value (slice 1 8 ibuf)

-- `v10_context_t`, with its address.
pub record V10Context : Type 0 where
  pub v10_addr : ℕ
  pub v10_bitmap : Option Array
  pub v10_bucket_offset : Option Array
  pub v10_current_bucket : ℕ
  pub v10_bsfcount : ℕ
  pub v10_bucket_factor : ℕ

-- `sizeof(v10_context_t)`
abbrev pub v10_context_size : ℕ
v10_context_size = 32

abbrev pub v10_default_factor : ℕ
v10_default_factor = 10

-- The rows of `version_table`, by the version in their key.
pub data NcVersion : Type 0 where
  version_10_1 version_10_0 : NcVersion

-- `VDT_MINOR`
abbrev pub vdt_minor : NcVersion → ℕ
vdt_minor version_10_1 = 1
vdt_minor version_10_0 = 0

-- `nc_context_t`, with its address.
pub record NcContext : Type 0 where
  pub nc_addr : ℕ
  pub nc_fd : ℕ
  pub nc_path : Option Array
  pub nc_cf_path : Option Array
  pub nc_cf_handle : Option Context
  pub nc_ivblock : Option Array
  pub nc_verdep : Option V10Context
  pub nc_dispatch : Option NcVersion
  pub nc_head : ImageHdr
  pub nc_curblock : ℕ
  pub nc_flags : NcFlags
  pub nc_omode : OpenMode

-- `sizeof(nc_context_t)`
abbrev pub nc_context_size : ℕ
nc_context_size = 136

-- A pointer is not NULL.
abbrev pub is_set {ℓ} : {A : Type ℓ} → Option A → Bool
is_set none = false
is_set (some a) = true

-- The macros `NTCTX_*`.
abbrev pub ntctx_valid : NcContext → Bool
ntctx_valid p = p.nc_flags.nc_valid

abbrev pub ntctx_open : NcContext → Bool
ntctx_open p = ntctx_valid p && p.nc_flags.nc_open

abbrev pub ntctx_tolerant : NcContext → Bool
ntctx_tolerant p = ntctx_valid p && p.nc_flags.nc_have_cf_path

abbrev pub ntctx_read_only : NcContext → Bool
ntctx_read_only p = p.nc_flags.nc_read_only

abbrev pub ntctx_cf_open : NcContext → Bool
ntctx_cf_open p = ntctx_valid p && p.nc_flags.nc_cf_open

abbrev pub ntctx_verified : NcContext → Bool
ntctx_verified p = ntctx_open p && p.nc_flags.nc_verified

abbrev pub ntctx_readready : NcContext → Bool
ntctx_readready p = ntctx_verified p && (p.nc_flags.nc_head_valid && p.nc_flags.nc_version_init)

abbrev pub ntctx_cfready : NcContext → Bool
ntctx_cfready p = ntctx_readready p && (p.nc_flags.nc_have_cfdep && p.nc_flags.nc_cf_verified)

abbrev pub ntctx_writeable : NcContext → Bool
ntctx_writeable p = not (ntctx_read_only p) && ntctx_readready p

abbrev pub ntctx_writeready : NcContext → Bool
ntctx_writeready p = not (ntctx_read_only p) && ntctx_cfready p

abbrev pub ntctx_have_path : NcContext → Bool
ntctx_have_path p = ntctx_valid p && (p.nc_flags.nc_have_path && is_set p.nc_path)

abbrev pub ntctx_have_cf_path : NcContext → Bool
ntctx_have_cf_path p = ntctx_valid p && (p.nc_flags.nc_have_cf_path && is_set p.nc_cf_path)

abbrev pub ntctx_have_verdep : NcContext → Bool
ntctx_have_verdep p = ntctx_valid p && (p.nc_flags.nc_have_verdep && is_set p.nc_verdep)

abbrev pub ntctx_have_ivblock : NcContext → Bool
ntctx_have_ivblock p = ntctx_valid p && (p.nc_flags.nc_have_ivblock && is_set p.nc_ivblock)

-- An `int64_t` in its word, as a number.
abbrev pub signed_word : ℕ → ℤ
signed_word n = if ltb n (2 ^ 63) then pos n else negsuc (2 ^ 64 - n - 1)

-- `n / 8` of an `int64_t`, rounded towards 0, and `n >> factor`, rounded down, as words.
abbrev pub signed_eighth : ℕ → ℕ
signed_eighth n = if ltb n (2 ^ 63) then n / 8 else (2 ^ 64 - (2 ^ 64 - n) / 8) % 2 ^ 64

abbrev pub signed_shift : ℕ → ℕ → ℕ
signed_shift n factor =
    if ltb n (2 ^ 63)
    then n / 2 ^ factor
    else 2 ^ 64 - ((2 ^ 64 - n) + (2 ^ factor - 1)) / 2 ^ factor
