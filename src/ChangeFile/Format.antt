-- ===== src/ChangeFile/Format.antt =====
-- The structures of src/changefileint.h on the disk.
use partclone_utils.Base.{◌^◌, ◌<◌, ◌≡◌, refl, arith, length}
use partclone_utils.Base.Words.{le_bytes, le_value}
use partclone_utils.ChangeFile.{
  Header, header_bytes, header_of, header_size, Trailer, trailer_bytes, trailer_of, trailer_size,
}

-- Every field fits its width.
pub record IsHeader (h : Header) : Type 0 where
  pub cf_magic : h.cf_magic < 2 ^ 32
  pub cf_version : h.cf_version < 2 ^ 16
  pub cf_flags : h.cf_flags < 2 ^ 16
  pub cf_total_blocks : h.cf_total_blocks < 2 ^ 64
  pub cf_used_blocks : h.cf_used_blocks < 2 ^ 64
  pub cf_blockmap_offset : h.cf_blockmap_offset < 2 ^ 32
  pub cf_magic2 : h.cf_magic2 < 2 ^ 32

pub length-header_bytes : (h : Header) → length (header_bytes h) ≡ header_size
unfolding header_bytes le_bytes
length-header_bytes h = refl

-- A header whose fields fit their widths is read back from its bytes as it was.
pub header_of-header_bytes : (h : Header) → IsHeader h → header_of (header_bytes h) ≡ h
unfolding header_bytes header_of le_bytes le_value
header_of-header_bytes h ok = λ i. record {
  cf_magic = e1 i;
  cf_version = e2 i;
  cf_flags = e3 i;
  cf_total_blocks = e4 i;
  cf_used_blocks = e5 i;
  cf_blockmap_offset = e6 i;
  cf_magic2 = e7 i;
}
  where
    e1 : (header_of (header_bytes h)).cf_magic ≡ h.cf_magic
    e1 = omega arith

    e2 : (header_of (header_bytes h)).cf_version ≡ h.cf_version
    e2 = omega arith

    e3 : (header_of (header_bytes h)).cf_flags ≡ h.cf_flags
    e3 = omega arith

    e4 : (header_of (header_bytes h)).cf_total_blocks ≡ h.cf_total_blocks
    e4 = omega arith

    e5 : (header_of (header_bytes h)).cf_used_blocks ≡ h.cf_used_blocks
    e5 = omega arith

    e6 : (header_of (header_bytes h)).cf_blockmap_offset ≡ h.cf_blockmap_offset
    e6 = omega arith

    e7 : (header_of (header_bytes h)).cf_magic2 ≡ h.cf_magic2
    e7 = omega arith

-- Every field of a trailer fits its width.
pub record IsTrailer (t : Trailer) : Type 0 where
  pub cfb_curblock : t.cfb_curblock < 2 ^ 64
  pub cfb_crc : t.cfb_crc < 2 ^ 32
  pub cfb_magic : t.cfb_magic < 2 ^ 32

pub length-trailer_bytes : (t : Trailer) → length (trailer_bytes t) ≡ trailer_size
unfolding trailer_bytes le_bytes
length-trailer_bytes t = refl

-- A block's trailer whose fields fit their widths is read back from its bytes as it was.
pub trailer_of-trailer_bytes : (t : Trailer) → IsTrailer t → trailer_of (trailer_bytes t) ≡ t
unfolding trailer_bytes trailer_of le_bytes le_value
trailer_of-trailer_bytes t ok =
    λ i. record { cfb_curblock = e1 i; cfb_crc = e2 i; cfb_magic = e3 i }
  where
    e1 : (trailer_of (trailer_bytes t)).cfb_curblock ≡ t.cfb_curblock
    e1 = omega arith

    e2 : (trailer_of (trailer_bytes t)).cfb_crc ≡ t.cfb_crc
    e2 = omega arith

    e3 : (trailer_of (trailer_bytes t)).cfb_magic ≡ t.cfb_magic
    e3 = omega arith
