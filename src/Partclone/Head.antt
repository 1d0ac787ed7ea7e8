-- ===== src/Partclone/Head.antt =====
-- src/partclone.h: the headers of the two format versions, as they stand in memory.
use partclone_utils.Base.{ℕ, List, [], ◌∷◌, slice}
use partclone_utils.Base.Words.{le_value}
use partclone_utils.Partclone.{Version, version_0001, version_0002}

-- "partclone-image", without the final NUL
abbrev pub image_magic : List ℕ
image_magic =
    112 ∷ 97 ∷ 114 ∷ 116 ∷ 99 ∷ 108 ∷ 111 ∷ 110 ∷ 101 ∷ 45 ∷ 105 ∷ 109 ∷ 97 ∷ 103 ∷ 101 ∷ []

-- "BiTmAgIc"
abbrev pub cmagicstr : List ℕ
cmagicstr = 66 ∷ 105 ∷ 84 ∷ 109 ∷ 65 ∷ 103 ∷ 73 ∷ 99 ∷ []

abbrev pub crc_size : ℕ
crc_size = 4

abbrev pub magic_len : ℕ
magic_len = 8

-- `sizeof(image_head_v1)` and `sizeof(image_head_v2)`
abbrev pub head_v1_size : ℕ
head_v1_size = 4160

abbrev pub head_v2_size : ℕ
head_v2_size = 110

-- The fields of `image_head_v1` that are used; `magic` and `version` lie alike in both versions.
pub record HeadV1 : Type 0 where
  pub magic : List ℕ
  pub version : List ℕ
  pub block_size : ℕ
  pub device_size : ℕ
  pub totalblock : ℕ

unfoldable pub head_v1 : List ℕ → HeadV1
head_v1 raw = record {
  magic = slice 0 15 raw;
  version = slice 30 4 raw;
  block_size = le_value (slice 36 4 raw);
  device_size = le_value (slice 40 8 raw);
  totalblock = le_value (slice 48 8 raw);
}

-- The fields of the packed `image_head_v2` that are used.
pub record HeadV2 : Type 0 where
  pub magic : List ℕ
  pub device_size : ℕ
  pub totalblock : ℕ
  pub block_size : ℕ
  pub checksum_size : ℕ
  pub blocks_per_checksum : ℕ

unfoldable pub head_v2 : List ℕ → HeadV2
head_v2 raw = record {
  magic = slice 0 15 raw;
  device_size = le_value (slice 52 8 raw);
  totalblock = le_value (slice 60 8 raw);
  block_size = le_value (slice 84 4 raw);
  checksum_size = le_value (slice 98 2 raw);
  blocks_per_checksum = le_value (slice 100 4 raw);
}

-- "0001" and "0002", the keys of `version_table`
abbrev pub version_key : Version → List ℕ
version_key version_0001 = 48 ∷ 48 ∷ 48 ∷ 49 ∷ []
version_key version_0002 = 48 ∷ 48 ∷ 48 ∷ 50 ∷ []
