-- ===== src/Partclone/Sample.antt =====
-- A partclone image of three blocks of four bytes, the second of which it does not hold, and contexts
-- for it: as it is opened, verified, behind a change file, and with a byte 2 in its bitmap.
use partclone_utils.Base.{
  ◌==◌, if◌then◌else◌, ℕ, zero, suc, ◌≡◌, refl, true, some, List, [], ◌∷◌, ◌++◌, arith, length,
  slice, replicate,
}
use partclone_utils.Base.Words.{le_value}
use partclone_utils.Sysdep.{Array, open_ro}
use partclone_utils.Sysdep.Memory.{Disk}
use partclone_utils.Partclone.{PcContext, V1Context, version_0001, no_flags}
use partclone_utils.Partclone.Head.{image_magic, cmagicstr, head_v1, head_v1_size}
use partclone_utils.Partclone.Layout.{stored_offset}
use partclone_utils.Partclone.Handle.{new_context, find_version}
use partclone_utils.Partclone.Rank.{rank, IsBitmap, HintsBelow}
use partclone_utils.Partclone.View.{IsLoaded, HoldsBlocks}
use partclone_utils.ChangeFile.Sample.{bytes as changes, context}
use partclone_utils.Partclone.Load.{IsVersion1}

abbrev pub bits : List ℕ
bits = 1 ∷ 0 ∷ 1 ∷ []

abbrev pub block_a : List ℕ
block_a = 10 ∷ 11 ∷ 12 ∷ 13 ∷ []

abbrev pub block_c : List ℕ
block_c = 30 ∷ 31 ∷ 32 ∷ 33 ∷ []

abbrev pub sum : List ℕ
sum = 0 ∷ 0 ∷ 0 ∷ 0 ∷ []

-- The file; it is short, so that a header of 4160 bytes is mostly zeros.
abbrev pub bytes : List ℕ
bytes =
    image_magic
    ++ (replicate 15 0
        ++ ((48 ∷ 48 ∷ 48 ∷ 49 ∷ 0 ∷ 0 ∷ [])
            ++ ((4 ∷ 0 ∷ 0 ∷ 0 ∷ [])
                ++ ((12 ∷ 0 ∷ 0 ∷ 0 ∷ 0 ∷ 0 ∷ 0 ∷ 0 ∷ [])
                    ++ ((3 ∷ 0 ∷ 0 ∷ 0 ∷ 0 ∷ 0 ∷ 0 ∷ 0 ∷ [])
                        ++ (replicate 4104 0
                            ++ (bits ++ (cmagicstr ++ (block_a ++ (sum ++ (block_c ++ sum)))))))))))

abbrev pub disk : Disk
disk = record { file = λ h. bytes; offset = λ h. 0 }

-- The context after `partclone_open`.
abbrev pub fresh : PcContext
fresh = record (new_context 64) {
  pc_fd = 7;
  pc_flags = record no_flags { pc_valid = true; pc_open = true };
  pc_omode = open_ro;
}

pub bytes-IsVersion1 : IsVersion1 bytes 3
unfolding head_v1 le_value
bytes-IsVersion1 = record {
  few = omega arith;
  magic = refl;
  total_at = refl;
  fits = omega (arith, long);
  behind = refl;
}
  where
    long : length bytes ≡ 4187
    long = refl

pub bytes_version : find_version (head_v1 (slice 0 head_v1_size bytes)).version ≡ some version_0001
unfolding find_version head_v1
bytes_version = refl

-- The context after `partclone_verify`.
abbrev pub bitmap : Array
bitmap = record { addr = 4096; cells = bits }

abbrev pub sumcount : Array
sumcount = record { addr = 4096; cells = 0 ∷ [] }

abbrev pub ivblock : Array
ivblock = record { addr = 4096; cells = replicate 4 0 }

abbrev pub v1p : V1Context
v1p = record {
  v1_addr = 4096;
  v1_bitmap = some bitmap;
  v1_sumcount = some sumcount;
  v1_nvbcount = 0;
  v1_crc_tab32 = [];
  v1_bitmap_factor = 10;
}

abbrev pub ready : PcContext
ready = record fresh {
  pc_verdep = some v1p;
  pc_ivblock = some ivblock;
  pc_dispatch = some version_0001;
  pc_head = record {
    head_size = 4171;
    block_size = 4;
    totalblock = 3;
    checksum_size = 4;
    device_size = 12;
    blocks_per_checksum = 1;
  };
  pc_flags = record fresh.pc_flags {
    pc_have_verdep = true;
    pc_version_init = true;
    pc_head_valid = true;
    pc_verified = true;
    pc_have_ivblock = true;
    pc_read_only = true;
  };
}

pub hints : HintsBelow 10 bits 3 (0 ∷ [])
unfolding rank
hints zero h = refl
hints (suc k) h = absurd (omega arith)

pub bits-IsBitmap : IsBitmap bits
bits-IsBitmap = (omega arith, (omega arith, (omega arith, tt)))

pub ready-IsLoaded : IsLoaded ready v1p bitmap sumcount ivblock
ready-IsLoaded = record {
  verdep = refl;
  bitmap_at = refl;
  sumcount_at = refl;
  size = refl;
  hints = hints;
  ready = refl;
  have_verdep = refl;
  dispatched = refl;
  ivblock_at = refl;
  zeros = refl;
  few = omega arith;
}

pub bytes-HoldsBlocks : HoldsBlocks ready.pc_head bits bytes
unfolding rank stored_offset
bytes-HoldsBlocks zero h p = (omega arith, omega (arith, long))
  where
    long : length bytes ≡ 4187
    long = refl
bytes-HoldsBlocks (suc zero) h p = absurd (p refl)
bytes-HoldsBlocks (suc (suc zero)) h p = (omega arith, omega (arith, long))
  where
    long : length bytes ≡ 4187
    long = refl
bytes-HoldsBlocks (suc (suc (suc b))) h p = absurd (omega arith)

-- The image with the byte 2 for block 1: the hints leave it out, the loop of the seek counts it.
abbrev pub iffy : Array
iffy = record { addr = 4096; cells = 1 ∷ 2 ∷ 1 ∷ [] }

abbrev pub iffy_v1p : V1Context
iffy_v1p = record v1p { v1_bitmap = some iffy }

pub iffy_hints : HintsBelow 10 iffy.cells 3 (0 ∷ [])
unfolding rank
iffy_hints zero h = refl
iffy_hints (suc k) h = absurd (omega arith)

abbrev pub iffy_ready : PcContext
iffy_ready = record ready { pc_verdep = some iffy_v1p }

pub iffy-IsLoaded : IsLoaded iffy_ready iffy_v1p iffy sumcount ivblock
iffy-IsLoaded = record {
  verdep = refl;
  bitmap_at = refl;
  sumcount_at = refl;
  size = refl;
  hints = iffy_hints;
  ready = refl;
  have_verdep = refl;
  dispatched = refl;
  ivblock_at = refl;
  zeros = refl;
  few = omega arith;
}

-- The image behind the sample change file, which has block 1 and not block 0.
abbrev pub overlaid : PcContext
overlaid = record ready { pc_fd = 8; pc_cf_handle = some (context 0) }

abbrev pub both : Disk
both = record { file = λ h. if h == 7 then changes else bytes; offset = λ h. 0 }

pub overlaid-IsLoaded : IsLoaded overlaid v1p bitmap sumcount ivblock
overlaid-IsLoaded = record {
  verdep = refl;
  bitmap_at = refl;
  sumcount_at = refl;
  size = refl;
  hints = hints;
  ready = refl;
  have_verdep = refl;
  dispatched = refl;
  ivblock_at = refl;
  zeros = refl;
  few = omega arith;
}

-- The context once `v1_init` has run.
abbrev pub loading : PcContext
loading = record ready { pc_raw_head = slice 0 head_v1_size bytes }
