-- ===== src/Ntfsclone/Sample.antt =====
-- An image of ntfsclone (src/ntfsclone.h) of 1027 clusters of 8 bytes, the trailing one included: clusters
-- 0, 1025 and 1026 are in use.
use partclone_utils.Base.{ℕ, ◌≡◌, refl, some, true, List, [], ◌∷◌, ◌++◌, arith, length, replicate}
use partclone_utils.Base.Words.{le_bytes, le_value}
use partclone_utils.Sysdep.{open_ro}
use partclone_utils.Sysdep.Memory.{Disk}
use partclone_utils.Ntfsclone.{NcContext, version_10_1, image_hdr_of, ntfsclone_magic, no_nc_flags}
use partclone_utils.Ntfsclone.Version10.{new_v10}
use partclone_utils.Ntfsclone.Handle.{find_nc_version, new_nc_context}
use partclone_utils.Ntfsclone.View.{Atom, empty_run, used_cluster}
use partclone_utils.Ntfsclone.Verified.{IsImage}
use partclone_utils.Ntfsclone.Steps.{IsNtfsclone}

abbrev pub cluster_a : List ℕ
cluster_a = 10 ∷ 11 ∷ 12 ∷ 13 ∷ 14 ∷ 15 ∷ 16 ∷ 17 ∷ []

abbrev pub cluster_b : List ℕ
cluster_b = 20 ∷ 21 ∷ 22 ∷ 23 ∷ 24 ∷ 25 ∷ 26 ∷ 27 ∷ []

abbrev pub cluster_c : List ℕ
cluster_c = 30 ∷ 31 ∷ 32 ∷ 33 ∷ 34 ∷ 35 ∷ 36 ∷ 37 ∷ []

abbrev pub sample : List Atom
sample =
    used_cluster cluster_a ∷ empty_run 1024 ∷ used_cluster cluster_b ∷ used_cluster cluster_c ∷ []

-- The header as it lies in the file.
abbrev pub head_bytes : List ℕ
head_bytes =
    ntfsclone_magic
    ++ ((10 ∷ 1 ∷ 8 ∷ 0 ∷ 0 ∷ 0 ∷ [])
        ++ ((16 ∷ 32 ∷ 0 ∷ 0 ∷ 0 ∷ 0 ∷ 0 ∷ 0 ∷ [])
            ++ ((2 ∷ 4 ∷ 0 ∷ 0 ∷ 0 ∷ 0 ∷ 0 ∷ 0 ∷ [])
                ++ (3 ∷ 0 ∷ 0 ∷ 0 ∷ 0 ∷ 0 ∷ 0 ∷ 0 ∷ 50 ∷ 0 ∷ 0 ∷ 0 ∷ []))))

abbrev pub bytes : List ℕ
bytes =
    head_bytes
    ++ ((1 ∷ cluster_a)
        ++ ((0 ∷ 0 ∷ 4 ∷ 0 ∷ 0 ∷ 0 ∷ 0 ∷ 0 ∷ 0 ∷ []) ++ ((1 ∷ cluster_b) ++ (1 ∷ cluster_c))))

abbrev pub disk : Disk
disk = record { file = λ h. bytes; offset = λ h. 0 }

-- The context after `ntfsclone_open`.
abbrev pub fresh : NcContext
fresh = record (new_nc_context 64) {
  nc_fd = 7;
  nc_flags = record no_nc_flags { nc_valid = true; nc_open = true };
  nc_omode = open_ro;
}

pub bytes-IsNtfsclone : IsNtfsclone bytes version_10_1 sample
unfolding image_hdr_of le_value le_bytes find_nc_version
bytes-IsNtfsclone = record {
  head_room = omega (arith, long);
  magic = refl;
  known = refl;
  image = record {
    valid = (refl, (omega arith, (refl, (refl, tt))));
    held = record { tail = []; here = refl; short = omega (arith, long) };
    positive = omega arith;
    fits = omega arith;
    word = omega arith;
  };
  near = omega arith;
  total = refl;
  few = omega arith;
  odd = λ e. omega (arith, e);
  boot = refl;
}
  where
    long : length bytes ≡ 86
    long = refl

-- What the buffer of an atom holds at first.
abbrev pub stack : ℕ → List ℕ
stack left = replicate 9 170

-- The context when `v10_verify` is called.
abbrev pub verifying : NcContext
verifying = record fresh {
  nc_head = image_hdr_of head_bytes;
  nc_dispatch = some version_10_1;
  nc_verdep = some (new_v10 64);
  nc_flags = record fresh.nc_flags {
    nc_have_verdep = true;
    nc_version_init = true;
    nc_read_only = true;
  };
}

pub sample-IsImage : IsImage 8 bytes 50 sample
unfolding le_bytes
sample-IsImage = record {
  valid = (refl, (omega arith, (refl, (refl, tt))));
  held = record { tail = []; here = refl; short = omega (arith, long) };
  positive = omega arith;
  fits = omega arith;
  word = omega arith;
}
  where
    long : length bytes ≡ 86
    long = refl
