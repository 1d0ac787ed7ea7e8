-- ===== src/Image.antt =====
-- src/libimage.c and src/libimage.h: the handle that hides the type of an image. `image_type_dispatch`
-- is `ImageType`; the dispatch takes the table of ntfsclone images, that of Ntfsclone.Table.
pub mod Dispatch
pub mod Stale
mod Tests
use partclone_utils.Base.{ℕ, Bool, Option, none, some, List, [], ◌∷◌, ℤ, pos, negsuc, ◌^◌, ◌-◌}
use partclone_utils.Sysdep.{Sysdep, M, pure, ◌>>=◌, OpenMode, einval}
use partclone_utils.Partclone.{PcContext}
use partclone_utils.Partclone.Handle.{
  partclone_open, partclone_close, partclone_tolerant_mode, partclone_verify, partclone_blocksize,
  partclone_blockcount, partclone_seek, partclone_tell, partclone_readblocks, partclone_block_used,
  partclone_writeblocks, partclone_sync, partclone_probe,
}
use partclone_utils.RawImage.{
  RawContext, rawimage_tolerant_mode, rawimage_blocksize, rawimage_blockcount, rawimage_seek,
  rawimage_tell, rawimage_block_used,
}
use partclone_utils.RawImage.Handle.{
  rawimage_open, rawimage_close, rawimage_verify, rawimage_readblocks, rawimage_writeblocks,
  rawimage_sync, rawimage_probe,
}

-- `image_type_dispatch`, for handles of type `T`; a handle may be NULL.
pub record ImageType (W T : Type 0) : Type 0 where
  pub probe : List ℕ → M W ℕ
  pub open_type : List ℕ → Option (List ℕ) → OpenMode → M W (ℕ × Option T)
  pub close : Option T → M W ℕ
  pub tolerant_mode : Option T → Option T
  pub verify : Option T → M W (ℕ × Option T)
  pub blocksize : Option T → ℤ
  pub blockcount : Option T → ℤ
  pub seek : Option T → ℕ → M W (ℕ × Option T)
  pub tell : Option T → ℕ
  pub readblocks : Option T → List ℕ → ℕ → M W (ℕ × List ℕ × Option T)
  pub block_used : Option T → M W ℤ
  pub writeblocks : Option T → List ℕ → ℕ → M W (ℕ × Option T)
  pub sync : Option T → M W (ℕ × Option T)

-- The entries of `known_types`.
pub data ImageKind : Type 0 where
  ntfsclone_kind partclone_kind raw_kind : ImageKind

-- The types in the order of `known_types`.
abbrev pub known_types : List ImageKind
known_types = ntfsclone_kind ∷ partclone_kind ∷ raw_kind ∷ []

abbrev pub is_last : ImageKind → Bool
is_last ntfsclone_kind = Bool.false
is_last partclone_kind = Bool.false
is_last raw_kind = Bool.true

-- `i_type_handle` with its type, which `i_dispatch` names; `N` is the handle of an ntfsclone image.
pub data TypeHandle (N : Type 0) : Type 0 where
  ntfsclone_handle : Option N → TypeHandle N
  partclone_handle : Option PcContext → TypeHandle N
  raw_handle : Option RawContext → TypeHandle N

-- `image_handle_t`
pub record ImageHandle (N : Type 0) : Type 0 where
  pub i_addr : ℕ
  pub i_type_handle : TypeHandle N
  pub i_magic : ℕ

-- `IMAGE_MAGIC`
abbrev pub handle_magic : ℕ
handle_magic = 3471568384

module _ {W : Type 0} (sys : Sysdep W) where
  -- An operation on a handle that may be NULL.
  abbrev pub on_handle : {T : Type 0} → Option T → (T → M W (ℕ × T)) → M W (ℕ × Option T)
  on_handle none f = pure (einval, none)
  on_handle (some p) f = do (error, p) ← f p; pure (error, some p)

  -- `partclone_image_type`
  abbrev pub partclone_image_type : ImageType W PcContext
  partclone_image_type = record {
    probe = partclone_probe sys;
    open_type = partclone_open sys;
    close = λ h. elim h [ none ↦ pure einval | some p ↦ partclone_close sys p ];
    tolerant_mode = λ h. elim h [ none ↦ none | some p ↦ some (partclone_tolerant_mode p) ];
    verify = λ h. on_handle h (partclone_verify sys);
    blocksize = λ h. elim h [ none ↦ pos (2 ^ 32 - 1) | some p ↦ partclone_blocksize p ];
    blockcount = λ h. elim h [ none ↦ negsuc 0 | some p ↦ partclone_blockcount p ];
    seek = λ h n.
        on_handle h (λ p w. elim (partclone_seek p n) [ none ↦ none | some r ↦ some (r, w) ]);
    tell = λ h. elim h [ none ↦ 2 ^ 64 - 1 | some p ↦ partclone_tell p ];
    readblocks = λ h buf n. elim h [
      | none ↦ pure (einval, buf, none)
      | some p ↦ do (error, buf, p) ← partclone_readblocks sys p buf n; pure (error, buf, some p)
    ];
    block_used = λ h. elim h [
      | none ↦ pure (negsuc 1)
      | some p ↦ λ w. elim (partclone_block_used p) [ none ↦ none | some u ↦ some (u, w) ]
    ];
    writeblocks = λ h buf n. on_handle h (λ p. partclone_writeblocks sys p buf n);
    sync = λ h. on_handle h (partclone_sync sys);
  }

  -- `raw_image_type`
  abbrev pub raw_image_type : ImageType W RawContext
  raw_image_type = record {
    probe = rawimage_probe sys;
    open_type = rawimage_open sys;
    close = λ h. elim h [ none ↦ pure einval | some p ↦ rawimage_close sys p ];
    tolerant_mode = λ h. elim h [ none ↦ none | some p ↦ some (rawimage_tolerant_mode p) ];
    verify = λ h. on_handle h (rawimage_verify sys);
    blocksize = λ h. elim h [ none ↦ negsuc 0 | some p ↦ rawimage_blocksize p ];
    blockcount = λ h. elim h [ none ↦ negsuc 0 | some p ↦ rawimage_blockcount p ];
    seek = λ h n. on_handle h (λ p. pure (rawimage_seek p n));
    tell = λ h. elim h [ none ↦ 2 ^ 64 - 1 | some p ↦ rawimage_tell p ];
    readblocks = λ h buf n. elim h [
      | none ↦ pure (einval, buf, none)
      | some p ↦ do (error, buf, p) ← rawimage_readblocks sys p buf n; pure (error, buf, some p)
    ];
    block_used = λ h. elim h [ none ↦ pure (negsuc 1) | some p ↦ pure (rawimage_block_used p) ];
    writeblocks = λ h buf n. on_handle h (λ p. rawimage_writeblocks sys p buf n);
    sync = λ h. on_handle h (rawimage_sync sys);
  }
