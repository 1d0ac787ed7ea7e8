-- ===== src/Image/Dispatch.antt =====
-- The public functions of src/libimage.c, `image_open` to `image_sync`, on a handle that is not
-- NULL.
use partclone_utils.Base.{
  ℕ, Bool, true, false, not, ◌||◌, Option, none, some, List, [], ◌∷◌, ℤ, negsuc, ◌^◌, ◌-◌, ◌==◌,
  if◌then◌else◌,
}
use partclone_utils.Sysdep.{Sysdep, M, pure, ◌>>=◌, call, OpenMode, enoent, einval, estale}
use partclone_utils.Partclone.{PcContext}
use partclone_utils.RawImage.{RawContext}
use partclone_utils.Image.{
  ImageType, ImageKind, ntfsclone_kind, partclone_kind, raw_kind, known_types, is_last, TypeHandle,
  ntfsclone_handle, partclone_handle, raw_handle, ImageHandle, handle_magic, partclone_image_type,
  raw_image_type,
}

-- `ihp->i_magic == IMAGE_MAGIC`
abbrev pub is_live : {N : Type 0} → ImageHandle N → Bool
is_live ihp = ihp.i_magic == handle_magic

-- `sizeof(image_handle_t)`
abbrev pub image_handle_size : ℕ
image_handle_size = 32

module _ {W N : Type 0} (sys : Sysdep W) (ntfsclone_image_type : ImageType W N) where
  -- `(*known_types[itidx]->probe)(path, sysdep)`
  abbrev pub probe_kind : ImageKind → List ℕ → M W ℕ
  probe_kind ntfsclone_kind path = ntfsclone_image_type.probe path
  probe_kind partclone_kind path = (partclone_image_type sys).probe path
  probe_kind raw_kind path = (raw_image_type sys).probe path

  -- The loop of `image_open`: the last error, and the entry that was found.
  unfoldable pub probe_loop : List ImageKind → List ℕ → ℕ → M W (ℕ × Option ImageKind)
  probe_loop [] path error = pure (error, none)
  probe_loop (kind ∷ kinds) path _ = do
    error ← probe_kind kind path
    elim (error == 0) [ true ↦ pure (0, some kind) | false ↦ probe_loop kinds path error ]

  -- `(*ihp->i_dispatch->open)(path, cfpath, omode, sysdep, &ihp->i_type_handle)`
  abbrev pub open_kind : ImageKind → List ℕ → Option (List ℕ) → OpenMode → M W (ℕ × TypeHandle N)
  open_kind ntfsclone_kind path cfpath omode = do
    (error, h) ← ntfsclone_image_type.open_type path cfpath omode
    pure (error, ntfsclone_handle h)
  open_kind partclone_kind path cfpath omode = do
    (error, h) ← (partclone_image_type sys).open_type path cfpath omode
    pure (error, partclone_handle h)
  open_kind raw_kind path cfpath omode = do
    (error, h) ← (raw_image_type sys).open_type path cfpath omode
    pure (error, raw_handle h)

  -- `image_open`: the error, and the handle that `*rpp` is set to, if it is.
  unfoldable pub image_open :
      List ℕ → Option (List ℕ) → OpenMode → Bool → M W (ℕ × Option (ImageHandle N))
  image_open path cfpath omode raw_allowed = do
    (error, fentry) ← probe_loop known_types path enoent
    elim fentry [
      | none ↦ pure (error, none)
      | some kind ↦ if not (not (is_last kind) || raw_allowed) then pure (error, none) else do
        a ← call (sys.sys_malloc image_handle_size)
        if not (a.error == 0) then pure (a.error, none) else do
          (error, h) ← open_kind kind path cfpath omode
          pure (error, some (record { i_addr = a.addr; i_type_handle = h; i_magic = handle_magic }))
    ]

  -- A call through `ihp->i_dispatch`.
  abbrev with_type :
      {A : Type 0}
      → ((T : Type 0) → ImageType W T → Option T → M W (A × Option T))
      → ImageHandle N
      → M W (A × ImageHandle N)
  with_type f ihp = elim ihp.i_type_handle [
    | ntfsclone_handle h ↦ do
      (a, h) ← f N ntfsclone_image_type h
      pure (a, record ihp { i_type_handle = ntfsclone_handle h })
    | partclone_handle h ↦ do
      (a, h) ← f PcContext (partclone_image_type sys) h
      pure (a, record ihp { i_type_handle = partclone_handle h })
    | raw_handle h ↦ do
      (a, h) ← f RawContext (raw_image_type sys) h
      pure (a, record ihp { i_type_handle = raw_handle h })
  ]

  -- A call through `ihp->i_dispatch` that leaves the type handle as it is.
  abbrev query_type :
      {A : Type 0} → ((T : Type 0) → ImageType W T → Option T → A) → ImageHandle N → A
  query_type f ihp = elim ihp.i_type_handle [
    | ntfsclone_handle h ↦ f N ntfsclone_image_type h
    | partclone_handle h ↦ f PcContext (partclone_image_type sys) h
    | raw_handle h ↦ f RawContext (raw_image_type sys) h
  ]

  -- `image_close`: the error, and the handle, which is gone once it is freed: nothing of the model
  -- reaches freed memory.
  unfoldable pub image_close : ImageHandle N → M W (ℕ × Option (ImageHandle N))
  image_close ihp = if not (is_live ihp) then pure (estale, some ihp) else do
    error ← query_type (λ T t h. t.close h) ihp
    _ ← call (sys.sys_free ihp.i_addr)
    pure (error, none)

  -- `image_tolerant_mode`
  unfoldable pub image_tolerant_mode : ImageHandle N → M W (ℕ × ImageHandle N)
  image_tolerant_mode ihp =
      if is_live ihp then with_type (λ T t h. pure (0, t.tolerant_mode h)) ihp else pure (0, ihp)

  -- `image_verify`
  unfoldable pub image_verify : ImageHandle N → M W (ℕ × ImageHandle N)
  image_verify ihp = if is_live ihp then with_type (λ T t h. t.verify h) ihp else pure (einval, ihp)

  -- `image_blocksize`
  unfoldable pub image_blocksize : ImageHandle N → ℤ
  image_blocksize ihp = if is_live ihp then query_type (λ T t h. t.blocksize h) ihp else negsuc 0

  -- `image_blockcount`
  unfoldable pub image_blockcount : ImageHandle N → ℤ
  image_blockcount ihp = if is_live ihp then query_type (λ T t h. t.blockcount h) ihp else negsuc 0

  -- `image_seek`
  unfoldable pub image_seek : ImageHandle N → ℕ → M W (ℕ × ImageHandle N)
  image_seek ihp blockno =
      if is_live ihp then with_type (λ T t h. t.seek h blockno) ihp else pure (einval, ihp)

  -- `image_tell`
  unfoldable pub image_tell : ImageHandle N → ℕ
  image_tell ihp = if is_live ihp then query_type (λ T t h. t.tell h) ihp else 2 ^ 64 - 1

  -- `image_readblocks`
  unfoldable pub image_readblocks : ImageHandle N → List ℕ → ℕ → M W ((ℕ × List ℕ) × ImageHandle N)
  image_readblocks ihp buffer nblocks =
      if is_live ihp
      then with_type
          (λ T t h. do (error, buf, h) ← t.readblocks h buffer nblocks; pure ((error, buf), h)) ihp
      else pure ((einval, buffer), ihp)

  -- `image_block_used`
  unfoldable pub image_block_used : ImageHandle N → M W ℤ
  image_block_used ihp =
      if is_live ihp then query_type (λ T t h. t.block_used h) ihp else pure (negsuc 1)

  -- `image_writeblocks`
  unfoldable pub image_writeblocks : ImageHandle N → List ℕ → ℕ → M W (ℕ × ImageHandle N)
  image_writeblocks ihp buffer nblocks =
      if is_live ihp
      then with_type (λ T t h. t.writeblocks h buffer nblocks) ihp
      else pure (einval, ihp)

  -- `image_sync`
  unfoldable pub image_sync : ImageHandle N → M W (ℕ × ImageHandle N)
  image_sync ihp = if is_live ihp then with_type (λ T t h. t.sync h) ihp else pure (einval, ihp)
