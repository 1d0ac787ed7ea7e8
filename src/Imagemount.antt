-- ===== src/Imagemount.antt =====
-- src/imagemount.c: how `nbd_service_requests` turns a request for bytes of the device into calls on blocks
-- of the image. The sockets, signals and child processes around it are not modelled: a request is its
-- offset and length, what `read` answers on the socket and `malloc` for the read buffer are lists of answers, and the
-- reply is its error and data.
mod Covers
mod Served
mod Received
mod Ops
mod Tests
use partclone_utils.Base.{
  ℕ, ◌+◌, ◌-◌, ◌*◌, ◌/◌, ◌%◌, ◌^◌, true, false, not, ◌&&◌, bit_and, Option, none, some, List, [],
  ◌∷◌, ◌++◌, ◌==◌, ltb, leb, if◌then◌else◌, length, take, drop,
}
use partclone_utils.Base.Splice.{splice}
use partclone_utils.Sysdep.{M, pure, fault, ◌>>=◌, ◌>>◌, deref, in_bounds, enomem}

-- The geometry in `nbd_context_t`.
pub record NbdContext : Type 0 where
  pub svc_blocksize : ℕ
  pub svc_offsetmask : ℕ
  pub svc_blockmask : ℕ

-- What `nbd_connect` makes of the block size of the image.
abbrev pub nbd_geometry : ℕ → NbdContext
nbd_geometry blocksize = record {
  svc_blocksize = blocksize;
  svc_offsetmask = (blocksize + 2 ^ 64 - 1) % 2 ^ 64;
  svc_blockmask = 2 ^ 64 - 1 - (blocksize + 2 ^ 64 - 1) % 2 ^ 64;
}

-- The blocks of a request.
pub record Extent : Type 0 where
  pub startblockoffs : ℕ
  pub sboffs : ℕ
  pub endblockoffs : ℕ
  pub eboffs : ℕ
  pub startblock : ℕ
  pub blockcount : ℕ

-- The calculation of the start and end blocks, and the adjustment of the block count.
unfoldable pub request_extent : NbdContext → ℕ → ℕ → Extent
request_extent ncp offset len =
    let last = (offset + len + 2 ^ 64 - 1) % 2 ^ 64 in
    let startblockoffs = bit_and offset ncp.svc_blockmask in
    let endblockoffs = bit_and last ncp.svc_blockmask in
    let blockcount = (endblockoffs + 2 ^ 64 - startblockoffs) % 2 ^ 64 / ncp.svc_blocksize in
    record {
      startblockoffs = startblockoffs;
      sboffs = bit_and offset ncp.svc_offsetmask;
      endblockoffs = endblockoffs;
      eboffs = bit_and last ncp.svc_offsetmask;
      startblock = startblockoffs / ncp.svc_blocksize;
      blockcount = if len == 0 then blockcount else (blockcount + 1) % 2 ^ 64;
    }

-- What one call of `malloc` hands out for a size: memory, or NULL.
abbrev pub Malloc : Type 0
Malloc = ℕ → Option (List ℕ)

-- The loop that allocates a larger read buffer, over the calls of `malloc` to come, of which there
-- have to be enough: the error and the read buffer. A failure is tried again below 2 ^ 31 bytes;
-- else the error is `ENOMEM` (and `timetoleave` is set) and the buffer stays as it is.
unfoldable pub alloc_loop : ℕ → List ℕ → List Malloc → Option (ℕ × List ℕ)
alloc_loop req_readbuf readbuf [] =
    if ltb (length readbuf) req_readbuf then none else some (0, readbuf)
alloc_loop req_readbuf readbuf (malloc ∷ mallocs) = elim (ltb (length readbuf) req_readbuf) [
  | false ↦ some (0, readbuf)
  | true ↦ elim (malloc req_readbuf) [
    | some nrbuf ↦ some (0, nrbuf)
    | none ↦ elim (ltb req_readbuf 0x80000000) [
      | true ↦ alloc_loop req_readbuf readbuf mallocs
      | false ↦ some (enomem, readbuf)
    ]
  ]
]

-- The read buffer before a request is served.
unfoldable pub grow_readbuf : List Malloc → NbdContext → Extent → List ℕ → Option (ℕ × List ℕ)
grow_readbuf mallocs ncp e readbuf =
    if ltb e.startblockoffs e.endblockoffs
    then alloc_loop ((e.blockcount * ncp.svc_blocksize) % 2 ^ 64) readbuf mallocs
    else some (0, readbuf)

-- The functions of src/libimage.h that requests use, on handles of type `I`.
pub record ImageOps (W I : Type 0) : Type 0 where
  pub seek : I → ℕ → M W (ℕ × I)
  pub readblocks : I → List ℕ → ℕ → M W ((ℕ × List ℕ) × I)
  pub writeblocks : I → List ℕ → ℕ → M W (ℕ × I)

-- A part of a buffer is replaced; `none` is an access outside it.
unfoldable pub store_at : List ℕ → ℕ → List ℕ → Option (List ℕ)
store_at buffer at bytes =
    if leb (at + length bytes) (length buffer) then some (splice at bytes buffer) else none

-- What a read of the socket for the data of a write answers: bytes, or -1, once it is not to be
-- tried again.
pub data Arrival : Type 0 where
  piece : List ℕ → Arrival
  failed : Arrival

module _ {W I : Type 0} (ops : ImageOps W I) where
  -- The case `NBD_CMD_READ`: the error, the read buffer and the image.
  unfoldable pub serve_read : I → Extent → List ℕ → M W (ℕ × List ℕ × I)
  serve_read image e readbuf = do
    (error, image) ← ops.seek image e.startblock
    if not (error == 0) then pure (error, readbuf, image) else do
      ((error, readbuf), image) ← ops.readblocks image readbuf e.blockcount
      pure (error, readbuf, image)

  -- A request to read and its reply: the error, and the data if there is none. The error of the
  -- allocation is overwritten by that of the seek.
  unfoldable pub reply_read : List Malloc → NbdContext → I → ℕ → ℕ → List ℕ → M W (ℕ × List ℕ × I)
  reply_read mallocs ncp image offset len readbuf = do
    let e = request_extent ncp offset len
    (error, readbuf) ← deref (grow_readbuf mallocs ncp e readbuf)
    (error, readbuf, image) ← serve_read image e readbuf
    if not (error == 0) then pure (error, [], image) else do
      _ ← in_bounds (leb (e.sboffs + len) (length readbuf))
      pure (0, take len (drop e.sboffs readbuf), image)

  -- A read of one block into the buffer at `at`, which ends before the block at the end of the buffer.
  unfoldable pub prime_block : I → ℕ → ℕ → List ℕ → M W (ℕ × List ℕ × I)
  prime_block image blockno at readbuf = do
    (error, image) ← ops.seek image blockno
    if not (error == 0) then pure (error, readbuf, image) else do
      ((error, tail), image) ← ops.readblocks image (drop at readbuf) 1
      pure (error, take at readbuf ++ tail, image)

  -- The seek and the write of the blocks in the case `NBD_CMD_WRITE`.
  unfoldable pub write_request : I → Extent → List ℕ → M W (ℕ × I)
  write_request image e readbuf = do
    (error, image) ← ops.seek image e.startblock
    if not (error == 0) then pure (error, image) else ops.writeblocks image readbuf e.blockcount

  -- The loop of the case `NBD_CMD_WRITE` over what its reads of the socket answer, of which there have to be
  -- enough: pieces are stored at `rembp`, and when the last one is there the blocks are written. A
  -- piece is never longer than the `remlen` bytes that the read asks for. The -1 of a read that
  -- fails is the largest `size_t`, which passes the test `rlength >= 0`: no error is noted, and it is
  -- taken off `remlen`, which grows by 1, and added to `rembp`, which goes back by 1, if it can.
  unfoldable pub receive_loop : I → Extent → ℕ → ℕ → List ℕ → List Arrival → M W (ℕ × I)
  receive_loop image e rembp remlen readbuf [] = if remlen == 0 then pure (0, image) else fault
  receive_loop image e rembp remlen readbuf (piece bytes ∷ arrivals) = elim (remlen == 0) [
    | true ↦ pure (0, image)
    | false ↦ elim (store_at readbuf rembp bytes) [
      | none ↦ fault
      | some readbuf ↦ elim (length bytes == remlen) [
        | true ↦ write_request image e readbuf
        | false ↦
            receive_loop image e (rembp + length bytes) (remlen - length bytes) readbuf arrivals
      ]
    ]
  ]
  receive_loop image e rembp remlen readbuf (failed ∷ arrivals) = elim (remlen == 0) [
    | true ↦ pure (0, image)
    | false ↦ elim (rembp == 0) [
      | true ↦ fault
      | false ↦ receive_loop image e (rembp - 1) (remlen + 1) readbuf arrivals
    ]
  ]

  -- The case `NBD_CMD_WRITE`.
  unfoldable pub serve_write : NbdContext → I → Extent → ℕ → List ℕ → List Arrival → M W (ℕ × I)
  serve_write ncp image e len readbuf arrivals = do
    (error, readbuf, image) ←
        (if not (e.sboffs == 0)
          then prime_block image e.startblock 0 readbuf
          else pure (0, readbuf, image))
    if not (error == 0) then pure (error, image) else do
      (error, readbuf, image) ←
          (if not (e.eboffs == ncp.svc_offsetmask) && not (e.blockcount == 1)
            then prime_block image ((e.startblock + e.blockcount + 2 ^ 64 - 1) % 2 ^ 64)
                (((e.blockcount + 2 ^ 64 - 1) * ncp.svc_blocksize) % 2 ^ 64) readbuf
            else pure (0, readbuf, image))
      if not (error == 0) then pure (error, image) else receive_loop image e 0 len readbuf arrivals
