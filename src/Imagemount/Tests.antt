-- ===== src/Imagemount/Tests.antt =====
-- The theorems on requests at an image of three blocks of four bytes.
use partclone_utils.Base.{
  ℕ, ◌+◌, ◌*◌, ◌≡◌, refl, none, some, List, [], ◌∷◌, ◌++◌, arith, length-replicate, take, drop,
  slice, replicate,
}
use partclone_utils.Sysdep.{enomem}
use partclone_utils.Base.Splice.{splice}
use partclone_utils.Imagemount.{
  nbd_geometry, Extent, request_extent, Malloc, alloc_loop, grow_readbuf, piece, failed, ImageOps,
  store_at, prime_block, write_request, receive_loop, serve_write, reply_read,
}
use partclone_utils.Imagemount.Covers.{Covers, request_extent-Covers}
use partclone_utils.Imagemount.Served.{ServesImage, reply_read-slice}
use partclone_utils.Imagemount.Received.{receive_loop-joined}

-- An image in memory: its handle is the current block, and the world is its bytes.
abbrev ops : ImageOps (List ℕ) ℕ
ops = record {
  seek = λ i b w. some ((0, b), w);
  readblocks =
      λ i buffer n w. some (((0, slice (i * 4) (n * 4) w ++ drop (n * 4) buffer), i + n), w);
  writeblocks = λ i buffer n w. some ((0, i + n), splice (i * 4) (take (n * 4) buffer) w);
}

abbrev blocks : List ℕ
blocks = 10 ∷ 11 ∷ 12 ∷ 13 ∷ 20 ∷ 21 ∷ 22 ∷ 23 ∷ 30 ∷ 31 ∷ 32 ∷ 33 ∷ []

blocks-ServesImage : ServesImage ops 0 blocks 4 blocks
blocks-ServesImage = record {
  reads = λ b n buffer some_blocks inside room. (b, b + n, blocks, blocks, refl, refl);
}

-- Bytes 3 to 8.
reply_read-slice_example :
    (i : ℕ) × (w : List ℕ) × (reply_read ops
        ((λ n. some (replicate n 0)) ∷ [])
        (nbd_geometry 4)
        0
        3
        6
        (replicate 4 0)
        blocks
      ≡ some ((0, 13 ∷ 20 ∷ 21 ∷ 22 ∷ 23 ∷ 30 ∷ [], i), w))
reply_read-slice_example =
    reply_read-slice ops 2 3 6 3 (λ n. replicate n 0) [] 0 (replicate 4 0) blocks blocks
      blocks-ServesImage (omega arith) (omega arith) refl (omega arith) (λ n. length-replicate n 0)
      (omega arith) (omega arith) (omega arith)

request_extent-Covers_example : Covers 4 3 6 (request_extent (nbd_geometry 4) 3 6)
request_extent-Covers_example =
    request_extent-Covers 2 3 6 (omega arith) (omega arith) (omega arith) (omega arith)

abbrev two_blocks : Extent
two_blocks = request_extent (nbd_geometry 4) 4 8

receive_loop-joined_example :
    receive_loop ops 0 two_blocks 0 8
      (replicate 8 0)
      (piece (1 ∷ 2 ∷ 3 ∷ []) ∷ piece (4 ∷ 5 ∷ 6 ∷ 7 ∷ 8 ∷ []) ∷ [])
      blocks
    ≡ write_request ops 0 two_blocks (1 ∷ 2 ∷ 3 ∷ 4 ∷ 5 ∷ 6 ∷ 7 ∷ 8 ∷ []) blocks
receive_loop-joined_example =
    receive_loop-joined ops 0 two_blocks 0 8 (replicate 8 0)
      ((1 ∷ 2 ∷ 3 ∷ []) ∷ (4 ∷ 5 ∷ 6 ∷ 7 ∷ 8 ∷ []) ∷ []) blocks (omega arith) refl (omega arith)

-- A byte for offset 2 is written at offset 0.
write_at_start :
    serve_write ops
      (nbd_geometry 4)
      0
      (request_extent (nbd_geometry 4) 2 1)
      1
      (replicate 8 0)
      (piece (99 ∷ []) ∷ [])
      blocks
    ≡ some ((0, 1), 99 ∷ 11 ∷ 12 ∷ 13 ∷ 20 ∷ 21 ∷ 22 ∷ 23 ∷ 30 ∷ 31 ∷ 32 ∷ 33 ∷ [])
unfolding serve_write request_extent prime_block receive_loop store_at write_request
write_at_start = refl

-- A byte for offset 0 takes what the buffer held with it.
write_unprimed :
    serve_write ops
      (nbd_geometry 4)
      0
      (request_extent (nbd_geometry 4) 0 1)
      1
      (replicate 8 0)
      (piece (99 ∷ []) ∷ [])
      blocks
    ≡ some ((0, 1), 99 ∷ 0 ∷ 0 ∷ 0 ∷ 20 ∷ 21 ∷ 22 ∷ 23 ∷ 30 ∷ 31 ∷ 32 ∷ 33 ∷ [])
unfolding serve_write request_extent prime_block receive_loop store_at write_request
write_unprimed = refl

-- A request inside one block of 16384 bytes leaves the buffer at 8192 bytes.
buffer_too_small :
    (readbuf : List ℕ) (mallocs : List Malloc)
    → grow_readbuf mallocs (nbd_geometry 16384) (request_extent (nbd_geometry 16384) 0 1) readbuf
      ≡ some (0, readbuf)
unfolding grow_readbuf request_extent
buffer_too_small readbuf mallocs = refl

-- A failure to allocate less than 2 ^ 31 bytes is tried again; one to allocate more is not, and the
-- buffer stays too small.
alloc_again :
    alloc_loop 3 [] ((λ n. none) ∷ (λ n. some (replicate n 5)) ∷ []) ≡ some (0, 5 ∷ 5 ∷ 5 ∷ [])
unfolding alloc_loop
alloc_again = refl

alloc_fails : alloc_loop 0x80000000 [] ((λ n. none) ∷ []) ≡ some (enomem, [])
unfolding alloc_loop
alloc_fails = refl

-- A read that fails between two pieces: the last byte of the first one is overwritten, one byte more
-- is waited for, and no error is noted.
receive_failed :
    receive_loop ops 0 two_blocks 0 8
      (replicate 8 0)
      (piece (1 ∷ 2 ∷ 3 ∷ []) ∷ failed ∷ piece (4 ∷ 5 ∷ 6 ∷ 7 ∷ 8 ∷ 9 ∷ []) ∷ [])
      blocks
    ≡ write_request ops 0 two_blocks (1 ∷ 2 ∷ 4 ∷ 5 ∷ 6 ∷ 7 ∷ 8 ∷ 9 ∷ []) blocks
unfolding receive_loop store_at
receive_failed = refl
