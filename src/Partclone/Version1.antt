-- ===== src/Partclone/Version1.antt =====
-- The handling of format version 1 in src/libpartclone.c: `v1_init`, `precalculate_sumcount`,
-- `v1_verify`, `v1_finish` and `v1_seek`. Version 2 shares all of them but `v1_verify`.
use partclone_utils.Base.{
  ℕ, zero, suc, ◌+◌, ◌-◌, ◌*◌, ◌/◌, ◌%◌, ◌^◌, true, false, not, ◌&&◌, ◌||◌, Option, none, some,
  List, ◌==◌, ltb, if◌then◌else◌, length, get_elem?, set, overlay, same_bytes,
}
use partclone_utils.Checksum.{crc_table}
use partclone_utils.Sysdep.{
  Sysdep, M, pure, ◌>>=◌, ◌>>◌, call, deref, array_of, is_writing, seek_absolute, einval,
}
use partclone_utils.ChangeFile.{Context, cf_seek}
use partclone_utils.ChangeFile.Open.{cf_init, cf_verify}
use partclone_utils.ChangeFile.Sync.{cf_finish, free_array}
use partclone_utils.Partclone.{
  PcContext, PcHead, V1Context, v1_context_size, v1_default_factor, is_set, pctx_valid, pctx_open,
  pctx_have_verdep,
}
use partclone_utils.Partclone.Head.{
  image_magic, cmagicstr, crc_size, magic_len, head_v1_size, head_v1,
}

-- The handle as `memset` and the end of `v1_init` leave it.
abbrev pub new_v1 : ℕ → V1Context
new_v1 addr = record {
  v1_addr = addr;
  v1_bitmap = none;
  v1_sumcount = none;
  v1_nvbcount = 0;
  v1_crc_tab32 = crc_table;
  v1_bitmap_factor = v1_default_factor;
}

-- The loop of `precalculate_sumcount` at block `i` with `left` blocks to go; `none` is an access
-- outside an array.
unfoldable pub sumcount_loop : ℕ → List ℕ → ℕ → ℕ → ℕ → List ℕ → Option (List ℕ)
sumcount_loop factor bitmap zero i nset sumcount = some sumcount
sumcount_loop factor bitmap (suc left) i nset sumcount =
    let starts = i % 2 ^ factor == 0 in
    let at = i / 2 ^ factor in
    let here = if starts then set sumcount at nset else sumcount in
    elim (not starts || ltb at (length sumcount)) [
      | false ↦ none
      | true ↦ elim (get_elem? bitmap i) [
        | none ↦ none
        | some bit ↦
            sumcount_loop factor bitmap left (i + 1) (if bit == 1 then nset + 1 else nset) here
      ]
    ]

-- The loop of `v1_seek` at block `pbn` with `left` blocks to go: the count of preceding blocks.
unfoldable pub seek_loop : List ℕ → ℕ → ℕ → ℕ → Option ℕ
seek_loop bitmap zero pbn nvbcount = some nvbcount
seek_loop bitmap (suc left) pbn nvbcount = elim (get_elem? bitmap pbn) [
  | none ↦ none
  | some bit ↦ seek_loop bitmap left (pbn + 1) (if bit == 0 then nvbcount else nvbcount + 1)
]

-- `pc_head` as `v1_verify` fills it.
unfoldable pub v1_head : List ℕ → PcHead
v1_head raw = record {
  head_size = (head_v1_size + (head_v1 raw).totalblock + magic_len) % 2 ^ 64;
  block_size = (head_v1 raw).block_size;
  totalblock = (head_v1 raw).totalblock;
  checksum_size = crc_size;
  device_size = (head_v1 raw).device_size;
  blocks_per_checksum = 1;
}

module _ {W : Type 0} (sys : Sysdep W) where
  -- The part of `v1_init` that opens the change file; an error of `cf_init` is dropped.
  unfoldable pub v1_open_cf : PcContext → M W PcContext
  v1_open_cf pcp =
      if is_set pcp.pc_cf_path && is_writing pcp.pc_omode
      then (do
        path ← deref pcp.pc_cf_path
        (error, cf) ← cf_init sys path.cells pcp.pc_head.block_size pcp.pc_head.totalblock
        if error == 0
            then pure (record pcp {
              pc_cf_handle = cf;
              pc_flags = record pcp.pc_flags { pc_cf_open = true };
            })
            else pure pcp)
      else if not (is_writing pcp.pc_omode)
      then pure (record pcp { pc_flags = record pcp.pc_flags { pc_read_only = true } })
      else pure pcp

  -- `v1_init`
  unfoldable pub v1_init : PcContext → M W (ℕ × PcContext)
  v1_init pcp = if not (pctx_valid pcp) then pure (einval, pcp) else do
    a ← call (sys.sys_malloc v1_context_size)
    if not (a.error == 0) then pure (a.error, pcp) else do
      let pcp = record pcp {
        pc_verdep = some (new_v1 a.addr);
        pc_flags = record pcp.pc_flags { pc_have_verdep = true; pc_version_init = true };
      }
      pcp ← v1_open_cf pcp
      pure (0, pcp)

  -- The end of `precalculate_sumcount`: a change file that is open is verified.
  unfoldable pub verify_cf : PcContext → M W (ℕ × PcContext)
  verify_cf pcp = elim pcp.pc_cf_handle [
    | none ↦ pure (0, pcp)
    | some cf ↦ do
      (error, cf) ← cf_verify sys cf
      let pcp = record pcp { pc_cf_handle = some cf }
      if error == 0
          then pure (0, record pcp { pc_flags = record pcp.pc_flags { pc_cf_verified = true } })
          else pure (error, pcp)
  ]

  -- `precalculate_sumcount`
  unfoldable pub precalculate_sumcount : PcContext → M W (ℕ × PcContext)
  precalculate_sumcount pcp = do
    v1p ← deref pcp.pc_verdep
    let total = pcp.pc_head.totalblock
    let entries = total / 2 ^ v1p.v1_bitmap_factor + 1
    a ← call (sys.sys_malloc ((entries * 8) % 2 ^ 64))
    let array = array_of a (2 ^ 64) ((entries * 8) % 2 ^ 64 / 8)
    if not (a.error == 0)
        then pure (a.error, record pcp { pc_verdep = some (record v1p { v1_sumcount = array }) })
        else do
          sumcount ← deref array
          bitmap ← deref v1p.v1_bitmap
          filled ← deref (sumcount_loop v1p.v1_bitmap_factor bitmap.cells total 0 0 sumcount.cells)
          let v1p = record v1p { v1_sumcount = some (record sumcount { cells = filled }) }
          verify_cf (record pcp {
            pc_verdep = some v1p;
            pc_head = record pcp.pc_head {
              device_size = (total * pcp.pc_head.block_size) % 2 ^ 64;
            };
          })

  -- The rest of `v1_verify`, once the bitmap is allocated: the bitmap and the magic behind it.
  unfoldable pub v1_load : PcContext → V1Context → M W (ℕ × PcContext)
  v1_load pcp v1p = do
    let total = pcp.pc_head.totalblock
    _ ← call (sys.sys_seek pcp.pc_fd head_v1_size seek_absolute)
    bitmap ← deref v1p.v1_bitmap
    r ← call (sys.sys_read pcp.pc_fd total)
    let v1p = record v1p { v1_bitmap = some (record bitmap { cells = overlay r.got bitmap.cells }) }
    let pcp = record pcp { pc_verdep = some v1p }
    if not (r.error == 0 && r.nread == total) then pure (r.error, pcp) else do
      m ← call (sys.sys_read pcp.pc_fd magic_len)
      if m.error == 0 && (m.nread == magic_len && same_bytes m.got cmagicstr)
          then precalculate_sumcount pcp
          else pure (if m.error == 0 then einval else m.error, pcp)

  -- `v1_verify`
  unfoldable pub v1_verify : PcContext → M W (ℕ × PcContext)
  v1_verify pcp =
      if not (pctx_open pcp && same_bytes (head_v1 pcp.pc_raw_head).magic image_magic)
      then pure (einval, pcp)
      else do
        v1p ← deref pcp.pc_verdep
        let pcp = record pcp {
          pc_head = v1_head pcp.pc_raw_head;
          pc_flags = record pcp.pc_flags { pc_head_valid = true };
        }
        let total = pcp.pc_head.totalblock
        a ← call (sys.sys_malloc total)
        let v1p = record v1p { v1_bitmap = array_of a 256 total }
        if a.error == 0
            then v1_load pcp v1p
            else pure (a.error, record pcp { pc_verdep = some v1p })

  -- `v1_finish`; the context that it leaves is about to be freed.
  unfoldable pub v1_finish : PcContext → M W ℕ
  v1_finish pcp = if not (pctx_have_verdep pcp) then pure einval else do
    v1p ← deref pcp.pc_verdep
    free_array sys v1p.v1_bitmap
    free_array sys v1p.v1_sumcount
    _ ← call (sys.sys_free v1p.v1_addr)
    elim pcp.pc_cf_handle [ none ↦ pure 0 | some cf ↦ cf_finish sys cf ]

-- The seek of the change file that goes with one of the image.
unfoldable pub seek_cf : Option Context → ℕ → ℕ × Option Context
seek_cf none blockno = (0, none)
seek_cf (some cf) blockno = let (error, cf') = cf_seek cf blockno in (error, some cf')

-- `v1_seek`; `none` is an access outside an array.
unfoldable pub v1_seek : PcContext → ℕ → Option (ℕ × PcContext)
v1_seek pcp blockno =
    if not (pctx_have_verdep pcp) then some (einval, pcp) else elim pcp.pc_verdep [
      | none ↦ none
      | some v1p ↦ elim v1p.v1_sumcount [
        | none ↦ none
        | some sumcount ↦ elim v1p.v1_bitmap [
          | none ↦ none
          | some bitmap ↦
              let start = blockno / 2 ^ v1p.v1_bitmap_factor * 2 ^ v1p.v1_bitmap_factor in
              elim (get_elem? sumcount.cells (blockno / 2 ^ v1p.v1_bitmap_factor)) [
                | none ↦ none
                | some hint ↦ elim (seek_loop bitmap.cells (blockno - start) start hint) [
                  | none ↦ none
                  | some nvbcount ↦
                      let (error, cf) = seek_cf pcp.pc_cf_handle blockno in
                      some (
                        error,
                        record pcp {
                          pc_verdep = some (record v1p { v1_nvbcount = nvbcount });
                          pc_cf_handle = cf;
                        },
                      )
                ]
              ]
        ]
      ]
    ]
