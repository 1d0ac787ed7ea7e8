-- ===== src/ChangeFile/Durable.antt =====
-- `cf_verify` of src/changefile.c on a file after `cf_sync`.
use partclone_utils.Base.{
  ℕ, ◌*◌, ◌/◌, ◌^◌, ◌≡◌, refl, ap, ap₂, ◌∙◌, sym, true, some, List, arith, length, slice, overlay,
  overlay_full,
}
use partclone_utils.Base.Words.{words_bytes, words_of, words_of-words_bytes, length-words_bytes}
use partclone_utils.Sysdep.{
  Sysdep, Array, array_of, indeterminate, length-indeterminate, seek_absolute,
}
use partclone_utils.Sysdep.Contract.{
  Contract, HasMemory, SameFiles, SameFiles-trans, SameFiles-seek, SameFiles-read, SameFiles-malloc,
  read_at,
}
use partclone_utils.ChangeFile.{
  Header, Context, header_bytes, header_of, header_size, words_size, cf_magic_1, cf_magic_2,
}
use partclone_utils.ChangeFile.Format.{IsHeader, length-header_bytes, header_of-header_bytes}
use partclone_utils.ChangeFile.Open.{load_blockmap, cf_verify}
use partclone_utils.ChangeFile.Map.{stored, IsChangeFile}
use partclone_utils.ChangeFile.Saved.{
  clean_header, saved, length-saved, header-saved, map-saved, stored-saved, saved-IsChangeFile,
  IsWords-map,
}

-- The context that `cf_verify` leaves of `opened`.
abbrev pub restored : Context → Header → ℕ → List ℕ → Context
restored opened header addr cells = record opened {
  cfc_header = header;
  cfc_blockmap = some (record { addr = addr; cells = cells });
}

clean-IsHeader : (h : Header) → IsHeader h → IsHeader (clean_header h)
clean-IsHeader h ok = record {
  cf_magic = ok.cf_magic;
  cf_version = ok.cf_version;
  cf_flags = omega (arith, ok.cf_flags);
  cf_total_blocks = ok.cf_total_blocks;
  cf_used_blocks = ok.cf_used_blocks;
  cf_blockmap_offset = ok.cf_blockmap_offset;
  cf_magic2 = ok.cf_magic2;
}

module _ {W : Type 0} (sys : Sysdep W) where
  -- `cf_verify` that reads a good header goes on to `load_blockmap`.
  cf_verify-load_blockmap :
      (opened : Context) (header : Header) (w : W)
      → let s = sys.sys_seek opened.cfc_fd 0 seek_absolute w in
        let r = sys.sys_read opened.cfc_fd header_size s.1 in
        r.0.error ≡ 0
        → r.0.nread ≡ header_size
        → header_of (overlay r.0.got (header_bytes opened.cfc_header)) ≡ header
        → header.cf_magic ≡ cf_magic_1
        → header.cf_magic2 ≡ cf_magic_2
        → header.cf_total_blocks ≡ opened.cfc_blockcount
        → cf_verify sys opened w ≡ load_blockmap sys (record opened { cfc_header = header }) r.1
  unfolding cf_verify
  cf_verify-load_blockmap opened header w e n got m1 m2 count =
      ground (arith, e, n, got, m1, m2, count)

  load_blockmap-restored :
      (cfp : Context) (size addr : ℕ) (cells fresh : List ℕ) (w : W)
      → words_size cfp.cfc_header.cf_total_blocks ≡ size
      → let a = sys.sys_malloc size w in
        let s = sys.sys_seek cfp.cfc_fd cfp.cfc_header.cf_blockmap_offset seek_absolute a.1 in
        let r = sys.sys_read cfp.cfc_fd size s.1 in
        a.0.error ≡ 0
        → array_of a.0 (2 ^ 64) (size / 8) ≡ some (record { addr = addr; cells = fresh })
        → s.0.error ≡ 0
        → r.0.error ≡ 0
        → r.0.nread ≡ size
        → words_of (size / 8) (overlay r.0.got (words_bytes fresh)) ≡ cells
        → load_blockmap sys cfp w ≡ some ((0, restored cfp cfp.cfc_header addr cells), r.1)
  unfolding load_blockmap
  load_blockmap-restored cfp size addr cells fresh w eq e1 array e2 e3 n3 filled =
      ground (arith, eq, e1, array, e2, e3, n3, filled)

-- A change file that `cf_verify` accepts has the two magic numbers, and fields that fit.
pub record IsMarked (h : Header) : Type 0 where
  pub is_header : IsHeader h
  pub magic : h.cf_magic ≡ cf_magic_1
  pub magic2 : h.cf_magic2 ≡ cf_magic_2

-- What `cf_verify` makes of a saved file.
pub record Restores {W : Type 0} {sys : Sysdep W} (con : Contract sys) (cfp : Context) (map : Array)
    (bytes : List ℕ) (opened : Context) (w : W) : Type 0 where
  pub addr : ℕ
  pub after : W
  pub run :
      cf_verify sys opened w
      ≡ some ((0, restored opened (clean_header cfp.cfc_header) addr map.cells), after)
  pub is_file :
      IsChangeFile
        (restored opened (clean_header cfp.cfc_header) addr map.cells)
        (record { addr = addr; cells = map.cells })
        (con.content opened.cfc_fd after)
  pub blocks :
      (i : ℕ)
      → stored
          (restored opened (clean_header cfp.cfc_header) addr map.cells)
          (record { addr = addr; cells = map.cells })
          (con.content opened.cfc_fd after)
          i
        ≡ stored cfp map bytes i
  pub same : SameFiles con w after

module _ {W : Type 0} {sys : Sysdep W} (con : Contract sys) (mem : HasMemory sys) where
  -- For a marked well-formed change file whose bytes are those of a sync, `cf_verify` of a
  -- context just opened on it with the same block size, block count and table returns 0, changes
  -- no file, and gives a well-formed change file with the same block map and the same stored
  -- blocks.
  pub cf_verify-Restores :
      (cfp : Context) (map : Array) (bytes : List ℕ) (opened : Context) (w : W)
      → IsChangeFile cfp map bytes
      → IsMarked cfp.cfc_header
      → opened.cfc_blocksize ≡ cfp.cfc_blocksize
      → opened.cfc_blockcount ≡ cfp.cfc_header.cf_total_blocks
      → opened.cfc_crc_tab32 ≡ cfp.cfc_crc_tab32
      → con.is_open opened.cfc_fd w ≡ true
      → con.content opened.cfc_fd w ≡ saved cfp map bytes
      → Restores con cfp map bytes opened w
  unfolding array_of stored
  cf_verify-Restores cfp map bytes opened w ok marked bs count table live same =
      let fd = opened.cfc_fd in
      let header = clean_header cfp.cfc_header in
      let total = cfp.cfc_header.cf_total_blocks in
      let size = 8 * total in
      let off = cfp.cfc_header.cf_blockmap_offset in
      let file = saved cfp map bytes in
      let long = length-saved cfp map bytes ok in
      let s = sys.sys_seek fd 0 seek_absolute w in
      let r = sys.sys_read fd header_size s.1 in
      let same_r =
        SameFiles-trans con (SameFiles-seek con fd 0 seek_absolute w)
          (SameFiles-read con fd header_size s.1) in
      let first =
        read_at con fd 0 header_size w live (omega arith)
          (rw same (omega (arith, long, ok.map_behind, ok.map_inside))) in
      let top : r.0.got ≡ header_bytes header =
        first.3 ∙ ap (slice 0 header_size) same ∙ header-saved cfp map bytes ok in
      let read : header_of (overlay r.0.got (header_bytes opened.cfc_header)) ≡ header =
        ap header_of (
          overlay_full r.0.got (header_bytes opened.cfc_header) (
            omega (
              arith,
              ap length top,
              length-header_bytes header,
              length-header_bytes opened.cfc_header,
            ))
          ∙ top)
        ∙ header_of-header_bytes header (clean-IsHeader cfp.cfc_header marked.is_header) in
      let a = sys.sys_malloc size r.1 in
      let t = sys.sys_seek fd off seek_absolute a.1 in
      let b = sys.sys_read fd size t.1 in
      let same_a = SameFiles-trans con same_r (SameFiles-malloc con size r.1) in
      let same_b = SameFiles-trans con same_a (
        SameFiles-trans con (SameFiles-seek con fd off seek_absolute a.1)
          (SameFiles-read con fd size t.1)) in
      let second =
        read_at con fd off size a.1 (same_a.is_open fd ∙ live)
          (omega (arith, ok.map_inside, ok.short))
          (rw (same_a.content fd, same) (omega (arith, long, ok.map_inside))) in
      let words : b.0.got ≡ words_bytes map.cells =
        second.3 ∙ ap (slice off size) (same_a.content fd ∙ same) ∙ map-saved cfp map bytes ok in
      let fresh = indeterminate a.0.garbage (2 ^ 64) (size / 8) 0 in
      let back : size / 8 ≡ total = omega arith in
      let covered : overlay b.0.got (words_bytes fresh) ≡ words_bytes map.cells =
        overlay_full b.0.got (words_bytes fresh) (
          omega (
            arith,
            ap length words,
            length-words_bytes map.cells,
            length-words_bytes fresh,
            length-indeterminate a.0.garbage (2 ^ 64) (size / 8) 0,
            ok.fits,
          ))
        ∙ words in
      let filled : words_of (size / 8) (overlay b.0.got (words_bytes fresh)) ≡ map.cells =
        ap₂ words_of (back ∙ sym ok.fits) covered
        ∙ words_of-words_bytes map.cells (IsWords-map cfp map bytes ok) in
      let fit = mem size r.1 in
      let array : array_of a.0 (2 ^ 64) (size / 8)
          ≡ some (record { addr = a.0.addr; cells = fresh }) =
        ground (arith, fit.1) in
      let final : con.content fd b.1 ≡ file = same_b.content fd ∙ same in
      let kept = saved-IsChangeFile cfp map bytes ok in
      record {
        addr = a.0.addr;
        after = b.1;
        run =
            cf_verify-load_blockmap sys opened header w first.1 first.2 read marked.magic
              marked.magic2 (sym count)
            ∙ load_blockmap-restored sys (record opened { cfc_header = header }) size a.0.addr
                map.cells fresh r.1 (omega (arith, ok.few)) fit.0 array second.0 second.1 second.2
                filled;
        is_file = rw final (record {
          loaded = refl;
          fits = kept.fits;
          table = table ∙ kept.table;
          few = kept.few;
          short = kept.short;
          map_behind = kept.map_behind;
          map_inside = kept.map_inside;
          behind = kept.behind;
          whole = rw bs kept.whole;
          apart = rw bs kept.apart;
        });
        blocks = λ i. rw (final, bs) (stored-saved cfp map bytes ok i);
        same = same_b;
      }
