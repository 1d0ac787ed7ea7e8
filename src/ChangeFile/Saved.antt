-- ===== src/ChangeFile/Saved.antt =====
-- `cf_sync` of src/changefile.c and the bytes that it writes.
use partclone_utils.Base.{
  ℕ, suc, ◌+◌, ◌*◌, ◌≤◌, ◌<◌, ◌^◌, ◌≡◌, ◌≢◌, ap, ap₂, ◌∙◌, sym, true, some, List, [], ◌∷◌, arith,
  length, slice, take, take-all, get_or, ℕ_discrete,
}
use partclone_utils.Base.Words.{words_bytes, length-words_bytes, IsWords}
use partclone_utils.Base.Splice.{
  splice, length-splice, slice-splice_same, slice-splice_before, slice-splice_after,
}
use partclone_utils.Sysdep.{Sysdep, Array, seek_absolute}
use partclone_utils.Sysdep.Contract.{Contract, HasRoom}
use partclone_utils.ChangeFile.{
  Header, Context, header_bytes, header_size, clear_dirty, trailer_size, words_size,
}
use partclone_utils.ChangeFile.Format.{length-header_bytes}
use partclone_utils.ChangeFile.Sync.{cf_sync}
use partclone_utils.ChangeFile.Map.{entry, stored, IsBlock, IsChangeFile}

-- The header without its dirty flag, as `cf_sync` writes it.
abbrev pub clean_header : Header → Header
clean_header h = record h { cf_flags = clear_dirty h.cf_flags }

abbrev pub clean : Context → Context
clean cfp = record cfp { cfc_header = clean_header cfp.cfc_header }

-- The file after the two writes of `cf_sync`.
unfoldable pub saved : Context → Array → List ℕ → List ℕ
saved cfp map bytes =
    splice cfp.cfc_header.cf_blockmap_offset (words_bytes map.cells)
      (splice 0 (header_bytes (clean_header cfp.cfc_header)) bytes)

module _ (cfp : Context) (map : Array) (bytes : List ℕ) (ok : IsChangeFile cfp map bytes) where
  abbrev front : List ℕ
  front = header_bytes (clean_header cfp.cfc_header)

  abbrev offset : ℕ
  offset = cfp.cfc_header.cf_blockmap_offset

  length-map : length (words_bytes map.cells) ≡ 8 * cfp.cfc_header.cf_total_blocks
  length-map = length-words_bytes map.cells ∙ ap (λ n. 8 * n) ok.fits

  length-front : length (splice 0 front bytes) ≡ length bytes
  length-front = omega (
    arith,
    length-splice 0 front bytes (omega arith),
    length-header_bytes (clean_header cfp.cfc_header),
    ok.map_inside,
    ok.map_behind,
  )

  pub length-saved : length (saved cfp map bytes) ≡ length bytes
  unfolding saved
  length-saved = omega (
    arith,
    length-splice offset (words_bytes map.cells) (splice 0 front bytes)
        (omega (arith, length-front, ok.map_inside)),
    length-front,
    length-map,
    ok.map_inside,
  )

  pub header-saved : slice 0 header_size (saved cfp map bytes) ≡ front
  unfolding saved
  header-saved =
      slice-splice_before 0 header_size offset (words_bytes map.cells) (splice 0 front bytes)
        (omega (arith, length-front, ok.map_inside)) ok.map_behind
      ∙ ap (λ n. slice 0 n (splice 0 front bytes))
          (sym (length-header_bytes (clean_header cfp.cfc_header)))
      ∙ slice-splice_same 0 front bytes (omega arith)

  pub map-saved :
      slice offset (8 * cfp.cfc_header.cf_total_blocks) (saved cfp map bytes)
      ≡ words_bytes map.cells
  unfolding saved
  map-saved =
      ap (λ n. slice offset n (splice offset (words_bytes map.cells) (splice 0 front bytes)))
        (sym length-map)
      ∙ slice-splice_same offset (words_bytes map.cells) (splice 0 front bytes)
          (omega (arith, length-front, ok.map_inside))

  -- What lies behind the block map is as it was.
  pub behind-saved :
      (e n : ℕ)
      → offset + 8 * cfp.cfc_header.cf_total_blocks ≤ e
      → slice e n (saved cfp map bytes) ≡ slice e n bytes
  unfolding saved
  behind-saved e n h =
      slice-splice_after e n offset (words_bytes map.cells) (splice 0 front bytes)
        (omega (arith, length-front, ok.map_inside)) (omega (arith, length-map))
      ∙ slice-splice_after e n 0 front bytes (omega arith)
          (omega (arith, length-header_bytes (clean_header cfp.cfc_header), ok.map_behind))

  pub stored-saved :
      (i : ℕ) → stored (clean cfp) map (saved cfp map bytes) i ≡ stored cfp map bytes i
  unfolding stored
  stored-saved i = elim (ℕ_discrete (entry map i) 0) [
    | yes e ↦ ground (arith, e)
    | no ne ↦ ground (arith, ne, behind-saved (entry map i) cfp.cfc_blocksize (ok.behind i ne))
  ]

  IsBlock-saved :
      (i : ℕ) → entry map i ≢ 0 → IsBlock cfp.cfc_blocksize (saved cfp map bytes) i (entry map i)
  IsBlock-saved i ne =
      let b = ok.whole i ne in
      let same = behind-saved (entry map i) cfp.cfc_blocksize (ok.behind i ne) in
      let behind =
        behind-saved (entry map i + cfp.cfc_blocksize) trailer_size
          (omega (arith, ok.behind i ne)) in
      record {
        inside = omega (arith, b.inside, length-saved);
        is_bytes = rw same b.is_bytes;
        trailer = rw (behind, same) b.trailer;
      }

  pub saved-IsChangeFile : IsChangeFile (clean cfp) map (saved cfp map bytes)
  saved-IsChangeFile = record {
    loaded = ok.loaded;
    fits = ok.fits;
    table = ok.table;
    few = ok.few;
    short = omega (arith, ok.short, length-saved);
    map_behind = ok.map_behind;
    map_inside = omega (arith, ok.map_inside, length-saved);
    behind = ok.behind;
    whole = IsBlock-saved;
    apart = ok.apart;
  }

  IsWords-from : (cells : List ℕ) → ((i : ℕ) → get_or cells i 0 < 2 ^ 64) → IsWords cells
  IsWords-from [] h = tt
  IsWords-from (v ∷ vs) h = (h 0, IsWords-from vs (λ i. h (suc i)))

  entry-lt : (i : ℕ) → entry map i < 2 ^ 64
  entry-lt i = elim (ℕ_discrete (entry map i) 0) [
    | yes e ↦ omega (arith, e)
    | no ne ↦ omega (arith, (ok.whole i ne).inside, ok.short)
  ]

  pub IsWords-map : IsWords map.cells
  IsWords-map = IsWords-from map.cells entry-lt

-- What a `cf_sync` that succeeds leaves behind.
pub record Saves {W : Type 0} {sys : Sysdep W} (con : Contract sys) (cfp : Context) (map : Array)
    (w : W) : Type 0 where
  pub after : W
  pub run : cf_sync sys cfp w ≡ some ((0, clean cfp), after)
  pub content : con.content cfp.cfc_fd after ≡ saved cfp map (con.content cfp.cfc_fd w)
  pub is_open : (g : ℕ) → con.is_open g after ≡ con.is_open g w

module _ {W : Type 0} {sys : Sysdep W} (con : Contract sys) (room : HasRoom sys) where
  -- `cf_sync` of an open well-formed change file, under the contract of the services and with
  -- room on the disk, returns 0, clears the dirty flag, and leaves the file with the header and
  -- the block map of the context at their places.
  pub cf_sync-Saves :
      (cfp : Context) (map : Array) (w : W)
      → IsChangeFile cfp map (con.content cfp.cfc_fd w)
      → con.is_open cfp.cfc_fd w ≡ true
      → Saves con cfp map w
  unfolding cf_sync saved
  cf_sync-Saves cfp map w ok opened =
      let bytes = con.content cfp.cfc_fd w in
      let fd = cfp.cfc_fd in
      let total = cfp.cfc_header.cf_total_blocks in
      let off = offset cfp map bytes ok in
      let top = front cfp map bytes ok in
      let words = words_bytes map.cells in
      let wide : words_size total ≡ 8 * total = omega (arith, ok.few) in
      let long = length-map cfp map bytes ok in
      let whole : take (words_size total) words ≡ words =
        take-all (words_size total) words (omega (arith, long, wide)) in
      let s = sys.sys_seek fd 0 seek_absolute w in
      let h = sys.sys_write fd top s.1 in
      let t = sys.sys_seek fd off seek_absolute h.1 in
      let b = sys.sys_write fd words t.1 in
      let open_s = con.seek_is_open fd 0 seek_absolute w in
      let open_h = con.write_is_open fd top s.1 in
      let open_t = con.seek_is_open fd off seek_absolute h.1 in
      let open_b = con.write_is_open fd words t.1 in
      let first = con.seek_to fd 0 w opened (omega arith) in
      let same_s = con.seek_content fd 0 seek_absolute w fd in
      let wrote =
        con.write_all fd top s.1 (open_s fd ∙ opened) (rw first.1 (omega arith))
          (room fd top s.1) in
      let content_h : con.content fd h.1 ≡ splice 0 top bytes =
        wrote.1 ∙ ap₂ (λ p c. splice p top c) first.1 same_s in
      let open_ht = open_h fd ∙ open_s fd ∙ opened in
      let second = con.seek_to fd off h.1 open_ht (omega (arith, ok.map_inside, ok.short)) in
      let same_t : con.content fd t.1 ≡ splice 0 top bytes =
        con.seek_content fd off seek_absolute h.1 fd ∙ content_h in
      let written =
        con.write_all fd words t.1 (open_t fd ∙ open_ht)
          (rw (second.1, same_t) (omega (arith, length-front cfp map bytes ok, ok.map_inside)))
          (room fd words t.1) in
      let n1 : h.0.nwritten ≡ header_size =
        room fd top s.1 ∙ length-header_bytes (clean_header cfp.cfc_header) in
      let n2 : b.0.nwritten ≡ words_size total = room fd words t.1 ∙ long ∙ sym wide in
      record {
        after = b.1;
        run =
            run_of cfp map w ok.loaded first.0 wrote.0 n1 second.0 whole
              (omega (arith, ok.fits, wide)) written.0 n2;
        content = written.1 ∙ ap₂ (λ p c. splice p words c) second.1 same_t;
        is_open = λ g. open_b g ∙ open_t g ∙ open_h g ∙ open_s g;
      }
    where
      run_of :
          (cfp : Context) (map : Array) (w : W)
          → cfp.cfc_blockmap ≡ some map
          → let fd = cfp.cfc_fd in
            let top = header_bytes (clean_header cfp.cfc_header) in
            let size = words_size cfp.cfc_header.cf_total_blocks in
            let words = words_bytes map.cells in
            let s = sys.sys_seek fd 0 seek_absolute w in
            let h = sys.sys_write fd top s.1 in
            let t = sys.sys_seek fd cfp.cfc_header.cf_blockmap_offset seek_absolute h.1 in
            let b = sys.sys_write fd words t.1 in
            s.0.error ≡ 0
            → h.0.error ≡ 0
            → h.0.nwritten ≡ header_size
            → t.0.error ≡ 0
            → take size words ≡ words
            → size ≤ 8 * length map.cells
            → b.0.error ≡ 0
            → b.0.nwritten ≡ size
            → cf_sync sys cfp w ≡ some ((0, clean cfp), b.1)
      run_of cfp map w loaded e1 e2 n2 e3 whole inside e4 n4 =
          ground (arith, loaded, e1, e2, n2, e3, whole, inside, e4, n4)
