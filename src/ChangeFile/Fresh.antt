-- ===== src/ChangeFile/Fresh.antt =====
-- The new file that `cf_create` of src/changefile.c writes.
use partclone_utils.Base.{
  ℕ, zero, suc, ◌+◌, ◌*◌, ◌<◌, ◌^◌, ◌≡◌, refl, ap, ap₂, ◌∙◌, true, none, some, List, [], ◌++◌,
  arith, length, length-append, length-replicate, replicate, get_or,
}
use partclone_utils.Base.Splice.{splice, splice-end}
use partclone_utils.Sysdep.{Sysdep, Array}
use partclone_utils.Sysdep.Contract.{Contract, HasRoom, HasMemory}
use partclone_utils.Checksum.{crc_table}
use partclone_utils.ChangeFile.{Context, header_bytes, header_size, words_size}
use partclone_utils.ChangeFile.Format.{length-header_bytes}
use partclone_utils.ChangeFile.Open.{new_header, write_new}
use partclone_utils.ChangeFile.Map.{stored, IsChangeFile}

-- A header, and a block map of zeros.
abbrev pub new_file : ℕ → List ℕ
new_file n = header_bytes (new_header n) ++ replicate (8 * n) 0

abbrev pub no_blocks : ℕ → ℕ → Array
no_blocks addr n = record { addr = addr; cells = replicate n 0 }

get_or-replicate : (n i : ℕ) → get_or (replicate {A = ℕ} n 0) i 0 ≡ 0
get_or-replicate zero i = refl
get_or-replicate (suc n) zero = refl
get_or-replicate (suc n) (suc i) = get_or-replicate n i

-- A context for the new file, of `n` blocks.
abbrev pub new_file_context : ℕ → ℕ → ℕ → ℕ → ℕ → Context
new_file_context addr map_addr fd blocksize n = record {
  addr = addr;
  cfc_header = new_header n;
  cfc_fd = fd;
  cfc_blockmap = some (no_blocks map_addr n);
  cfc_blocksize = blocksize;
  cfc_blockcount = n;
  cfc_curpos = 0;
  cfc_crc_tab32 = crc_table;
}

length-new_file : (n : ℕ) → length (new_file n) ≡ header_size + 8 * n
length-new_file n = omega (
  arith,
  length-append (header_bytes (new_header n)) (replicate (8 * n) 0),
  length-header_bytes (new_header n),
  length-replicate {A = ℕ} (8 * n) 0,
)

pub new_file-IsChangeFile :
    (addr map_addr fd blocksize n : ℕ)
    → n < 2 ^ 59
    → IsChangeFile
        (new_file_context addr map_addr fd blocksize n)
        (no_blocks map_addr n)
        (new_file n)
new_file-IsChangeFile addr map_addr fd blocksize n few = record {
  loaded = refl;
  fits = length-replicate {A = ℕ} n 0;
  table = refl;
  few = omega arith;
  short = omega (arith, length-new_file n);
  map_behind = omega arith;
  map_inside = omega (arith, length-new_file n);
  behind = λ i p. absurd (p (get_or-replicate n i));
  whole = λ i p. absurd (p (get_or-replicate n i));
  apart = λ i j ne p q. absurd (p (get_or-replicate n i));
}

-- What `write_new` leaves behind.
pub record Creates {W : Type 0} {sys : Sysdep W} (con : Contract sys) (cfh n : ℕ) (w : W)
    : Type 0 where
  pub after : W
  pub run : write_new sys cfh n w ≡ some (0, after)
  pub content : con.content cfh after ≡ new_file n
  pub is_file :
      (addr map_addr fd blocksize : ℕ)
      → IsChangeFile
          (new_file_context addr map_addr fd blocksize n)
          (no_blocks map_addr n)
          (con.content cfh after)
  pub empty :
      (addr map_addr fd blocksize i : ℕ)
      → stored
          (new_file_context addr map_addr fd blocksize n)
          (no_blocks map_addr n)
          (con.content cfh after)
          i
        ≡ none

module _ {W : Type 0} {sys : Sysdep W} (con : Contract sys) (room : HasRoom sys)
    (mem : HasMemory sys) where
  -- The writes of `cf_create` to an open empty file at its start, for fewer than 2 ^ 59 blocks,
  -- under the contract of the services, with room on the disk and memory to be had, return 0 and
  -- leave a well-formed change file that holds no block.
  pub write_new-Creates :
      (cfh n : ℕ) (w : W)
      → n < 2 ^ 59
      → con.is_open cfh w ≡ true
      → con.position cfh w ≡ 0
      → con.content cfh w ≡ []
      → Creates con cfh n w
  unfolding write_new stored
  write_new-Creates cfh n w few opened start empty =
      let top = header_bytes (new_header n) in
      let zeros = replicate {A = ℕ} (8 * n) 0 in
      let a = sys.sys_malloc (8 * n) w in
      let h = sys.sys_write cfh top a.1 in
      let b = sys.sys_write cfh zeros h.1 in
      let c = sys.sys_close cfh b.1 in
      let f = sys.sys_free a.0.addr c.1 in
      let wide : words_size n ≡ 8 * n = omega arith in
      let live : con.is_open cfh a.1 ≡ true = con.malloc_is_open (8 * n) w cfh ∙ opened in
      let at_start : con.position cfh a.1 ≡ 0 = con.malloc_position (8 * n) w cfh ∙ start in
      let bare : con.content cfh a.1 ≡ [] = con.malloc_content (8 * n) w cfh ∙ empty in
      let first = con.write_all cfh top a.1 live (rw at_start (omega arith)) (room cfh top a.1) in
      let content_h : con.content cfh h.1 ≡ top =
        first.1 ∙ ap₂ (λ p xs. splice p top xs) at_start bare ∙ splice-end top [] in
      let position_h : con.position cfh h.1 ≡ length top =
        first.2 ∙ ap (λ p. p + length top) at_start ∙ omega arith in
      let second =
        con.write_all cfh zeros h.1 (con.write_is_open cfh top a.1 cfh ∙ live)
          (rw (position_h, content_h) (omega arith)) (room cfh zeros h.1) in
      let content_b : con.content cfh b.1 ≡ new_file n =
        second.1 ∙ ap₂ (λ p xs. splice p zeros xs) position_h content_h ∙ splice-end zeros top in
      let final : con.content cfh f.1 ≡ new_file n =
        con.free_content a.0.addr c.1 cfh ∙ con.close_content cfh b.1 cfh ∙ content_b in
      let fit = mem (8 * n) w in
      let n1 : h.0.nwritten ≡ header_size = room cfh top a.1 ∙ length-header_bytes (new_header n) in
      let n2 : b.0.nwritten ≡ 8 * n = room cfh zeros h.1 ∙ length-replicate {A = ℕ} (8 * n) 0 in
      record {
        after = f.1;
        run = ground (arith, wide, fit.0, first.0, n1, second.0, n2);
        content = final;
        is_file = λ addr m fd bs. rw final (new_file-IsChangeFile addr m fd bs n few);
        empty = λ addr m fd bs i. ground (arith, get_or-replicate n i);
      }
