-- ===== src/Sysdep/Contract.antt =====
-- What the documentation of the services in src/sysdep_int.h, and of the POSIX calls behind
-- src/sysdep_posix.c, promises of regular files: the hypotheses of the theorems that follow data
-- to the disk and back.
use partclone_utils.Base.{
  ℕ, ◌+◌, ◌≤◌, ◌<◌, ◌^◌, ◌≡◌, ◌≢◌, refl, ap, ap₂, ◌∙◌, Bool, true, List, length, slice,
}
use partclone_utils.Base.Splice.{splice}
use partclone_utils.Sysdep.{Sysdep, Whence, seek_absolute, seek_relative, seek_end}

pub record Contract {W : Type 0} (sys : Sysdep W) : Type 0 where
  -- The bytes of the file behind a handle, its offset, and whether it is open.
  pub content : ℕ → W → List ℕ
  pub position : ℕ → W → ℕ
  pub is_open : ℕ → W → Bool
  -- lseek(2) and read(2) change no file and close no handle; lseek to a valid offset succeeds.
  pub seek_content :
      (h o : ℕ) (m : Whence) (w : W) (g : ℕ) → content g (sys.sys_seek h o m w).1 ≡ content g w
  pub seek_is_open :
      (h o : ℕ) (m : Whence) (w : W) (g : ℕ) → is_open g (sys.sys_seek h o m w).1 ≡ is_open g w
  pub seek_to :
      (h o : ℕ) (w : W)
      → is_open h w ≡ true
      → o < 2 ^ 63
      → ((sys.sys_seek h o seek_absolute w).0.error ≡ 0)
        × (position h (sys.sys_seek h o seek_absolute w).1 ≡ o)
  pub seek_by :
      (h o : ℕ) (w : W)
      → is_open h w ≡ true
      → position h w + o < 2 ^ 63
      → ((sys.sys_seek h o seek_relative w).0.error ≡ 0)
        × ((sys.sys_seek h o seek_relative w).0.offset ≡ position h w + o)
        × (position h (sys.sys_seek h o seek_relative w).1 ≡ position h w + o)
  pub seek_to_end :
      (h : ℕ) (w : W)
      → is_open h w ≡ true
      → ((sys.sys_seek h 0 seek_end w).0.error ≡ 0)
        × ((sys.sys_seek h 0 seek_end w).0.offset ≡ length (content h w))
        × (position h (sys.sys_seek h 0 seek_end w).1 ≡ length (content h w))
  pub read_content : (h n : ℕ) (w : W) (g : ℕ) → content g (sys.sys_read h n w).1 ≡ content g w
  pub read_is_open : (h n : ℕ) (w : W) (g : ℕ) → is_open g (sys.sys_read h n w).1 ≡ is_open g w
  -- Bytes that are all there are read at once.
  pub read_within :
      (h n : ℕ) (w : W)
      → is_open h w ≡ true
      → position h w + n ≤ length (content h w)
      → ((sys.sys_read h n w).0.error ≡ 0)
        × ((sys.sys_read h n w).0.nread ≡ n)
        × ((sys.sys_read h n w).0.got ≡ slice (position h w) n (content h w))
        × (position h (sys.sys_read h n w).1 ≡ position h w + n)
  pub write_is_open :
      (h : ℕ) (bs : List ℕ) (w : W) (g : ℕ) → is_open g (sys.sys_write h bs w).1 ≡ is_open g w
  -- A write that reports all its bytes has stored them at the offset, and moved the offset.
  pub write_all :
      (h : ℕ) (bs : List ℕ) (w : W)
      → is_open h w ≡ true
      → position h w ≤ length (content h w)
      → (sys.sys_write h bs w).0.nwritten ≡ length bs
      → ((sys.sys_write h bs w).0.error ≡ 0)
        × (content h (sys.sys_write h bs w).1 ≡ splice (position h w) bs (content h w))
        × (position h (sys.sys_write h bs w).1 ≡ position h w + length bs)
  -- close(2) leaves the bytes of the files.
  pub close_content : (h : ℕ) (w : W) (g : ℕ) → content g (sys.sys_close h w).1 ≡ content g w
  -- malloc(3) and free(3) touch no file.
  pub free_content : (p : ℕ) (w : W) (g : ℕ) → content g (sys.sys_free p w).1 ≡ content g w
  pub free_is_open : (p : ℕ) (w : W) (g : ℕ) → is_open g (sys.sys_free p w).1 ≡ is_open g w
  pub malloc_content : (n : ℕ) (w : W) (g : ℕ) → content g (sys.sys_malloc n w).1 ≡ content g w
  pub malloc_position : (n : ℕ) (w : W) (g : ℕ) → position g (sys.sys_malloc n w).1 ≡ position g w
  pub malloc_is_open : (n : ℕ) (w : W) (g : ℕ) → is_open g (sys.sys_malloc n w).1 ≡ is_open g w

-- The disk does not fill up: every write stores all its bytes.
abbrev pub HasRoom : {W : Type 0} → Sysdep W → Type 0
HasRoom {W} sys = (h : ℕ) (bs : List ℕ) (w : W) → (sys.sys_write h bs w).0.nwritten ≡ length bs

-- Memory is never short.
abbrev pub HasMemory : {W : Type 0} → Sysdep W → Type 0
HasMemory {W} sys =
    (n : ℕ) (w : W) → ((sys.sys_malloc n w).0.error ≡ 0) × ((sys.sys_malloc n w).0.addr ≢ 0)

-- No file has changed, and no handle has been opened or closed.
pub record SameFiles {W : Type 0} {sys : Sysdep W} (con : Contract sys) (w w' : W) : Type 0 where
  pub content : (g : ℕ) → con.content g w' ≡ con.content g w
  pub is_open : (g : ℕ) → con.is_open g w' ≡ con.is_open g w

module _ {W : Type 0} {sys : Sysdep W} (con : Contract sys) where
  pub SameFiles-refl : (w : W) → SameFiles con w w
  SameFiles-refl w = record { content = λ g. refl; is_open = λ g. refl }

  pub SameFiles-trans : {u v w : W} → SameFiles con u v → SameFiles con v w → SameFiles con u w
  SameFiles-trans p q = record {
    content = λ g. q.content g ∙ p.content g;
    is_open = λ g. q.is_open g ∙ p.is_open g;
  }

  pub SameFiles-seek : (h o : ℕ) (m : Whence) (w : W) → SameFiles con w (sys.sys_seek h o m w).1
  SameFiles-seek h o m w = record {
    content = con.seek_content h o m w;
    is_open = con.seek_is_open h o m w;
  }

  pub SameFiles-read : (h n : ℕ) (w : W) → SameFiles con w (sys.sys_read h n w).1
  SameFiles-read h n w = record {
    content = con.read_content h n w;
    is_open = con.read_is_open h n w;
  }

  pub SameFiles-malloc : (n : ℕ) (w : W) → SameFiles con w (sys.sys_malloc n w).1
  SameFiles-malloc n w = record {
    content = con.malloc_content n w;
    is_open = con.malloc_is_open n w;
  }

  pub SameFiles-free : (p : ℕ) (w : W) → SameFiles con w (sys.sys_free p w).1
  SameFiles-free p w = record { content = con.free_content p w; is_open = con.free_is_open p w }

  -- A seek to a byte that is there, and a read of bytes that are all there.
  pub read_at :
      (h o n : ℕ) (w : W)
      → con.is_open h w ≡ true
      → o < 2 ^ 63
      → o + n ≤ length (con.content h w)
      → let s = sys.sys_seek h o seek_absolute w in
        let r = sys.sys_read h n s.1 in
        (s.0.error ≡ 0)
        × (r.0.error ≡ 0)
        × (r.0.nread ≡ n)
        × (r.0.got ≡ slice o n (con.content h w))
        × (con.position h r.1 ≡ o + n)
  read_at h o n w p q r =
      let s = sys.sys_seek h o seek_absolute w in
      let sought = con.seek_to h o w p q in
      let same : con.content h s.1 ≡ con.content h w = con.seek_content h o seek_absolute w h in
      let bound : con.position h s.1 + n ≤ length (con.content h s.1) = rw (sought.1, same) r in
      let got = con.read_within h n s.1 (con.seek_is_open h o seek_absolute w h ∙ p) bound in
      (
        sought.0,
        got.0,
        got.1,
        got.2 ∙ ap₂ (λ p c. slice p n c) sought.1 same,
        got.3 ∙ ap (λ t. t + n) sought.1,
      )

  -- A further read goes on where the last one ended.
  pub read_next :
      (h o n : ℕ) (w : W)
      → con.is_open h w ≡ true
      → con.position h w ≡ o
      → o + n ≤ length (con.content h w)
      → let r = sys.sys_read h n w in
        (r.0.error ≡ 0)
        × (r.0.nread ≡ n)
        × (r.0.got ≡ slice o n (con.content h w))
        × (con.position h r.1 ≡ o + n)
  read_next h o n w p q r =
      let bound : con.position h w + n ≤ length (con.content h w) = rw q r in
      let got = con.read_within h n w p bound in
      (got.0, got.1, got.2 ∙ ap (λ p. slice p n (con.content h w)) q, got.3 ∙ ap (λ t. t + n) q)
