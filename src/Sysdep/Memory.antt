-- ===== src/Sysdep/Memory.antt =====
-- A concrete table of services over files in memory, which meets the contract: the theorems'
-- hypotheses are met by it, and tests run on it. A path holds the number of a file, which is also
-- the handle; memory is never short, and fresh memory holds 170 everywhere.
use partclone_utils.Base.{
  ℕ, ◌+◌, ◌-◌, ◌≤◌, ◌≡◌, refl, ap, ◌∙◌, true, List, [], ◌∷◌, ◌++◌, arith, ◌==◌, length-slice,
  if◌then◌else◌, length, slice, replicate, append_nil,
}
use partclone_utils.Sysdep.{Sysdep, Whence, seek_absolute, seek_relative, seek_end}
use partclone_utils.Base.Splice.{splice}
use partclone_utils.Sysdep.Contract.{Contract, HasRoom, HasMemory}

pub record Disk : Type 0 where
  pub file : ℕ → List ℕ
  pub offset : ℕ → ℕ

abbrev pub update {ℓ} : {A : Type ℓ} → (ℕ → A) → ℕ → A → ℕ → A
update f h v g = if h == g then v else f g

abbrev target : ℕ → ℕ → Whence → Disk → ℕ
target h o seek_absolute d = o
target h o seek_relative d = d.offset h + o
target h o seek_end d = length (d.file h) + o

-- A gap before the offset is filled with zeros.
abbrev pub extend : ℕ → List ℕ → List ℕ
extend off xs = xs ++ replicate (off - length xs) 0

abbrev head_or : List ℕ → ℕ
head_or [] = 0
head_or (x ∷ xs) = x

abbrev pub memory : Sysdep Disk
memory = record {
  sys_open = λ path mode d. (record { error = 0; handle = head_or path }, d);
  sys_close = λ h d. (0, d);
  sys_seek = λ h o m d. (
    record { error = 0; offset = target h o m d },
    record d { offset = update d.offset h (target h o m d) },
  );
  sys_read = λ h n d. (
    record {
      error = 0;
      nread = length (slice (d.offset h) n (d.file h));
      got = slice (d.offset h) n (d.file h);
    },
    record d { offset = update d.offset h (d.offset h + length (slice (d.offset h) n (d.file h))) },
  );
  sys_write = λ h bs d. (
    record { error = 0; nwritten = length bs },
    record {
      file = update d.file h (splice (d.offset h) bs (extend (d.offset h) (d.file h)));
      offset = update d.offset h (d.offset h + length bs);
    },
  );
  sys_malloc = λ n d. (record { error = 0; addr = 4096; garbage = λ i. 170 }, d);
  sys_free = λ p d. (0, d);
  sys_file_size = λ h d. (record { error = 0; nbytes = length (d.file h) }, d);
}

pub extend_inside : (off : ℕ) (xs : List ℕ) → off ≤ length xs → extend off xs ≡ xs
extend_inside off xs h = let e : off - length xs ≡ 0 = omega arith in rw e (append_nil xs)

pub memory-HasRoom : HasRoom memory
memory-HasRoom h bs d = refl

pub update_self {ℓ} : {A : Type ℓ} (f : ℕ → A) (h : ℕ) (v : A) → update f h v h ≡ v
update_self f h v = ground arith

pub memory-HasMemory : HasMemory memory
memory-HasMemory n d = (refl, λ e. absurd (omega arith))

abbrev pub memory_contract : Contract memory
memory_contract = record {
  content = λ h d. d.file h;
  position = λ h d. d.offset h;
  is_open = λ h d. true;
  seek_content = λ h o m d g. refl;
  seek_is_open = λ h o m d g. refl;
  seek_to = λ h o d p q. (refl, update_self d.offset h o);
  seek_by = λ h o d p q. (refl, refl, update_self d.offset h _);
  seek_to_end = λ h d p. (refl, omega arith, update_self d.offset h _ ∙ omega arith);
  read_content = λ h n d g. refl;
  read_is_open = λ h n d g. refl;
  read_within = λ h n d p q. (
    refl,
    length-slice (d.offset h) n (d.file h) q,
    refl,
    update_self d.offset h _ ∙ omega (arith, length-slice (d.offset h) n (d.file h) q),
  );
  write_is_open = λ h bs d g. refl;
  write_all = λ h bs d p q r. (
    refl,
    update_self d.file h _ ∙ ap (splice (d.offset h) bs) (extend_inside (d.offset h) (d.file h) q),
    update_self d.offset h _,
  );
  close_content = λ h d g. refl;
  free_content = λ p d g. refl;
  free_is_open = λ p d g. refl;
  malloc_content = λ n d g. refl;
  malloc_position = λ n d g. refl;
  malloc_is_open = λ n d g. refl;
}
