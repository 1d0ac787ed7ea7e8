-- ===== src/Sysdep.antt =====
-- src/sysdep_int.h: the table of system services that every image library is given, as a
-- parameter, and the monad in which the libraries call it.
--
-- A service may change the world `W`. An `int` result is the error number, 0 for success. An
-- `int64_t` offset is passed as its 64-bit pattern, and a pointer is its address, 0 for NULL. The
-- content of fresh memory is indeterminate: `malloc` reports it as the function `garbage`.
pub mod Contract
pub mod Memory
use partclone_utils.Base.{
  ℕ, zero, suc, ◌+◌, ◌%◌, ◌≡◌, refl, ap, Bool, true, false, Option, none, some, List, [], ◌∷◌, ◌==◌,
  leb, if◌then◌else◌, length,
}

-- Error numbers of errno.h.
abbrev pub enoent : ℕ
enoent = 2

abbrev pub esrch : ℕ
esrch = 3

abbrev pub eio : ℕ
eio = 5

abbrev pub enxio : ℕ
enxio = 6

abbrev pub enomem : ℕ
enomem = 12

abbrev pub enodev : ℕ
enodev = 19

abbrev pub einval : ℕ
einval = 22

abbrev pub edeadlk : ℕ
edeadlk = 35

abbrev pub estale : ℕ
estale = 116

-- `sysdep_open_mode_t`
pub data OpenMode : Type 0 where
  open_none open_ro open_rw open_wo create : OpenMode

-- `(int)mode`
abbrev pub mode_code : OpenMode → ℕ
mode_code open_none = 0
mode_code open_ro = 1
mode_code open_rw = 2
mode_code open_wo = 3
mode_code create = 4

-- `(int)mode >= (int)SYSDEP_OPEN_RW`
abbrev pub is_writing : OpenMode → Bool
is_writing mode = leb 2 (mode_code mode)

-- `sysdep_whence_t`
pub data Whence : Type 0 where
  seek_absolute seek_relative seek_end : Whence

pub record Opened : Type 0 where
  pub error : ℕ
  pub handle : ℕ

pub record Sought : Type 0 where
  pub error : ℕ
  pub offset : ℕ

-- `got` is what has been stored at the front of the caller's buffer.
pub record ReadReply : Type 0 where
  pub error : ℕ
  pub nread : ℕ
  pub got : List ℕ

pub record Written : Type 0 where
  pub error : ℕ
  pub nwritten : ℕ

pub record Allocated : Type 0 where
  pub error : ℕ
  pub addr : ℕ
  pub garbage : ℕ → ℕ

pub record Sized : Type 0 where
  pub error : ℕ
  pub nbytes : ℕ

-- `sysdep_dispatch_t`
pub record Sysdep (W : Type 0) : Type 0 where
  pub sys_open : List ℕ → OpenMode → W → Opened × W
  pub sys_close : ℕ → W → ℕ × W
  pub sys_seek : ℕ → ℕ → Whence → W → Sought × W
  pub sys_read : ℕ → ℕ → W → ReadReply × W
  pub sys_write : ℕ → List ℕ → W → Written × W
  pub sys_malloc : ℕ → W → Allocated × W
  pub sys_free : ℕ → W → ℕ × W
  pub sys_file_size : ℕ → W → Sized × W

-- A computation on the world; `none` is undefined behaviour of C: a NULL or stale pointer followed,
-- or an access outside an array.
abbrev pub M : Type 0 → Type 0 → Type 0
M W A = W → Option (A × W)

module _ {W : Type 0} where
  abbrev pub pure : {A : Type 0} → A → M W A
  pure a w = some (a, w)

  abbrev pub fault : {A : Type 0} → M W A
  fault w = none

  infixl 5 ◌>>=◌ ◌>>◌
  abbrev pub ◌>>=◌ : {A B : Type 0} → M W A → (A → M W B) → M W B
  ◌>>=◌ m f w = elim (m w) [ none ↦ none | some (a, w') ↦ f a w' ]

  abbrev pub ◌>>◌ : {A B : Type 0} → M W A → M W B → M W B
  m >> k = m >>= λ _. k

  -- A call of a service.
  abbrev pub call : {A : Type 0} → (W → A × W) → M W A
  call f w = some (f w)

  -- A pointer is followed, or an array is indexed.
  abbrev pub deref : {A : Type 0} → Option A → M W A
  deref none w = none
  deref (some a) w = some (a, w)

  -- An access is in bounds.
  abbrev pub in_bounds : Bool → M W (Unit {0})
  in_bounds true w = some (tt, w)
  in_bounds false w = none

-- An allocated array and its address.
pub record Array : Type 0 where
  pub addr : ℕ
  pub cells : List ℕ

-- The `n` values from index `i` on of indeterminate memory, each below `bound`.
pub indeterminate : (ℕ → ℕ) → ℕ → ℕ → ℕ → List ℕ
indeterminate garbage bound zero i = []
indeterminate garbage bound (suc n) i = (garbage i % bound) ∷ indeterminate garbage bound n (i + 1)

-- The pointer that `malloc` stores: an array of `n` cells, or NULL.
unfoldable pub array_of : Allocated → ℕ → ℕ → Option Array
array_of a bound n =
    if a.addr == 0
    then none
    else some (record { addr = a.addr; cells = indeterminate a.garbage bound n 0 })

pub length-indeterminate :
    (garbage : ℕ → ℕ) (bound n i : ℕ) → length (indeterminate garbage bound n i) ≡ n
unfolding indeterminate
length-indeterminate garbage bound zero i = refl
length-indeterminate garbage bound (suc n) i = ap suc (length-indeterminate garbage bound n (i + 1))
