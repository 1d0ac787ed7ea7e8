-- ===== src/Base/Words.antt =====
-- Machine words in memory: little-endian bytes of a number, and back.
use partclone_utils.Base.Lists.{length, take, drop, length-append}
use Prim.Native.Nat.{ℕ, zero, suc, ◌+◌, ◌*◌, ◌/◌, ◌%◌, ◌^◌, ◌<◌}
use mathlib.Core.Path.{◌≡◌, refl, ap, ap₂}
use mathlib.Core.List.{List, [], ◌∷◌, ◌++◌}
use native.Mathlib.Nat.{pow-suc}
use native.Mathlib.Omega.{arith}

-- The `n` low bytes of `v`, lowest first.
unfoldable pub le_bytes : ℕ → ℕ → List ℕ
le_bytes zero v = []
le_bytes (suc n) v = (v % 256) ∷ le_bytes n (v / 256)

unfoldable pub le_value : List ℕ → ℕ
le_value [] = 0
le_value (b ∷ bs) = b + 256 * le_value bs

-- An array of 64-bit words.
unfoldable pub words_bytes : List ℕ → List ℕ
words_bytes [] = []
words_bytes (v ∷ vs) = le_bytes 8 v ++ words_bytes vs

unfoldable pub words_of : ℕ → List ℕ → List ℕ
words_of zero bs = []
words_of (suc n) bs = le_value (take 8 bs) ∷ words_of n (drop 8 bs)

pub length-le_bytes : (n v : ℕ) → length (le_bytes n v) ≡ n
unfolding le_bytes
length-le_bytes zero v = refl
length-le_bytes (suc n) v = ap suc (length-le_bytes n (v / 256))

pub le_value-le_bytes : (n v : ℕ) → v < 256 ^ n → le_value (le_bytes n v) ≡ v
unfolding le_bytes le_value
le_value-le_bytes zero v h = omega arith
le_value-le_bytes (suc n) v h =
    omega (arith, le_value-le_bytes n (v / 256) (omega (arith, pow-suc 256 n)))

-- Every element fits a 64-bit word.
abbrev pub IsWords : List ℕ → Type 0
IsWords [] = Unit
IsWords (v ∷ vs) = (v < 2 ^ 64) × IsWords vs

pub length-words_bytes : (vs : List ℕ) → length (words_bytes vs) ≡ 8 * length vs
unfolding words_bytes
length-words_bytes [] = refl
length-words_bytes (v ∷ vs) = omega (
  arith,
  length-append (le_bytes 8 v) (words_bytes vs),
  length-le_bytes 8 v,
  length-words_bytes vs,
)

pub length-words_of : (n : ℕ) (bs : List ℕ) → length (words_of n bs) ≡ n
unfolding words_of
length-words_of zero bs = refl
length-words_of (suc n) bs = ap suc (length-words_of n (drop 8 bs))

-- An array of words survives its stay in memory.
pub words_of-words_bytes : (vs : List ℕ) → IsWords vs → words_of (length vs) (words_bytes vs) ≡ vs
unfolding words_of words_bytes le_bytes
words_of-words_bytes [] h = refl
words_of-words_bytes (v ∷ vs) h =
    ap₂ ◌∷◌ (le_value-le_bytes 8 v (omega arith)) (words_of-words_bytes vs h.1)
