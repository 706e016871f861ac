-- ===== src/Block/Words.antt =====
-- Reads and writes of the words of a block.
use pcd_file_system.Prelude.{
  ◌+◌, ◌*◌, ◌/◌, ◌<◌, refl, none, some, List, ℕ, ◌%◌, ◌^◌, ◌≡◌, ◌≢◌, arith,
}
use pcd_file_system.Block.{byte_of, get_elem?, overlay, Block, word, set_word}

pub word-set_word : (b : Block) (i v : ℕ) → word (set_word b i v) i ≡ v % 2 ^ 32
unfolding word set_word
word-set_word b i v = ground arith

pub word-set_word_ne : (b : Block) (i j v : ℕ) → i ≢ j → word (set_word b i v) j ≡ word b j
unfolding word set_word
word-set_word_ne b i j v h = ground arith

byte-overlay :
    (b : Block) (ws : List ℕ) (i k o v : ℕ)
    → o ≡ 4 * i + k
    → k < 4
    → get_elem? ws i ≡ some v
    → overlay b ws o ≡ byte_of v k
unfolding overlay
byte-overlay b ws i k o v e lt h =
    let quotient : o / 4 ≡ i = omega arith in
    let rest : o % 4 ≡ k = omega arith in
    let found : get_elem? ws (o / 4) ≡ some v = rw quotient h in rw (found, overlay) (rw rest)

byte-overlay-none :
    (b : Block) (ws : List ℕ) (i k o : ℕ)
    → o ≡ 4 * i + k
    → k < 4
    → get_elem? ws i ≡ none
    → overlay b ws o ≡ b o
unfolding overlay
byte-overlay-none b ws i k o e lt h =
    let quotient : o / 4 ≡ i = omega arith in
    let found : get_elem? ws (o / 4) ≡ none = rw quotient h in rw (found, overlay)

pub word_of_bytes :
    (v : ℕ)
    → byte_of v 0 + 256 * byte_of v 1 + 65536 * byte_of v 2 + 16777216 * byte_of v 3 ≡ v % 2 ^ 32
unfolding byte_of
word_of_bytes v = omega arith

-- A struct that was copied into a block is read back from it, word by word.
pub word-overlay :
    (b : Block) (ws : List ℕ) (i v : ℕ)
    → get_elem? ws i ≡ some v
    → word (overlay b ws) i ≡ v % 2 ^ 32
unfolding word
word-overlay b ws i v h =
    rw
      (
        byte-overlay b ws i 0 (4 * i) v (omega arith) (omega arith) h,
        byte-overlay b ws i 1 (4 * i + 1) v refl (omega arith) h,
        byte-overlay b ws i 2 (4 * i + 2) v refl (omega arith) h,
        byte-overlay b ws i 3 (4 * i + 3) v refl (omega arith) h,
      )
      (word_of_bytes v)

-- The bytes of a block.
abbrev pub IsBytes : Block → Type 0
IsBytes b = (o : ℕ) → b o < 256

pub word_lt : (b : Block) (i : ℕ) → IsBytes b → word b i < 2 ^ 32
unfolding word
word_lt b i h = omega (arith, h (4 * i), h (4 * i + 1), h (4 * i + 2), h (4 * i + 3))
