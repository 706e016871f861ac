-- ===== src/Block.antt =====
-- A disk block of DB_SIZE bytes (disk.h), as the bytes that its offsets hold, and the unsigned ints
-- that the C code reads and writes in it by memcpy (little-endian, four bytes each).
pub mod Words
use pcd_file_system.Prelude.{
  ℕ, zero, suc, ◌+◌, ◌*◌, ◌/◌, ◌%◌, ◌^◌, Option, some, none, List, [], ◌∷◌, if◌then◌else◌, ◌==◌,
}

abbrev pub db_size : ℕ
db_size = 4096

-- an offset, and the byte there; only the offsets below `db_size` are in the block
abbrev pub Block : Type 0
Block = ℕ → ℕ

-- calloc(DB_SIZE, 1)
abbrev pub zero_block : Block
zero_block _ = 0

-- byte k of an unsigned int
unfoldable pub byte_of : ℕ → ℕ → ℕ
byte_of v k = v / 256 ^ k % 256

-- memcpy(&v, block + 4 * i, sizeof(unsigned int))
unfoldable pub word : Block → ℕ → ℕ
word b i = b (4 * i) + 256 * b (4 * i + 1) + 65536 * b (4 * i + 2) + 16777216 * b (4 * i + 3)

-- memcpy(block + 4 * i, &v, sizeof(unsigned int))
unfoldable pub set_word : Block → ℕ → ℕ → Block
unfolding byte_of
set_word b i v o = if o / 4 == i then byte_of v (o % 4) else b o

-- block[o] = v for an unsigned char
unfoldable pub set_byte : Block → ℕ → ℕ → Block
set_byte b o v j = if j == o then v % 256 else b j

-- an unsigned long at the words i and i + 1
unfoldable pub long : Block → ℕ → ℕ
unfolding word
long b i = word b i + 2 ^ 32 * word b (i + 1)

unfoldable pub set_long : Block → ℕ → ℕ → Block
unfolding set_word
set_long b i v = set_word (set_word b i (v % 2 ^ 32)) (i + 1) (v / 2 ^ 32)

abbrev pub get_elem? : List ℕ → ℕ → Option ℕ
get_elem? [] i = none
get_elem? (x ∷ xs) zero = some x
get_elem? (x ∷ xs) (suc i) = get_elem? xs i

-- memcpy(block, &v, sizeof(v)) of a struct whose words are `ws`
unfoldable pub overlay : Block → List ℕ → Block
unfolding byte_of
overlay b ws o = elim (get_elem? ws (o / 4)) [ some v ↦ byte_of v (o % 4) | none ↦ b o ]
