-- ===== src/Dir/Entry.antt =====
-- The fields of an entry of a directory (dir.h), written and read back.
use pcd_file_system.Prelude.{
  ℕ, ◌+◌, ◌%◌, ◌^◌, ◌<◌, ◌≡◌, ◌∙◌, List, [], ◌∷◌, Bool, true, false, ◌&&◌, some, arith, ◌==◌,
}
use pcd_file_system.Prelude.Lists.{length}
use pcd_file_system.Block.{Block, word, set_word, set_byte}
use pcd_file_system.Block.Words.{word-set_word}
use pcd_file_system.Dir.{name_off, entry_inum, put_name, put_entry, same_name}

-- the same list
abbrev pub equal : List ℕ → List ℕ → Bool
equal [] [] = true
equal [] (y ∷ ys) = false
equal (x ∷ xs) [] = false
equal (x ∷ xs) (y ∷ ys) = (x == y) && equal xs ys

-- The characters of a string in C: bytes that are not 0.
abbrev pub AreChars : List ℕ → Type 0
AreChars [] = Unit
AreChars (c ∷ cs) = (0 < c) × (c < 256) × AreChars cs

-- what is not in the string stays
put_name-other : (b : Block) (o : ℕ) (n : List ℕ) (j : ℕ) → j < o → put_name b o n j ≡ b j
unfolding put_name set_byte
put_name-other b o [] j lt = ground arith
put_name-other b o (c ∷ cs) j lt = ground (arith, put_name-other (set_byte b o c) (o + 1) cs j)

-- the first character
put_name-first : (b : Block) (o c : ℕ) (cs : List ℕ) → c < 256 → put_name b o (c ∷ cs) o ≡ c
unfolding put_name set_byte
put_name-first b o c cs lt = ground (arith, put_name-other (set_byte b o c) (o + 1) cs o)

-- A string that was copied is found by strcmp, and no other.
pub same_name-put_name :
    (b : Block) (o : ℕ) (n target : List ℕ)
    → AreChars n
    → AreChars target
    → o + length n < 264
    → same_name (put_name b o n) o target ≡ some (equal n target)
unfolding put_name same_name set_byte
same_name-put_name b o [] [] cn ct lt = ground arith
same_name-put_name b o [] (y ∷ ys) cn ct lt = ground arith
same_name-put_name b o (x ∷ xs) [] cn ct lt = ground (arith, put_name-first b o x xs cn.1)
same_name-put_name b o (x ∷ xs) (y ∷ ys) cn ct lt =
    let rest = same_name-put_name (set_byte b o x) (o + 1) xs ys cn.2 ct.2 (omega arith) in
    ground (arith, put_name-first b o x xs cn.1, rest)

-- the name begins after the inum
inum_kept : (b : Block) (name : List ℕ) → word (put_name b name_off name) 0 ≡ word b 0
unfolding word
inum_kept b name = rw (
  put_name-other b name_off name 0 (omega arith),
  put_name-other b name_off name 1 (omega arith),
  put_name-other b name_off name 2 (omega arith),
  put_name-other b name_off name 3 (omega arith),
)

-- For an entry that is made of an inum, a type and a name of fewer than 256 characters, the inum
-- and the type are read back modulo 2^32 and 2^8, and strcmp finds the name equal to another
-- string exactly where the two are the same.
pub put_entry-fields :
    (b : Block) (inum type : ℕ) (name target : List ℕ)
    → AreChars name
    → AreChars target
    → length name < 256
    → (entry_inum (put_entry b inum type name) ≡ inum % 2 ^ 32)
      × (put_entry b inum type name 4 ≡ type % 256)
      × (same_name (put_entry b inum type name) name_off target ≡ some (equal name target))
unfolding entry_inum put_entry word set_byte
put_entry-fields b inum type name target cn ct lt =
    let b1 = set_byte (set_word b 0 inum) 4 type in
    (
      inum_kept b1 name ∙ ground arith ∙ word-set_word b 0 inum,
      put_name-other b1 name_off name 4 (omega arith) ∙ ground arith,
      same_name-put_name b1 name_off name target cn ct (omega arith),
    )
