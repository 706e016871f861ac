-- ===== src/Dir.antt =====
-- dir.h: the entries of a directory, struct dirent, as the DIRENT_SIZE bytes that they have in
-- memory: inum in word 0, file_type in byte 4, and name in the 256 bytes from 5 on.
pub mod Entry
use pcd_file_system.Prelude.{
  ℕ, ◌+◌, List, [], ◌∷◌, Bool, false, Option, none, some, ltb, if◌then◌else◌, ◌==◌,
}
use pcd_file_system.Block.{Block, word, set_word, set_byte}

-- sizeof(dirent)
abbrev pub dirent_size : ℕ
dirent_size = 264

-- where the name begins
abbrev pub name_off : ℕ
name_off = 5

-- the type 'd' of a directory
abbrev pub dir_type : ℕ
dir_type = 100

-- strcpy(b + o, name)
unfoldable pub put_name : Block → ℕ → List ℕ → Block
put_name b o [] = set_byte b o 0
put_name b o (c ∷ cs) = put_name (set_byte b o c) (o + 1) cs

-- the three fields are set in `b`
unfoldable pub put_entry : Block → ℕ → ℕ → List ℕ → Block
put_entry b inum file_type name = put_name (set_byte (set_word b 0 inum) 4 file_type) name_off name

-- an initialiser {...}: what it does not name is 0, and the padding is left open
unfoldable pub blank_entry : Block → Block
blank_entry junk o = if ltb o 261 then 0 else junk o

-- int inum of an entry
unfoldable pub entry_inum : Block → ℕ
entry_inum b = word b 0

-- strcmp(name, target) == 0 on the entry, from offset `o` on. A name without a NUL in the entry is
-- read past the buffer: none.
unfoldable pub same_name : Block → ℕ → List ℕ → Option Bool
same_name b o [] = if ltb o dirent_size then some (b o == 0) else none
same_name b o (c ∷ cs) =
    let rest = same_name b (o + 1) cs in
    if ltb o dirent_size then (if b o == c then rest else some false) else none
