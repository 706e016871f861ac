-- ===== src/Syscall/Lookup.antt =====
-- syscall.c: find_inode_index looks a name up in a directory, and find_inode follows a path.
pub mod Walk
pub mod First
pub mod Resolve
pub mod Rounds
use pcd_file_system.Prelude.{
  ℕ, zero, suc, ◌+◌, ◌-◌, ◌*◌, ◌/◌, ◌%◌, ◌^◌, Option, none, some, List, [], ◌∷◌, if◌then◌else◌,
  ◌==◌,
}
use pcd_file_system.Prelude.Run.{Cmd, pure, failure, undefined, attempt, deref, ◌>>=◌}
use pcd_file_system.Prelude.Lists.{length}
use pcd_file_system.Block.{Block}
use pcd_file_system.Disk.Contract.{DiskOps}
use pcd_file_system.Inode.{Fs, add32}
use pcd_file_system.Inode.Fields.{inode_read_size, get_root_inum}
use pcd_file_system.Inode.Files.{read_file}
use pcd_file_system.Path.{slash, get_dir}
use pcd_file_system.Dir.{dirent_size, name_off, entry_inum, same_name}
use pcd_file_system.Db.{uint_max}
use pcd_file_system.Syscall.{unless_minus_one}

-- the number of entries whose offset is below the size
unfoldable pub num_entries : ℕ → ℕ
num_entries size = (size + (dirent_size - 1)) / dirent_size

-- start * DIRENT_SIZE as an unsigned int
abbrev pub offset_of : ℕ → ℕ
offset_of start = start * dirent_size % 2 ^ 32

unfoldable pub or_zero : Option ℕ → ℕ
or_zero none = 0
or_zero (some n) = n

unfoldable pub drop : ℕ → List ℕ → List ℕ
drop zero cs = cs
drop (suc n) [] = []
drop (suc n) (c ∷ cs) = drop n cs

module _ (ops : DiskOps) (junk : Block) where
  open ops use {State}

  -- a variable that is 0 before inode_read_size, whose code is dropped
  unfoldable pub size_or_zero : ℕ → Cmd (Fs State) ℕ
  unfolding or_zero
  size_or_zero inum = do r ← attempt (inode_read_size ops junk inum); pure (or_zero r)

  -- The loop, with a round for each entry that begins before the end of the file. `buf` is what
  -- the buffer holds. An offset of 2^31 and more makes read_file return -1, before it can wrap.
  unfoldable pub find_entry : ℕ → ℕ → ℕ → Block → List ℕ → Cmd (Fs State) ℕ
  find_entry zero start inum buf target = failure
  find_entry (suc rounds) start inum buf target = do
    got ← read_file ops junk inum buf dirent_size (offset_of start)
    same ← deref (same_name got.1 name_off target)
    if same
        then unless_minus_one (entry_inum got.1)
        else find_entry rounds (add32 start 1) inum got.1 target

  unfoldable pub find_inode_index : ℕ → List ℕ → Cmd (Fs State) ℕ
  find_inode_index inum target = do
    size ← size_or_zero inum
    find_entry (num_entries size - 2) 2 inum junk target

  -- The loop of find_inode. Each round takes two characters or more off the path; `rounds` is a
  -- bound on their number, past which the result is undefined.
  unfoldable pub follow : ℕ → ℕ → List ℕ → Cmd (Fs State) ℕ
  follow rounds inum [] = pure inum
  follow zero inum (c ∷ cs) = undefined
  follow (suc rounds) inum (c ∷ cs) = do
    dir ← deref (get_dir (c ∷ cs))
    next ← find_inode_index inum dir
    if length (c ∷ cs) == length dir
        then pure next
        else follow rounds next (drop (suc (length dir)) (c ∷ cs))

  -- get_root_inum returned the root, or -1, which find_inode does not look at
  unfoldable pub follow_root : Option ℕ → List ℕ → Cmd (Fs State) ℕ
  follow_root none [] = failure
  follow_root none (c ∷ cs) = follow (length (c ∷ cs)) uint_max (c ∷ cs)
  follow_root (some root) path = follow (length path) root path

  unfoldable pub find_inode : List ℕ → Cmd (Fs State) ℕ
  find_inode [] = failure
  find_inode (c ∷ cs) =
      if c == slash
      then (do root ← attempt (get_root_inum ops junk); follow_root root cs)
      else failure
