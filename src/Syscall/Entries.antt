-- ===== src/Syscall/Entries.antt =====
-- syscall.c: the entries of a directory that are taken out and looked at, and the parent of a path.
pub mod Delete
use pcd_file_system.Prelude.{
  ℕ, zero, suc, ◌+◌, ◌-◌, ◌*◌, ◌/◌, ◌%◌, ◌^◌, Option, none, some, Bool, true, false, List,
  if◌then◌else◌, ◌==◌,
}
use pcd_file_system.Prelude.Run.{Cmd, pure, failure, attempt, deref, ◌>>=◌, ◌>>◌}
use pcd_file_system.Block.{Block, set_byte, set_word}
use pcd_file_system.Disk.Contract.{DiskOps}
use pcd_file_system.Db.{uint_max}
use pcd_file_system.Inode.{Fs, add32}
use pcd_file_system.Inode.Fields.{inode_read_mode}
use pcd_file_system.Inode.Files.{read_file}
use pcd_file_system.Inode.Writes.{write_file}
use pcd_file_system.Path.{Parent, get_parent}
use pcd_file_system.Dir.{dirent_size, name_off, same_name}
use pcd_file_system.Syscall.{has_dir_bit}
use pcd_file_system.Syscall.Lookup.{num_entries, offset_of, size_or_zero, find_inode}

-- the entry that delete_dirent writes: no name, and -1 as its inum
unfoldable pub cleared_entry : Block → Block
cleared_entry entry = set_word (set_byte entry name_off 0) 0 uint_max

unfoldable pub mode_bit : Option ℕ → Bool
mode_bit none = false
mode_bit (some mode) = has_dir_bit mode

-- a -1 in a condition is true
unfoldable pub is_true : Option Bool → Bool
is_true none = true
is_true (some b) = b

-- The code of get_parent is not looked at: after a -1 the path of the parent is a pointer that was
-- not set.
unfoldable pub parent_of : {S : Type 0} → List ℕ → Cmd S Parent
parent_of path = do p ← attempt (get_parent path); deref p

module _ (ops : DiskOps) (junk : Block) (depth : ℕ) where
  open ops use {State}

  -- The loop; the entry that was found is returned, which the source copies to dirent_out where
  -- that is not NULL.
  unfoldable pub delete_entry : ℕ → ℕ → ℕ → Block → List ℕ → Cmd (Fs State) Block
  delete_entry zero start inum buf target = failure
  delete_entry (suc rounds) start inum buf target = do
    got ← read_file ops junk inum buf dirent_size (offset_of start)
    same ← deref (same_name got.1 name_off target)
    if same
        then (do
          write_file ops junk depth inum (cleared_entry got.1) dirent_size (offset_of start)
          pure got.1)
        else delete_entry rounds (add32 start 1) inum got.1 target

  unfoldable pub delete_dirent : ℕ → List ℕ → Cmd (Fs State) Block
  delete_dirent inum target = do
    size ← size_or_zero ops junk inum
    delete_entry (num_entries size - 2) 2 inum junk target

module _ (ops : DiskOps) (junk : Block) where
  open ops use {State}

  unfoldable pub is_dir : ℕ → Cmd (Fs State) Bool
  unfolding mode_bit
  is_dir inum = do mode ← attempt (inode_read_mode ops junk inum); pure (mode_bit mode)

  -- the loop of is_empty_dir from `offset` on
  unfoldable pub no_names : ℕ → ℕ → ℕ → Block → Cmd (Fs State) Bool
  no_names zero offset inum buf = pure true
  no_names (suc rounds) offset inum buf = do
    got ← read_file ops junk inum buf dirent_size offset
    if got.1 name_off == 0
        then no_names rounds (add32 offset dirent_size) inum got.1
        else pure false

  unfoldable pub is_empty_dir : ℕ → Cmd (Fs State) Bool
  is_empty_dir inum = do
    size ← size_or_zero ops junk inum
    no_names (num_entries size - 2) (2 * dirent_size) inum junk

  -- the inode of the parent and the name in it; -1 for -ENOENT
  unfoldable pub get_parent_inum_and_filename : List ℕ → Cmd (Fs State) (ℕ × List ℕ)
  get_parent_inum_and_filename path = do
    p ← parent_of path
    inum ← find_inode ops junk p.parent_path
    pure (inum, p.file_name)
