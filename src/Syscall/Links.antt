-- ===== src/Syscall/Links.antt =====
-- syscall.c: pcd_rename and pcd_link.
use pcd_file_system.Prelude.{ℕ, List, if◌then◌else◌}
use pcd_file_system.Prelude.Run.{Cmd, pure}
use pcd_file_system.Block.{Block, zero_block}
use pcd_file_system.Disk.Contract.{DiskOps}
use pcd_file_system.Inode.{Fs, is_negative}
use pcd_file_system.Inode.Fields.{inode_read_mode, inode_read_size}
use pcd_file_system.Inode.Life.{inode_increase_link_count}
use pcd_file_system.Inode.Writes.{write_file}
use pcd_file_system.Dir.{dirent_size, name_off, put_name, put_entry}
use pcd_file_system.Syscall.{minus_one, minus_enoent, try_or, file_type}
use pcd_file_system.Syscall.Lookup.{find_inode}
use pcd_file_system.Syscall.Entries.{delete_dirent, get_parent_inum_and_filename}

module _ (ops : DiskOps) (junk : Block) (depth : ℕ) where
  open ops use {State}

  -- an entry is written at the end of a directory
  unfoldable pub append_entry : ℕ → Block → Cmd (Fs State) ℕ → Cmd (Fs State) ℕ
  append_entry parent entry next =
      try_or (inode_read_size ops junk parent) minus_one
        λ size. try_or (write_file ops junk depth parent entry dirent_size size) minus_one λ _. next

  -- The inode of the old path, where it is not negative.
  unfoldable pub with_inode : List ℕ → (ℕ → Cmd (Fs State) ℕ) → Cmd (Fs State) ℕ
  with_inode path next =
      try_or (find_inode ops junk path) minus_enoent
        λ inum. if is_negative inum then pure minus_enoent else next inum

  -- the new name goes into the entry that was found
  unfoldable pub pcd_rename : List ℕ → List ℕ → Cmd (Fs State) ℕ
  pcd_rename oldpath newpath = with_inode oldpath λ inum.
      try_or (get_parent_inum_and_filename ops junk oldpath) minus_enoent λ (old_parent, name).
        try_or (delete_dirent ops junk depth old_parent name) minus_one λ entry.
          try_or (get_parent_inum_and_filename ops junk newpath) minus_enoent
            λ (new_parent, new_name).
              append_entry new_parent (put_name entry name_off new_name) (pure 0)

  unfoldable pub pcd_link : List ℕ → List ℕ → Cmd (Fs State) ℕ
  pcd_link oldpath newpath = with_inode oldpath λ inum.
      try_or (get_parent_inum_and_filename ops junk newpath) minus_enoent λ (new_parent, name).
        try_or (inode_read_mode ops junk inum) minus_one λ mode.
          append_entry new_parent (put_entry zero_block inum (file_type mode) name)
            (try_or (inode_increase_link_count ops junk inum) minus_one λ _. pure 0)
