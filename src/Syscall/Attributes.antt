-- ===== src/Syscall/Attributes.antt =====
-- syscall.c: pcd_chmod, pcd_chown and pcd_utimens set fields of the inode at a path.
use pcd_file_system.Prelude.{ℕ, List, if◌then◌else◌, ◌==◌}
use pcd_file_system.Prelude.Run.{Cmd, pure}
use pcd_file_system.Block.{Block}
use pcd_file_system.Disk.Contract.{DiskOps}
use pcd_file_system.Db.{uint_max}
use pcd_file_system.Inode.{Fs}
use pcd_file_system.Inode.Fields.{
  inode_read_mode, inode_write_mode, inode_write_uid, inode_write_gid, inode_write_last_accessed,
  inode_write_last_modified,
}
use pcd_file_system.Syscall.{minus_one, minus_enoent, try_or}
use pcd_file_system.Syscall.Lookup.{find_inode}

module _ (ops : DiskOps) (junk : Block) where
  open ops use {State}

  unfoldable pub pcd_chmod : List ℕ → ℕ → Cmd (Fs State) ℕ
  pcd_chmod path mode = try_or (find_inode ops junk path) minus_enoent λ inum.
      try_or (inode_read_mode ops junk inum) minus_one
        λ old_mode. try_or (inode_write_mode ops junk inum mode) minus_one λ _. pure 0

  -- the id of the group is left alone where it is UINT_MAX
  unfoldable pub change_group : ℕ → ℕ → Cmd (Fs State) ℕ
  change_group inum gid =
      if gid == uint_max
      then pure 0
      else try_or (inode_write_gid ops junk inum gid) minus_one λ _. pure 0

  unfoldable pub pcd_chown : List ℕ → ℕ → ℕ → Cmd (Fs State) ℕ
  pcd_chown path uid gid = try_or (find_inode ops junk path) minus_enoent λ inum.
      if uid == uint_max
      then change_group inum gid
      else try_or (inode_write_uid ops junk inum uid) minus_one λ _. change_group inum gid

  -- the seconds of the two times
  unfoldable pub pcd_utimens : List ℕ → ℕ → ℕ → Cmd (Fs State) ℕ
  pcd_utimens path accessed modified = try_or (find_inode ops junk path) minus_enoent λ inum.
      try_or (inode_write_last_accessed ops junk inum accessed) minus_one
        λ _. try_or (inode_write_last_modified ops junk inum modified) minus_one λ _. pure 0
