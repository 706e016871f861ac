-- ===== src/Syscall/Remove.antt =====
-- syscall.c: pcd_unlink and pcd_rmdir.
pub mod Unlink
use pcd_file_system.Prelude.{ℕ, Bool, List, not, if◌then◌else◌}
use pcd_file_system.Prelude.Run.{Cmd, pure, attempt, ◌>>=◌, ◌>>◌}
use pcd_file_system.Block.{Block}
use pcd_file_system.Disk.Contract.{DiskOps}
use pcd_file_system.Inode.{Fs}
use pcd_file_system.Inode.Life.{inode_reduce_link_count}
use pcd_file_system.Syscall.{minus_enoent, minus_enotempty, try_or}
use pcd_file_system.Syscall.Lookup.{find_inode}
use pcd_file_system.Syscall.Entries.{delete_dirent, is_true, is_dir, is_empty_dir, parent_of}

module _ (ops : DiskOps) (junk : Block) (depth : ℕ) where
  open ops use {State}

  -- the branch that takes the file away; the codes of the last two calls are dropped
  unfoldable pub remove_from_parent : List ℕ → ℕ → Cmd (Fs State) ℕ
  remove_from_parent path inum = do
    p ← parent_of path
    try_or (find_inode ops junk p.parent_path) minus_enoent λ parent. do
      attempt (delete_dirent ops junk depth parent p.file_name)
      attempt (inode_reduce_link_count ops junk inum)
      pure 0

  -- is_dir(inum) && is_empty_dir(inum)
  unfoldable pub is_dir_and_empty : ℕ → Cmd (Fs State) Bool
  is_dir_and_empty inum = do
    dir ← is_dir ops junk inum
    if dir
        then (do empty ← attempt (is_empty_dir ops junk inum); pure (is_true empty))
        else pure dir

  unfoldable pub pcd_unlink : List ℕ → Cmd (Fs State) ℕ
  pcd_unlink path = try_or (find_inode ops junk path) minus_enoent λ inum. do
    dir ← is_dir ops junk inum
    if not dir then remove_from_parent path inum else (do
      empty ← is_dir_and_empty inum
      if empty then remove_from_parent path inum else pure minus_enotempty)

  unfoldable pub pcd_rmdir : List ℕ → Cmd (Fs State) ℕ
  pcd_rmdir path = try_or (find_inode ops junk path) minus_enoent λ inum. do
    empty ← is_dir_and_empty inum
    if empty then remove_from_parent path inum else pure minus_enotempty
