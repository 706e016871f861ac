-- ===== src/Mkfs.antt =====
-- fs.c: mkfs lays the file system out on the disk.
use pcd_file_system.Prelude.{ℕ}
use pcd_file_system.Prelude.Run.{Cmd, pure, attempt, ◌>>◌}
use pcd_file_system.Block.{Block}
use pcd_file_system.Disk.Contract.{DiskOps}
use pcd_file_system.Sb.{sb_init}
use pcd_file_system.Db.{db_init}
use pcd_file_system.Inode.{Fs, lift}
use pcd_file_system.Inode.Init.{inode_bitmap_init, inode_list_init}
use pcd_file_system.Syscall.{Context, minus_one, try_or}
use pcd_file_system.Syscall.Create.{pcd_mkroot}

module _ (ops : DiskOps) (junk : Block) (depth : ℕ) where
  open ops use {State}

  -- `now` is the time at sb_init, and `padding` what is in the struct inode of inode_list_init
  unfoldable pub mkfs : ℕ → ℕ → Context → Cmd (Fs State) ℕ
  mkfs now padding context = do
    attempt (lift (sb_init ops junk now))
    try_or (inode_bitmap_init ops junk) minus_one λ _.
        try_or (inode_list_init ops junk padding) minus_one
          λ _. do attempt (lift (db_init ops junk)); pcd_mkroot ops junk depth context; pure 0
