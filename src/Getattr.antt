-- ===== src/Getattr.antt =====
-- pcd_fuse.c: pcd_getattr fills in a struct stat.
use pcd_file_system.Prelude.{ℕ, ◌/◌, ◌%◌, ◌^◌, Option, none, some, Bool, List, if◌then◌else◌, ◌==◌}
use pcd_file_system.Prelude.Run.{Cmd, pure, attempt, ◌>>=◌}
use pcd_file_system.Block.{Block}
use pcd_file_system.Disk.Contract.{DiskOps}
use pcd_file_system.Inode.{Fs}
use pcd_file_system.Inode.Fields.{
  inode_read_mode, inode_read_link_count, inode_read_uid, inode_read_gid, inode_read_last_accessed,
  inode_read_last_modified,
}
use pcd_file_system.Syscall.{minus_enoent}
use pcd_file_system.Syscall.Lookup.{size_or_zero, or_zero, find_inode}

-- the fields of struct stat that are set; the others stay 0
pub record Stat : Type 0 where
  pub st_mode : ℕ
  pub st_nlink : ℕ
  pub st_uid : ℕ
  pub st_gid : ℕ
  pub st_atime : ℕ
  pub st_mtime : ℕ
  pub st_size : ℕ

abbrev pub no_stat : Stat
no_stat = record {
  st_mode = 0;
  st_nlink = 0;
  st_uid = 0;
  st_gid = 0;
  st_atime = 0;
  st_mtime = 0;
  st_size = 0;
}

-- st_mode & S_IFREG, as a test
unfoldable pub has_reg_bit : ℕ → Bool
has_reg_bit mode = mode / 2 ^ 15 % 2 == 1

module _ (ops : DiskOps) (junk : Block) where
  open ops use {State}

  -- a field that is 0 before it is read, with the code dropped
  unfoldable pub field_or_zero : (ℕ → Cmd (Fs State) ℕ) → ℕ → Cmd (Fs State) ℕ
  field_or_zero read inum = do r ← attempt (read inum); pure (or_zero r)

  stat_at : Option ℕ → Cmd (Fs State) (ℕ × Stat)
  stat_at none = pure (minus_enoent, no_stat)
  stat_at (some inum) = do
    mode ← field_or_zero (inode_read_mode ops junk) inum
    nlink ← field_or_zero (inode_read_link_count ops junk) inum
    uid ← field_or_zero (inode_read_uid ops junk) inum
    gid ← field_or_zero (inode_read_gid ops junk) inum
    atime ← field_or_zero (inode_read_last_accessed ops junk) inum
    mtime ← field_or_zero (inode_read_last_modified ops junk) inum
    size ← if has_reg_bit mode then size_or_zero ops junk inum else pure 0
    pure (
      0,
      record {
        st_mode = mode;
        st_nlink = nlink;
        st_uid = uid;
        st_gid = gid;
        st_atime = atime;
        st_mtime = mtime;
        st_size = size;
      },
    )

  unfoldable pub pcd_getattr : List ℕ → Cmd (Fs State) (ℕ × Stat)
  unfolding stat_at
  pcd_getattr path = do r ← attempt (find_inode ops junk path); stat_at r
