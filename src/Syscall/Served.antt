-- ===== src/Syscall/Served.antt =====
-- pcd_read and pcd_getattr on a path that leads to an inode.
use pcd_file_system.Prelude.{ℕ, if◌then◌else◌}
use pcd_file_system.Block.{Block}
use pcd_file_system.Disk.Contract.{DiskOps, IsDisk}
use pcd_file_system.Sb.{Sb}
use pcd_file_system.Inode.{Fs, Inode}
use pcd_file_system.Inode.Blocks.Find.{IsIndexed}
use pcd_file_system.Syscall.Lookup.Resolve.{Holds}
use pcd_file_system.Getattr.{Stat, has_reg_bit}

-- what pcd_getattr tells of an inode: the size only where the mode has the bit of a regular file
abbrev pub stat_of : Inode → Stat
stat_of n = record {
  st_mode = n.mode;
  st_nlink = n.link_count;
  st_uid = n.uid;
  st_gid = n.gid;
  st_atime = n.last_accessed;
  st_mtime = n.last_modified;
  st_size = if has_reg_bit n.mode then n.size else 0;
}

module _ (ops : DiskOps) (disk : IsDisk ops) (junk : Block) (super : Sb) (ix : IsIndexed super)
    (v : ℕ → Block) where
  open ops use {State}
  open disk use {Good}

  abbrev On : Fs State → Type 0
  On s = Holds ops disk junk super ix v s
