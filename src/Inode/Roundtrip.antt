-- ===== src/Inode/Roundtrip.antt =====
-- The functions of inode.c that write a field of an inode, followed by those that read it.
use pcd_file_system.Prelude.{ℕ, ◌^◌, ◌<◌, ◌≡◌, arith}
use pcd_file_system.Prelude.Run.{Run, Returns, ◌>>◌}
use pcd_file_system.Block.{Block}
use pcd_file_system.Disk.Contract.{DiskOps, IsDisk}
use pcd_file_system.Inode.{Fs}
use pcd_file_system.Inode.Layout.{IsInode}
use pcd_file_system.Inode.Store.{node_at, blocks}
use pcd_file_system.Inode.Access.{HasInode, write_field-read_field}
use pcd_file_system.Inode.Fields.{
  with_size, with_uid, with_gid, with_last_accessed, with_last_modified, with_mode, set_inode_size,
  inode_read_size, inode_write_uid, inode_read_uid, inode_write_gid, inode_read_gid,
  inode_write_last_accessed, inode_read_last_accessed, inode_write_last_modified,
  inode_read_last_modified, inode_write_mode, inode_read_mode,
}

module _ (ops : DiskOps) (disk : IsDisk ops) (junk : Block) where
  open ops use {State}

  -- The value that a run returns.
  abbrev pub Gives : Fs State → (Fs State → Run (Fs State) ℕ) → ℕ → Type 0
  Gives s run v = Returns (λ r s'. r ≡ v) (run s)

  module _ (s : Fs State) (inum v : ℕ) (h : HasInode ops disk junk s inum)
      (is : IsInode (node_at (blocks ops disk junk s) inum)) where
    -- For an inode in use on a disk that mkfs laid out, whose blocks of the bitmap and of the list
    -- are within the contract of disk.c (they are while they are in the cache), and whose fields
    -- fit their C types, each of inode_write_UID, inode_write_GID, inode_write_mode,
    -- set_inode_size, inode_write_last_accessed and inode_write_last_modified, followed by the
    -- function that reads the field, gives the value that was written, where it fits an unsigned
    -- int.
    pub write-read :
        v < 2 ^ 32
        → Gives s (inode_write_uid ops junk inum v >> inode_read_uid ops junk inum) v
          × Gives s (inode_write_gid ops junk inum v >> inode_read_gid ops junk inum) v
          × Gives s (inode_write_mode ops junk inum v >> inode_read_mode ops junk inum) v
          × Gives s (set_inode_size ops junk inum v >> inode_read_size ops junk inum) v
          × Gives s
              (inode_write_last_accessed ops junk inum v >> inode_read_last_accessed ops junk inum)
              v
          × Gives s
              (inode_write_last_modified ops junk inum v >> inode_read_last_modified ops junk inum)
              v
    unfolding inode_write_uid inode_read_uid inode_write_gid inode_read_gid inode_write_mode
        inode_read_mode set_inode_size inode_read_size inode_write_last_accessed
        inode_read_last_accessed inode_write_last_modified inode_read_last_modified
    write-read lt = (
      write_field-read_field ops disk junk s inum h (with_uid v) (λ n. n.uid) (omega arith),
      write_field-read_field ops disk junk s inum h (with_gid v) (λ n. n.gid) (omega arith),
      write_field-read_field ops disk junk s inum h (with_mode v) (λ n. n.mode) (omega arith),
      write_field-read_field ops disk junk s inum h (with_size v) (λ n. n.size) (omega arith),
      write_field-read_field ops disk junk s inum h (with_last_accessed v) (λ n. n.last_accessed)
          (omega arith),
      write_field-read_field ops disk junk s inum h (with_last_modified v) (λ n. n.last_modified)
          (omega arith),
    )
