-- ===== src/Inode/Fields.antt =====
-- inode.c: the fields of an inode, read and written one by one, and get_root_inum.
use pcd_file_system.Prelude.{ℕ}
use pcd_file_system.Prelude.Run.{Cmd, pure, attempt, get, ◌>>=◌, ◌>>◌}
use pcd_file_system.Block.{Block}
use pcd_file_system.Disk.Contract.{DiskOps}
use pcd_file_system.Inode.{Fs, Inode, load_super, load_target, store_target}

-- the nodes that the setters store
abbrev pub with_size : ℕ → Inode → Inode
with_size v n = record n { size = v }

abbrev pub with_uid : ℕ → Inode → Inode
with_uid v n = record n { uid = v }

abbrev pub with_gid : ℕ → Inode → Inode
with_gid v n = record n { gid = v }

abbrev pub with_last_accessed : ℕ → Inode → Inode
with_last_accessed v n = record n { last_accessed = v }

abbrev pub with_last_modified : ℕ → Inode → Inode
with_last_modified v n = record n { last_modified = v }

abbrev pub with_mode : ℕ → Inode → Inode
with_mode v n = record n { mode = v }

module _ (ops : DiskOps) (junk : Block) where
  open ops use {State}

  -- the shape of the functions that read a field
  unfoldable pub read_field : (Inode → ℕ) → ℕ → Cmd (Fs State) ℕ
  read_field field inum = do n ← load_target ops junk inum; pure (field n)

  -- the shape of the functions that write one
  unfoldable pub write_field : (Inode → Inode) → ℕ → Cmd (Fs State) (Unit {0})
  write_field change inum = do n ← load_target ops junk inum; store_target ops junk inum (change n)

  -- the size of the node that was loaded last where `inum` has none
  unfoldable pub get_inode_size : ℕ → Cmd (Fs State) ℕ
  get_inode_size inum = do attempt (load_target ops junk inum); s ← get; pure s.target_node.size

  unfoldable pub set_inode_size : ℕ → ℕ → Cmd (Fs State) (Unit {0})
  set_inode_size inum size = write_field (with_size size) inum

  unfoldable pub inode_read_uid : ℕ → Cmd (Fs State) ℕ
  inode_read_uid = read_field λ n. n.uid

  unfoldable pub inode_write_uid : ℕ → ℕ → Cmd (Fs State) (Unit {0})
  inode_write_uid inum uid = write_field (with_uid uid) inum

  unfoldable pub inode_read_gid : ℕ → Cmd (Fs State) ℕ
  inode_read_gid = read_field λ n. n.gid

  unfoldable pub inode_write_gid : ℕ → ℕ → Cmd (Fs State) (Unit {0})
  inode_write_gid inum gid = write_field (with_gid gid) inum

  unfoldable pub inode_read_last_accessed : ℕ → Cmd (Fs State) ℕ
  inode_read_last_accessed = read_field λ n. n.last_accessed

  unfoldable pub inode_write_last_accessed : ℕ → ℕ → Cmd (Fs State) (Unit {0})
  inode_write_last_accessed inum t = write_field (with_last_accessed t) inum

  unfoldable pub inode_read_last_modified : ℕ → Cmd (Fs State) ℕ
  inode_read_last_modified = read_field λ n. n.last_modified

  unfoldable pub inode_write_last_modified : ℕ → ℕ → Cmd (Fs State) (Unit {0})
  inode_write_last_modified inum t = write_field (with_last_modified t) inum

  unfoldable pub inode_read_mode : ℕ → Cmd (Fs State) ℕ
  inode_read_mode = read_field λ n. n.mode

  unfoldable pub inode_write_mode : ℕ → ℕ → Cmd (Fs State) (Unit {0})
  inode_write_mode inum mode = write_field (with_mode mode) inum

  unfoldable pub inode_read_size : ℕ → Cmd (Fs State) ℕ
  inode_read_size = read_field λ n. n.size

  unfoldable pub inode_read_link_count : ℕ → Cmd (Fs State) ℕ
  inode_read_link_count = read_field λ n. n.link_count

  unfoldable pub get_root_inum : Cmd (Fs State) ℕ
  get_root_inum = do super ← load_super ops junk; pure super.root_inum
