-- ===== src/Syscall/Create.antt =====
-- syscall.c: pcd_mkroot, pcd_mkdir and pcd_mknod make directories and files.
use pcd_file_system.Prelude.{ℕ, ◌+◌, List, [], ◌∷◌, Option, none, some}
use pcd_file_system.Prelude.Run.{Cmd, pure, attempt, ◌>>=◌, ◌>>◌}
use pcd_file_system.Block.{Block}
use pcd_file_system.Disk.Contract.{DiskOps}
use pcd_file_system.Inode.{Fs}
use pcd_file_system.Inode.Fields.{
  inode_write_mode, inode_write_uid, inode_write_gid, inode_write_last_accessed,
  inode_write_last_modified,
}
use pcd_file_system.Inode.Life.{inode_allocate}
use pcd_file_system.Inode.Writes.{write_file}
use pcd_file_system.Dir.{dirent_size, dir_type, put_entry, blank_entry}
use pcd_file_system.Syscall.{Context, minus_one, minus_eio, try_or, or_dir_bit, file_type}
use pcd_file_system.Syscall.Lookup.{size_or_zero, find_inode}
use pcd_file_system.Syscall.Entries.{parent_of}

-- "." and ".."
abbrev pub dot : List ℕ
dot = 46 ∷ []

abbrev pub dot_dot : List ℕ
dot_dot = 46 ∷ 46 ∷ []

-- an int that was returned, or -1
as_int : Option ℕ → ℕ
as_int none = minus_one
as_int (some n) = n

module _ (ops : DiskOps) (junk : Block) (depth : ℕ) (context : Context) where
  open ops use {State}

  -- The fields of a new inode; the codes are dropped. `calls` is the number of calls of time
  -- before.
  unfoldable pub set_fields : ℕ → ℕ → ℕ → Cmd (Fs State) (Unit {0})
  set_fields inum mode calls = do
    attempt (inode_write_mode ops junk inum mode)
    attempt (inode_write_uid ops junk inum context.uid)
    attempt (inode_write_gid ops junk inum context.gid)
    attempt (inode_write_last_accessed ops junk inum (context.time calls))
    attempt (inode_write_last_modified ops junk inum (context.time (calls + 1)))
    pure tt

  -- the two entries of a new directory; `code` is returned where a write fails
  unfoldable pub write_dots : ℕ → ℕ → ℕ → Cmd (Fs State) ℕ → Cmd (Fs State) ℕ
  write_dots inum parent code next =
      let dir1 = put_entry (blank_entry junk) inum dir_type dot in
      let dir2 = put_entry (blank_entry junk) parent dir_type dot_dot in
      try_or (write_file ops junk depth inum dir1 dirent_size 0) code
        λ _. try_or (write_file ops junk depth inum dir2 dirent_size dirent_size) code λ _. next

  -- where inode_allocate returns -1, that is used as the number of the inode
  unfoldable pub mkroot_at : ℕ → Cmd (Fs State) ℕ
  mkroot_at inum = write_dots inum inum minus_eio (do set_fields inum (or_dir_bit 493) 2; pure 0)

  unfoldable pub pcd_mkroot : Cmd (Fs State) ℕ
  unfolding as_int
  pcd_mkroot = do
    r ← attempt (inode_allocate ops junk context.user (context.time 0) (context.time 1))
    mkroot_at (as_int r)

  -- The part that pcd_mkdir and pcd_mknod share: the inode is allocated and its fields are set, and
  -- an entry for it is written at the end of the parent. `next` is called with the two inodes.
  unfoldable pub make_node : List ℕ → ℕ → ℕ → (ℕ → ℕ → Cmd (Fs State) ℕ) → Cmd (Fs State) ℕ
  make_node path mode type next =
      try_or (inode_allocate ops junk context.user (context.time 0) (context.time 1)) minus_one
        λ inum. do
          set_fields inum mode 2
          p ← parent_of path
          try_or (find_inode ops junk p.parent_path) minus_one λ parent. do
            let dir = put_entry junk inum type p.file_name
            size ← size_or_zero ops junk parent
            try_or (write_file ops junk depth parent dir dirent_size size) minus_one
                λ _. next inum parent

  unfoldable pub pcd_mkdir : List ℕ → ℕ → Cmd (Fs State) ℕ
  pcd_mkdir path mode =
      make_node path (or_dir_bit mode) dir_type
        λ inum parent. write_dots inum parent minus_one (pure 0)

  -- `rdev` is not used
  unfoldable pub pcd_mknod : List ℕ → ℕ → ℕ → Cmd (Fs State) ℕ
  pcd_mknod path mode rdev = make_node path mode (file_type mode) λ inum parent. pure 0
