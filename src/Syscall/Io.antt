-- ===== src/Syscall/Io.antt =====
-- syscall.c: pcd_readdir, pcd_read, pcd_write, pcd_open, pcd_truncate, and symbolic links.
pub mod Listed
pub mod Wrote
use pcd_file_system.Prelude.{
  ℕ, zero, suc, ◌+◌, ◌-◌, ◌%◌, ◌^◌, Bool, Option, none, some, List, ltb, if◌then◌else◌, ◌==◌,
}
use pcd_file_system.Prelude.Run.{Cmd, pure, attempt, ◌>>=◌, ◌>>◌}
use pcd_file_system.Prelude.Lists.{length}
use pcd_file_system.Block.{Block}
use pcd_file_system.Disk.Contract.{DiskOps}
use pcd_file_system.Inode.{Fs, add32, is_negative, shift}
use pcd_file_system.Inode.Fields.{inode_write_last_accessed, inode_write_last_modified}
use pcd_file_system.Inode.Files.{read_file}
use pcd_file_system.Inode.Writes.{write_file, truncate_file}
use pcd_file_system.Dir.{dirent_size, name_off, entry_inum, put_name}
use pcd_file_system.Syscall.{Context, minus_one, minus_enoent, try_or, file_type_to_mode_t}
use pcd_file_system.Syscall.Lookup.{num_entries, size_or_zero, find_inode}
use pcd_file_system.Syscall.Create.{pcd_mknod}

-- What the filler function is called with: the name, as memory from its first byte on, and the two
-- fields of struct stat that are set.
pub record Filled : Type 0 where
  pub name : Block
  pub st_ino : ℕ
  pub st_mode : ℕ

-- (ino_t) of an int
unfoldable pub to_ino : ℕ → ℕ
to_ino inum = if is_negative inum then inum + (2 ^ 64 - 2 ^ 32) else inum

unfoldable pub filled_in : Block → Filled
filled_in entry = record {
  name = shift entry name_off;
  st_ino = to_ino (entry_inum entry);
  st_mode = file_type_to_mode_t (entry 4);
}

-- memset(buf, 0, size)
unfoldable pub zeroed : Block → ℕ → Block
zeroed buf size o = if ltb o size then 0 else buf o

module _ (ops : DiskOps) (junk : Block) {Buf : Type 0} (filler : Buf → Filled → Bool × Buf) where
  open ops use {State}

  -- one round of the loop: an entry that cannot be read ends it with -1
  fill_name :
      Option (ℕ × Block) → Buf → (Block → Buf → Cmd (Fs State) (ℕ × Buf)) → Cmd (Fs State) (ℕ × Buf)
  fill_name none out rest = pure (minus_one, out)
  fill_name (some got) out rest =
      let (full, more) = filler out (filled_in got.1) in
      if got.1 name_off == 0
      then rest got.1 out
      else (if full then pure (0, more) else rest got.1 more)

  -- The loop of pcd_readdir from `offset` on: the code, and the buffer. `filler` is FUSE's, and
  -- says whether it has no more room; `out` is the buffer that it fills.
  unfoldable pub fill_names : ℕ → ℕ → ℕ → Block → Buf → Cmd (Fs State) (ℕ × Buf)
  unfolding fill_name
  fill_names zero offset inum buf out = pure (0, out)
  fill_names (suc rounds) offset inum buf out = do
    r ← attempt (read_file ops junk inum buf dirent_size offset)
    fill_name r out (fill_names rounds (add32 offset dirent_size) inum)

  readdir_at : Option ℕ → Buf → Cmd (Fs State) (ℕ × Buf)
  readdir_at none out = pure (minus_enoent, out)
  readdir_at (some inum) out = do
    size ← size_or_zero ops junk inum
    fill_names (num_entries size) 0 inum junk out

  unfoldable pub pcd_readdir : List ℕ → Buf → Cmd (Fs State) (ℕ × Buf)
  unfolding readdir_at
  pcd_readdir path out = do r ← attempt (find_inode ops junk path); readdir_at r out

module _ (ops : DiskOps) (junk : Block) (now : ℕ) where
  open ops use {State}

  read_done : Option (ℕ × Block) → ℕ → Block → Cmd (Fs State) (ℕ × Block)
  read_done none inum buf = pure (minus_one, buf)
  read_done (some got) inum buf = do attempt (inode_write_last_accessed ops junk inum now); pure got

  read_from : Option ℕ → Block → ℕ → ℕ → Cmd (Fs State) (ℕ × Block)
  read_from none buf size offset = pure (minus_one, buf)
  read_from (some inum) buf size offset = do
    let buf0 = zeroed buf size
    r ← attempt (read_file ops junk inum buf0 (size % 2 ^ 32) (offset % 2 ^ 32))
    read_done r inum buf0

  -- the code, and the caller's buffer; `size` and `offset` are longs, passed on as ints
  unfoldable pub pcd_read : List ℕ → Block → ℕ → ℕ → Cmd (Fs State) (ℕ × Block)
  unfolding read_from read_done
  pcd_read path buf size offset = do
    r ← attempt (find_inode ops junk path)
    read_from r buf size offset

  -- the caller's buffer; the code is dropped
  unfoldable pub pcd_readlink : List ℕ → Block → ℕ → Cmd (Fs State) (ℕ × Block)
  pcd_readlink path buf len = do got ← pcd_read path buf len 0; pure (0, got.1)

  module _ (depth : ℕ) where
    unfoldable pub pcd_write : List ℕ → Block → ℕ → ℕ → Cmd (Fs State) ℕ
    pcd_write path buf size offset = try_or (find_inode ops junk path) minus_one λ inum.
        try_or (write_file ops junk depth inum buf (size % 2 ^ 32) (offset % 2 ^ 32)) minus_one
          λ _. do attempt (inode_write_last_modified ops junk inum now); pure (size % 2 ^ 32)

    -- the code of truncate_file is dropped
    unfoldable pub pcd_truncate : List ℕ → ℕ → Cmd (Fs State) ℕ
    pcd_truncate path size = try_or (find_inode ops junk path) minus_enoent λ inum.
        if is_negative inum then pure minus_enoent else (do
          attempt (truncate_file ops junk depth inum (size % 2 ^ 32))
          try_or (inode_write_last_modified ops junk inum now) minus_one λ _. pure 0)

    -- S_IFLNK | 777, in decimal; the codes are dropped. `now` is the time of the write.
    unfoldable pub pcd_symlink : Context → List ℕ → List ℕ → Cmd (Fs State) ℕ
    pcd_symlink context target_path linkname = do
      pcd_mknod ops junk depth context linkname 41737 0
      pcd_write linkname (put_name junk 0 target_path) (length target_path + 1) 0
      pure 0

-- The code, and the handle of the file where `fi` is not NULL.
unfoldable pub opened : Option ℕ → ℕ × Option ℕ
opened none = (minus_one, none)
opened (some inum) = (0, some inum)

module _ (ops : DiskOps) (junk : Block) where
  open ops use {State}

  unfoldable pub pcd_open : List ℕ → Cmd (Fs State) (ℕ × Option ℕ)
  pcd_open path = do r ← attempt (find_inode ops junk path); pure (opened r)
