-- ===== src/Inode/Files.antt =====
-- inode.c: read_file copies a part of a file into the caller's buffer.
pub mod Read
pub mod Bytes
use pcd_file_system.Prelude.{ℕ, zero, suc, ◌+◌, ◌-◌, ◌/◌, ◌%◌, ◌||◌, ltb, leb, if◌then◌else◌, ◌==◌}
use pcd_file_system.Prelude.Run.{Cmd, pure, failure, undefined, ◌>>=◌}
use pcd_file_system.Block.{Block, set_byte}
use pcd_file_system.Disk.Contract.{DiskOps}
use pcd_file_system.Sb.{Sb}
use pcd_file_system.Inode.{Fs, add32, sub32, is_negative, load_super, read_block}
use pcd_file_system.Inode.Blocks.{find_block_by_num}
use pcd_file_system.Inode.Fields.{get_inode_size}

-- memcpy(to + at, from + off, n)
unfoldable pub copy : Block → ℕ → Block → ℕ → ℕ → Block
copy to at from off n o =
    if ltb o at then to o else if ltb o (at + n) then from (off + (o - at)) else to o

-- the larger number of bytes that a block can still give
unfoldable pub at_most : ℕ → ℕ → ℕ
at_most limit size = if leb limit size then limit else size

module _ (ops : DiskOps) (junk : Block) where
  open ops use {State}

  -- The loop: the code returns `buf_off`, and leaves `buf` with the caller.
  unfoldable pub read_blocks :
      ℕ → ℕ → ℕ → ℕ → ℕ → ℕ → ℕ → ℕ → Block → Block → Cmd (Fs State) (ℕ × Block)
  read_blocks block_size inum zero num start_off size to_read buf_off block buf =
      pure (buf_off, buf)
  read_blocks block_size inum (suc rounds) num start_off size to_read buf_off block buf = do
    bid ← find_block_by_num ops junk inum num
    b ← read_block ops junk block bid
    let size1 = sub32 size to_read
    read_blocks block_size inum rounds (num + 1) 0 size1 (at_most block_size size1)
        (add32 buf_off to_read) b (copy buf buf_off b start_off to_read)

  -- after the checks; `end_num` is the last block that is read
  unfoldable pub read_range : Sb → ℕ → Block → ℕ → ℕ → ℕ → Cmd (Fs State) (ℕ × Block)
  read_range super inum buf size offset end_num0 =
      let end_num = if (offset + size) % super.blocksize == 0 then sub32 end_num0 1 else end_num0 in
      let start_num = offset / super.blocksize in
      let start_off = offset % super.blocksize in
      read_blocks super.blocksize inum (end_num + 1 - start_num) start_num start_off size
        (at_most (super.blocksize - start_off) size) 0 junk buf

  -- A `buf` that is NULL is refused in the source; here it is a buffer. Where offset + size does not
  -- fit an int the behaviour is undefined.
  unfoldable pub read_file : ℕ → Block → ℕ → ℕ → Cmd (Fs State) (ℕ × Block)
  read_file inum buf size offset = do
    super ← load_super ops junk
    if is_negative size then failure else (do
      inode_size ← get_inode_size ops junk inum
      if inode_size == 0
          then pure (0, set_byte buf 0 0)
          else (if is_negative offset || ltb inode_size offset
              then failure
              else (if is_negative (offset + size)
                  then undefined
                  else (if ltb inode_size (offset + size)
                      then (if is_negative (offset + inode_size)
                          then undefined
                          else read_range super inum buf inode_size offset
                              (inode_size / super.blocksize))
                      else read_range super inum buf size offset
                          ((offset + size) / super.blocksize)))))
