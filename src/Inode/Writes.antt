-- ===== src/Inode/Writes.antt =====
-- inode.c: write_file and truncate_file, which call each other. A file is extended by writes of
-- zeros, and a write past the end extends the file first.
pub mod Written
pub mod Blocks
pub mod InPlace
pub mod Whole
use pcd_file_system.Prelude.{
  ℕ, zero, suc, ◌+◌, ◌-◌, ◌*◌, ◌/◌, ◌%◌, ◌^◌, Bool, false, ◌||◌, ◌&&◌, not, ltb, if◌then◌else◌,
  ◌==◌,
}
use pcd_file_system.Prelude.Run.{Cmd, pure, failure, undefined, attempt, get, ◌>>=◌, ◌>>◌}
use pcd_file_system.Block.{Block, zero_block}
use pcd_file_system.Disk.Contract.{DiskOps}
use pcd_file_system.Sb.{Sb}
use pcd_file_system.Inode.{
  Fs, add32, sub32, is_negative, is_inum, load_super, load_target, store_target, read_block,
  write_block, free_block,
}
use pcd_file_system.Inode.Blocks.{find_block_by_num, write_block_by_num, free_block_by_num}
use pcd_file_system.Inode.Fields.{get_inode_size, set_inode_size, with_size}
use pcd_file_system.Inode.Life.{num_blocks}
use pcd_file_system.Inode.Grow.{add_block}
use pcd_file_system.Inode.Files.{copy, at_most}

-- the sum of two ints does not fit
abbrev pub overflows : ℕ → ℕ → Bool
overflows a b =
    if is_negative a
    then (if is_negative b then not (is_negative (add32 a b)) else false)
    else (if is_negative b then false else is_negative (add32 a b))

-- an int as an unsigned long
abbrev pub to_long : ℕ → ℕ
to_long v = if is_negative v then v + (2 ^ 64 - 2 ^ 32) else v

-- block[i] = '\0' from `from` up to the size of the block
unfoldable pub clear_from : ℕ → ℕ → Block → Block
clear_from from block_size b o = if ltb o from then b o else if ltb o block_size then 0 else b o

-- a < b on two ints, each given by its bits
unfoldable pub int_lt : ℕ → ℕ → Bool
int_lt a b = ltb ((a + 2 ^ 31) % 2 ^ 32) ((b + 2 ^ 31) % 2 ^ 32)

module _ (ops : DiskOps) (junk : Block) where
  open ops use {State}

  -- a block for the bytes up to `end`, where the file ends before; the code is dropped
  unfoldable pub grow : ℕ → ℕ → ℕ → Cmd (Fs State) (Unit {0})
  grow inum end inode_size =
      if ltb inode_size end then (do attempt (add_block ops junk inum); pure tt) else pure tt

  -- The size after a write of `written` bytes up to `end`, on the disk too where it changes.
  unfoldable pub lengthen : ℕ → ℕ → ℕ → ℕ → Cmd (Fs State) ℕ
  lengthen inum end written inode_size =
      if ltb inode_size end
      then (do
        let new = (inode_size + written) % 2 ^ 64
        attempt (set_inode_size ops junk inum new)
        pure new)
      else pure inode_size

  -- the loop of write_file; the result is buf_off
  unfoldable pub write_blocks :
      ℕ → ℕ → Block → ℕ → ℕ → ℕ → ℕ → ℕ → ℕ → ℕ → ℕ → Block → Cmd (Fs State) ℕ
  write_blocks block_size inum buf offset zero num start_off size to_write buf_off inode_size
        block =
      pure buf_off
  write_blocks block_size inum buf offset (suc rounds) num start_off size to_write buf_off
        inode_size block =
      do
        let end = add32 (add32 offset buf_off) to_write
        grow inum end inode_size
        bid ← find_block_by_num ops junk inum num
        old ← read_block ops junk block bid
        let new = copy old start_off buf buf_off to_write
        write_block_by_num ops junk inum num new
        inode_size1 ← lengthen inum end to_write inode_size
        let size1 = sub32 size to_write
        write_blocks block_size inum buf offset rounds (num + 1) 0 size1 (at_most block_size size1)
            (add32 buf_off to_write) inode_size1 new

  -- after the checks
  unfoldable pub write_range : Sb → ℕ → Block → ℕ → ℕ → ℕ → Cmd (Fs State) ℕ
  write_range super inum buf size offset inode_size =
      let end_num0 = add32 offset size / super.blocksize in
      let end_num =
        if add32 offset size % super.blocksize == 0 then sub32 end_num0 1 else end_num0 in
      let start_num = offset / super.blocksize in
      let start_off = offset % super.blocksize in
      write_blocks super.blocksize inum buf offset (end_num + 1 - start_num) start_num start_off
        size (at_most (super.blocksize - start_off) size) 0 inode_size junk

  -- write_file, given the truncate_file that it calls. A `buf` that is NULL is refused in the
  -- source; here it is a buffer.
  unfoldable pub write_file_with :
      (ℕ → ℕ → Cmd (Fs State) (Unit {0})) → ℕ → Block → ℕ → ℕ → Cmd (Fs State) ℕ
  write_file_with truncate inum buf size offset = do
    super ← load_super ops junk
    let end = to_long (add32 offset size)
    if overflows offset size
        then undefined
        else (if ltb super.filesize end || ltb super.max_file_size end
            then failure
            else (if not (is_inum super inum) || is_negative size
                then failure
                else (if size == 0 then pure 0 else (do
                  inode_size ← get_inode_size ops junk inum
                  if is_negative offset
                      then failure
                      else (if ltb inode_size offset
                          then (do
                            attempt (truncate inum offset)
                            inode_size1 ← get_inode_size ops junk inum
                            write_range super inum buf size offset inode_size1)
                          else write_range super inum buf size offset inode_size)))))

  -- the loop of truncate_file that drops blocks; the result is inode_size
  unfoldable pub drop_blocks : ℕ → ℕ → ℕ → ℕ → ℕ → Cmd (Fs State) ℕ
  drop_blocks block_size inum zero total inode_size = pure inode_size
  drop_blocks block_size inum (suc rounds) total inode_size = do
    bid ← find_block_by_num ops junk inum (sub32 total 1)
    free_block ops junk bid
    free_block_by_num ops junk inum (sub32 total 1)
    drop_blocks block_size inum rounds (sub32 total 1) (inode_size - block_size)

  -- what is left of the last block is cleared
  unfoldable pub clear_rest : ℕ → ℕ → ℕ → ℕ → Cmd (Fs State) (Unit {0})
  clear_rest block_size inum keep offset = do
    bid ← find_block_by_num ops junk inum (sub32 keep 1)
    b ← read_block ops junk junk bid
    write_block ops junk (clear_from (offset % block_size) block_size b) bid

  -- The two counts are ints. The file loses the blocks past `offset`. The loop ends with as many blocks as are kept.
  unfoldable pub shorten : Sb → ℕ → ℕ → ℕ → Cmd (Fs State) (Unit {0})
  shorten super inum offset inode_size = do
    let total = num_blocks inode_size super.blocksize
    let keep = num_blocks offset super.blocksize
    let rounds = if int_lt keep total then sub32 total keep else 0
    left ← drop_blocks super.blocksize inum rounds total inode_size
    if not (int_lt total keep) && ltb offset left
        then clear_rest super.blocksize inum keep offset
        else pure tt
    attempt (load_target ops junk inum)
    s ← get
    attempt (store_target ops junk inum (with_size offset s.target_node))
    pure tt

  -- the loop of truncate_file that writes whole blocks of zeros
  unfoldable pub write_zeros :
      (ℕ → Block → ℕ → ℕ → Cmd (Fs State) ℕ) → ℕ → ℕ → ℕ → ℕ → Cmd (Fs State) (Unit {0})
  write_zeros write block_size inum zero writeoff = pure tt
  write_zeros write block_size inum (suc rounds) writeoff = do
    write inum zero_block block_size writeoff
    write_zeros write block_size inum rounds (add32 writeoff block_size)

  unfoldable pub extend :
      (ℕ → Block → ℕ → ℕ → Cmd (Fs State) ℕ) → Sb → ℕ → ℕ → ℕ → Cmd (Fs State) (Unit {0})
  extend write super inum offset inode_size = do
    let towrite = offset - inode_size
    let rounds = towrite / super.blocksize
    let rest = towrite % super.blocksize
    write_zeros write super.blocksize inum rounds inode_size
    if rest == 0
        then pure tt
        else (do write inum zero_block rest (add32 inode_size (rounds * super.blocksize)); pure tt)

  -- truncate_file, given the write_file that it calls
  unfoldable pub truncate_file_with :
      (ℕ → Block → ℕ → ℕ → Cmd (Fs State) ℕ) → ℕ → ℕ → Cmd (Fs State) (Unit {0})
  truncate_file_with write inum offset = do
    super ← load_super ops junk
    if is_negative offset || not (is_inum super inum) then failure else (do
      inode_size ← get_inode_size ops junk inum
      if ltb offset inode_size
          then shorten super inum offset inode_size
          else (if ltb inode_size offset
              then extend write super inum offset inode_size
              else pure tt))

  -- The two functions with at most `depth` calls inside each other; past that, undefined.
  unfoldable mutual
    pub write_file : ℕ → ℕ → Block → ℕ → ℕ → Cmd (Fs State) ℕ
    write_file zero inum buf size offset = undefined
    write_file (suc depth) inum buf size offset =
        write_file_with (truncate_file depth) inum buf size offset

    pub truncate_file : ℕ → ℕ → ℕ → Cmd (Fs State) (Unit {0})
    truncate_file zero inum offset = undefined
    truncate_file (suc depth) inum offset = truncate_file_with (write_file depth) inum offset
