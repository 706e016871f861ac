-- ===== src/Inode/Life.antt =====
-- inode.c: an inode is allocated, counts its links, and is freed with its blocks.
use pcd_file_system.Prelude.{ℕ, zero, suc, ◌+◌, ◌-◌, ◌/◌, ◌%◌, ◌^◌, ◌||◌, ltb, if◌then◌else◌, ◌==◌}
use pcd_file_system.Prelude.Run.{Cmd, pure, failure, undefined, attempt, get, ◌>>=◌, ◌>>◌}
use pcd_file_system.Block.{Block, db_size, set_byte}
use pcd_file_system.Disk.Contract.{DiskOps}
use pcd_file_system.Sb.{Sb}
use pcd_file_system.Inode.{
  Fs, Inode, add32, is_negative, no_blocks, load_super, load_target, store_target, set_target,
  set_bitmap, write_inode_to_disk, read_block, write_block, free_block,
}
use pcd_file_system.Inode.Bitmap.{find_free_inode}
use pcd_file_system.Inode.Blocks.{single_end, double_end, triple_end}
use pcd_file_system.Inode.Blocks.Free.{free_indblo_by_bid, free_dindblo_by_bid, free_tindblo_by_bid}

-- What getenv("USER") and getpwnam say: no variable, no entry for the name, or the two ids.
pub data User : Type 0 where
  no_variable : User
  no_entry : User
  known : (uid gid : ℕ) → User

-- the fields of a new inode but the owner
unfoldable pub fresh : ℕ → ℕ → Inode → Inode
fresh accessed modified n = record n {
  mode = 438;
  last_accessed = accessed;
  last_modified = modified;
  link_count = 1;
  size = 0;
}

-- the blocks that a file of this size has, as an int
unfoldable pub num_blocks : ℕ → ℕ → ℕ
num_blocks size block_size =
    let num = size / block_size % 2 ^ 32 in if size % block_size == 0 then num else add32 num 1

module _ (ops : DiskOps) (junk : Block) where
  open ops use {State}

  unfoldable pub give : User → ℕ → Inode → Cmd (Fs State) ℕ
  give no_variable inum n = pure 1
  give no_entry inum n = undefined
  give (known uid gid) inum n = do
    store_target ops junk inum (no_blocks (record n { uid = uid; gid = gid }))
    pure inum

  -- The two times are what time(NULL) gives. Without the variable EXIT_FAILURE, 1, is returned.
  unfoldable pub inode_allocate : User → ℕ → ℕ → Cmd (Fs State) ℕ
  unfolding give
  inode_allocate user accessed modified = do
    load_super ops junk
    inum ← find_free_inode ops junk
    n ← load_target ops junk inum
    set_target (fresh accessed modified n)
    give user inum (fresh accessed modified n)

  -- the loop over the ids in the inode
  unfoldable pub free_direct : Inode → ℕ → ℕ → Cmd (Fs State) (Unit {0})
  free_direct n zero i = pure tt
  free_direct n (suc rounds) i = do
    free_block ops junk (n.direct_blo i)
    free_direct n rounds (i + 1)

  unfoldable pub free_file : Sb → Inode → ℕ → Cmd (Fs State) (Unit {0})
  free_file super n num =
      if ltb num super.dir_id_num
      then free_direct n num 0
      else if ltb num (single_end super)
      then (do
        free_direct n super.dir_id_num 0
        attempt (free_indblo_by_bid ops junk n.single_ind)
        pure tt)
      else if ltb num (double_end super)
      then (do
        free_direct n super.dir_id_num 0
        attempt (free_indblo_by_bid ops junk n.single_ind)
        attempt (free_dindblo_by_bid ops junk n.double_ind)
        pure tt)
      else if ltb num (triple_end super)
      then (do
        free_direct n super.dir_id_num 0
        attempt (free_indblo_by_bid ops junk n.single_ind)
        attempt (free_dindblo_by_bid ops junk n.double_ind)
        attempt (free_tindblo_by_bid ops junk n.triple_ind)
        pure tt)
      else failure

  -- The bit that is cleared is at inum + bitmap_off, which may be outside the bitmap.
  unfoldable pub clear_bit : Sb → ℕ → Cmd (Fs State) (Unit {0})
  clear_bit super inum = do
    let bid = add32 super.start_bitmap (inum / super.blocksize)
    let at = add32 inum (inum % super.blocksize)
    s ← get
    b ← read_block ops junk s.bitmap bid
    set_bitmap b
    if ltb at db_size
        then (do set_bitmap (set_byte b at 0); write_block ops junk (set_byte b at 0) bid)
        else undefined

  unfoldable pub inode_free : ℕ → Cmd (Fs State) (Unit {0})
  inode_free inum = do
    super ← load_super ops junk
    n ← load_target ops junk inum
    let num = num_blocks n.size super.blocksize
    if is_negative num || num == 0 then pure tt else free_file super n num
    clear_bit super inum

  unfoldable pub inode_reduce_link_count : ℕ → Cmd (Fs State) (Unit {0})
  inode_reduce_link_count inum = do
    n ← load_target ops junk inum
    let n1 = record n { link_count = (n.link_count + 2 ^ 32 - 1) % 2 ^ 32 }
    set_target n1
    if n1.link_count == 0
        then (do attempt (inode_free inum); pure tt)
        else write_inode_to_disk ops junk inum n1

  unfoldable pub inode_increase_link_count : ℕ → Cmd (Fs State) (Unit {0})
  inode_increase_link_count inum = do
    n ← load_target ops junk inum
    store_target ops junk inum (record n { link_count = add32 n.link_count 1 })
