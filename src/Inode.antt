-- ===== src/Inode.antt =====
-- inode.c: the inodes, their bitmap and their list on the disk. The globals super, bitmap and
-- target_node are part of the state. An int is given as the unsigned int with the same bits.
pub mod Init
pub mod Bitmap
pub mod Layout
pub mod Store
pub mod Update
pub mod Fields
pub mod Access
pub mod Search
pub mod Roundtrip
pub mod Blocks
pub mod Grow
pub mod Life
pub mod Files
pub mod Freed
pub mod Counted
pub mod Allocated
pub mod Writes
pub mod Tests
use pcd_file_system.Prelude.{
  ℕ, zero, suc, ◌+◌, ◌-◌, ◌*◌, ◌/◌, ◌%◌, ◌^◌, Bool, true, false, ◌||◌, Option, none, some, ltb, leb,
  if◌then◌else◌, ◌==◌,
}
use pcd_file_system.Prelude.Run.{
  Run, Cmd, pure, failure, attempt, modify, get, and_then, caught, ok, fail, crash, ◌>>=◌, ◌>>◌,
}
use pcd_file_system.Block.{Block, zero_block, word, long, byte_of, set_byte}
use pcd_file_system.Disk.Contract.{DiskOps}
use pcd_file_system.Sb.{Sb, sb_read}
use pcd_file_system.Db.{uint_max, db_read, db_write, db_free, db_allocate}

-- arithmetic on unsigned int
abbrev pub add32 : ℕ → ℕ → ℕ
add32 a b = (a + b) % 2 ^ 32

abbrev pub sub32 : ℕ → ℕ → ℕ
sub32 a b = (a + 2 ^ 32 - b) % 2 ^ 32

-- the sign bit of an int
abbrev pub is_negative : ℕ → Bool
is_negative a = leb (2 ^ 31) a

-- struct inode; `direct_blo` counts at its 12 indices, `padding` is what the compiler puts before
-- `size`
pub record Inode : Type 0 where
  pub mode : ℕ
  pub uid : ℕ
  pub gid : ℕ
  pub padding : ℕ
  pub size : ℕ
  pub last_accessed : ℕ
  pub last_modified : ℕ
  pub direct_blo : ℕ → ℕ
  pub single_ind : ℕ
  pub double_ind : ℕ
  pub triple_ind : ℕ
  pub link_count : ℕ

-- sizeof(inode)
abbrev pub inode_sizeof : ℕ
inode_sizeof = 104

-- the words of the struct in memory
unfoldable pub inode_word : Inode → ℕ → ℕ
inode_word n j =
    if j == 0
    then n.mode
    else if j == 1
    then n.uid
    else if j == 2
    then n.gid
    else if j == 3
    then n.padding
    else if j == 4
    then n.size
    else if j == 5
    then n.size / 2 ^ 32
    else if j == 6
    then n.last_accessed
    else if j == 7
    then n.last_accessed / 2 ^ 32
    else if j == 8
    then n.last_modified
    else if j == 9
    then n.last_modified / 2 ^ 32
    else if ltb j 22
    then n.direct_blo (j - 10)
    else if j == 22
    then n.single_ind
    else if j == 23
    then n.double_ind
    else if j == 24
    then n.triple_ind
    else n.link_count

unfoldable pub inode_bytes : Inode → Block
unfolding byte_of
inode_bytes n o = byte_of (inode_word n (o / 4)) (o % 4)

-- memcpy(block + off, &node, sizeof(inode))
unfoldable pub put_inode : Block → ℕ → Inode → Block
put_inode b off n o =
    if ltb o off then b o else if ltb o (off + inode_sizeof) then inode_bytes n (o - off) else b o

-- the bytes from an offset on
abbrev pub shift : Block → ℕ → Block
shift b off o = b (off + o)

-- memcpy(&node, block, sizeof(inode))
unfoldable pub decode_inode : Block → Inode
decode_inode b = record {
  mode = word b 0;
  uid = word b 1;
  gid = word b 2;
  padding = word b 3;
  size = long b 4;
  last_accessed = long b 6;
  last_modified = long b 8;
  direct_blo = λ i. if ltb i 12 then word b (i + 10) else 0;
  single_ind = word b 22;
  double_ind = word b 23;
  triple_ind = word b 24;
  link_count = word b 25;
}

-- The state: the disk and the globals of inode.c.
pub record Fs (D : Type 0) : Type 0 where
  pub disk : D
  pub super : Sb
  pub bitmap : Block
  pub target_node : Inode

-- a command of the layer below
lifted : {D A : Type 0} → Run D A → Fs D → Run (Fs D) A
lifted (ok a d) s = ok a (record s { disk = d })
lifted (fail d) s = fail (record s { disk = d })
lifted crash s = crash

unfoldable pub lift : {D A : Type 0} → Cmd D A → Cmd (Fs D) A
unfolding lifted
lift m s = lifted (m s.disk) s

-- target_node = node
abbrev pub set_target : {D : Type 0} → Inode → Cmd (Fs D) (Unit {0})
set_target n = modify λ s. record s { target_node = n }

abbrev pub set_bitmap : {D : Type 0} → Block → Cmd (Fs D) (Unit {0})
set_bitmap b = modify λ s. record s { bitmap = b }

-- what a buffer holds after a read whose code is dropped
unfoldable pub or_else : Block → Option Block → Block
or_else out none = out
or_else out (some b) = b

-- the blocks of a node that hold nothing
unfoldable pub no_blocks : Inode → Inode
no_blocks n = record n { direct_blo = λ i. 0; single_ind = 0; double_ind = 0; triple_ind = 0 }

-- the guard of find_inode_by_inum, write_inode_to_disk and others
unfoldable pub is_inum : Sb → ℕ → Bool
is_inum super inum =
    if ltb inum super.root_inum then false else leb inum (sub32 super.max_num_inode 1)

module _ (ops : DiskOps) (junk : Block) where
  open ops use {State}

  -- sb_read(&super), with the check that follows it everywhere
  unfoldable pub load_super : Cmd (Fs State) Sb
  load_super = do
    super ← lift (sb_read ops junk)
    modify λ s. record s { super = super }
    pure super

  -- db_read(out, bid) and db_write(b, bid), their codes dropped
  unfoldable pub read_block : Block → ℕ → Cmd (Fs State) Block
  read_block out bid = do got ← attempt (lift (db_read ops junk out bid)); pure (or_else out got)

  unfoldable pub write_block : Block → ℕ → Cmd (Fs State) (Unit {0})
  write_block b bid = do attempt (lift (db_write ops junk b bid)); pure tt

  unfoldable pub free_block : ℕ → Cmd (Fs State) (Unit {0})
  free_block bid = do attempt (lift (db_free ops junk bid)); pure tt

  -- db_allocate() with the check against -1, which is UINT_MAX as an unsigned int
  unfoldable pub new_block : Cmd (Fs State) ℕ
  new_block = do id ← lift (db_allocate ops junk); if id == uint_max then failure else pure id

  -- find_inode_by_inum(inum, &node)
  unfoldable pub find_inode_by_inum : ℕ → Cmd (Fs State) Inode
  find_inode_by_inum inum = do
    super ← load_super
    if is_inum super inum
        then (do
          block ← read_block junk (add32 super.start_bitmap (inum / super.blocksize))
          set_bitmap block
          if block (inum % super.blocksize) == 0 then failure else (do
            let per_block = super.blocksize / super.inode_size
            block2 ← read_block block (add32 super.start_ilist (inum / per_block))
            pure (decode_inode (shift block2 (inum % per_block * super.inode_size)))))
        else failure

  -- find_inode_by_inum(inum, &target_node), with a check of the code
  unfoldable pub load_target : ℕ → Cmd (Fs State) Inode
  load_target inum = do n ← find_inode_by_inum inum; set_target n; pure n

  unfoldable pub write_inode_to_disk : ℕ → Inode → Cmd (Fs State) (Unit {0})
  write_inode_to_disk inum node = do
    super ← load_super
    if is_inum super inum
        then (do
          let per_block = super.blocksize / super.inode_size
          let bid = add32 super.start_ilist (inum / per_block)
          block ← read_block junk bid
          write_block (put_inode block (inum % per_block * super.inode_size) node) bid)
        else failure

  -- target_node = node; write_inode_to_disk(inum, &target_node)
  unfoldable pub store_target : ℕ → Inode → Cmd (Fs State) (Unit {0})
  store_target inum n = do set_target n; write_inode_to_disk inum n
