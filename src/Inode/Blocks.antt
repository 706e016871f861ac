-- ===== src/Inode/Blocks.antt =====
-- inode.c: the blocks of an inode. The first ids are in the inode, the others in blocks of ids that
-- single_ind, double_ind and triple_ind lead to.
pub mod Free
pub mod Find
use pcd_file_system.Prelude.{
  ℕ, zero, suc, ◌+◌, ◌-◌, ◌*◌, ◌/◌, ◌%◌, ◌^◌, Bool, true, false, Option, none, some, ltb, leb,
  if◌then◌else◌, ◌==◌,
}
use pcd_file_system.Prelude.Run.{
  undefined, Cmd, pure, failure, attempt, modify, get, and_then, caught, ok, fail, crash, ◌>>=◌,
  ◌>>◌,
}
use pcd_file_system.Block.{Block, word, set_word}
use pcd_file_system.Disk.Contract.{DiskOps}
use pcd_file_system.Sb.{Sb}
use pcd_file_system.Db.{uint_max}
use pcd_file_system.Inode.{
  Fs, Inode, add32, sub32, is_negative, load_super, load_target, store_target, read_block,
  write_block, free_block,
}

-- DIR_ID_NUM, DIR_ID_NUM + INDIR_ID_NUM, and so on
abbrev pub single_end : Sb → ℕ
single_end super = add32 super.dir_id_num super.indir_id_num

abbrev pub double_end : Sb → ℕ
double_end super = add32 (single_end super) super.d_indir_id_num

abbrev pub triple_end : Sb → ℕ
triple_end super = add32 (double_end super) super.t_indir_id_num

-- Where block `num` of an inode is found. In the third level `d_index` counts from its start and
-- is not reduced, as in the source.
pub data Place : Type 0 where
  direct : ℕ → Place
  single : ℕ → Place
  double : (d_index index : ℕ) → Place
  triple : (t_index d_index index : ℕ) → Place
  outside : Place

unfoldable pub place : Sb → ℕ → Place
place super num =
    let double_num = sub32 num (single_end super) in
    let triple_num = sub32 num (double_end super) in
    if ltb num super.dir_id_num
    then direct num
    else if ltb num (single_end super)
    then single (sub32 num super.dir_id_num)
    else if ltb num (double_end super)
    then double (double_num / super.indir_id_num) (double_num % super.indir_id_num)
    else if ltb num (triple_end super)
    then triple (triple_num / super.d_indir_id_num) (triple_num / super.indir_id_num)
        (triple_num % super.indir_id_num)
    else outside

module _ (ops : DiskOps) (junk : Block) where
  open ops use {State}

  -- entry `i` of an array of INDIR_ID_NUM ids
  unfoldable pub id_at : Sb → Block → ℕ → Cmd (Fs State) ℕ
  id_at super b i = if ltb i super.indir_id_num then pure (word b i) else undefined

  -- The id at a place. The branch of the third level takes it from dind_block.
  unfoldable pub find_at : Sb → Inode → Place → Cmd (Fs State) ℕ
  find_at super n (direct num) = pure (n.direct_blo num)
  find_at super n (single index) = do
    ind_block ← read_block ops junk junk n.single_ind
    id_at super ind_block index
  find_at super n (double d_index index) = do
    dind_block ← read_block ops junk junk n.double_ind
    ind_bid ← id_at super dind_block d_index
    ind_block ← read_block ops junk dind_block ind_bid
    id_at super ind_block index
  find_at super n (triple t_index d_index index) = do
    tind_block ← read_block ops junk junk n.triple_ind
    dind_bid ← id_at super tind_block t_index
    dind_block ← read_block ops junk tind_block dind_bid
    ind_bid ← id_at super dind_block d_index
    read_block ops junk dind_block ind_bid
    id_at super dind_block index
  find_at super n outside = failure

  -- The id of block `num`. A result that equals UINT_MAX is -1 for the callers.
  unfoldable pub find_block_by_num : ℕ → ℕ → Cmd (Fs State) ℕ
  find_block_by_num inum num = if is_negative num then failure else (do
    super ← load_super ops junk
    attempt (load_target ops junk inum)
    s ← get
    bid ← find_at super s.target_node (place super num)
    if bid == uint_max then failure else pure bid)

  unfoldable pub write_block_by_num : ℕ → ℕ → Block → Cmd (Fs State) ℕ
  write_block_by_num inum num block =
      if is_negative num
      then failure
      else (do bid ← find_block_by_num inum num; write_block ops junk block bid; pure bid)

  -- db_free(bid); target_node.single_ind = 0; write_inode_to_disk(...), and the like
  unfoldable pub drop_root : ℕ → ℕ → Inode → Cmd (Fs State) (Unit {0})
  drop_root inum bid n = do free_block ops junk bid; attempt (store_target ops junk inum n); pure tt

  -- db_free(bid); block[index] = 0; db_write(block, owner)
  unfoldable pub drop_entry : Block → ℕ → ℕ → ℕ → Cmd (Fs State) (Unit {0})
  drop_entry block index bid owner = do
    free_block ops junk bid
    write_block ops junk (set_word block index 0) owner

  -- Entry 0 of a block of ids is the last one to go, and the block goes with it.
  unfoldable pub free_at : Sb → ℕ → Inode → Place → Cmd (Fs State) (Unit {0})
  free_at super inum n (direct num) = do
    attempt (
        store_target ops junk inum
          (record n { direct_blo = λ i. if i == num then 0 else n.direct_blo i }))
    pure tt
  free_at super inum n (single index) = do
    ind_block ← read_block ops junk junk n.single_ind
    write_block ops junk (set_word ind_block index 0) n.single_ind
    if index == 0 then drop_root inum n.single_ind (record n { single_ind = 0 }) else pure tt
  free_at super inum n (double d_index index) = do
    dind_block ← read_block ops junk junk n.double_ind
    ind_bid ← id_at super dind_block d_index
    ind_block ← read_block ops junk dind_block ind_bid
    write_block ops junk (set_word ind_block index 0) ind_bid
    if index == 0 then drop_entry dind_block d_index ind_bid n.double_ind else pure tt
    if d_index == 0 then drop_root inum n.double_ind (record n { double_ind = 0 }) else pure tt
  free_at super inum n (triple t_index d_index index) = do
    tind_block ← read_block ops junk junk n.triple_ind
    dind_bid ← id_at super tind_block t_index
    dind_block ← read_block ops junk tind_block dind_bid
    ind_bid ← id_at super dind_block d_index
    ind_block ← read_block ops junk dind_block ind_bid
    write_block ops junk (set_word ind_block index 0) ind_bid
    if index == 0 then drop_entry dind_block d_index ind_bid dind_bid else pure tt
    if d_index == 0 then drop_entry tind_block t_index dind_bid n.triple_ind else pure tt
    if t_index == 0 then drop_root inum n.triple_ind (record n { triple_ind = 0 }) else pure tt
  free_at super inum n outside = failure

  unfoldable pub free_block_by_num : ℕ → ℕ → Cmd (Fs State) (Unit {0})
  free_block_by_num inum num = if is_negative num then failure else (do
    super ← load_super ops junk
    attempt (load_target ops junk inum)
    s ← get
    free_at super inum s.target_node (place super num))
