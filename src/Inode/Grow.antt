-- ===== src/Inode/Grow.antt =====
-- inode.c: add_block appends a block to an inode, and the blocks of ids that lead to it.
use pcd_file_system.Prelude.{ℕ, ◌*◌, ◌&&◌, ltb, if◌then◌else◌, ◌==◌}
use pcd_file_system.Prelude.Run.{Cmd, pure, failure, undefined, attempt, get, ◌>>=◌, ◌>>◌}
use pcd_file_system.Block.{Block, set_word}
use pcd_file_system.Disk.Contract.{DiskOps}
use pcd_file_system.Sb.{Sb}
use pcd_file_system.Inode.{
  Fs, Inode, load_super, load_target, store_target, set_target, read_block, write_block, new_block,
}
use pcd_file_system.Inode.Blocks.{Place, direct, single, double, triple, outside, place, id_at}
use pcd_file_system.Inode.Life.{num_blocks}

-- block[0] = id, and 0 in the other INDIR_ID_NUM - 1 entries
unfoldable pub first_id : Sb → Block → ℕ → Block
unfolding set_word
first_id super b id = set_word (λ o. if ltb o (4 * super.indir_id_num) then 0 else b o) 0 id

module _ (ops : DiskOps) (junk : Block) where
  open ops use {State}

  -- block[i] = id in an array of INDIR_ID_NUM ids
  unfoldable pub put_id : Sb → Block → ℕ → ℕ → Cmd (Fs State) Block
  put_id super b i id = if ltb i super.indir_id_num then pure (set_word b i id) else undefined

  -- What the block just allocated for ids is made of: a read of it, and `id` as its first entry.
  unfoldable pub new_ids : Sb → Block → ℕ → ℕ → Cmd (Fs State) Block
  new_ids super out bid id = do b ← read_block ops junk out bid; pure (first_id super b id)

  unfoldable pub add_single : Sb → ℕ → Inode → ℕ → ℕ → Cmd (Fs State) (Unit {0})
  add_single super inum n newid index =
      if index == 0
      then (do
        ind_bid ← new_block ops junk
        set_target (record n { single_ind = ind_bid })
        ind_block ← new_ids super junk ind_bid newid
        write_block ops junk ind_block ind_bid
        store_target ops junk inum (record n { single_ind = ind_bid }))
      else (do
        b ← read_block ops junk junk n.single_ind
        ind_block ← put_id super b index newid
        write_block ops junk ind_block n.single_ind)

  unfoldable pub add_double : Sb → ℕ → Inode → ℕ → ℕ → ℕ → Cmd (Fs State) (Unit {0})
  add_double super inum n newid d_index index =
      if d_index == 0 && index == 0
      then (do
        dind_bid ← new_block ops junk
        set_target (record n { double_ind = dind_bid })
        b ← read_block ops junk junk dind_bid
        ind_bid ← new_block ops junk
        ind_block ← new_ids super b ind_bid newid
        write_block ops junk ind_block ind_bid
        write_block ops junk (first_id super b ind_bid) dind_bid
        store_target ops junk inum (record n { double_ind = dind_bid }))
      else if index == 0
      then (do
        b ← read_block ops junk junk n.double_ind
        ind_bid ← new_block ops junk
        dind_block ← put_id super b d_index ind_bid
        ind_block ← new_ids super b ind_bid newid
        write_block ops junk ind_block ind_bid
        write_block ops junk dind_block n.double_ind)
      else (do
        dind_block ← read_block ops junk junk n.double_ind
        ind_bid ← id_at ops junk super dind_block d_index
        b ← read_block ops junk dind_block ind_bid
        ind_block ← put_id super b index newid
        write_block ops junk ind_block ind_bid)

  -- a new dind_block for the place t_index = 0 or later, with its first ind_block
  unfoldable pub add_subtree : Sb → Block → ℕ → ℕ → Cmd (Fs State) (Unit {0})
  add_subtree super out dind_bid newid = do
    b ← read_block ops junk out dind_bid
    ind_bid ← new_block ops junk
    ind_block ← new_ids super b ind_bid newid
    write_block ops junk ind_block ind_bid
    write_block ops junk (first_id super b ind_bid) dind_bid

  unfoldable pub add_triple : Sb → ℕ → Inode → ℕ → ℕ → ℕ → ℕ → Cmd (Fs State) (Unit {0})
  add_triple super inum n newid t_index d_index index =
      if t_index == 0 && d_index == 0 && index == 0
      then (do
        tind_bid ← new_block ops junk
        set_target (record n { triple_ind = tind_bid })
        b ← read_block ops junk junk tind_bid
        dind_bid ← new_block ops junk
        add_subtree super b dind_bid newid
        write_block ops junk (first_id super b dind_bid) tind_bid
        store_target ops junk inum (record n { triple_ind = tind_bid }))
      else if d_index == 0 && index == 0
      then (do
        b ← read_block ops junk junk n.triple_ind
        dind_bid ← new_block ops junk
        tind_block ← put_id super b t_index dind_bid
        add_subtree super b dind_bid newid
        write_block ops junk tind_block n.triple_ind)
      else if index == 0
      then (do
        tind_block ← read_block ops junk junk n.triple_ind
        dind_bid ← id_at ops junk super tind_block t_index
        b ← read_block ops junk tind_block dind_bid
        ind_bid ← new_block ops junk
        dind_block ← put_id super b d_index ind_bid
        ind_block ← new_ids super b ind_bid newid
        write_block ops junk ind_block ind_bid
        write_block ops junk dind_block dind_bid)
      else (do
        tind_block ← read_block ops junk junk n.triple_ind
        dind_bid ← id_at ops junk super tind_block t_index
        dind_block ← read_block ops junk tind_block dind_bid
        ind_bid ← id_at ops junk super dind_block d_index
        b ← read_block ops junk dind_block ind_bid
        ind_block ← put_id super b index newid
        write_block ops junk ind_block ind_bid)

  unfoldable pub add_at : Sb → ℕ → Inode → ℕ → Place → Cmd (Fs State) (Unit {0})
  add_at super inum n newid (direct num) =
      store_target ops junk inum
        (record n { direct_blo = λ i. if i == num then newid else n.direct_blo i })
  add_at super inum n newid (single index) = add_single super inum n newid index
  add_at super inum n newid (double d_index index) = add_double super inum n newid d_index index
  add_at super inum n newid (triple t_index d_index index) =
      add_triple super inum n newid t_index d_index index
  add_at super inum n newid outside = failure

  unfoldable pub add_block : ℕ → Cmd (Fs State) ℕ
  add_block inum = do
    super ← load_super ops junk
    newid ← new_block ops junk
    attempt (load_target ops junk inum)
    s ← get
    let n = s.target_node
    add_at super inum n newid (place super (num_blocks n.size super.blocksize))
    pure newid
