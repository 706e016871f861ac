-- ===== src/Inode/Init.antt =====
-- inode.c: inode_bitmap_init and inode_list_init, which mkfs calls.
use pcd_file_system.Prelude.{ℕ, zero, suc, ◌+◌, ◌-◌, ◌*◌, ◌/◌, ltb, if◌then◌else◌}
use pcd_file_system.Prelude.Run.{Cmd, pure, modify, get, ◌>>=◌, ◌>>◌}
use pcd_file_system.Block.{Block, zero_block}
use pcd_file_system.Disk.Contract.{DiskOps}
use pcd_file_system.Db.{db_write}
use pcd_file_system.Inode.{Fs, Inode, lift, add32, sub32, put_inode, load_super}

-- the block of default inodes, slot after slot
unfoldable pub fill_slots : Block → ℕ → ℕ → ℕ → Inode → Block
fill_slots b zero i size n = b
fill_slots b (suc rounds) i size n = fill_slots (put_inode b (i * size) n) rounds (i + 1) size n

module _ (ops : DiskOps) (junk : Block) where
  open ops use {State}

  -- the second loop of inode_bitmap_init
  unfoldable pub clear_bitmap : ℕ → ℕ → ℕ → Cmd (Fs State) (Unit {0})
  clear_bitmap start zero i = pure tt
  clear_bitmap start (suc rounds) i = do
    s ← get
    lift (db_write ops junk s.bitmap (add32 start i))
    clear_bitmap start rounds (i + 1)

  unfoldable pub inode_bitmap_init : Cmd (Fs State) (Unit {0})
  inode_bitmap_init = do
    super ← load_super ops junk
    modify λ s. record s { bitmap = λ o. if ltb o super.blocksize then 0 else s.bitmap o }
    clear_bitmap super.start_bitmap (sub32 super.start_ilist super.start_bitmap) 0

  unfoldable pub write_list : Block → ℕ → ℕ → Cmd (Fs State) (Unit {0})
  write_list b zero bid = pure tt
  write_list b (suc rounds) bid = do lift (db_write ops junk b bid); write_list b rounds (bid + 1)

  -- `padding` is what the local variable holds
  unfoldable pub inode_list_init : ℕ → Cmd (Fs State) (Unit {0})
  inode_list_init padding = do
    super ← load_super ops junk
    let node : Inode = record {
      mode = 0;
      uid = 0;
      gid = 0;
      padding = padding;
      size = 0;
      last_accessed = 0;
      last_modified = 0;
      direct_blo = λ i. 0;
      single_ind = 0;
      double_ind = 0;
      triple_ind = 0;
      link_count = 0;
    }
    let block = fill_slots zero_block (super.blocksize / super.inode_size) 0 super.inode_size node
    write_list block (super.start_data_block - super.start_ilist) super.start_ilist
