-- ===== src/Sb.antt =====
-- sb.c and sb.h: the super block, in block 0 of the disk.
pub mod Store
use pcd_file_system.Prelude.{ℕ, ◌+◌, ◌*◌, ◌/◌, ◌%◌, ◌^◌, true, false, List, [], ◌∷◌}
use pcd_file_system.Prelude.Run.{Cmd, pure, ◌>>=◌, ◌>>◌}
use pcd_file_system.Block.{Block, word, long, overlay}
use pcd_file_system.Disk.Contract.{DiskOps}

-- struct sb
pub record Sb : Type 0 where
  pub num_block : ℕ
  pub num_free_block : ℕ
  pub inode_per_block : ℕ
  pub num_datablock : ℕ
  pub num_mount_time : ℕ
  pub mount_time : ℕ
  pub filesize : ℕ
  pub max_file_size : ℕ
  pub blocksize : ℕ
  pub max_num_inode : ℕ
  pub start_data_block : ℕ
  pub start_ilist : ℕ
  pub start_bitmap : ℕ
  pub free_list : ℕ
  pub dir_id_num : ℕ
  pub indir_id_num : ℕ
  pub d_indir_id_num : ℕ
  pub t_indir_id_num : ℕ
  pub inode_size : ℕ
  pub root_inum : ℕ

-- the super block that sb_init writes at the time `now`
unfoldable pub initial_sb : ℕ → Sb
initial_sb now = record {
  num_block = 7864320;
  num_free_block = 7863029;
  inode_per_block = 32;
  num_datablock = 7863029;
  num_mount_time = 0;
  mount_time = now;
  filesize = 30 * 1024 * 1024 * 1024;
  max_file_size = (12 + 1024 + 1024 * 1024 + 1024 * 1024 * 1024) * 4096;
  blocksize = 4096;
  max_num_inode = 4096 * 10;
  start_data_block = 1291;
  start_ilist = 11;
  start_bitmap = 1;
  free_list = 1291;
  dir_id_num = 12;
  indir_id_num = 1024;
  d_indir_id_num = 1024 * 1024;
  t_indir_id_num = 1024 * 1024 * 1024;
  inode_size = 128;
  root_inum = 0;
}

-- The struct in memory, word by word. Word 5 is padding, since MOUNT_TIME is aligned to 8 bytes.
unfoldable pub sb_words : ℕ → Sb → List ℕ
sb_words pad s =
    s.num_block
    ∷ s.num_free_block
    ∷ s.inode_per_block
    ∷ s.num_datablock
    ∷ s.num_mount_time
    ∷ pad
    ∷ (s.mount_time % 2 ^ 32)
    ∷ (s.mount_time / 2 ^ 32)
    ∷ (s.filesize % 2 ^ 32)
    ∷ (s.filesize / 2 ^ 32)
    ∷ (s.max_file_size % 2 ^ 32)
    ∷ (s.max_file_size / 2 ^ 32)
    ∷ s.blocksize
    ∷ s.max_num_inode
    ∷ s.start_data_block
    ∷ s.start_ilist
    ∷ s.start_bitmap
    ∷ s.free_list
    ∷ s.dir_id_num
    ∷ s.indir_id_num
    ∷ s.d_indir_id_num
    ∷ s.t_indir_id_num
    ∷ s.inode_size
    ∷ s.root_inum
    ∷ []

-- memcpy(super, block, sizeof(sb))
unfoldable pub decode_sb : Block → Sb
decode_sb b = record {
  num_block = word b 0;
  num_free_block = word b 1;
  inode_per_block = word b 2;
  num_datablock = word b 3;
  num_mount_time = word b 4;
  mount_time = long b 6;
  filesize = long b 8;
  max_file_size = long b 10;
  blocksize = word b 12;
  max_num_inode = word b 13;
  start_data_block = word b 14;
  start_ilist = word b 15;
  start_bitmap = word b 16;
  free_list = word b 17;
  dir_id_num = word b 18;
  indir_id_num = word b 19;
  d_indir_id_num = word b 20;
  t_indir_id_num = word b 21;
  inode_size = word b 22;
  root_inum = word b 23;
}

-- memcpy(block, super, sizeof(sb)), over what malloc left in the block
unfoldable pub encode_sb : Block → Sb → Block
encode_sb junk s = overlay junk (sb_words (word junk 5) s)

module _ (ops : DiskOps) (junk : Block) where
  open ops use {State, disk_read, disk_write}

  unfoldable pub sb_init : ℕ → Cmd State (Unit {0})
  sb_init now = disk_write (encode_sb junk (initial_sb now)) 0 true

  unfoldable pub sb_read : Cmd State Sb
  sb_read = do b ← disk_read junk 0; pure (decode_sb b)

  unfoldable pub sb_write : Sb → Cmd State (Unit {0})
  sb_write s = disk_write (encode_sb junk s) 0 false
