-- ===== src/Sb/Store.antt =====
-- The super block on a disk that meets the contract.
use pcd_file_system.Prelude.{
  ℕ, ◌+◌, ◌/◌, ◌%◌, ◌^◌, ◌<◌, ◌≡◌, refl, some, arith, List, ap, ◌∙◌, if◌then◌else◌, ◌==◌,
}
use pcd_file_system.Prelude.Run.{Returns, returns, bind_ok, mono}
use pcd_file_system.Block.{Block, get_elem?, word, long}
use pcd_file_system.Block.Words.{word-overlay}
use pcd_file_system.Disk.Contract.{DiskOps, IsDisk}
use pcd_file_system.Sb.{Sb, sb_words, decode_sb, encode_sb, sb_read, sb_write}

-- The fields fit their C types.
pub record IsSb (s : Sb) : Type 0 where
  pub num_block : s.num_block < 2 ^ 32
  pub num_free_block : s.num_free_block < 2 ^ 32
  pub inode_per_block : s.inode_per_block < 2 ^ 32
  pub num_datablock : s.num_datablock < 2 ^ 32
  pub num_mount_time : s.num_mount_time < 2 ^ 32
  pub mount_time : s.mount_time < 2 ^ 64
  pub filesize : s.filesize < 2 ^ 64
  pub max_file_size : s.max_file_size < 2 ^ 64
  pub blocksize : s.blocksize < 2 ^ 32
  pub max_num_inode : s.max_num_inode < 2 ^ 32
  pub start_data_block : s.start_data_block < 2 ^ 32
  pub start_ilist : s.start_ilist < 2 ^ 32
  pub start_bitmap : s.start_bitmap < 2 ^ 32
  pub free_list : s.free_list < 2 ^ 32
  pub dir_id_num : s.dir_id_num < 2 ^ 32
  pub indir_id_num : s.indir_id_num < 2 ^ 32
  pub d_indir_id_num : s.d_indir_id_num < 2 ^ 32
  pub t_indir_id_num : s.t_indir_id_num < 2 ^ 32
  pub inode_size : s.inode_size < 2 ^ 32
  pub root_inum : s.root_inum < 2 ^ 32

fits : (v w : ℕ) → w ≡ v % 2 ^ 32 → v < 2 ^ 32 → w ≡ v
fits v w e h = omega arith

module _ (junk : Block) (s : Sb) where
  ws : List ℕ
  ws = sb_words (word junk 5) s

  at : (i v : ℕ) → get_elem? ws i ≡ some v → v < 2 ^ 32 → word (encode_sb junk s) i ≡ v
  unfolding encode_sb ws
  at i v h lt = fits v _ (word-overlay junk (sb_words (word junk 5) s) i v h) lt

  long_at :
      (i v : ℕ)
      → get_elem? ws i ≡ some (v % 2 ^ 32)
      → get_elem? ws (i + 1) ≡ some (v / 2 ^ 32)
      → v < 2 ^ 64
      → long (encode_sb junk s) i ≡ v
  unfolding encode_sb ws long
  long_at i v lo hi lt =
      omega (arith, at i (v % 2 ^ 32) lo (omega arith), at (i + 1) (v / 2 ^ 32) hi (omega arith))

  -- A super block whose fields fit their C types is the same after the copy into a block and back.
  pub decode_sb-encode_sb : IsSb s → decode_sb (encode_sb junk s) ≡ s
  unfolding decode_sb ws sb_words
  decode_sb-encode_sb h = λ i. record {
    num_block = at 0 _ refl h.num_block i;
    num_free_block = at 1 _ refl h.num_free_block i;
    inode_per_block = at 2 _ refl h.inode_per_block i;
    num_datablock = at 3 _ refl h.num_datablock i;
    num_mount_time = at 4 _ refl h.num_mount_time i;
    mount_time = long_at 6 _ refl refl h.mount_time i;
    filesize = long_at 8 _ refl refl h.filesize i;
    max_file_size = long_at 10 _ refl refl h.max_file_size i;
    blocksize = at 12 _ refl h.blocksize i;
    max_num_inode = at 13 _ refl h.max_num_inode i;
    start_data_block = at 14 _ refl h.start_data_block i;
    start_ilist = at 15 _ refl h.start_ilist i;
    start_bitmap = at 16 _ refl h.start_bitmap i;
    free_list = at 17 _ refl h.free_list i;
    dir_id_num = at 18 _ refl h.dir_id_num i;
    indir_id_num = at 19 _ refl h.indir_id_num i;
    d_indir_id_num = at 20 _ refl h.d_indir_id_num i;
    t_indir_id_num = at 21 _ refl h.t_indir_id_num i;
    inode_size = at 22 _ refl h.inode_size i;
    root_inum = at 23 _ refl h.root_inum i;
  }

module _ (ops : DiskOps) (disk : IsDisk ops) (junk : Block) where
  open ops use {State}
  open disk use {Good, view}

  -- the super block that the disk holds
  pub super_of : State → Sb
  super_of s = decode_sb (view s 0)

  -- it depends on block 0 alone
  pub super_of-same : (s s' : State) → view s' 0 ≡ view s 0 → super_of s' ≡ super_of s
  unfolding super_of
  super_of-same s s' e = ap decode_sb e

  pub super_of-encode_sb :
      (s : State) (super : Sb) → view s 0 ≡ encode_sb junk super → IsSb super → super_of s ≡ super
  unfolding super_of
  super_of-encode_sb s super e is = ap decode_sb e ∙ decode_sb-encode_sb junk super is

  -- sb_read returns the super block of the disk and changes no block.
  pub sb_read-super_of :
      (s : State)
      → Good s
      → Returns
          (λ r s'. (r ≡ super_of s) × Good s' × ((a : ℕ) → view s' a ≡ view s a))
          (sb_read ops junk s)
  unfolding sb_read super_of
  sb_read-super_of s g =
      bind_ok (disk.reads s junk 0 g disk.super_block)
        λ b s' (e, g', same). returns (ap decode_sb e, g', same)

  -- On a disk that meets the contract, sb_write of a super block whose fields fit their C types
  -- makes it the super block of the disk, and changes no other block.
  pub sb_write-super_of :
      (s : State) (super : Sb)
      → Good s
      → IsSb super
      → Returns
          (λ _ s'.
            Good s'
            × (super_of s' ≡ super)
            × ((a : ℕ) → view s' a ≡ (if a == 0 then encode_sb junk super else view s a)))
          (sb_write ops junk super s)
  unfolding sb_write super_of
  sb_write-super_of s super g is =
      mono (disk.writes s (encode_sb junk super) 0 g disk.super_block)
        λ _ s' (g', new). (g', ap decode_sb (new 0) ∙ decode_sb-encode_sb junk super is, new)
