-- ===== src/Db/Tests.antt =====
-- A disk with two free blocks, 6 and 5, in a list of the block 5 alone, and the theorems on sb.c and
-- db.c used there.
use pcd_file_system.Prelude.{
  ℕ, ◌^◌, ◌≡◌, ◌≢◌, refl, ap, ◌∙◌, true, [], ◌∷◌, arith, if◌then◌else◌, ◌==◌,
}
use pcd_file_system.Prelude.Run.{Fails, Returns, ◌>>◌}
use pcd_file_system.Block.{Block, zero_block, word, set_word}
use pcd_file_system.Block.Words.{word-set_word, word-set_word_ne}
use pcd_file_system.Disk.Cache.{Disk}
use pcd_file_system.Disk.Cache.Hits.{AreHeld, block_in}
use pcd_file_system.Disk.Cache.Full.{InCache, full, full-AreHeld, held, held-IsDisk}
use pcd_file_system.Disk.Hash.{hash_find, hash_func, find_in}
use pcd_file_system.Sb.{Sb, encode_sb}
use pcd_file_system.Sb.Store.{IsSb, super_of, super_of-encode_sb}
use pcd_file_system.Db.{uint_max, no_free_block, db_allocate, db_free}
use pcd_file_system.Db.Entries.{entries, entries-frame, entries-zero_block}
use pcd_file_system.Db.FreeList.{named, last_one, IsFreeList, exhausted, listed}
use pcd_file_system.Db.Allocate.{Leaves, db_allocate-FreeList}
use pcd_file_system.Db.Exhausted.{db_allocate-no_free_block}
use pcd_file_system.Db.Free.{Joins, db_free-FreeList}
use pcd_file_system.Db.Roundtrip.{db_free-db_allocate}

abbrev two_free : Sb
two_free = record {
  num_block = 100;
  num_free_block = 2;
  inode_per_block = 32;
  num_datablock = 90;
  num_mount_time = 0;
  mount_time = 0;
  filesize = 1000;
  max_file_size = 1000;
  blocksize = 4096;
  max_num_inode = 64;
  start_data_block = 4;
  start_ilist = 2;
  start_bitmap = 1;
  free_list = 5;
  dir_id_num = 12;
  indir_id_num = 1024;
  d_indir_id_num = 1024 ^ 2;
  t_indir_id_num = 1024 ^ 3;
  inode_size = 128;
  root_inum = 0;
}

abbrev none_free : Sb
none_free = record two_free { num_free_block = 0 }

abbrev list_block : Block
list_block = set_word (set_word zero_block 0 5) 1 6

-- the disk with the super block `super`, in the cache
abbrev blocks_with : Sb → ℕ → Block
blocks_with super a =
    if a == 0 then encode_sb zero_block super else if a == 5 then list_block else zero_block

abbrev with_super : Sb → Disk (ℕ → Block)
with_super super = full (blocks_with super)

abbrev small : Disk (ℕ → Block)
small = with_super two_free

abbrev emptied : Disk (ℕ → Block)
emptied = with_super none_free

abbrev super_at : Disk (ℕ → Block) → Sb
super_at = super_of held held-IsDisk zero_block

two_free-IsSb : IsSb two_free
two_free-IsSb = omega arith

none_free-IsSb : IsSb none_free
none_free-IsSb = omega arith

super_small : super_at small ≡ two_free
unfolding block_in hash_find hash_func find_in
super_small = super_of-encode_sb held held-IsDisk zero_block small two_free refl two_free-IsSb

super_emptied : super_at emptied ≡ none_free
unfolding block_in hash_find hash_func find_in
super_emptied = super_of-encode_sb held held-IsDisk zero_block emptied none_free refl none_free-IsSb

word_0 : word list_block 0 ≡ 5
word_0 =
    word-set_word_ne (set_word zero_block 0 5) 1 0 6 (omega arith) ∙ word-set_word zero_block 0 5

named_6 : named list_block ≡ 6 ∷ []
unfolding entries
named_6 =
    let one : word list_block 1 ≡ 6 = word-set_word (set_word zero_block 0 5) 1 6 in
    rw one (
      ap (λ xs. 6 ∷ xs)
        (entries-frame zero_block list_block 1022 2 (λ j le.
            word-set_word_ne (set_word zero_block 0 5) 1 j 6 (omega arith)
            ∙ word-set_word_ne zero_block 0 j 5 (omega arith))
          ∙ entries-zero_block 1022 2))

small-IsFreeList : IsFreeList (block_in small) (super_at small) (6 ∷ 5 ∷ [])
unfolding block_in hash_find hash_func find_in
small-IsFreeList = rw super_small (
    listed (last_one word_0 (rw named_6)) (omega arith) record {
      distinct = (refl, (refl, _));
      positive = λ a i. ground arith;
      small = λ a i. ground arith;
    })

db_allocate-FreeList_example :
    Returns
      (λ r s'. (r ≡ 6) × Leaves held held-IsDisk zero_block small s' (5 ∷ []))
      (db_allocate held zero_block small)
db_allocate-FreeList_example =
    db_allocate-FreeList held held-IsDisk zero_block small 6 (5 ∷ [])
      (full-AreHeld (blocks_with two_free)) (rw super_small two_free-IsSb)
      (rw super_small (omega arith)) small-IsFreeList

emptied-done : no_free_block (super_at emptied) ≡ true
unfolding no_free_block
emptied-done = rw super_emptied

db_allocate-no_free_block_example :
    Fails
      (λ s'.
        AreHeld InCache s'
        × (super_at s' ≡ record (super_at emptied) { num_free_block = 0; free_list = uint_max })
        × ((a : ℕ) → a ≢ 0 → block_in s' a ≡ block_in emptied a))
      (db_allocate held zero_block emptied)
db_allocate-no_free_block_example =
    db_allocate-no_free_block held held-IsDisk zero_block emptied
      (full-AreHeld (blocks_with none_free)) (rw super_emptied none_free-IsSb) emptied-done

db_free-FreeList_example :
    Returns
      (λ _ s'. Joins held held-IsDisk zero_block 9 (6 ∷ 5 ∷ []) small s')
      (db_free held zero_block 9 small)
db_free-FreeList_example =
    db_free-FreeList held held-IsDisk zero_block small 9 (6 ∷ 5 ∷ [])
      (full-AreHeld (blocks_with two_free)) (rw super_small two_free-IsSb) small-IsFreeList
      (rw super_small (omega arith)) refl (omega arith) (omega arith)
      (λ i. rw super_small (omega arith)) (rw super_small (omega arith))

abbrev used_up : Sb
used_up = record two_free { num_free_block = 0; free_list = uint_max }

used_up-IsSb : IsSb used_up
used_up-IsSb = omega arith

super_used_up : super_at (with_super used_up) ≡ used_up
unfolding block_in hash_find hash_func find_in
super_used_up =
    super_of-encode_sb held held-IsDisk zero_block (with_super used_up) used_up refl used_up-IsSb

db_free-db_allocate_example :
    Returns
      (λ r s'. (r ≡ 9) × AreHeld InCache s' × IsFreeList (block_in s') (super_at s') [])
      ((db_free held zero_block 9 >> db_allocate held zero_block) (with_super used_up))
db_free-db_allocate_example =
    db_free-db_allocate held held-IsDisk zero_block (with_super used_up) 9
      (full-AreHeld (blocks_with used_up)) (rw super_used_up used_up-IsSb)
      (rw super_used_up (exhausted refl refl refl)) (rw super_used_up (omega arith)) (omega arith)
      (omega arith) (rw super_used_up (omega arith))
