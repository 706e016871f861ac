-- ===== src/Db.antt =====
-- db.c: the data blocks and the list of the free ones. The head of the free list, super->FREE_LIST,
-- is a free block itself. Its word 0 is the id of the next such block, or its own id in the last
-- one; its words 1 to MAX_ENTRY - 1 are ids of free blocks, 0 where an entry is empty.
pub mod Entries
pub mod FreeList
pub mod Allocate
pub mod Exhausted
pub mod Grow
pub mod Free
pub mod Access
pub mod Roundtrip
pub mod Tests
use pcd_file_system.Prelude.{
  ℕ, zero, suc, ◌+◌, ◌-◌, ◌*◌, ◌/◌, ◌%◌, ◌^◌, Bool, true, false, ◌||◌, not, Option, none, some, ltb,
  if◌then◌else◌, ◌==◌,
}
use pcd_file_system.Prelude.Run.{Cmd, pure, failure, attempt, ◌>>=◌, ◌>>◌}
use pcd_file_system.Block.{Block, db_size, zero_block, word, set_word}
use pcd_file_system.Disk.Contract.{DiskOps}
use pcd_file_system.Sb.{Sb, sb_read, sb_write}

abbrev pub uint_max : ℕ
uint_max = 2 ^ 32 - 1

-- DB_SIZE / sizeof(unsigned int)
abbrev pub max_entry : ℕ
max_entry = 1024

-- the loop of db_allocate: the first entry from `i` on that is not 0
unfoldable pub find_used : Block → ℕ → ℕ → Option ℕ
find_used b zero i = none
find_used b (suc rounds) i = elim (word b i == 0) [
  | true ↦ find_used b rounds (i + 1)
  | false ↦ some i
]

-- the loop of db_free: the first entry from `i` on that is 0
unfoldable pub find_empty : Block → ℕ → ℕ → Option ℕ
find_empty b zero i = none
find_empty b (suc rounds) i = elim (word b i == 0) [
  | true ↦ some i
  | false ↦ find_empty b rounds (i + 1)
]

unfoldable pub no_free_block : Sb → Bool
no_free_block super = super.num_free_block == 0 || super.free_list == uint_max

both : Option (Unit {0}) → Option (Unit {0}) → Bool
both (some _) (some _) = true
both _ _ = false

read_or_zero : Option Block → Block
read_or_zero none = zero_block
read_or_zero (some b) = b

-- the inner loops of db_init: from entry `j` on, entry k of the block is base + k
unfoldable pub put_ids : Block → ℕ → ℕ → ℕ → Block
put_ids b zero j base = b
put_ids b (suc rounds) j base = put_ids (set_word b j ((base + j) % 2 ^ 32)) rounds (j + 1) base

module _ (ops : DiskOps) (junk : Block) where
  open ops use {State, disk_read, disk_write}

  -- db_allocate where no block is left: the two fields are made to say so
  unfoldable pub mend : Sb → Cmd State (Unit {0})
  mend super = do
    let super1 = record super { free_list = uint_max }
    attempt (if super.free_list == uint_max then pure tt else sb_write ops junk super1)
    attempt (
        if super.num_free_block == 0
        then pure tt
        else sb_write ops junk (record super1 { num_free_block = 0 }))
    failure

  -- db_allocate where entry `i` of the head is the id of a free block
  unfoldable pub take_entry : Sb → Block → ℕ → Cmd State ℕ
  unfolding both
  take_entry super buffer i = do
    wrote ← attempt (disk_write (set_word buffer i 0) super.free_list false)
    saved ← attempt (sb_write ops junk super)
    if both wrote saved then pure (word buffer i) else failure

  -- db_allocate where all entries are empty: the head itself is handed out
  unfoldable pub take_head : Sb → Block → Cmd State ℕ
  take_head super buffer = do
    let prev = super.free_list
    attempt (
        sb_write ops junk (
          if word buffer 0 == prev
          then record super { num_free_block = 0; free_list = uint_max }
          else record super { free_list = word buffer 0 }))
    pure prev

  -- db_allocate, by what the search among the entries of the head found
  allocate_in : Sb → Block → Option ℕ → Cmd State ℕ
  allocate_in super buffer (some i) = take_entry super buffer i
  allocate_in super buffer none = take_head super buffer

  -- The id of a block that was free; -1 where none is left.
  unfoldable pub db_allocate : Cmd State ℕ
  unfolding allocate_in
  db_allocate = do
    super ← sb_read ops junk
    if no_free_block super then (mend super >> failure) else (do
      buffer ← disk_read zero_block super.free_list
      allocate_in (record super { num_free_block = super.num_free_block - 1 }) buffer
          (find_used buffer (max_entry - 1) 1))

  -- db_free where no block is free: the block is the whole list
  unfoldable pub free_first : Sb → ℕ → Cmd State (Unit {0})
  free_first super block_id = do
    attempt (sb_write ops junk (record super { num_free_block = 1; free_list = block_id }))
    attempt (disk_write (set_word zero_block 0 block_id) block_id false)
    pure tt

  -- db_free where entry `i` of the head is empty
  unfoldable pub free_entry : Sb → Block → ℕ → ℕ → Cmd State (Unit {0})
  free_entry super buffer i block_id = do
    attempt (disk_write (set_word buffer i block_id) super.free_list false)
    attempt
        (sb_write ops junk (record super { num_free_block = (super.num_free_block + 1) % 2 ^ 32 }))
    pure tt

  -- db_free where the head is full: the block becomes the head
  unfoldable pub free_head : Sb → ℕ → Cmd State (Unit {0})
  free_head super block_id = do
    sb_write ops junk (record super {
      free_list = block_id;
      num_free_block = (super.num_free_block + 1) % 2 ^ 32;
    })
    disk_write (set_word zero_block 0 super.free_list) block_id false

  -- db_free, by what the search among the entries of the head found
  free_in : Sb → ℕ → Block → Option ℕ → Cmd State (Unit {0})
  free_in super block_id buffer (some i) = free_entry super buffer i block_id
  free_in super block_id buffer none = free_head super block_id

  unfoldable pub db_free : ℕ → Cmd State (Unit {0})
  unfolding read_or_zero free_in
  db_free block_id = do
    super ← sb_read ops junk
    if ltb super.num_block block_id
        then failure
        else (if no_free_block super then free_first super block_id else (do
          got ← attempt (disk_read zero_block super.free_list)
          free_in super block_id (read_or_zero got)
              (find_empty (read_or_zero got) (max_entry - 1) 1)))

  unfoldable pub db_read : Block → ℕ → Cmd State Block
  db_read out block_id = do
    super ← sb_read ops junk
    if ltb super.num_block block_id then failure else disk_read out block_id

  unfoldable pub db_write : Block → ℕ → Cmd State (Unit {0})
  db_write b block_id = do
    super ← sb_read ops junk
    if ltb super.num_block block_id then failure else disk_write b block_id false

  -- the outer loop of db_init, with `input` as the last round left it
  unfoldable pub write_lists : ℕ → Block → ℕ → ℕ → Cmd State (Unit {0})
  write_lists start input zero i = pure tt
  write_lists start input (suc rounds) i = do
    let base = start + i * max_entry
    let block = put_ids (set_word input 0 ((base + max_entry) % 2 ^ 32)) (max_entry - 1) 1 base
    disk_write block (base % 2 ^ 32) true
    write_lists start block rounds (i + 1)

  unfoldable pub db_init : Cmd State (Unit {0})
  db_init = do
    super ← sb_read ops junk
    let max_index = super.num_free_block / max_entry
    let any_left = super.num_free_block - max_index * max_entry
    let base = super.start_data_block + max_index * max_entry
    write_lists super.start_data_block junk max_index 0
    if any_left == 0
        then pure tt
        else disk_write (put_ids zero_block any_left 0 base) (base % 2 ^ 32) true
