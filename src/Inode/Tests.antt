-- ===== src/Inode/Tests.antt =====
-- A disk that mkfs laid out, with the inode 3 and blocks of ids for it, and the theorems on inode.c
-- used there.
use pcd_file_system.Prelude.{◌≢◌, ℕ, ◌≡◌, refl, arith, if◌then◌else◌, ◌==◌, ltb}
use pcd_file_system.Prelude.Run.{Returns, crash, ◌>>◌}
use pcd_file_system.Block.{Block, zero_block, long, word, set_word}
use pcd_file_system.Block.Words.{word-set_word}
use pcd_file_system.Prelude.{ap}
use pcd_file_system.Disk.Cache.{Disk}
use pcd_file_system.Disk.Cache.Hits.{AreHeld, block_in}
use pcd_file_system.Disk.Cache.Full.{InCache, full, full-AreHeld, block_in-full, held, held-IsDisk}
use pcd_file_system.Sb.{initial_sb, encode_sb}
use pcd_file_system.Sb.Store.{IsSb, super_of-encode_sb}
use pcd_file_system.Inode.{Fs, Inode, put_inode, shift, decode_inode}
use pcd_file_system.Inode.Layout.{IsInode, decode_inode-put_inode}
use pcd_file_system.Inode.Store.{IsLaidOut, node_at, bit_at, super'}
use pcd_file_system.Inode.Update.{Stores}
use pcd_file_system.Inode.Fields.{
  with_uid, write_field, set_inode_size, inode_read_size, inode_write_uid, inode_read_uid,
  inode_write_gid, inode_read_gid, inode_write_last_accessed, inode_read_last_accessed,
  inode_write_last_modified, inode_read_last_modified, inode_write_mode, inode_read_mode,
}
use pcd_file_system.Inode.Access.{HasInode, write_field-Stores}
use pcd_file_system.Inode.Roundtrip.{Gives, write-read}
use pcd_file_system.Inode.Life.{inode_free}
use pcd_file_system.Inode.Freed.{inode_free-bit_at}
use pcd_file_system.Inode.Search.{Full}
use pcd_file_system.Inode.Blocks.{find_block_by_num}
use pcd_file_system.Inode.Blocks.Find.{
  IsIndexed, Usable, Leads, at_double, find_block_by_num-Leads, find_block_by_num-third_level,
}

abbrev node : Inode
node = record {
  mode = 438;
  uid = 1;
  gid = 2;
  padding = 0;
  size = 5000000;
  last_accessed = 10;
  last_modified = 20;
  direct_blo = λ i. 0;
  single_ind = 1900;
  double_ind = 1901;
  triple_ind = 1902;
  link_count = 1;
}

node-IsInode : IsInode node
node-IsInode = omega arith

-- The inodes 0 to 3 are in use; inode 3 is `node`, whose blocks of ids lead to 77.
abbrev laid_out : ℕ → Block
laid_out a =
    if a == 0
    then encode_sb zero_block (initial_sb 0)
    else if a == 1
    then (λ o. if ltb o 4 then 1 else 0)
    else if a == 11
    then put_inode zero_block 384 node
    else if a == 1901
    then set_word zero_block 3 1903
    else if a == 1902
    then set_word zero_block 1 1904
    else if a == 1903
    then set_word zero_block 5 77
    else zero_block

abbrev start : Fs (Disk (ℕ → Block))
start = record {
  disk = full laid_out;
  super = initial_sb 0;
  bitmap = zero_block;
  target_node = node;
}

-- the disk through the cache
abbrev on_disk : ℕ → Block
on_disk = block_in (full laid_out)

seen : on_disk ≡ laid_out
seen = block_in-full laid_out λ a out. ground arith

initial-IsSb : IsSb (initial_sb 0)
unfolding initial_sb
initial-IsSb = omega arith

super_start : super' held held-IsDisk zero_block start ≡ initial_sb 0
super_start =
    super_of-encode_sb held held-IsDisk zero_block (full laid_out) (initial_sb 0)
      (ap (λ v. v 0) seen) initial-IsSb

start-IsLaidOut : IsLaidOut (super' held held-IsDisk zero_block start)
unfolding initial_sb
start-IsLaidOut = rw super_start (omega arith)

start-IsIndexed : IsIndexed (super' held held-IsDisk zero_block start)
unfolding initial_sb
start-IsIndexed = rw super_start (omega arith)

start-HasInode : HasInode held held-IsDisk zero_block start 3
unfolding bit_at
start-HasInode = record {
  good = (full-AreHeld laid_out);
  laid = start-IsLaidOut;
  small = omega arith;
  near = record { bitmap = refl; list = refl };
  bit = rw seen (omega arith);
}

start-HasInode_0 : HasInode held held-IsDisk zero_block start 0
unfolding bit_at
start-HasInode_0 = record {
  good = (full-AreHeld laid_out);
  laid = start-IsLaidOut;
  small = omega arith;
  near = record { bitmap = refl; list = refl };
  bit = rw seen (omega arith);
}

start-node_at : node_at on_disk 3 ≡ node
unfolding node_at
start-node_at = rw seen (decode_inode-put_inode zero_block 384 node node-IsInode)

id_3 : word (set_word zero_block 3 1903) 3 ≡ 1903
id_3 = word-set_word zero_block 3 1903

id_1 : word (set_word zero_block 1 1904) 1 ≡ 1904
id_1 = word-set_word zero_block 1 1904

id_5 : word (set_word zero_block 5 77) 5 ≡ 77
id_5 = word-set_word zero_block 5 77

decode_inode-put_inode_example : decode_inode (shift (put_inode zero_block 384 node) 384) ≡ node
decode_inode-put_inode_example = decode_inode-put_inode zero_block 384 node node-IsInode

write_field-Stores_example :
    Returns
      (λ _ s'.
        AreHeld InCache s'.disk
        × Stores on_disk (block_in s'.disk) 3 (with_uid 9 (node_at on_disk 3))
        × (s'.target_node ≡ with_uid 9 (node_at on_disk 3)))
      (write_field held zero_block (with_uid 9) 3 start)
write_field-Stores_example =
    write_field-Stores held held-IsDisk zero_block start 3 start-HasInode (with_uid 9)
      (rw start-node_at (omega arith))

write-read_example :
    Gives held held-IsDisk zero_block start
      (inode_write_uid held zero_block 3 8 >> inode_read_uid held zero_block 3)
      8
    × Gives held held-IsDisk zero_block start
        (inode_write_gid held zero_block 3 8 >> inode_read_gid held zero_block 3)
        8
    × Gives held held-IsDisk zero_block start
        (inode_write_mode held zero_block 3 8 >> inode_read_mode held zero_block 3)
        8
    × Gives held held-IsDisk zero_block start
        (set_inode_size held zero_block 3 8 >> inode_read_size held zero_block 3)
        8
    × Gives held held-IsDisk zero_block start
        (inode_write_last_accessed held zero_block 3 8
          >> inode_read_last_accessed held zero_block 3)
        8
    × Gives held held-IsDisk zero_block start
        (inode_write_last_modified held zero_block 3 8
          >> inode_read_last_modified held zero_block 3)
        8
write-read_example =
    write-read held held-IsDisk zero_block start 3 8 start-HasInode (rw start-node_at node-IsInode)
      (omega arith)

-- block 12 + 1024 + 1024 * 3 + 5 of the inode
start-Leads :
    Leads
      (Usable held held-IsDisk zero_block (super' held held-IsDisk zero_block start))
      on_disk
      (node_at on_disk 3)
      4113
      77
unfolding initial_sb
start-Leads =
    rw (super_start, start-node_at)
      (at_double 3 5 (omega arith) (omega arith) refl (omega arith, refl)
        (rw (seen, id_3) (omega arith, refl)) (rw (seen, id_3) id_5))

find_block_by_num-Leads_example :
    Returns
      (λ r s'. (r ≡ 77) × AreHeld InCache s'.disk × ((a : ℕ) → block_in s'.disk a ≡ on_disk a))
      (find_block_by_num held zero_block 3 4113 start)
find_block_by_num-Leads_example =
    find_block_by_num-Leads held held-IsDisk zero_block start 3 4113 start-HasInode start-IsIndexed
      77 start-Leads (omega arith)

start-triple :
    Usable held held-IsDisk zero_block
      (super' held held-IsDisk zero_block start)
      (node_at on_disk 3).triple_ind
unfolding initial_sb
start-triple = rw (super_start, start-node_at) (omega arith, refl)

start-triple_1 :
    Usable held held-IsDisk zero_block
      (super' held held-IsDisk zero_block start)
      (word (on_disk (node_at on_disk 3).triple_ind) 1)
unfolding initial_sb
start-triple_1 = rw (super_start, start-node_at, seen, id_1) (omega arith, refl)

find_block_by_num-third_level_example : find_block_by_num held zero_block 3 2098188 start ≡ crash
find_block_by_num-third_level_example =
    find_block_by_num-third_level held held-IsDisk zero_block start 3 2098188 start-HasInode
      start-IsIndexed (omega arith) (omega arith) start-triple start-triple_1

start-HasInode_1 : HasInode held held-IsDisk zero_block start 1
unfolding bit_at
start-HasInode_1 = record {
  good = (full-AreHeld laid_out);
  laid = start-IsLaidOut;
  small = omega arith;
  near = record { bitmap = refl; list = refl };
  bit = rw seen (omega arith);
}

size_1 : (node_at on_disk 1).size ≡ 0
unfolding node_at decode_inode put_inode long word
size_1 = rw seen refl

-- inode 1 is freed, and the byte of inode 2 is cleared
inode_free-bit_at_example :
    Returns
      (λ _ s'.
        AreHeld InCache s'.disk
        × (bit_at (block_in s'.disk) 2 ≡ 0)
        × ((j : ℕ) → j ≢ 2 → bit_at (block_in s'.disk) j ≡ bit_at on_disk j))
      (inode_free held zero_block 1 start)
inode_free-bit_at_example =
    inode_free-bit_at held held-IsDisk zero_block start 1 start-HasInode_1 size_1 (omega arith)
