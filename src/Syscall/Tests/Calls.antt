-- ===== src/Syscall/Tests/Calls.antt =====
-- The theorems on paths, types and system calls, on the disk of the tests.
use pcd_file_system.Prelude.{◌≡◌, refl, [], ◌∷◌, ◌||◌, arith, ◌==◌}
use pcd_file_system.Prelude.Run.{Returns, ok}
use pcd_file_system.Block.{zero_block}
use pcd_file_system.Disk.Cache.Hits.{block_in}
use pcd_file_system.Disk.Cache.Full.{held, held-IsDisk}
use pcd_file_system.Prelude.{ℕ}
use pcd_file_system.Block.{Block}
use pcd_file_system.Sb.{initial_sb}
use pcd_file_system.Db.{uint_max}
use pcd_file_system.Inode.Store.{node_at}
use pcd_file_system.Inode.Fields.{with_last_accessed}
use pcd_file_system.Syscall.Io.{pcd_write}
use pcd_file_system.Path.{slash, get_parent}
use pcd_file_system.Path.Names.{get_parent-slash}
use pcd_file_system.Syscall.{file_type, has_dir_bit}
use pcd_file_system.Syscall.Modes.{has_dir_bit-file_type}
use pcd_file_system.Syscall.Stored.{Sets, owned, attributes-Sets}
use pcd_file_system.Syscall.Remove.{pcd_unlink}
use pcd_file_system.Syscall.Attributes.{pcd_chmod, pcd_chown, pcd_utimens}
use pcd_file_system.Inode.Fields.{with_mode, with_last_modified}
use pcd_file_system.Syscall.Lookup.Resolve.{here}
use pcd_file_system.Path.Names.{path_of}
use pcd_file_system.Path.Parents.{snoc}
use pcd_file_system.Syscall.Remove.Unlink.{IsLink, Unlinked, pcd_unlink-Unlinked}
use pcd_file_system.Syscall.Lookup.{follow}
use pcd_file_system.Syscall.Lookup.Rounds.{follow-enough}
use pcd_file_system.Syscall.Io.Wrote.{Wrote, pcd_write-Wrote}
use pcd_file_system.Syscall.Tests.{
  name, root_node-IsInode, tree, begin, indexed, begin-Holds, file-InUse, root_at, file_at,
  file_ids, root-Resolves, looked_up, found, root-HasInode, root_ids, root-AreBlocks, third,
  root-InUse, root-HasEntries, root-IsFirst, root-inum, root-Writable, file_node-IsInode, root_node,
  file-Writable, file-AreBlocks, file_node,
}

get_parent-slash_example :
    (get_parent {S = Unit {0}} (slash ∷ name) tt
      ≡ ok (record { parent_path = slash ∷ []; parent = slash ∷ []; file_name = name }) tt)
    × (get_parent {S = Unit {0}} (slash ∷ 97 ∷ slash ∷ 98 ∷ slash ∷ name) tt
        ≡ ok
            (record {
              parent_path = slash ∷ 97 ∷ slash ∷ 98 ∷ [];
              parent = 98 ∷ [];
              file_name = name;
            })
            tt)
get_parent-slash_example =
    get_parent-slash (slash ∷ name) (98 ∷ []) name tt refl refl (omega arith) (omega arith)

-- a block device
has_dir_bit-file_type_example :
    has_dir_bit 25000 ≡ (file_type 25000 == 100 || file_type 25000 == 98 || file_type 25000 == 115)
unfolding file_type
has_dir_bit-file_type_example = has_dir_bit-file_type 25000 (omega arith)

-- what the blocks hold after the root was looked up
abbrev found_blocks : ℕ → Block
found_blocks = block_in found.disk

-- uid 2^32 - 1 leaves the owner as it is
attributes-Sets_example :
    Sets held held-IsDisk zero_block found 0
      (with_mode 16832 (node_at found_blocks 0))
      (pcd_chmod held zero_block (slash ∷ []) 16832 begin)
    × Sets held held-IsDisk zero_block found 0
        (owned uint_max 7 (node_at found_blocks 0))
        (pcd_chown held zero_block (slash ∷ []) uint_max 7 begin)
    × Sets held held-IsDisk zero_block found 0
        (with_last_modified 9 (with_last_accessed 8 (node_at found_blocks 0)))
        (pcd_utimens held zero_block (slash ∷ []) 8 9 begin)
attributes-Sets_example =
    attributes-Sets held held-IsDisk zero_block (slash ∷ []) begin found 0 looked_up.1 root-HasInode
      (rw looked_up.2.same (rw root_at root_node-IsInode)) 16832 uint_max 7 8 9 (omega arith)
      (omega arith) (omega arith) (omega arith) (omega arith)

file-IsLink :
    IsLink held held-IsDisk zero_block
      (initial_sb 0)
      indexed
      tree
      []
      name
      0
      3
      2
      32
      root_node
      root_ids
      1
      root-AreBlocks
      third
unfolding initial_sb has_dir_bit
file-IsLink = record {
  names_are = tt;
  names_short = tt;
  is_name = refl;
  name_short = omega arith;
  parent = here;
  dir_used = root-InUse;
  dir_node = root_at;
  entries = root-HasEntries;
  first = root-IsFirst;
  inum = root-inum;
  leads = root-Writable.leads;
  room = omega arith;
  room1 = omega arith;
  room2 = omega arith;
  file_used = file-InUse;
  is_file = rw file_at (ground arith);
  is_inode = rw file_at file_node-IsInode;
  links = rw file_at (omega arith);
}

pcd_unlink-Unlinked_example :
    Returns
      (λ r s'.
        (r ≡ 0)
        × Unlinked held held-IsDisk zero_block
            (initial_sb 0)
            indexed
            tree
            []
            name
            0
            3
            2
            32
            root_node
            root_ids
            1
            root-AreBlocks
            third
            file-IsLink
            0
            s')
      (pcd_unlink held zero_block 1 (path_of (snoc [] name)) begin)
pcd_unlink-Unlinked_example =
    pcd_unlink-Unlinked held held-IsDisk zero_block (initial_sb 0) indexed tree [] name 0 3 2 32
      root_node root_ids 1 root-AreBlocks third file-IsLink 0 begin begin-Holds

follow-enough_example :
    follow held zero_block 1 0 name begin ≡ follow held zero_block 5 0 name begin
follow-enough_example = follow-enough held zero_block 1 5 0 name begin (omega arith) (omega arith)

pcd_write-Wrote_example :
    Returns
      (λ r s'.
        (r ≡ 500)
        × Wrote held held-IsDisk zero_block
            (initial_sb 0)
            indexed
            tree
            32
            file_node
            file_ids
            1
            file-AreBlocks
            99
            (λ o. 255)
            500
            100
            s')
      (pcd_write held zero_block 99 1 (path_of (name ∷ [])) (λ o. 255) 500 100 begin)
unfolding initial_sb
pcd_write-Wrote_example =
    pcd_write-Wrote held held-IsDisk zero_block (initial_sb 0) indexed tree 32 file_node file_ids 1
      file-AreBlocks (name ∷ []) begin 99 0 (λ o. 255) 500 100 (refl, tt) begin-Holds root-Resolves
      file-InUse file_at (ground arith) file-Writable.leads (omega arith) (omega arith)
      (omega arith) (omega arith) (omega arith) (omega arith)
