-- ===== src/Syscall/Tests/Files.antt =====
-- The theorems on files and directories, on the disk of the tests.
use pcd_file_system.Prelude.{ℕ, ◌<◌, ◌≡◌, refl, false, [], ◌∷◌, some, arith}
use pcd_file_system.Prelude.Run.{Returns, Ends, ◌>>◌}
use pcd_file_system.Block.{zero_block}
use pcd_file_system.Disk.Cache.Full.{held, held-IsDisk}
use pcd_file_system.Sb.{initial_sb}
use pcd_file_system.Inode.Files.Read.{IsRead, file_byte}
use pcd_file_system.Inode.Files.Bytes.{Readable, read_file-IsRead}
use pcd_file_system.Inode.Files.{read_file}
use pcd_file_system.Inode.Writes.{write_file}
use pcd_file_system.Inode.Writes.InPlace.{Outcome}
use pcd_file_system.Inode.Writes.Whole.{write_file-Written, write_file-read_file}
use pcd_file_system.Syscall.Entries.{delete_dirent}
use pcd_file_system.Syscall.Entries.Delete.{TakenOut, delete_dirent-TakenOut}
use pcd_file_system.Dir.Entry.{put_entry-fields}
use pcd_file_system.Dir.{put_entry, same_name, entry_inum, name_off}
use pcd_file_system.Syscall.Lookup.First.{Hit, Miss, find_inode_index-First}
use pcd_file_system.Syscall.Lookup.Resolve.{Holds, Holds-Ready, find_inode-Resolves}
use pcd_file_system.Path.Names.{path_of}
use pcd_file_system.Syscall.Lookup.{find_inode_index, find_inode}
use pcd_file_system.Syscall.Tests.{
  name, root_node, file_node, tree, begin, indexed, begin-Holds, root-InUse, file_at, root_ids,
  file_ids, third, root-HasEntries, root-IsFirst, root-Resolves, file-AreBlocks, file-Readable,
  file-HasBlock, file-Writable, root-AreBlocks, root-Writable,
}

find_inode-Resolves_example :
    Returns
      (λ r s'. (r ≡ 32) × Holds held held-IsDisk zero_block (initial_sb 0) indexed tree s')
      (find_inode held zero_block (path_of (name ∷ [])) begin)
find_inode-Resolves_example =
    find_inode-Resolves held held-IsDisk zero_block (initial_sb 0) indexed tree (name ∷ []) 32 begin
      (refl, tt) begin-Holds root-Resolves

find_inode_index-First_example :
    Ends
      (Hit held held-IsDisk zero_block (initial_sb 0) indexed tree 0 root_ids third 3)
      (Miss held held-IsDisk zero_block (initial_sb 0) indexed tree 0 root_ids third 3)
      (find_inode_index held zero_block 0 name begin)
find_inode_index-First_example =
    find_inode_index-First held held-IsDisk zero_block (initial_sb 0) indexed tree 0 root_ids name
      third 3 root-HasEntries begin
      (Holds-Ready held held-IsDisk zero_block (initial_sb 0) indexed tree 0 root_ids begin
        begin-Holds root-InUse)

read_file-IsRead_example :
    Returns
      (λ r s'.
        IsRead (file_byte tree file_ids) zero_block 0 500 100 r.0 r.1
        × Readable held held-IsDisk zero_block (initial_sb 0) indexed tree 32 file_ids s')
      (read_file held zero_block 32 zero_block 500 100 begin)
read_file-IsRead_example =
    read_file-IsRead held held-IsDisk zero_block (initial_sb 0) indexed tree 32 file_ids zero_block
      500 100 begin file-Readable (omega arith) (rw file_at (omega arith)) (omega arith)
      (λ k ge lt. file-HasBlock k (omega arith))

-- 255 at the offsets 100 to 599
write_file-Written_example :
    Returns
      (Outcome held held-IsDisk zero_block
        (initial_sb 0)
        indexed
        32
        file_node
        file_ids
        1
        file-AreBlocks
        tree
        (λ o. 255)
        0
        100
        500)
      (write_file held zero_block 1 32 (λ o. 255) 500 100 begin)
unfolding initial_sb
write_file-Written_example =
    write_file-Written held held-IsDisk zero_block (initial_sb 0) indexed 32 file_node file_ids 1
      file-AreBlocks 0 tree (λ o. 255) 500 100 begin file-Writable (omega arith) (omega arith)
      (omega arith) (omega arith) (omega arith) (omega arith)

write_file-read_file_example :
    Returns
      (λ r s'. (r.0 ≡ 500) × ((k : ℕ) → k < 500 → r.1 k ≡ 255))
      ((write_file held zero_block 1 32 (λ o. 255) 500 100
          >> read_file held zero_block 32 zero_block 500 100)
        begin)
unfolding initial_sb
write_file-read_file_example =
    write_file-read_file held held-IsDisk zero_block (initial_sb 0) indexed 32 file_node file_ids 1
      file-AreBlocks 0 tree (λ o. 255) zero_block 500 100 begin file-Writable (omega arith)
      (omega arith) (omega arith) (omega arith) (omega arith) (omega arith)

delete_dirent-TakenOut_example :
    Returns
      (TakenOut held held-IsDisk zero_block
        (initial_sb 0)
        indexed
        0
        root_node
        root_ids
        1
        root-AreBlocks
        tree
        3
        2)
      (delete_dirent held zero_block 1 0 name begin)
unfolding initial_sb
delete_dirent-TakenOut_example =
    delete_dirent-TakenOut held held-IsDisk zero_block (initial_sb 0) indexed 0 root_node root_ids 1
      root-AreBlocks tree name third 3 2 root-HasEntries root-IsFirst refl (omega arith)
      (omega arith) (omega arith) 0 begin root-Writable

put_entry-fields_example :
    (entry_inum (put_entry zero_block 32 45 name) ≡ 32)
    × (put_entry zero_block 32 45 name 4 ≡ 45)
    × (same_name (put_entry zero_block 32 45 name) name_off (98 ∷ []) ≡ some false)
put_entry-fields_example =
    put_entry-fields zero_block 32 45 name (98 ∷ []) (omega arith, omega arith, tt)
      (omega arith, omega arith, tt) (omega arith)
