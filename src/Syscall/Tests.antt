-- ===== src/Syscall/Tests.antt =====
-- A disk with a root directory that holds one file, as it is laid out, and what the theorems on
-- syscall.c ask of it.
pub mod Files
pub mod Calls
use mathlib.Core.Path.{subst}
use pcd_file_system.Prelude.{
  ℕ, ◌+◌, ◌-◌, ◌<◌, ◌≡◌, refl, sym, ap, Bool, true, false, List, [], ◌∷◌, some, none, ◌||◌, arith,
  ltb, ◌==◌, if◌then◌else◌,
}
use pcd_file_system.Prelude.Run.{Returns, Ends, ok, ◌>>◌}
use pcd_file_system.Block.{Block, zero_block, byte_of, set_word, set_byte, word, overlay}
use pcd_file_system.Disk.Cache.{Disk}
use pcd_file_system.Disk.Cache.Hits.{block_in}
use pcd_file_system.Disk.Cache.Full.{full, full-AreHeld, block_in-full, held, held-IsDisk}
use pcd_file_system.Prelude.Run.{returned}
use pcd_file_system.Prelude.{◌∙◌}
use pcd_file_system.Path.Names.{join}
use pcd_file_system.Sb.{initial_sb, encode_sb}
use pcd_file_system.Sb.Store.{IsSb, super_of-encode_sb}
use pcd_file_system.Db.{uint_max}
use pcd_file_system.Inode.{Fs, Inode, put_inode}
use pcd_file_system.Inode.Layout.{IsInode, decode_inode-put_inode}
use pcd_file_system.Inode.Store.{IsLaidOut, node_at, bit_at, super'}
use pcd_file_system.Inode.Blocks.Find.{IsIndexed, at_direct}
use pcd_file_system.Inode.Files.Read.{IsRead, file_byte}
use pcd_file_system.Inode.Files.Bytes.{HasBlock, Readable, read_file-IsRead}
use pcd_file_system.Inode.Files.{read_file}
use pcd_file_system.Inode.Fields.{with_last_accessed}
use pcd_file_system.Inode.Update.{Stores}
use pcd_file_system.Inode.Writes.{write_file}
use pcd_file_system.Inode.Writes.Blocks.{AreBlocks, Writable}
use pcd_file_system.Inode.Writes.InPlace.{Outcome}
use pcd_file_system.Inode.Writes.Whole.{write_file-Written, write_file-read_file}
use pcd_file_system.Syscall.Entries.{delete_dirent}
use pcd_file_system.Syscall.Entries.Delete.{TakenOut, delete_dirent-TakenOut}
use pcd_file_system.Syscall.Io.{
  Filled, zeroed, pcd_readdir, pcd_read, pcd_write, pcd_truncate, pcd_open,
}
use pcd_file_system.Syscall.Served.{stat_of}
use pcd_file_system.Getattr.{no_stat, pcd_getattr}
use pcd_file_system.Path.{slash, get_parent}
use pcd_file_system.Path.Names.{get_parent-slash}
use pcd_file_system.Dir.Entry.{put_entry-fields}
use pcd_file_system.Syscall.{minus_one, minus_enoent, file_type, file_type_to_mode_t, has_dir_bit}
use pcd_file_system.Syscall.Modes.{has_dir_bit-file_type}
use pcd_file_system.Syscall.Stored.{Sets, owned, attributes-Sets}
use pcd_file_system.Syscall.Remove.{pcd_unlink, pcd_rmdir}
use pcd_file_system.Syscall.Links.{pcd_rename, pcd_link}
use pcd_file_system.Syscall.Attributes.{pcd_chmod, pcd_chown, pcd_utimens}
use pcd_file_system.Inode.Access.{HasInode}
use pcd_file_system.Syscall.Lookup.{follow_root, follow}
use pcd_file_system.Inode.Fields.{get_root_inum, with_mode, with_last_modified}
use pcd_file_system.Inode.{load_super, lift}
use pcd_file_system.Sb.{sb_read, decode_sb, sb_words}
use pcd_file_system.Block.{long}
use pcd_file_system.Dir.{put_name, put_entry, same_name, entry_inum, name_off}
use pcd_file_system.Syscall.Lookup.First.{
  IsFirst, entry_at, HasEntries, IsDirectory, Hit, Miss, find_inode_index-First,
}
use pcd_file_system.Syscall.Lookup.Resolve.{
  Holds, InUse, Resolves, here, below, Holds-Ready, find_inode-Resolves,
}
use pcd_file_system.Path.Names.{path_of}
use pcd_file_system.Syscall.Lookup.{find_inode_index, find_inode}

-- "a"
abbrev pub name : List ℕ
name = 97 ∷ []

-- a filler that counts the names
abbrev pub counting : ℕ → Filled → Bool × ℕ
counting n f = (false, n + 1)

abbrev pub root_node : Inode
root_node = record {
  mode = 16877;
  uid = 1;
  gid = 2;
  padding = 0;
  size = 792;
  last_accessed = 10;
  last_modified = 20;
  direct_blo = λ i. if i == 0 then 1300 else 0;
  single_ind = 0;
  double_ind = 0;
  triple_ind = 0;
  link_count = 1;
}

abbrev pub file_node : Inode
file_node = record {
  mode = 33188;
  uid = 1;
  gid = 2;
  padding = 0;
  size = 600;
  last_accessed = 10;
  last_modified = 20;
  direct_blo = λ i. if i == 0 then 1301 else 0;
  single_ind = 0;
  double_ind = 0;
  triple_ind = 0;
  link_count = 2;
}

pub root_node-IsInode : IsInode root_node
root_node-IsInode = ground arith

pub file_node-IsInode : IsInode file_node
file_node-IsInode = ground arith

-- The directory's third entry is for the file, the inode 32.
abbrev pub layout : ℕ → Block
layout a =
    if a == 0
    then encode_sb zero_block (initial_sb 0)
    else if a == 1
    then (λ o. if ltb o 33 then 1 else 0)
    else if a == 11
    then put_inode zero_block 0 root_node
    else if a == 12
    then put_inode zero_block 0 file_node
    else if a == 1300
    then (λ o. if ltb o 528 then 0 else put_entry zero_block 32 45 name (o - 528))
    else zero_block

-- the disk through the cache
abbrev pub tree : ℕ → Block
tree = block_in (full layout)

pub seen : tree ≡ layout
seen = block_in-full layout λ a out. ground arith

abbrev pub begin : Fs (Disk (ℕ → Block))
begin = record {
  disk = full layout;
  super = initial_sb 0;
  bitmap = zero_block;
  target_node = root_node;
}

pub initial-IsSb : IsSb (initial_sb 0)
unfolding initial_sb
initial-IsSb = omega arith

pub super_begin : super' held held-IsDisk zero_block begin ≡ initial_sb 0
super_begin =
    super_of-encode_sb held held-IsDisk zero_block (full layout) (initial_sb 0) (ap (λ v. v 0) seen)
      initial-IsSb

pub begin-IsLaidOut : IsLaidOut (super' held held-IsDisk zero_block begin)
unfolding initial_sb
begin-IsLaidOut = rw super_begin (omega arith)

pub indexed : IsIndexed (initial_sb 0)
unfolding initial_sb
indexed = omega arith

pub begin-Holds : Holds held held-IsDisk zero_block (initial_sb 0) indexed tree begin
begin-Holds = record {
  good = full-AreHeld layout;
  laid = begin-IsLaidOut;
  super_same = super_begin;
  same = refl;
}

pub root-InUse : InUse held held-IsDisk zero_block (initial_sb 0) indexed tree 0
unfolding bit_at
root-InUse = record {
  small = omega arith;
  near = record { bitmap = refl; list = refl };
  bit = rw seen (omega arith);
}

pub file-InUse : InUse held held-IsDisk zero_block (initial_sb 0) indexed tree 32
unfolding bit_at
file-InUse = record {
  small = omega arith;
  near = record { bitmap = refl; list = refl };
  bit = rw seen (omega arith);
}

pub root_at : node_at tree 0 ≡ root_node
unfolding node_at
root_at = rw seen (decode_inode-put_inode zero_block 0 root_node root_node-IsInode)

pub file_at : node_at tree 32 ≡ file_node
unfolding node_at
file_at = rw seen (decode_inode-put_inode zero_block 0 file_node file_node-IsInode)

-- the blocks of the two files
abbrev pub root_ids : ℕ → ℕ
root_ids k = 1300 + k

abbrev pub file_ids : ℕ → ℕ
file_ids k = 1301 + k

pub root-HasBlock : HasBlock held held-IsDisk zero_block (initial_sb 0) tree 0 0 1300
unfolding initial_sb
root-HasBlock = record {
  leads = rw root_at (at_direct (omega arith) refl);
  usable = (omega arith, refl);
  not_max = omega arith;
}

-- the third entry has the name
pub root-names : same_name (entry_at (file_byte tree root_ids) 2) name_off name ≡ some true
unfolding same_name entry_at file_byte put_entry put_name set_word set_byte
root-names = rw seen refl

pub root-inum : entry_inum (entry_at (file_byte tree root_ids) 2) ≡ 32
unfolding entry_inum word entry_at file_byte put_entry put_name set_word set_byte byte_of
root-inum = rw seen refl

abbrev pub third : ℕ → Bool
third k = k == 2

pub root-IsDirectory :
    IsDirectory held held-IsDisk zero_block (initial_sb 0) indexed tree 0 root_ids 3
root-IsDirectory = record {
  size = ap (λ n. n.size) root_at;
  small = omega arith;
  has = λ k lt.
      let e : 0 ≡ k = omega arith in
      subst (λ i. HasBlock held held-IsDisk zero_block (initial_sb 0) tree 0 i (root_ids i)) e
        root-HasBlock;
}

pub root-HasEntries :
    HasEntries held held-IsDisk zero_block (initial_sb 0) indexed tree 0 root_ids name third 3
root-HasEntries = record {
  directory = root-IsDirectory;
  names = λ k ge lt.
      let e : 2 ≡ k = omega arith in
      subst (λ i. same_name (entry_at (file_byte tree root_ids) i) name_off name ≡ some (third i)) e
        root-names;
}

pub root-IsFirst : IsFirst third 3 2
root-IsFirst = record {
  from = omega arith;
  below = omega arith;
  hit = refl;
  before = λ j ge lt. absurd (omega arith);
}

pub root-Resolves :
    Resolves held held-IsDisk zero_block (initial_sb 0) indexed tree 0 (name ∷ []) 32
root-Resolves =
    below root_ids third 3 2 root-InUse root-HasEntries root-IsFirst (rw root-inum (omega arith)) (
      subst (λ i. Resolves held held-IsDisk zero_block (initial_sb 0) indexed tree i [] 32)
        (sym root-inum) here)

pub file-AreBlocks : AreBlocks held held-IsDisk zero_block (initial_sb 0) file_ids 1
unfolding initial_sb
file-AreBlocks = record {
  usable = λ k lt. (omega arith, ground arith);
  is_data = λ k lt. omega arith;
  not_max = λ k lt. omega arith;
  distinct = λ j k j_lt k_lt e. omega arith;
}

pub file-Readable :
    Readable held held-IsDisk zero_block (initial_sb 0) indexed tree 32 file_ids begin
file-Readable =
    Holds-Ready held held-IsDisk zero_block (initial_sb 0) indexed tree 32 file_ids begin
      begin-Holds file-InUse

pub file-HasBlock :
    (k : ℕ) → k < 1 → HasBlock held held-IsDisk zero_block (initial_sb 0) tree 32 k (file_ids k)
unfolding initial_sb
file-HasBlock k lt =
    let e : 0 ≡ k = omega arith in
    subst (λ i. HasBlock held held-IsDisk zero_block (initial_sb 0) tree 32 i (file_ids i)) e
      (record {
        leads = rw file_at (at_direct (omega arith) refl);
        usable = (omega arith, refl);
        not_max = omega arith;
      })

pub file-Writable :
    Writable held held-IsDisk zero_block
      (initial_sb 0)
      indexed
      32
      file_node
      file_ids
      1
      file-AreBlocks
      tree
      begin
file-Writable = record {
  readable = file-Readable;
  node = file_at;
  leads = λ k lt. at_direct (omega arith) (ground arith);
}

pub root-AreBlocks : AreBlocks held held-IsDisk zero_block (initial_sb 0) root_ids 1
unfolding initial_sb
root-AreBlocks = record {
  usable = λ k lt. (omega arith, ground arith);
  is_data = λ k lt. omega arith;
  not_max = λ k lt. omega arith;
  distinct = λ j k j_lt k_lt e. omega arith;
}

pub root-Writable :
    Writable held held-IsDisk zero_block
      (initial_sb 0)
      indexed
      0
      root_node
      root_ids
      1
      root-AreBlocks
      tree
      begin
root-Writable = record {
  readable =
      Holds-Ready held held-IsDisk zero_block (initial_sb 0) indexed tree 0 root_ids begin
        begin-Holds root-InUse;
  node = root_at;
  leads = λ k lt. at_direct (omega arith) (ground arith);
}

-- the root is looked up
pub looked_up :
    (s' : Fs (Disk (ℕ → Block))) × (find_inode held zero_block (slash ∷ []) begin ≡ ok 0 s')
    × Holds held held-IsDisk zero_block (initial_sb 0) indexed tree s'
unfolding path_of join
looked_up =
    let (r, s', e, w) = returned (
      find_inode-Resolves held held-IsDisk zero_block (initial_sb 0) indexed tree [] 0 begin tt
        begin-Holds here) in
    (s', e ∙ ap (λ x. ok x s') w.0, w.1)

abbrev pub found : Fs (Disk (ℕ → Block))
found = looked_up.0

pub root-HasInode : HasInode held held-IsDisk zero_block found 0
root-HasInode =
    (Holds-Ready held held-IsDisk zero_block (initial_sb 0) indexed tree 0 root_ids found
      looked_up.2 root-InUse).has
