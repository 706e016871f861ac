-- ===== src/Syscall/Io/Wrote.antt =====
-- pcd_write of syscall.c within a file, on a path that leads to it.
use mathlib.Core.Path.{subst}
use pcd_file_system.Prelude.{
  ℕ, suc, ◌+◌, ◌*◌, ◌%◌, ◌^◌, ◌≤◌, ◌<◌, ◌≡◌, ◌≢◌, refl, ap, ◌∙◌, List, arith,
}
use pcd_file_system.Prelude.Run.{Returns, returned, returns}
use pcd_file_system.Block.{Block}
use pcd_file_system.Disk.Contract.{DiskOps, IsDisk}
use pcd_file_system.Sb.{Sb}
use pcd_file_system.Inode.{Fs, Inode}
use pcd_file_system.Inode.Layout.{IsInode}
use pcd_file_system.Inode.Store.{node_at, blocks}
use pcd_file_system.Inode.Update.{Stores}
use pcd_file_system.Inode.Access.{write_field-Stores}
use pcd_file_system.Inode.Fields.{with_last_modified, inode_write_last_modified}
use pcd_file_system.Inode.Blocks.Find.{IsIndexed, Leads, Usable}
use pcd_file_system.Inode.Writes.Blocks.{AreBlocks, Writable}
use pcd_file_system.Inode.Writes.InPlace.{Outcome}
use pcd_file_system.Inode.Writes.Whole.{write_file-Written}
use pcd_file_system.Path.Names.{AreNames, path_of}
use pcd_file_system.Syscall.{on_result}
use pcd_file_system.Syscall.Lookup.Resolve.{
  Holds, InUse, Resolves, Holds-Ready, find_inode-Resolves,
}
use pcd_file_system.Syscall.Io.{pcd_write}

module _ (ops : DiskOps) (disk : IsDisk ops) (junk : Block) (super : Sb) (ix : IsIndexed super)
    (v : ℕ → Block) (inum : ℕ) (n : Inode) (ids : ℕ → ℕ) (count : ℕ)
    (are : AreBlocks ops disk junk super ids count) where
  open ops use {State}
  open disk use {Good}

  -- the bytes are written first, and then the time
  pub record Wrote (now : ℕ) (buf : Block) (size offset : ℕ) (s' : Fs State) : Type 0 where
    pub between : Fs State
    pub bytes : Outcome ops disk junk super ix inum n ids count are v buf 0 offset size size between
    pub good : Good s'.disk
    pub stored : Stores bytes.disk_after (blocks ops disk junk s') inum (with_last_modified now n)

  -- On a disk that mkfs laid out, where the blocks that are used are within the contract of disk.c
  -- (they are while they are in the cache), on a path of names that leads from the root to a file
  -- in use that can be written as in write_file-Written, pcd_write of one byte or more within the
  -- size of the file, below 2^31 and the limits of the super block, returns the size; the bytes
  -- are in the file, all other bytes and blocks are as before, and then the time of the last
  -- modification is stored, with no other change.
  pub pcd_write-Wrote :
      (names : List (List ℕ)) (s : Fs State) (now depth : ℕ) (buf : Block) (size offset : ℕ)
      → AreNames names
      → Holds ops disk junk super ix v s
      → Resolves ops disk junk super ix v 0 names inum
      → InUse ops disk junk super ix v inum
      → node_at v inum ≡ n
      → IsInode (with_last_modified now n)
      → ((k : ℕ)
          → k < count
          → Leads
              (λ b. Usable ops disk junk super b × ((j : ℕ) → j < count → ids j ≢ b))
              v
              n
              k
              (ids k))
      → 0 < size
      → offset + size ≤ n.size
      → n.size ≤ 4096 * count
      → offset + size < 2 ^ 31
      → offset + size ≤ super.filesize
      → offset + size ≤ super.max_file_size
      → Returns
          (λ r s'. (r ≡ size) × Wrote now buf size offset s')
          (pcd_write ops junk now (suc depth) (path_of names) buf size offset s)
  unfolding pcd_write on_result inode_write_last_modified
  pcd_write-Wrote names s now depth buf size offset are_names h leads u node is blocks_lead
        some_bytes le whole lt room room' =
      let (r1, s1, e1, w1) =
        returned (find_inode-Resolves ops disk junk super ix v names inum s are_names h leads) in
      let writable : Writable ops disk junk super ix inum n ids count are v s1 = record {
        readable = Holds-Ready ops disk junk super ix v inum ids s1 w1.1 u;
        node = node;
        leads = blocks_lead;
      } in
      let size' : size % 2 ^ 32 ≡ size = omega arith in
      let offset' : offset % 2 ^ 32 ≡ offset = omega arith in
      let (r2, s2, e2, o) = returned (
        write_file-Written ops disk junk super ix inum n ids count are depth v buf size offset s1
          writable some_bytes le whole lt room room') in
      let o' : Outcome ops disk junk super ix inum n ids count are v buf 0 offset size size s2 =
        record {
          length = omega arith;
          disk_after = o.disk_after;
          writable = o.writable;
          written = o.written;
        } in
      let r = o.writable.readable in
      let node_now : node_at (blocks ops disk junk s2) inum ≡ n =
        ap (λ w. node_at w inum) r.same ∙ o.writable.node in
      let (_, s3, e3, w3) = returned (
        write_field-Stores ops disk junk s2 inum r.has (with_last_modified now) (rw node_now is)) in
      let st =
        subst (λ w. Stores w (blocks ops disk junk s3) inum (with_last_modified now n)) r.same
          (subst
            (λ m.
              Stores (blocks ops disk junk s2) (blocks ops disk junk s3) inum
                (with_last_modified now m))
            node_now w3.1) in
      rw (e1, w1.0, size', offset', e2, e3)
        (returns (refl, record { between = s2; bytes = o'; good = w3.0; stored = st }))
