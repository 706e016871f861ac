-- ===== src/Inode/Counted.antt =====
-- inode_reduce_link_count of inode.c, for an inode with two links or more.
use mathlib.Core.Path.{subst}
use pcd_file_system.Prelude.{ℕ, ◌+◌, ◌-◌, ◌%◌, ◌^◌, ◌≤◌, ◌≡◌, ap, false, arith, ◌==◌}
use pcd_file_system.Prelude.Run.{Returns, returned, mono}
use pcd_file_system.Block.{Block}
use pcd_file_system.Disk.Contract.{DiskOps, IsDisk}
use pcd_file_system.Sb.Store.{super_of-same}
use pcd_file_system.Inode.{Fs, Inode}
use pcd_file_system.Inode.Layout.{IsInode}
use pcd_file_system.Inode.Store.{node_at, blocks}
use pcd_file_system.Inode.Update.{Stores, write_inode_to_disk-Stores}
use pcd_file_system.Inode.Access.{HasInode, load_target_lem}
use pcd_file_system.Inode.Life.{inode_reduce_link_count}

-- the node with one link less
abbrev pub one_less : Inode → Inode
one_less n = record n { link_count = n.link_count - 1 }

module _ (ops : DiskOps) (disk : IsDisk ops) (junk : Block) where
  open ops use {State}
  open disk use {Good}

  abbrev blocks' : Fs State → ℕ → Block
  blocks' s = blocks ops disk junk s

  -- The inode is stored with one link less, and no other changes.
  pub inode_reduce_link_count-Stores :
      (s : Fs State) (inum : ℕ)
      → HasInode ops disk junk s inum
      → IsInode (node_at (blocks' s) inum)
      → 2 ≤ (node_at (blocks' s) inum).link_count
      → Returns
          (λ _ s'.
            Good s'.disk
            × Stores (blocks' s) (blocks' s') inum (one_less (node_at (blocks' s) inum)))
          (inode_reduce_link_count ops junk inum s)
  unfolding inode_reduce_link_count
  inode_reduce_link_count-Stores s inum h is links =
      let (m, s1, e1, w1) = returned (load_target_lem ops disk junk s inum h) in
      let (value, t, g1, same) = w1 in
      let n = node_at (blocks' s) inum in
      let less : (n.link_count + 2 ^ 32 - 1) % 2 ^ 32 ≡ n.link_count - 1 =
        omega (arith, is.link_count) in
      let some_left : (n.link_count - 1 == 0) ≡ false = ground arith in
      let s2 : Fs State = record s1 { target_node = one_less n } in
      let sup = super_of-same ops disk junk s.disk s1.disk (ap (λ v. v 0) same) in
      rw (e1, value, less, some_left)
        (mono
          (write_inode_to_disk-Stores ops disk junk s2 inum (one_less n) g1 (rw sup h.laid)
            (omega arith) h.small h.near)
          λ _ s3 (g3, st, t3). (g3, subst (λ v. Stores v (blocks' s3) inum (one_less n)) same st))
