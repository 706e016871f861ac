-- ===== src/Inode/Update.antt =====
-- write_inode_to_disk and the inodes of the disk.
use pcd_file_system.Prelude.{
  ◌⊎◌, ℕ, ◌+◌, ◌≤◌, ◌<◌, ◌≡◌, ◌≢◌, refl, true, arith, ltb, ◌==◌, ◌∙◌, if◌then◌else◌, Bool-cases,
  inl, inr,
}
use pcd_file_system.Prelude.Run.{Returns, returns}
use pcd_file_system.Block.{Block}
use pcd_file_system.Disk.Contract.{DiskOps, IsDisk}
use pcd_file_system.Sb.{Sb}
use pcd_file_system.Sb.Store.{super_of-same}
use pcd_file_system.Inode.{Fs, Inode, write_inode_to_disk, put_inode, shift, inode_sizeof}
use pcd_file_system.Inode.Layout.{
  IsInode, decode_inode-put_inode, put_inode-outside, decode_inode-same,
}
use pcd_file_system.Inode.Store.{
  IsLaidOut, IsNear, list_bid, slot, node_at, is_inum_lem, list_bid_lem, slot_lem, blocks, super',
  load_super_lem, read_block_lem, write_block_lem,
}

slots :
    (inum other o : ℕ)
    → list_bid other ≡ list_bid inum
    → other ≢ inum
    → o < inode_sizeof
    → (slot other + o < slot inum) ⊎ (slot inum + inode_sizeof ≤ slot other + o)
slots inum other o same ne lt = elim (Bool-cases (ltb other inum)) [
  | inl below ↦ let less : other < inum = ground arith in inl (omega arith)
  | inr above ↦ let more : inum < other = ground arith in inr (omega arith)
]

-- the inodes but one are the same when its slot is written
node_at-other :
    (v v' : ℕ → Block) (inum other : ℕ) (n : Inode)
    → ((a : ℕ)
        → v' a ≡ (if a == list_bid inum then put_inode (v (list_bid inum)) (slot inum) n else v a))
    → other ≢ inum
    → node_at v' other ≡ node_at v other
unfolding node_at
node_at-other v v' inum other n new ne =
    decode_inode-same (shift (v (list_bid other)) (slot other))
      (shift (v' (list_bid other)) (slot other))
      λ o lt. rw (new (list_bid other)) (elim (Bool-cases (list_bid other == list_bid inum)) [
        | inl e ↦
            let same : list_bid other ≡ list_bid inum = ground arith in
            rw (e, same)
              (put_inode-outside (v (list_bid inum)) (slot inum) n (slot other + o)
                (slots inum other o same ne lt))
        | inr d ↦ rw d
      ])

-- What a write of the inode `inum` leaves, in terms of the blocks `v` before and `v'` after.
pub record Stores (v v' : ℕ → Block) (inum : ℕ) (n : Inode) : Type 0 where
  pub node : node_at v' inum ≡ n
  pub others : (other : ℕ) → other ≢ inum → node_at v' other ≡ node_at v other
  pub outside : (a : ℕ) → a ≢ list_bid inum → v' a ≡ v a

Stores-new :
    (v v' : ℕ → Block) (inum : ℕ) (n : Inode)
    → IsInode n
    → ((a : ℕ)
        → v' a ≡ (if a == list_bid inum then put_inode (v (list_bid inum)) (slot inum) n else v a))
    → Stores v v' inum n
unfolding node_at
Stores-new v v' inum n is new = record {
  node =
      let hit : (list_bid inum == list_bid inum) ≡ true = ground arith in
      rw (new (list_bid inum), hit) (decode_inode-put_inode (v (list_bid inum)) (slot inum) n is);
  others = λ other ne. node_at-other v v' inum other n new ne;
  outside = λ a ne. new a ∙ ground arith;
}

module _ (ops : DiskOps) (disk : IsDisk ops) (junk : Block) where
  open ops use {State}
  open disk use {Good, view}

  abbrev blocks' : Fs State → ℕ → Block
  blocks' s = blocks ops disk junk s

  abbrev super'' : Fs State → Sb
  super'' s = super' ops disk junk s

  module _ (s : Fs State) (inum : ℕ) (n : Inode) (g : Good s.disk) (laid : IsLaidOut (super'' s))
      (is : IsInode n) (lt : inum < 40960) (near : IsNear ops disk junk inum) where
    -- On a disk that mkfs laid out, write_inode_to_disk of an inode below 40960 whose fields fit
    -- their C types sets that inode and no other; the blocks but its own, and target_node, are as
    -- before.
    pub write_inode_to_disk-Stores :
        Returns
          (λ _ s'.
            Good s'.disk
            × Stores (blocks' s) (blocks' s') inum n
            × (s'.target_node ≡ s.target_node))
          (write_inode_to_disk ops junk inum n s)
    unfolding write_inode_to_disk
    write_inode_to_disk-Stores =
        let (d1, e1, g1, same1) = load_super_lem ops disk junk s g in
        let s1 = record s { disk = d1; super = super'' s } in
        let sup1 = super_of-same ops disk junk s.disk d1 (same1 0) in
        let (d2, e2, g2, same2) =
          read_block_lem ops disk junk s1 g1 (list_bid inum)
            (rw sup1 (omega (arith, laid.num_block))) near.list junk in
        let s2 = record s1 { disk = d2 } in
        let sup2 = super_of-same ops disk junk d1 d2 (same2 0) ∙ sup1 in
        let b = put_inode (view d1 (list_bid inum)) (slot inum) n in
        let (d3, e3, g3, new) =
          write_block_lem ops disk junk s2 g2 (list_bid inum)
            (rw sup2 (omega (arith, laid.num_block))) near.list b in
        let new' : (a : ℕ)
            → view d3 a ≡ (
                if a == list_bid inum
                then put_inode (blocks' s (list_bid inum)) (slot inum) n
                else blocks' s a) =
          λ a. rw (← same1 (list_bid inum)) (new a ∙ ground (arith, same2 a, same1 a)) in
        rw
          (
            e1,
            is_inum_lem (super'' s) inum laid lt,
            list_bid_lem (super'' s) inum laid lt,
            slot_lem (super'' s) inum laid lt,
            e2,
            e3,
          )
          (returns (g3, Stores-new (blocks' s) (view d3) inum n is new', refl))
