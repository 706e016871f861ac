-- ===== src/Inode/Store.antt =====
-- The inodes on a disk that was laid out by mkfs: find_inode_by_inum and write_inode_to_disk.
use pcd_file_system.Prelude.{
  ℕ, ◌+◌, ◌*◌, ◌/◌, ◌%◌, ◌^◌, ◌≤◌, ◌<◌, ◌≡◌, ◌≢◌, refl, ap, true, false, arith, ◌==◌, ◌∙◌,
  if◌then◌else◌,
}
use pcd_file_system.Prelude.Run.{Returns, returned, returns, ok}
use pcd_file_system.Block.{Block}
use pcd_file_system.Disk.Contract.{DiskOps, IsDisk}
use pcd_file_system.Sb.{Sb}
use pcd_file_system.Sb.Store.{super_of, super_of-same, sb_read-super_of}
use pcd_file_system.Db.Access.{db_read-view, db_write-view}
use pcd_file_system.Inode.{
  Fs, Inode, lift, or_else, load_super, read_block, write_block, is_inum, find_inode_by_inum, shift,
  decode_inode,
}

-- what sb_init says of the inodes
pub record IsLaidOut (super : Sb) : Type 0 where
  pub blocksize : super.blocksize ≡ 4096
  pub inode_size : super.inode_size ≡ 128
  pub root_inum : super.root_inum ≡ 0
  pub max_num_inode : super.max_num_inode ≡ 40960
  pub start_bitmap : super.start_bitmap ≡ 1
  pub start_ilist : super.start_ilist ≡ 11
  pub num_block : 1291 ≤ super.num_block

-- the block of the bitmap, the block of the list, and the slot in it
abbrev pub bitmap_bid : ℕ → ℕ
bitmap_bid inum = 1 + inum / 4096

abbrev pub list_bid : ℕ → ℕ
list_bid inum = 11 + inum / 32

abbrev pub slot : ℕ → ℕ
slot inum = inum % 32 * 128

-- the inode and its byte of the bitmap on a disk that holds `v`
unfoldable pub node_at : (ℕ → Block) → ℕ → Inode
node_at v inum = decode_inode (shift (v (list_bid inum)) (slot inum))

unfoldable pub bit_at : (ℕ → Block) → ℕ → ℕ
bit_at v inum = v (bitmap_bid inum) (inum % 4096)

-- where the code looks for the inode
module _ (super : Sb) (inum : ℕ) (laid : IsLaidOut super) (lt : inum < 40960) where
  pub is_inum_lem : is_inum super inum ≡ true
  unfolding is_inum
  is_inum_lem = rw (laid.root_inum, laid.max_num_inode) (ground arith)

  pub bitmap_bid_lem : (super.start_bitmap + inum / super.blocksize) % 2 ^ 32 ≡ bitmap_bid inum
  bitmap_bid_lem = rw (laid.start_bitmap, laid.blocksize) (omega arith)

  pub offset_lem : inum % super.blocksize ≡ inum % 4096
  offset_lem = rw laid.blocksize

  pub list_bid_lem :
      (super.start_ilist + inum / (super.blocksize / super.inode_size)) % 2 ^ 32 ≡ list_bid inum
  list_bid_lem = rw (laid.start_ilist, laid.blocksize, laid.inode_size) (omega arith)

  pub slot_lem : inum % (super.blocksize / super.inode_size) * super.inode_size ≡ slot inum
  slot_lem = rw (laid.blocksize, laid.inode_size)

module _ (ops : DiskOps) (disk : IsDisk ops) (junk : Block) where
  open ops use {State}
  open disk use {Good, view}

  -- the blocks and the super block of a state
  abbrev pub blocks : Fs State → ℕ → Block
  blocks s = view s.disk

  abbrev pub super' : Fs State → Sb
  super' s = super_of ops disk junk s.disk

  -- The block of the bitmap and the block of the list that an inode lies in are in the contract.
  pub record IsNear (inum : ℕ) : Type 0 where
    pub bitmap : disk.Within (bitmap_bid inum)
    pub list : disk.Within (list_bid inum)

  module _ (s : Fs State) (g : Good s.disk) where
    pub load_super_lem :
        (d : State) × (load_super ops junk s
          ≡ ok (super' s) (record s { disk = d; super = super' s }))
        × Good d
        × ((a : ℕ) → view d a ≡ blocks s a)
    unfolding load_super lift
    load_super_lem =
        let (_, d, e, w) = returned (sb_read-super_of ops disk junk s.disk g) in
        let (value, g', same) = w in (d, rw (e, value), g', same)

    module _ (b : ℕ) (le : b ≤ (super' s).num_block) (lt : disk.Within b) where
      pub read_block_lem :
          (out : Block)
          → (d : State) × (read_block ops junk out b s ≡ ok (blocks s b) (record s { disk = d }))
            × Good d
            × ((a : ℕ) → view d a ≡ blocks s a)
      unfolding read_block lift or_else
      read_block_lem out =
          let (_, d, e, w) = returned (db_read-view ops disk junk s.disk b g out le lt) in
          let (value, g', same) = w in (d, rw (e, value), g', same)

      pub write_block_lem :
          (n : Block)
          → (d : State) × (write_block ops junk n b s ≡ ok tt (record s { disk = d }))
            × Good d
            × ((a : ℕ) → view d a ≡ (if a == b then n else blocks s a))
      unfolding write_block lift
      write_block_lem n =
          let (_, d, e, w) = returned (db_write-view ops disk junk s.disk b g n le lt) in
          let (g', new) = w in (d, rw e, g', new)

  module _ (s : Fs State) (inum : ℕ) (g : Good s.disk) (laid : IsLaidOut (super' s)) where
    -- On a disk that mkfs laid out, find_inode_by_inum of an inode below 40960 whose byte in the
    -- bitmap is set returns the inode in its slot of the list; no block and not target_node has
    -- changed.
    pub find_inode_by_inum-node_at :
        inum < 40960
        → IsNear inum
        → bit_at (blocks s) inum ≢ 0
        → Returns
            (λ n s'.
              (n ≡ node_at (blocks s) inum)
              × Good s'.disk
              × ((a : ℕ) → blocks s' a ≡ blocks s a)
              × (s'.target_node ≡ s.target_node))
            (find_inode_by_inum ops junk inum s)
    unfolding find_inode_by_inum bit_at node_at
    find_inode_by_inum-node_at lt near set =
        let (d1, e1, g1, same1) = load_super_lem s g in
        let s1 = record s { disk = d1; super = super' s } in
        let sup1 = super_of-same ops disk junk s.disk d1 (same1 0) in
        let (d2, e2, g2, same2) =
          read_block_lem s1 g1 (bitmap_bid inum) (rw sup1 (omega (arith, laid.num_block)))
            near.bitmap junk in
        let b = blocks s1 (bitmap_bid inum) in
        let s2 = record s1 { disk = d2; bitmap = b } in
        let sup2 = super_of-same ops disk junk d1 d2 (same2 0) ∙ sup1 in
        let (d3, e3, g3, same3) =
          read_block_lem s2 g2 (list_bid inum) (rw sup2 (omega (arith, laid.num_block))) near.list
            b in
        let there : (b (inum % 4096) == 0) ≡ false = rw (same1 (bitmap_bid inum)) (ground arith) in
        let kept : (a : ℕ) → view d3 a ≡ blocks s a = λ a. same3 a ∙ same2 a ∙ same1 a in
        rw
          (
            e1,
            is_inum_lem (super' s) inum laid lt,
            bitmap_bid_lem (super' s) inum laid lt,
            e2,
            offset_lem (super' s) inum laid lt,
            there,
            slot_lem (super' s) inum laid lt,
            list_bid_lem (super' s) inum laid lt,
            e3,
          )
          (returns (
            ap (λ x. decode_inode (shift x (slot inum)))
                (same2 (list_bid inum) ∙ same1 (list_bid inum)),
            g3,
            kept,
            refl,
          ))
