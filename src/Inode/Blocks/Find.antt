-- ===== src/Inode/Blocks/Find.antt =====
-- find_block_by_num against the tree of ids that an inode stands for.
use mathlib.Core.Path.{subst}
use pcd_file_system.Prelude.{
  ℕ, ◌+◌, ◌-◌, ◌*◌, ◌/◌, ◌%◌, ◌^◌, ◌≤◌, ◌<◌, ◌≡◌, ◌≢◌, refl, ap, true, false, arith, leb, ltb, ◌==◌,
  sym, ◌∙◌,
}
use pcd_file_system.Prelude.Run.{Returns, returned, returns, ok, crash}
use pcd_file_system.Block.{Block, word}
use pcd_file_system.Disk.Contract.{DiskOps, IsDisk}
use pcd_file_system.Sb.{Sb}
use pcd_file_system.Sb.Store.{super_of-same}
use pcd_file_system.Db.{uint_max}
use pcd_file_system.Inode.{Fs, Inode}
use pcd_file_system.Inode.Store.{node_at, blocks, super', read_block_lem}
use pcd_file_system.Inode.Access.{HasInode, loaded}
use pcd_file_system.Inode.Blocks.{
  direct, single, double, triple, place, id_at, find_at, find_block_by_num,
}

-- what sb_init says of the ids
pub record IsIndexed (super : Sb) : Type 0 where
  pub dir_id_num : super.dir_id_num ≡ 12
  pub indir_id_num : super.indir_id_num ≡ 1024
  pub d_indir_id_num : super.d_indir_id_num ≡ 1024 * 1024
  pub t_indir_id_num : super.t_indir_id_num ≡ 1024 * 1024 * 1024

module _ (super : Sb) (ix : IsIndexed super) (num : ℕ) where
  place-direct : num < 12 → place super num ≡ direct num
  unfolding place
  place-direct lt = rw ix.dir_id_num (ground arith)

  place-single : 12 ≤ num → num < 1036 → place super num ≡ single (num - 12)
  unfolding place
  place-single ge lt = rw (ix.dir_id_num, ix.indir_id_num) (ground arith)

  place-double :
      1036 ≤ num
      → num < 1036 + 1024 * 1024
      → place super num ≡ double ((num - 1036) / 1024) ((num - 1036) % 1024)
  unfolding place
  place-double ge lt = rw (ix.dir_id_num, ix.indir_id_num, ix.d_indir_id_num) (ground arith)

  place-triple :
      1036 + 1024 * 1024 ≤ num
      → num < 1036 + 1024 * 1024 + 1024 * 1024 * 1024
      → place super num
        ≡ triple ((num - 1049612) / (1024 * 1024)) ((num - 1049612) / 1024) ((num - 1049612) % 1024)
  unfolding place
  place-triple ge lt =
      rw (ix.dir_id_num, ix.indir_id_num, ix.d_indir_id_num, ix.t_indir_id_num) (ground arith)

-- The tree: block `num` of the inode `n` is `bid`, on a disk that holds `v` and whose ids satisfy
-- `Ok`.
pub data Leads (Ok : ℕ → Type 0) (v : ℕ → Block) (n : Inode) (num : ℕ) : ℕ → Type 0 where
  at_direct : {bid : ℕ} → num < 12 → n.direct_blo num ≡ bid → Leads Ok v n num bid
  at_single :
      {bid : ℕ}
      → (i : ℕ) → i < 1024
      → num ≡ 12 + i
      → Ok n.single_ind
      → word (v n.single_ind) i ≡ bid
      → Leads Ok v n num bid
  at_double :
      {bid : ℕ}
      → (d i : ℕ) → d < 1024
      → i < 1024
      → num ≡ 1036 + 1024 * d + i
      → Ok n.double_ind
      → Ok (word (v n.double_ind) d)
      → word (v (word (v n.double_ind) d)) i ≡ bid
      → Leads Ok v n num bid

pub Leads-small :
    {Ok : ℕ → Type 0} {v : ℕ → Block} {n : Inode} {num bid : ℕ}
    → Leads Ok v n num bid
    → num < 2 ^ 31
Leads-small (at_direct lt e) = omega arith
Leads-small (at_single i lt at u e) = omega arith
Leads-small (at_double d i d_lt i_lt at u1 u2 e) = omega arith

module _ (ops : DiskOps) (disk : IsDisk ops) (junk : Block) where
  open ops use {State}
  open disk use {Good, view}

  abbrev blocks' : Fs State → ℕ → Block
  blocks' s = blocks ops disk junk s

  abbrev super'' : Fs State → Sb
  super'' s = super' ops disk junk s

  -- an id that db_read takes and the contract has
  abbrev pub Usable : Sb → ℕ → Type 0
  Usable super b = (b ≤ super.num_block) × disk.Within b

  module _ (super : Sb) (ix : IsIndexed super) (b : Block) (i : ℕ) (s : Fs State) where
    id_at-inside : i < 1024 → id_at ops junk super b i s ≡ ok (word b i) s
    unfolding id_at
    id_at-inside lt =
        let inside : ltb i super.indir_id_num ≡ true = rw ix.indir_id_num (ground arith) in
        rw inside

    id_at-outside : 1024 ≤ i → id_at ops junk super b i s ≡ crash
    unfolding id_at
    id_at-outside ge =
        let beyond : ltb i super.indir_id_num ≡ false = rw ix.indir_id_num (ground arith) in
        rw beyond

  module _ (s : Fs State) (g : Good s.disk) (super : Sb) (same_super : super'' s ≡ super)
      (ix : IsIndexed super) (n : Inode) where
    usable : (b : ℕ) → Usable super b → b ≤ (super'' s).num_block
    usable b u = rw same_super u.0

    find_at-Leads :
        (num bid : ℕ)
        → Leads (Usable super) (blocks' s) n num bid
        → Returns
            (λ r s'. (r ≡ bid) × Good s'.disk × ((a : ℕ) → blocks' s' a ≡ blocks' s a))
            (find_at ops junk super n (place super num) s)
    unfolding find_at
    find_at-Leads num bid (at_direct lt e) =
        rw (place-direct super ix num lt) (returns (e, g, λ a. refl))
    find_at-Leads num bid (at_single i lt at u e) =
        let (d1, e1, g1, same1) =
          read_block_lem ops disk junk s g n.single_ind (usable n.single_ind u) u.1 junk in
        let index : num - 12 ≡ i = omega arith in
        rw
          (
            place-single super ix num (omega arith) (omega arith),
            index,
            e1,
            id_at-inside super ix (blocks' s n.single_ind) i (record s { disk = d1 }) lt,
          )
          (returns (e, g1, same1))
    find_at-Leads num bid (at_double d i d_lt i_lt at u1 u2 e) =
        let b1 = blocks' s n.double_ind in
        let mid = word b1 d in
        let (d1, e1, g1, same1) =
          read_block_lem ops disk junk s g n.double_ind (usable n.double_ind u1) u1.1 junk in
        let s1 : Fs State = record s { disk = d1 } in
        let same_super1 = super_of-same ops disk junk s.disk d1 (same1 0) ∙ same_super in
        let (d2, e2, g2, same2) =
          read_block_lem ops disk junk s1 g1 mid (rw same_super1 u2.0) u2.1 b1 in
        let above : (num - 1036) / 1024 ≡ d = omega arith in
        let index : (num - 1036) % 1024 ≡ i = omega arith in
        rw
          (
            place-double super ix num (omega arith) (omega arith),
            above,
            index,
            e1,
            id_at-inside super ix b1 d s1 d_lt,
            e2,
            id_at-inside super ix (blocks' s1 mid) i (record s1 { disk = d2 }) i_lt,
          )
          (returns (ap (λ b. word b i) (same1 mid) ∙ e, g2, λ a. same2 a ∙ same1 a))

    -- the third level from its second dind_block on: d_index is beyond the array of ids
    find_at-third_level :
        (num : ℕ)
        → 1049612 + 1024 * 1024 ≤ num
        → num < 1049612 + 1024 * 1024 * 1024
        → Usable super n.triple_ind
        → Usable super (word (blocks' s n.triple_ind) ((num - 1049612) / (1024 * 1024)))
        → find_at ops junk super n (place super num) s ≡ crash
    unfolding find_at
    find_at-third_level num ge lt u1 u2 =
        let t = (num - 1049612) / (1024 * 1024) in
        let b1 = blocks' s n.triple_ind in
        let mid = word b1 t in
        let (d1, e1, g1, same1) =
          read_block_lem ops disk junk s g n.triple_ind (usable n.triple_ind u1) u1.1 junk in
        let s1 : Fs State = record s { disk = d1 } in
        let same_super1 = super_of-same ops disk junk s.disk d1 (same1 0) ∙ same_super in
        let (d2, e2, g2, same2) =
          read_block_lem ops disk junk s1 g1 mid (rw same_super1 u2.0) u2.1 b1 in
        rw (
          place-triple super ix num (omega arith) lt,
          e1,
          id_at-inside super ix b1 t s1 (omega arith),
          e2,
          id_at-outside super ix (blocks' s1 mid) ((num - 1049612) / 1024) (record s1 { disk = d2 })
              (omega arith),
        )

  module _ (s : Fs State) (inum num : ℕ) (h : HasInode ops disk junk s inum)
      (ix : IsIndexed (super'' s)) where
    -- On a disk that mkfs laid out, where the blocks that are used are within the contract of
    -- disk.c (they are while they are in the cache), for an inode that is in use, and a block
    -- number that the tree of the inode leads to an id for by the inode itself, single_ind or
    -- double_ind, over ids that are at most NUM_BLOCK, find_block_by_num returns that id, where it
    -- is not UINT_MAX, and changes no block.
    pub find_block_by_num-Leads :
        (bid : ℕ)
        → Leads (Usable (super'' s)) (blocks' s) (node_at (blocks' s) inum) num bid
        → bid ≢ uint_max
        → Returns
            (λ r s'. (r ≡ bid) × Good s'.disk × ((a : ℕ) → blocks' s' a ≡ blocks' s a))
            (find_block_by_num ops junk inum num s)
    unfolding find_block_by_num
    find_block_by_num-Leads bid leads ne =
        let (s1, s2, m, e1, e2, value_m, t, g2, same, sup) = loaded ops disk junk s inum h in
        let positive : leb (2 ^ 31) num ≡ false = ground (arith, Leads-small leads) in
        let leads2 : Leads (Usable (super'' s)) (blocks' s2) (node_at (blocks' s) inum) num bid =
          rw same leads in
        let (r, s3, e3, w3) =
          returned
            (find_at-Leads s2 g2 (super'' s) sup ix (node_at (blocks' s) inum) num bid leads2) in
        let (value, g3, same3) = w3 in
        let below : (bid == uint_max) ≡ false = ground arith in
        rw (positive, e1, e2, t, e3, value, below)
          (returns (refl, g3, λ a. same3 a ∙ ap (λ v. v a) same))

    -- On a disk that mkfs laid out, for an inode in use and a block number in the third level past
    -- the first block of ids of the second, over ids that are at most NUM_BLOCK, with the blocks
    -- that are used within the contract of disk.c (they are while they are in the cache),
    -- find_block_by_num reads outside the array dind_block.
    pub find_block_by_num-third_level :
        1049612 + 1024 * 1024 ≤ num
        → num < 1049612 + 1024 * 1024 * 1024
        → Usable (super'' s) (node_at (blocks' s) inum).triple_ind
        → Usable (super'' s) (
            word
              (blocks' s (node_at (blocks' s) inum).triple_ind)
              ((num - 1049612) / (1024 * 1024)))
        → find_block_by_num ops junk inum num s ≡ crash
    unfolding find_block_by_num
    find_block_by_num-third_level ge lt u1 u2 =
        let (s1, s2, m, e1, e2, value_m, t, g2, same, sup) = loaded ops disk junk s inum h in
        let positive : leb (2 ^ 31) num ≡ false = ground arith in
        let u2' =
          subst
            (λ v.
              Usable (super'' s)
                (word (v (node_at (blocks' s) inum).triple_ind) ((num - 1049612) / (1024 * 1024))))
            (sym same) u2 in
        rw (
          positive,
          e1,
          e2,
          t,
          find_at-third_level s2 g2 (super'' s) sup ix (node_at (blocks' s) inum) num ge lt u1 u2',
        )
