-- ===== src/Inode/Writes/Blocks.antt =====
-- write_block_by_num of inode.c on a block of a file.
use mathlib.Core.Path.{subst}
use pcd_file_system.Prelude.{
  ℕ, ◌+◌, ◌/◌, ◌^◌, ◌≤◌, ◌<◌, ◌≡◌, ◌≢◌, refl, sym, ap, ◌∙◌, fun_ext, false, arith, leb, ◌==◌,
  if◌then◌else◌,
}
use pcd_file_system.Prelude.Run.{ok}
use pcd_file_system.Block.{Block, word}
use pcd_file_system.Disk.Contract.{DiskOps, IsDisk}
use pcd_file_system.Sb.{Sb}
use pcd_file_system.Sb.Store.{super_of-same}
use pcd_file_system.Db.{uint_max}
use pcd_file_system.Inode.{Fs, Inode}
use pcd_file_system.Inode.Store.{node_at, bit_at, blocks, super', write_block_lem}
use pcd_file_system.Inode.Access.{HasInode}
use pcd_file_system.Inode.Blocks.{write_block_by_num}
use pcd_file_system.Inode.Blocks.Find.{
  IsIndexed, Leads, at_direct, at_single, at_double, Leads-small, Usable,
}
use pcd_file_system.Inode.Files.Bytes.{HasBlock, Readable, find_lem}
use pcd_file_system.Inode.Writes.Written.{put}

-- The tree over blocks of ids that have not changed.
pub Leads-agree :
    {Ok : ℕ → Type 0} {v v' : ℕ → Block} {n : Inode} {num bid : ℕ}
    → ((b : ℕ) → Ok b → v' b ≡ v b)
    → Leads Ok v n num bid
    → Leads Ok v' n num bid
Leads-agree same (at_direct lt e) = at_direct lt e
Leads-agree {n = n} same (at_single i lt at u e) =
    at_single i lt at u (ap (λ b. word b i) (same n.single_ind u) ∙ e)
Leads-agree {Ok} {v} {v'} {n} same (at_double d i d_lt i_lt at u1 u2 e) =
    let mid = ap (λ b. word b d) (same n.double_ind u1) in
    at_double d i d_lt i_lt at u1 (subst Ok (sym mid) u2)
      (ap (λ x. word (v' x) i) mid ∙ ap (λ b. word b i) (same _ u2) ∙ e)

pub Leads-weaken :
    {Ok P : ℕ → Type 0} {v : ℕ → Block} {n : Inode} {num bid : ℕ}
    → ((b : ℕ) → Ok b → P b)
    → Leads Ok v n num bid
    → Leads P v n num bid
Leads-weaken weaken (at_direct lt e) = at_direct lt e
Leads-weaken weaken (at_single i lt at u e) = at_single i lt at (weaken _ u) e
Leads-weaken weaken (at_double d i d_lt i_lt at u1 u2 e) =
    at_double d i d_lt i_lt at (weaken _ u1) (weaken _ u2) e

module _ (ops : DiskOps) (disk : IsDisk ops) (junk : Block) where
  open ops use {State}
  open disk use {Good, view}

  abbrev blocks' : Fs State → ℕ → Block
  blocks' s = blocks ops disk junk s

  abbrev super'' : Fs State → Sb
  super'' s = super' ops disk junk s

  -- The blocks of a file: data blocks that db_read takes, no two the same.
  pub record AreBlocks (super : Sb) (ids : ℕ → ℕ) (count : ℕ) : Type 0 where
    pub usable : (k : ℕ) → k < count → Usable ops disk junk super (ids k)
    pub is_data : (k : ℕ) → k < count → 1291 ≤ ids k
    pub not_max : (k : ℕ) → k < count → ids k ≢ uint_max
    pub distinct : (j k : ℕ) → j < count → k < count → ids j ≡ ids k → j ≡ k

  module _ (super : Sb) (ix : IsIndexed super) (inum : ℕ) (n : Inode) (ids : ℕ → ℕ) (count : ℕ)
      (are : AreBlocks super ids count) where
    -- a block of ids of the file
    abbrev Apart : ℕ → Type 0
    Apart b = Usable ops disk junk super b × ((k : ℕ) → k < count → ids k ≢ b)

    -- A state in which the file can be written: the disk holds `v`.
    pub record Writable (v : ℕ → Block) (s : Fs State) : Type 0 where
      pub readable : Readable ops disk junk super ix v inum ids s
      pub node : node_at v inum ≡ n
      pub leads : (k : ℕ) → k < count → Leads Apart v n k (ids k)

    pub Writable-HasBlock :
        (v : ℕ → Block) (s : Fs State) (k : ℕ)
        → Writable v s
        → k < count
        → HasBlock ops disk junk super v inum k (ids k)
    Writable-HasBlock v s k w lt = record {
      leads =
          subst (λ m. Leads (Usable ops disk junk super) v m k (ids k)) (sym w.node)
            (Leads-weaken (λ b a. a.0) (w.leads k lt));
      usable = are.usable k lt;
      not_max = are.not_max k lt;
    }

    pub Writable-same :
        (v : ℕ → Block) (s s' : Fs State)
        → Writable v s
        → Readable ops disk junk super ix v inum ids s'
        → Writable v s'
    Writable-same v s s' w r = record { readable = r; node = w.node; leads = w.leads }

    pub write_lem :
        (v : ℕ → Block) (s : Fs State) (num : ℕ) (new : Block)
        → Writable v s
        → num < count
        → (s' : Fs State) × (write_block_by_num ops junk inum num new s ≡ ok (ids num) s')
          × Writable (put v (ids num) new) s'
    unfolding write_block_by_num node_at bit_at
    write_lem v s num new w lt =
        let leads = w.leads num lt in
        let positive : leb (2 ^ 31) num ≡ false = ground (arith, Leads-small leads) in
        let (s1, e1, r1) =
          find_lem ops disk junk super ix v inum ids s num w.readable
            (Writable-HasBlock v s num w lt) in
        let taken = are.usable num lt in
        let far = are.is_data num lt in
        let (d, e2, g, stored) =
          write_block_lem ops disk junk s1 r1.has.good (ids num) (rw r1.super_same taken.0) taken.1
            new in
        let s2 : Fs State = record s1 { disk = d } in
        let kept : (a : ℕ) → a ≢ ids num → view d a ≡ blocks' s1 a =
          λ a ne. let miss : (a == ids num) ≡ false = ground arith in stored a ∙ rw miss refl in
        let sup = super_of-same ops disk junk s1.disk d (kept 0 (omega arith)) in
        let small = r1.has.small in
        let has : HasInode ops disk junk s2 inum = record {
          good = g;
          laid = rw sup r1.has.laid;
          small = small;
          near = r1.has.near;
          bit = rw (kept (1 + inum / 4096) (omega arith)) r1.has.bit;
        } in
        let list_kept : put v (ids num) new (11 + inum / 32) ≡ v (11 + inum / 32) =
          let miss : (11 + inum / 32 == ids num) ≡ false = ground arith in rw miss refl in
        let same : blocks' s2 ≡ put v (ids num) new =
          fun_ext (
            subst (λ x. (a : ℕ) → view d a ≡ (if a == ids num then new else x a)) r1.same stored) in
        (
          s2,
          rw (positive, e1, e2) refl,
          record {
            readable = record { has = has; super_same = sup ∙ r1.super_same; same = same };
            node = rw list_kept w.node;
            leads = λ k k_lt.
                Leads-agree
                  (λ b apart.
                    let ne = apart.1 num lt in
                    let miss : (b == ids num) ≡ false = ground arith in rw miss refl)
                  (w.leads k k_lt);
          },
        )
