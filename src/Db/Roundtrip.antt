-- ===== src/Db/Roundtrip.antt =====
-- db_free followed by db_allocate.
use mathlib.Core.Path.{subst}
use pcd_file_system.Prelude.{ℕ, ◌+◌, ◌^◌, ◌≤◌, ◌<◌, ◌≡◌, ◌≢◌, refl, ap, arith, List, [], ◌∷◌, ◌++◌}
use pcd_file_system.Prelude.Run.{Returns, bind_ok, mono, ◌>>◌}
use pcd_file_system.Block.{Block}
use pcd_file_system.Disk.Contract.{DiskOps, IsDisk}
use pcd_file_system.Sb.{Sb}
use pcd_file_system.Sb.Store.{IsSb, super_of}
use pcd_file_system.Db.{db_free, db_allocate}
use pcd_file_system.Db.FreeList.{IsFreeList, exhausted, listed, Chain-head}
use pcd_file_system.Db.Allocate.{db_allocate-FreeList}
use pcd_file_system.Db.Free.{db_free-FreeList}

around : (b : ℕ) (us vs : List ℕ) → [] ≡ us ++ vs → us ++ b ∷ vs ≡ b ∷ []
around b [] vs e = ap (λ xs. b ∷ xs) (cc e)
around b (u ∷ us) vs e = cc

single-head :
    (v : ℕ → Block) (super : Sb) (b : ℕ) → IsFreeList v super (b ∷ []) → super.free_list ≡ b
single-head v super b (exhausted n f e) = cc
single-head v super b (listed c n f) =
    let inside = Chain-head v super.free_list (b ∷ []) c in ground arith

module _ (ops : DiskOps) (disk : IsDisk ops) (junk : Block) where
  open ops use {State}
  open disk use {Good, view}

  abbrev super' : State → Sb
  super' = super_of ops disk junk

  -- On a disk with no free block, where the super block and the block are within the contract of
  -- disk.c (they are while they are in the cache), db_free of a block that is not 0 and at most
  -- NUM_BLOCK, followed by db_allocate, returns that block, and no block is free again.
  pub db_free-db_allocate :
      (s : State) (b : ℕ)
      → Good s
      → IsSb (super' s)
      → IsFreeList (view s) (super' s) []
      → (super' s).num_free_block + 1 < 2 ^ 32
      → b ≢ 0
      → disk.Within b
      → b ≤ (super' s).num_block
      → Returns
          (λ r s'. (r ≡ b) × Good s' × IsFreeList (view s') (super' s') [])
          ((db_free ops junk b >> db_allocate ops junk) s)
  db_free-db_allocate s b g is free room nz near le =
      bind_ok (db_free-FreeList ops disk junk s b [] g is free room refl nz near (λ i. cc) le)
        λ _ s1 joins.
          let one =
            subst (IsFreeList (view s1) (super' s1)) (around b joins.front joins.back joins.old)
              joins.free in
          mono
            (db_allocate-FreeList ops disk junk s1 b [] joins.good joins.super_ok
              (rw (single-head (view s1) (super' s1) b one) near) one)
            λ r s2 (e, leaves). (e, leaves.good, leaves.free)
