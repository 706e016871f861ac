-- ===== src/Db/Access.antt =====
-- db_read and db_write: the checks of the id before the disk is used.
use pcd_file_system.Prelude.{ℕ, ◌≤◌, ◌<◌, ◌≡◌, true, false, arith, ltb, ◌==◌, ◌∙◌, if◌then◌else◌}
use pcd_file_system.Prelude.Run.{Returns, Fails, returned, fails, mono}
use pcd_file_system.Block.{Block}
use pcd_file_system.Disk.Contract.{DiskOps, IsDisk}
use pcd_file_system.Sb.{Sb}
use pcd_file_system.Sb.Store.{super_of, sb_read-super_of}
use pcd_file_system.Db.{db_read, db_write}

module _ (ops : DiskOps) (disk : IsDisk ops) (junk : Block) where
  open ops use {State}
  open disk use {Good, view}

  abbrev super' : State → Sb
  super' = super_of ops disk junk

  module _ (s : State) (b : ℕ) (g : Good s) where
    -- db_read of a block that is at most NUM_BLOCK and within the contract of disk.c returns what the
    -- block holds, and changes no block.
    pub db_read-view :
        (out : Block)
        → b ≤ (super' s).num_block
        → disk.Within b
        → Returns
            (λ r s'. (r ≡ view s b) × Good s' × ((a : ℕ) → view s' a ≡ view s a))
            (db_read ops junk out b s)
    unfolding db_read
    db_read-view out le lt =
        let (_, s0, e0, w0) = returned (sb_read-super_of ops disk junk s g) in
        let (value0, g0, same0) = w0 in
        let bound : ltb (super' s).num_block b ≡ false = ground arith in
        rw (e0, value0, bound)
          (mono (disk.reads s0 out b g0 lt)
            λ r s' (value, g', same). (value ∙ same0 b, g', λ a. same a ∙ same0 a))

    -- db_write of a block that is at most NUM_BLOCK and within the contract of disk.c sets that block,
    -- and no other.
    pub db_write-view :
        (d : Block)
        → b ≤ (super' s).num_block
        → disk.Within b
        → Returns
            (λ _ s'. Good s' × ((a : ℕ) → view s' a ≡ (if a == b then d else view s a)))
            (db_write ops junk d b s)
    unfolding db_write
    db_write-view d le lt =
        let (_, s0, e0, w0) = returned (sb_read-super_of ops disk junk s g) in
        let (value0, g0, same0) = w0 in
        let bound : ltb (super' s).num_block b ≡ false = ground arith in
        rw (e0, value0, bound)
          (mono (disk.writes s0 d b g0 lt)
            λ _ s' (g', new). (g', λ a. new a ∙ ground (arith, same0 a)))

    -- On a disk that meets the contract, db_read and db_write of a block above NUM_BLOCK return
    -- -1, and no block changes.
    pub db_access-above :
        (out d : Block)
        → (super' s).num_block < b
        → Fails (λ s'. Good s' × ((a : ℕ) → view s' a ≡ view s a)) (db_read ops junk out b s)
          × Fails (λ s'. Good s' × ((a : ℕ) → view s' a ≡ view s a)) (db_write ops junk d b s)
    unfolding db_read db_write
    db_access-above out d lt =
        let (_, s0, e0, w0) = returned (sb_read-super_of ops disk junk s g) in
        let (value0, g0, same0) = w0 in
        let bound : ltb (super' s).num_block b ≡ true = ground arith in
        (rw (e0, value0, bound) (fails (g0, same0)), rw (e0, value0, bound) (fails (g0, same0)))
