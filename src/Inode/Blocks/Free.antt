-- ===== src/Inode/Blocks/Free.antt =====
-- inode.c: the blocks of ids are freed with all that they lead to.
use pcd_file_system.Prelude.{ℕ, zero, suc, ◌+◌, if◌then◌else◌, ◌==◌}
use pcd_file_system.Prelude.Run.{Cmd, pure, attempt, ◌>>=◌, ◌>>◌}
use pcd_file_system.Block.{Block, word}
use pcd_file_system.Disk.Contract.{DiskOps}
use pcd_file_system.Inode.{Fs, load_super, read_block, free_block}

module _ (ops : DiskOps) (junk : Block) where
  open ops use {State}

  -- the loop over the ids of a block, which stops at the first that is 0
  unfoldable pub free_ids :
      (ℕ → Cmd (Fs State) (Unit {0})) → Block → ℕ → ℕ → Cmd (Fs State) (Unit {0})
  free_ids free b zero i = pure tt
  free_ids free b (suc rounds) i =
      if word b i == 0
      then pure tt
      else (do attempt (free (word b i)); free_ids free b rounds (i + 1))

  -- a block of ids: what they lead to, then the block
  unfoldable pub free_level : (ℕ → Cmd (Fs State) (Unit {0})) → ℕ → Cmd (Fs State) (Unit {0})
  free_level free bid = do
    super ← load_super ops junk
    if bid == 0 then pure tt else (do
      block ← read_block ops junk junk bid
      free_ids free block super.indir_id_num 0
      free_block ops junk bid)

  unfoldable pub free_indblo_by_bid : ℕ → Cmd (Fs State) (Unit {0})
  free_indblo_by_bid = free_level (free_block ops junk)

  unfoldable pub free_dindblo_by_bid : ℕ → Cmd (Fs State) (Unit {0})
  free_dindblo_by_bid = free_level free_indblo_by_bid

  unfoldable pub free_tindblo_by_bid : ℕ → Cmd (Fs State) (Unit {0})
  free_tindblo_by_bid = free_level free_dindblo_by_bid
