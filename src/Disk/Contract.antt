-- ===== src/Disk/Contract.antt =====
-- What the layers above ask of disk.c: its two operations, and the contract that they rely on.
use pcd_file_system.Prelude.{ℕ, ◌-◌, ◌^◌, ◌<◌, ◌≡◌, Bool, false, if◌then◌else◌, ◌==◌}
use pcd_file_system.Prelude.Run.{Cmd, Returns}
use pcd_file_system.Block.{Block}

-- disk_read is given what the caller's buffer holds. disk_write is given access_disk as a Bool.
pub record DiskOps : Type 1 where
  pub State : Type 0
  pub disk_read : Block → ℕ → Cmd State Block
  pub disk_write : Block → ℕ → Bool → Cmd State (Unit {0})

-- For the ids in `Within`, which are below UINT_MAX and have the super block among them: in a state
-- that is in order a read returns the block and changes none; a write sets one; and the state stays
-- in order.
pub record IsDisk (ops : DiskOps) : Type 1 where
  pub Within : ℕ → Type 0
  pub below_max : (b : ℕ) → Within b → b < 2 ^ 32 - 1
  pub super_block : Within 0
  pub Good : ops.State → Type 0
  pub view : ops.State → ℕ → Block
  pub reads :
      (s : ops.State) (out : Block) (b : ℕ)
      → Good s
      → Within b
      → Returns
          (λ r s'. (r ≡ view s b) × Good s' × ((a : ℕ) → view s' a ≡ view s a))
          (ops.disk_read out b s)
  pub writes :
      (s : ops.State) (d : Block) (b : ℕ)
      → Good s
      → Within b
      → Returns
          (λ _ s'. Good s' × ((a : ℕ) → view s' a ≡ (if a == b then d else view s a)))
          (ops.disk_write d b false s)
