-- ===== src/Disk/Device.antt =====
-- The device file under the cache. The calls of the operating system are a parameter: lseek
-- followed by read or write of DB_SIZE bytes at an offset.
use pcd_file_system.Prelude.{ℕ, ◌*◌, ◌%◌, ◌^◌, ◌<◌, ◌≡◌, arith, Option, some, if◌then◌else◌, ◌==◌}
use pcd_file_system.Block.{Block, db_size}

-- `none` stands for -1. A read may leave bytes of the caller's buffer as they were, where the file
-- is too short, so it is given what the buffer holds.
pub record FileApi : Type 1 where
  pub File : Type 0
  pub read_at : File → ℕ → Block → Option Block
  pub write_at : File → ℕ → Block → Option File

abbrev pub block_limit : ℕ
block_limit = 2 ^ 20

-- The documented behaviour of the calls on an open file that spans all offsets in reach: no call
-- fails, a read fetches the whole block, and a write changes its own block.
pub record IsReliable (api : FileApi) : Type 0 where
  pub contents : api.File → ℕ → Block
  pub reads :
      (f : api.File) (n : ℕ) (out : Block)
      → n < block_limit
      → api.read_at f (db_size * n) out ≡ some (contents f n)
  pub writes :
      (f : api.File) (n : ℕ) (b : Block)
      → n < block_limit
      → (f' : api.File) × (api.write_at f (db_size * n) b ≡ some f')
        × ((m : ℕ) → contents f' m ≡ (if m == n then b else contents f m))

-- block_id * DB_SIZE, a product of unsigned ints
unfoldable pub byte_offset : ℕ → ℕ
byte_offset block_id = block_id * db_size % 2 ^ 32

-- The product wraps, so a block id is taken modulo 2^20.
pub byte_offset_lem : (b : ℕ) → byte_offset b ≡ db_size * (b % block_limit)
unfolding byte_offset
byte_offset_lem b = omega arith

pub byte_offset_small : (b : ℕ) → b < block_limit → byte_offset b ≡ db_size * b
unfolding byte_offset
byte_offset_small b h = omega arith
