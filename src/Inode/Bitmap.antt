-- ===== src/Inode/Bitmap.antt =====
-- inode.c: find_free_inode searches the bitmap of the inodes, a byte for each.
use pcd_file_system.Prelude.{
  ℕ, zero, suc, ◌+◌, ◌*◌, true, false, Option, none, some, if◌then◌else◌, ◌==◌,
}
use pcd_file_system.Prelude.Run.{Cmd, pure, failure, get, ◌>>=◌, ◌>>◌}
use pcd_file_system.Block.{Block, set_byte}
use pcd_file_system.Disk.Contract.{DiskOps}
use pcd_file_system.Sb.{Sb}
use pcd_file_system.Inode.{Fs, add32, sub32, set_bitmap, load_super, read_block, write_block}

-- the loop of find_free_inode over one block of the bitmap
unfoldable pub find_clear : Block → ℕ → ℕ → Option ℕ
find_clear b zero i = none
find_clear b (suc rounds) i = elim (b i == 0) [
  | true ↦ some i
  | false ↦ find_clear b rounds (i + 1)
]

module _ (ops : DiskOps) (junk : Block) where
  open ops use {State}

  -- find_free_inode, by what the search in the bitmap block `curr` found
  unfoldable pub take_inode : Sb → ℕ → ℕ → Cmd (Fs State) ℕ
  take_inode super curr i = do
    s ← get
    set_bitmap (set_byte s.bitmap i 1)
    write_block ops junk (set_byte s.bitmap i 1) (add32 super.start_bitmap curr)
    pure (i + curr * super.blocksize)

  unfoldable pub find_free_in : Sb → ℕ → Cmd (Fs State) ℕ → Option ℕ → Cmd (Fs State) ℕ
  find_free_in super curr next (some i) = take_inode super curr i
  find_free_in super curr next none = next

  -- one round of the outer loop, and those after it
  unfoldable pub find_free_from : Sb → ℕ → ℕ → Cmd (Fs State) ℕ
  unfolding find_free_in
  find_free_from super zero curr = failure
  find_free_from super (suc rounds) curr = do
    s ← get
    b ← read_block ops junk s.bitmap (add32 super.start_bitmap curr)
    set_bitmap b
    find_free_in super curr (find_free_from super rounds (curr + 1))
        (find_clear b super.blocksize 0)

  -- the outer loop is entered at least once
  unfoldable pub find_free_inode : Cmd (Fs State) ℕ
  find_free_inode = do
    super ← load_super ops junk
    let blocks = sub32 super.start_ilist super.start_bitmap
    find_free_from super (if blocks == 0 then 1 else blocks) 0
