-- ===== src/Inode/Allocated.antt =====
-- inode_allocate of inode.c, for a user whose ids are known.
use pcd_file_system.Prelude.{ℕ, ◌<◌, ◌≡◌, ◌≢◌}
use pcd_file_system.Block.{Block}
use pcd_file_system.Disk.Contract.{DiskOps, IsDisk}
use pcd_file_system.Inode.{Fs, Inode, no_blocks}
use pcd_file_system.Inode.Store.{node_at, bit_at, blocks}
use pcd_file_system.Inode.Life.{fresh}

-- the node of a new inode
abbrev pub new_node : (uid gid accessed modified : ℕ) → Inode → Inode
new_node uid gid accessed modified n =
    no_blocks (record (fresh accessed modified n) { uid = uid; gid = gid })

module _ (ops : DiskOps) (disk : IsDisk ops) (junk : Block) where
  open ops use {State}
  open disk use {Good, view}

  abbrev blocks' : Fs State → ℕ → Block
  blocks' s = blocks ops disk junk s

  -- The first inode that was free is in use, and holds the node `n`; no other inode has changed.
  pub record Allocates (v : ℕ → Block) (n : Inode → Inode) (r : ℕ) (s' : Fs State) : Type 0 where
    pub good : Good s'.disk
    pub small : r < 40960
    pub was_free : bit_at v r ≡ 0
    pub first : (j : ℕ) → j < r → bit_at v j ≢ 0
    pub bit : bit_at (blocks' s') r ≡ 1
    pub node : node_at (blocks' s') r ≡ n (node_at v r)
    pub other_bits : (j : ℕ) → j < 40960 → j ≢ r → bit_at (blocks' s') j ≡ bit_at v j
    pub other_nodes : (j : ℕ) → j ≢ r → node_at (blocks' s') j ≡ node_at v j
