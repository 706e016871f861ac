-- ===== src/Disk/Cache/Coherent.antt =====
-- The invariant of the cache, and what the blocks of the disk hold through it.
use pcd_file_system.Prelude.{ℕ, ◌<◌, ◌≡◌, true, false, Option, none, some, List, ◌∷◌, arith}
use pcd_file_system.Block.{Block}
use pcd_file_system.Disk.Lru.{Lru}
use pcd_file_system.Prelude.Lists.{has}
use pcd_file_system.Disk.Lru.Shape.{IsList, SameData}
use pcd_file_system.Disk.Hash.{HashNode, hash_find}
use pcd_file_system.Disk.Hash.Map.{IsMap, entry}
use pcd_file_system.Disk.Device.{FileApi, IsReliable, block_limit}
use pcd_file_system.Disk.Cache.{Disk}

module _ (api : FileApi) (rel : IsReliable api) where
  open api use {File}

  abbrev pub cached : Disk File → ℕ → Option HashNode → Block
  cached d b none = rel.contents d.dev b
  cached d b (some h) = d.buffer h.buffer_id

  -- what block `b` of the disk holds: the buffer of the cache, or the block of the file
  unfoldable pub view : Disk File → ℕ → Block
  view d b = cached d b (hash_find b d.table)

  -- The nodes `ms` are those that the table leads to, each owns the buffer of its number, and a
  -- buffer that is not dirty holds what the file holds. A node that is not used is not dirty.
  pub record IsCoherent (d : Disk File) (ms : List ℕ) : Type 0 where
    pub map : IsMap d.table
    pub found :
        (b : ℕ) (h : HashNode)
        → hash_find b d.table ≡ some h
        → (has h.list_node ms ≡ true)
          × (h.buffer_id ≡ h.list_node)
          × ((d.lru.node h.list_node).block_id ≡ b)
          × ((d.lru.node h.list_node).in_hash ≡ true)
    pub held :
        (a : ℕ)
        → has a ms ≡ true
        → (d.lru.node a).in_hash ≡ true
        → (hash_find (d.lru.node a).block_id d.table ≡ some (entry (d.lru.node a).block_id a a))
          × ((d.lru.node a).block_id < block_limit)
          × ((d.lru.node a).dirty ≡ false → d.buffer a ≡ rel.contents d.dev (d.lru.node a).block_id)
    pub tidy :
        (a : ℕ) → has a ms ≡ true → (d.lru.node a).in_hash ≡ false → (d.lru.node a).dirty ≡ false
    pub owner : (a : ℕ) → has a ms ≡ true → (d.lru.node a).buffer_id ≡ a

  -- The invariant of the cache whose list is `x ∷ xs`.
  pub record IsCache (d : Disk File) (x : ℕ) (xs : List ℕ) : Type 0 where
    pub list : IsList d.lru x xs
    pub coherent : IsCoherent d (x ∷ xs)

  abbrev pub SameView : Disk File → Disk File → Type 0
  SameView d d' = (c : ℕ) → view d' c ≡ view d c

  -- A change of pointers alone keeps the contents.
  pub relink :
      (d : Disk File) (l : Lru) (ms ns : List ℕ)
      → SameData d.lru l
      → ((a : ℕ) → has a ns ≡ has a ms)
      → IsCoherent d ms
      → IsCoherent (record d { lru = l }) ns
  relink d l ms ns same eq c = record {
    map = c.map;
    found = λ b h e. ground (arith, same h.list_node, eq h.list_node, c.found b h e);
    held = λ a i m.
        rw ((same a).1, (same a).2) (c.held a (ground (arith, eq a)) (ground (arith, same a)));
    owner = λ a i. ground (arith, same a, eq a, c.owner a);
    tidy = λ a i m. ground (arith, same a, eq a, c.tidy a);
  }
