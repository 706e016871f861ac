-- ===== src/Disk/Hash.antt =====
-- disk.c, the chained hash table from block ids to the nodes of the cache: hash_init, hash_find,
-- hash_insert, hash_delete. A chain is the list of its nodes, from `hash_table->list[index]` on.
pub mod Map
use pcd_file_system.Prelude.{ℕ, ◌%◌, Option, none, some, List, [], ◌∷◌, if◌then◌else◌, ◌==◌}
use pcd_file_system.Prelude.Run.{Cmd, pure, failure, get, put, deref, ◌>>=◌, ◌>>◌}

abbrev pub buffer_num : ℕ
buffer_num = 1000

-- struct Hash_Node, less its next pointer
pub record HashNode : Type 0 where
  pub buffer_id : ℕ
  pub block_id : ℕ
  pub list_node : ℕ

-- hash_table->list
abbrev pub Table : Type 0
Table = ℕ → List HashNode

-- hash_init
unfoldable pub hash_init : Table
hash_init _ = []

unfoldable pub hash_func : ℕ → ℕ
hash_func block_id = block_id % buffer_num

-- the loop of hash_find, and that of hash_insert
unfoldable pub find_in : ℕ → List HashNode → Option HashNode
find_in block_id [] = none
find_in block_id (h ∷ hs) = if h.block_id == block_id then some h else find_in block_id hs

unfoldable pub hash_find : ℕ → Table → Option HashNode
hash_find block_id t = find_in block_id (t (hash_func block_id))

-- hash_table->list[index] = chain
unfoldable pub set_chain : ℕ → List HashNode → Table → Table
set_chain index chain t j = if j == index then chain else t j

-- -1 where the block is in the table
unfoldable pub hash_insert : ℕ → ℕ → ℕ → Cmd Table (Unit {0})
hash_insert block_id buffer_id node = do
  t ← get
  let index = hash_func block_id
  elim (find_in block_id (t index)) [
    | some _ ↦ failure
    | none ↦ do
      let new_node : HashNode = record {
        buffer_id = buffer_id;
        block_id = block_id;
        list_node = node;
      }
      put (set_chain index (new_node ∷ t index) t)
  ]

-- The chain without its first node of the block, if there is one.
unfoldable pub delete_in : ℕ → List HashNode → Option (List HashNode)
delete_in block_id [] = none
delete_in block_id (h ∷ hs) =
    if h.block_id == block_id
    then some hs
    else elim (delete_in block_id hs) [ none ↦ none | some rest ↦ some (h ∷ rest) ]

-- -1 where the block is not in the table
unfoldable pub hash_delete : ℕ → Cmd Table (Unit {0})
hash_delete block_id = do
  t ← get
  let index = hash_func block_id
  elim (delete_in block_id (t index)) [
    | none ↦ failure
    | some chain ↦ put (set_chain index chain t)
  ]
