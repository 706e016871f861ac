-- ===== src/Disk/Cache.antt =====
-- disk.c, the cache: disk_read, disk_write, sync, list_add and what they call.
pub mod Coherent
pub mod Evict
pub mod Fill
pub mod Requests
pub mod Writes
pub mod Sync
pub mod Knot
pub mod Start
pub mod Hits
pub mod Full
use pcd_file_system.Prelude.{
  ℕ, zero, suc, Bool, true, false, Option, none, some, if◌then◌else◌, ◌==◌,
}
use pcd_file_system.Prelude.Run.{
  Run, ok, fail, crash, Cmd, pure, failure, get, put, modify, attempt, ◌>>=◌, ◌>>◌,
}
use pcd_file_system.Block.{Block}
use pcd_file_system.Disk.Lru.{
  Lru, ListNode, set_node, take_tail, push_front, list_prioritize, list_init,
}
use pcd_file_system.Disk.Hash.{Table, buffer_num, hash_find, hash_insert, hash_delete, hash_init}
use pcd_file_system.Disk.Device.{FileApi, byte_offset}

-- The globals of disk.c: add, the list, hash_table and the buffers from buffer_0 on.
pub record Disk (File : Type 0) : Type 0 where
  pub dev : File
  pub lru : Lru
  pub table : Table
  pub buffer : ℕ → Block

-- end->block_id = block_id; end->dirty = dirty; end->in_hash = 1
unfoldable pub assign_node : ℕ → ℕ → Bool → Lru → Lru
unfolding set_node
assign_node end block_id dirty l =
    set_node end (record (l.node end) { block_id = block_id; dirty = dirty; in_hash = true }) l

module _ {File : Type 0} where
  abbrev pub with_lru : Disk File → Run Lru (Unit {0}) → Run (Disk File) (Unit {0})
  with_lru d (ok a l) = ok a (record d { lru = l })
  with_lru d (fail l) = fail (record d { lru = l })
  with_lru d crash = crash

  -- a function of the list, as one of the whole state
  abbrev pub on_list : Cmd Lru (Unit {0}) → Cmd (Disk File) (Unit {0})
  on_list m d = with_lru d (m d.lru)

  abbrev pub with_end : Disk File → Run Lru ℕ → Run (Disk File) ℕ
  with_end d (ok a l) = ok a (record d { lru = l })
  with_end d (fail l) = fail (record d { lru = l })
  with_end d crash = crash

  abbrev pub with_table : Disk File → Run Table (Unit {0}) → Run (Disk File) (Unit {0})
  with_table d (ok a t) = ok a (record d { table = t })
  with_table d (fail t) = fail (record d { table = t })
  with_table d crash = crash

  -- a function of the table whose return value the caller drops
  abbrev pub on_table : Cmd Table (Unit {0}) → Cmd (Disk File) (Unit {0})
  on_table m = attempt (λ d. with_table d (m d.table)) >> pure tt

  unfoldable pub write_to_cache : Block → ℕ → Disk File → Disk File
  write_to_cache b buffer_id d = record d { buffer = λ i. if i == buffer_id then b else d.buffer i }

  unfoldable pub read_from_cache : ℕ → Disk File → Block
  read_from_cache buffer_id d = d.buffer buffer_id

  -- node->dirty = dirty
  unfoldable pub set_dirty : ℕ → Bool → Disk File → Disk File
  unfolding set_node
  set_dirty a dirty d = record d {
    lru = set_node a (record (d.lru.node a) { dirty = dirty }) d.lru;
  }

  -- the second half of list_add: the node `end` takes the block, and becomes the head
  unfoldable pub fill : ℕ → ℕ → Block → Bool → Cmd (Disk File) (Unit {0})
  fill end block_id b dirty = do
    d ← get
    let buffer_id = (d.lru.node end).buffer_id
    modify (write_to_cache b buffer_id)
    modify (λ d. record d { lru = assign_node end block_id dirty d.lru })
    on_table (hash_insert block_id buffer_id end)
    on_list (push_front end)

module _ (api : FileApi) where
  open api use {File, read_at, write_at}

  unfoldable pub cache_to_disk : ℕ → ℕ → Cmd (Disk File) (Unit {0})
  cache_to_disk buffer_id block_id = do
    d ← get
    elim (write_at d.dev (byte_offset block_id) (d.buffer buffer_id)) [
      | none ↦ failure
      | some f ↦ put (record d { dev = f })
    ]

  -- list_add, from the test of in_hash on: the node's block leaves the cache
  unfoldable pub evict : ListNode → Cmd (Disk File) (Unit {0})
  evict n =
      if n.in_hash
      then (do
        if n.dirty then cache_to_disk n.buffer_id n.block_id else pure tt
        on_table (hash_delete n.block_id))
      else pure tt

  -- Where the old block cannot be written, list_add returns with the node off the list.
  unfoldable pub list_add : ℕ → Block → Bool → Cmd (Disk File) (Unit {0})
  list_add block_id b dirty = do
    end ← λ d. with_end d (take_tail d.lru)
    d ← get
    evicted ← attempt (evict (d.lru.node end))
    elim evicted [ none ↦ pure tt | some _ ↦ fill end block_id b dirty ]

  -- `out` is what the caller's buffer holds; the result is what it holds afterwards.
  unfoldable pub disk_read : Block → ℕ → Cmd (Disk File) Block
  disk_read out block_id = do
    d ← get
    elim (hash_find block_id d.table) [
      | none ↦ elim (read_at d.dev (byte_offset block_id) out) [
        | none ↦ failure
        | some b ↦ do list_add block_id b false; pure b
      ]
      | some h ↦ do on_list (list_prioritize h.list_node); pure (read_from_cache h.buffer_id d)
    ]

  unfoldable pub disk_write : Block → ℕ → Bool → Cmd (Disk File) (Unit {0})
  disk_write b block_id true = do
    d ← get
    elim (write_at d.dev (byte_offset block_id) b) [
      | none ↦ failure
      | some f ↦ put (record d { dev = f })
    ]
  disk_write b block_id false = do
    d ← get
    elim (hash_find block_id d.table) [
      | none ↦ list_add block_id b true
      | some h ↦ do
        modify (write_to_cache b h.buffer_id)
        modify (set_dirty h.list_node true)
        on_list (list_prioritize h.list_node)
    ]

  -- the body of the loop of sync
  unfoldable pub flush : ℕ → Cmd (Disk File) (Unit {0})
  flush a d =
      let n = d.lru.node a in
      (if n.dirty
          then (cache_to_disk n.buffer_id n.block_id >> modify (set_dirty a false))
          else pure tt)
        d

  -- The loop of sync over at most `rounds` nodes; `false` says that it went on.
  unfoldable pub sync_loop : ℕ → Option ℕ → Cmd (Disk File) Bool
  sync_loop rounds none = pure true
  sync_loop zero (some a) = pure false
  sync_loop (suc rounds) (some a) = do
    written ← attempt (flush a)
    d ← get
    elim written [ none ↦ pure true | some _ ↦ sync_loop rounds (d.lru.node a).next ]

  unfoldable pub sync : ℕ → Cmd (Disk File) Bool
  unfolding sync_loop
  sync rounds = do d ← get; sync_loop rounds d.lru.head

  -- allocate_disk with what open returned, allocate_cache, list_init and hash_init: the calls of
  -- initialize (fs.c). `junk` stands for what malloc leaves in a node.
  unfoldable pub allocate_disk : Option File → Cmd (Disk File) (Unit {0})
  allocate_disk none = failure
  allocate_disk (some f) = modify λ d. record d { dev = f }

  unfoldable pub initialize : ℕ → Option File → Cmd (Disk File) (Unit {0})
  unfolding allocate_disk
  initialize junk opened = do
    attempt (allocate_disk opened)
    modify λ d. record d { lru = list_init junk buffer_num d.lru; table = hash_init }
