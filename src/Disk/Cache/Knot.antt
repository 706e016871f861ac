-- ===== src/Disk/Cache/Knot.antt =====
-- Two reads of one block in a row, and sync after them.
use mathlib.Core.Path.{subst}
use pcd_file_system.Prelude.{
  ℕ, zero, suc, ◌<◌, ◌≡◌, refl, false, some, List, [], ◌∷◌, ◌++◌, arith, Bool-cases, inl, inr, sym,
  ◌∙◌,
}
use pcd_file_system.Prelude.Run.{ok, Returns, returns, returned, ◌>>◌}
use pcd_file_system.Block.{Block}
use pcd_file_system.Disk.Lru.{Lru, list_prioritize}
use pcd_file_system.Disk.Lru.Prioritize.{list_prioritize-IsList}
use pcd_file_system.Disk.Lru.Twice.{list_prioritize-twice}
use pcd_file_system.Disk.Hash.{HashNode, hash_find}
use pcd_file_system.Disk.Device.{FileApi, IsReliable, block_limit}
use pcd_file_system.Disk.Cache.{Disk, set_dirty, flush, sync_loop, sync, disk_read}
use pcd_file_system.Disk.Cache.Coherent.{IsCache}
use pcd_file_system.Disk.Cache.Evict.{cache_to_disk_lem}
use pcd_file_system.Disk.Cache.Requests.{disk_read-hit}

module _ (api : FileApi) (rel : IsReliable api) where
  open api use {File}

  -- The node leads to itself, and its block can be written.
  record IsKnot (d : Disk File) (n : ℕ) : Type 0 where
    itself : (d.lru.node n).next ≡ some n
    small : (d.lru.node n).block_id < block_limit

  flush-IsKnot :
      (d : Disk File) (n : ℕ)
      → IsKnot d n
      → (d' : Disk File) × (flush api n d ≡ ok tt d') × IsKnot d' n
  unfolding flush set_dirty
  flush-IsKnot d n k = elim (Bool-cases (d.lru.node n).dirty) [
    | inl dirty ↦
        let b = (d.lru.node n).buffer_id in
        let (f, e, _) = cache_to_disk_lem api rel b (d.lru.node n).block_id d k.small in
        (
          set_dirty n false (record d { dev = f }),
          rw dirty (rw e),
          record { itself = ground arith; small = ground arith },
        )
    | inr clean ↦ (d, rw clean, k)
  ]

  knot_loop :
      (rounds : ℕ) (d : Disk File) (n : ℕ)
      → IsKnot d n
      → Returns (λ ended _. ended ≡ false) (sync_loop api rounds (some n) d)
  unfolding sync_loop
  knot_loop zero d n k = returns refl
  knot_loop (suc rounds) d n k =
      let (d', e, k') = flush-IsKnot d n k in
      rw e (
        subst (λ p. Returns (λ ended _. ended ≡ false) (sync_loop api rounds p d')) (sym k'.itself)
          (knot_loop rounds d' n k'))

  read_run :
      (d : Disk File) (block : ℕ) (h : HashNode) (out : Block) (l : Lru)
      → hash_find block d.table ≡ some h
      → list_prioritize h.list_node d.lru ≡ ok tt l
      → disk_read api out block d ≡ ok (d.buffer h.buffer_id) (record d { lru = l })
  read_run d block h out l hit run = disk_read-hit api rel d block out h hit ∙ rw run

  -- From a cache that is in order, where the last node of two or more holds a block below 2^20,
  -- two reads of that block in a row and then sync: whatever the number of rounds, sync has not
  -- ended. The calls of the device file do not fail.
  pub sync-knot :
      (d : Disk File) (x n block : ℕ) (xs : List ℕ) (h : HashNode) (out out' : Block)
      → IsCache api rel d x (xs ++ n ∷ [])
      → hash_find block d.table ≡ some h
      → h.list_node ≡ n
      → block < block_limit
      → (rounds : ℕ)
      → Returns
          (λ ended _. ended ≡ false)
          ((disk_read api out block >> disk_read api out' block >> sync api rounds) d)
  unfolding sync
  sync-knot d x n block xs h out out' k hit at small rounds =
      let (_, l1, run1, moved) = returned (list_prioritize-IsList d.lru x n xs [] k.list) in
      let (_, l2, run2, tied) = returned (list_prioritize-twice d.lru x n xs k.list) in
      let (head, itself, same) = tied in
      let again : list_prioritize n l1 ≡ ok tt l2 = rw run1 at run2 in
      let d1 : Disk File = record d { lru = l1 } in
      let d2 : Disk File = record d { lru = l2 } in
      let (_, _, mine, _) = k.coherent.found block h hit in
      let knot : IsKnot d2 n = record {
        itself = itself;
        small = ground (arith, same n, mine, at, small);
      } in
      rw (read_run d block h out l1 hit (rw at run1)) (
        rw (read_run d1 block h out' l2 hit (rw at again)) (
          subst (λ p. Returns (λ ended _. ended ≡ false) (sync_loop api rounds p d2)) (sym head)
            (knot_loop rounds d2 n knot)))
