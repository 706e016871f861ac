-- ===== src/Disk/Cache/Requests.antt =====
-- disk_read and disk_write through the cache: what they return, and what the disk holds afterwards.
use pcd_file_system.Prelude.{
  ℕ, ◌<◌, ◌≡◌, refl, Bool, true, false, none, some, List, [], ◌∷◌, ◌++◌, arith, if◌then◌else◌, ◌==◌,
  sym, ap, ◌∙◌, Bool-cases, Option-cases, inl, inr,
}
use pcd_file_system.Prelude.Run.{ok, Returns, returns, returned, mono, bind_ok, ◌>>◌, pure}
use pcd_file_system.Block.{Block}
use pcd_file_system.Disk.Lru.{Lru, take_tail, list_prioritize}
use pcd_file_system.Prelude.Lists.{has, length, length-append, has-split, snoc-split, has-append}
use pcd_file_system.Disk.Lru.Shape.{IsList}
use pcd_file_system.Disk.Lru.Prioritize.{list_prioritize-IsList}
use pcd_file_system.Disk.Lru.Twice.{list_prioritize-head}
use pcd_file_system.Disk.Lru.Add.{take_tail-IsList}
use pcd_file_system.Disk.Hash.{HashNode, hash_find}
use pcd_file_system.Disk.Device.{FileApi, IsReliable, block_limit, byte_offset, byte_offset_small}
use pcd_file_system.Disk.Cache.{
  Disk, on_list, fill, list_add, evict, disk_read, disk_write, read_from_cache, write_to_cache,
  set_dirty,
}
use pcd_file_system.Disk.Cache.Coherent.{view, IsCache, SameView, relink}
use pcd_file_system.Disk.Cache.Evict.{evict_lem}
use pcd_file_system.Disk.Cache.Fill.{fill-IsCache, view-relink}

module _ (api : FileApi) (rel : IsReliable api) where
  open api use {File}

  pub view-hit :
      (d : Disk File) (a : ℕ) (h : HashNode)
      → hash_find a d.table ≡ some h
      → view api rel d a ≡ d.buffer h.buffer_id
  unfolding view
  view-hit d a h e = rw e

  pub view-absent :
      (d : Disk File) (a : ℕ) → hash_find a d.table ≡ none → view api rel d a ≡ rel.contents d.dev a
  unfolding view
  view-absent d a e = rw e

  list_add_steps :
      (d : Disk File) (n block : ℕ) (b : Block) (dirty : Bool) (l : Lru) (d2 : Disk File)
      → take_tail d.lru ≡ ok n l
      → evict api (l.node n) (record d { lru = l }) ≡ ok tt d2
      → list_add api block b dirty d ≡ fill n block b dirty d2
  unfolding list_add
  list_add_steps d n block b dirty l d2 take ev = rw take (rw ev)

  -- list_add of a block below 2^20 that is not in a cache in order puts it in the buffer of the
  -- last node, which becomes the head with prev NULL; the cache is in order, the block holds what
  -- was given, and the others hold what they held. A condition on a block that is not dirty is
  -- that it was read from the disk.
  pub list_add-IsCache :
      (d : Disk File) (x n block : ℕ) (xs : List ℕ) (b : Block) (dirty : Bool)
      → IsCache api rel d x (xs ++ n ∷ [])
      → block < block_limit
      → (dirty ≡ false → b ≡ view api rel d block)
      → hash_find block d.table ≡ none
      → Returns
          (λ _ d'.
            IsCache api rel d' n (x ∷ xs)
            × ((d'.lru.node n).prev ≡ none)
            × ((a : ℕ) → view api rel d' a ≡ (if a == block then b else view api rel d a)))
          (list_add api block b dirty d)
  list_add-IsCache d x n block xs b dirty k small kept absent =
      let (m, l, take, off) = returned (take_tail-IsList d.lru x n xs k.list) in
      let (m_n, is, first, out, same) = off in
      let take' : take_tail d.lru ≡ ok n l = rw m_n at take in
      let d1 : Disk File = record d { lru = l } in
      let members : (a : ℕ) → has a (n ∷ x ∷ xs) ≡ has a (x ∷ xs ++ n ∷ []) =
        λ a. ground (arith, has-append a xs (n ∷ [])) in
      let coh = relink api rel d l (x ∷ xs ++ n ∷ []) (n ∷ x ∷ xs) same members k.coherent in
      let (d2, ev, lru2, coh2, same_view, still) = evict_lem api rel d1 n (x ∷ xs) coh out in
      let absent2 = still block absent in
      let old : (a : ℕ) → view api rel d2 a ≡ view api rel d a =
        λ a. same_view a ∙ view-relink api rel d l a in
      rw (list_add_steps d n block b dirty l d2 take' ev) (
        let fresh =
          fill-IsCache api rel d2 x n block xs b dirty
            (record { list = rw lru2 is; coherent = coh2 }) out
            (rw lru2 (coh.owner n (ground arith))) (rw lru2 first) small
            (λ clean. kept clean ∙ sym (old block) ∙ view-absent d2 block absent2) absent2 in
        let (_, d3, e, k3) = returned fresh in
        let (cache, prev, new) = k3 in
        rw e (returns (cache, prev, λ a. new a ∙ ground (arith, old a))))

  module _ (d : Disk File) (block : ℕ) where
    pub disk_read-miss :
        (out b : Block)
        → hash_find block d.table ≡ none
        → api.read_at d.dev (byte_offset block) out ≡ some b
        → disk_read api out block d ≡ (list_add api block b false >> pure b) d
    unfolding disk_read
    disk_read-miss out b missing got = ground arith

    pub disk_read-hit :
        (out : Block) (h : HashNode)
        → hash_find block d.table ≡ some h
        → disk_read api out block d
          ≡ (on_list (list_prioritize h.list_node) >> pure (d.buffer h.buffer_id)) d
    unfolding disk_read read_from_cache
    disk_read-hit out h hit = ground arith

    pub disk_write-miss :
        (b : Block)
        → hash_find block d.table ≡ none
        → disk_write api b block false d ≡ list_add api block b true d
    unfolding disk_write
    disk_write-miss b missing = ground arith

    pub disk_write-hit :
        (b : Block) (h : HashNode)
        → hash_find block d.table ≡ some h
        → disk_write api b block false d
          ≡ on_list
              (list_prioritize h.list_node)
              (set_dirty h.list_node true (write_to_cache b h.buffer_id d))
    unfolding disk_write
    disk_write-hit b h hit = ground arith

  -- The precondition of a request: if the block is in the cache at the head of the list, the head
  -- has no stale prev pointer.
  abbrev pub IsUntied : Disk File → ℕ → ℕ → Type 0
  IsUntied d x block =
      (h : HashNode)
      → hash_find block d.table ≡ some h
      → h.list_node ≡ x
      → (d.lru.node x).prev ≡ none

  -- The invariant with some order of the same number of buffers.
  abbrev pub IsReady : Disk File → ℕ → ℕ → Type 0
  IsReady d y count = (ys : List ℕ) × IsCache api rel d y ys × (length ys ≡ count)

  -- A hit moves the node of the block to the front.
  pub touch :
      (d : Disk File) (x block : ℕ) (xs : List ℕ) (h : HashNode)
      → IsCache api rel d x xs
      → hash_find block d.table ≡ some h
      → IsUntied d x block
      → Returns
          (λ _ d'. SameView api rel d d' × IsReady d' h.list_node (length xs))
          (on_list (list_prioritize h.list_node) d)
  touch d x block xs h k hit untied =
      let a = h.list_node in
      let (inside, _, _, _) = k.coherent.found block h hit in
      elim (Bool-cases (a == x)) [
        | inl here ↦
            let e : a ≡ x = ground arith in
            rw (list_prioritize-head d.lru a (rw e (untied h hit e)))
              (returns ((λ c. refl), (xs, rw e k, refl)))
        | inr there ↦
            let (us, vs, e) = has-split a xs (ground arith) in
            let is : IsList d.lru x (us ++ a ∷ vs) = rw (← e) k.list in
            let (_, l, run, moved) = returned (list_prioritize-IsList d.lru x a us vs is) in
            let members : (c : ℕ) → has c (a ∷ x ∷ us ++ vs) ≡ has c (x ∷ xs) =
              λ c. rw e (ground (arith, has-append c us (a ∷ vs), has-append c us vs)) in
            rw run (
              returns (
                view-relink api rel d l,
                (
                  x ∷ us ++ vs,
                  record {
                    list = moved.0;
                    coherent =
                        relink api rel d l (x ∷ xs) (a ∷ x ∷ us ++ vs) moved.1 members k.coherent;
                  },
                  rw e (omega (arith, length-append us (a ∷ vs), length-append us vs)),
                ),
              ))
      ]

  module _ (d : Disk File) (x z : ℕ) (xs : List ℕ) (k : IsCache api rel d x (z ∷ xs)) where
    -- a miss, for disk_read and disk_write
    pub add :
        (block : ℕ) (b : Block) (dirty : Bool)
        → block < block_limit
        → (dirty ≡ false → b ≡ view api rel d block)
        → hash_find block d.table ≡ none
        → Returns
            (λ _ d'.
              ((a : ℕ) → view api rel d' a ≡ (if a == block then b else view api rel d a))
              × (y : ℕ) × IsReady d' y (length (z ∷ xs)))
            (list_add api block b dirty d)
    add block b dirty small kept absent =
        let (us, n, e) = snoc-split z xs in
        let k' : IsCache api rel d x (us ++ n ∷ []) = rw (← e) k in
        mono (list_add-IsCache d x n block us b dirty k' small kept absent)
          λ _ d' (cache, prev, new).
            (new, n, (x ∷ us, cache, omega (arith, length-append us (n ∷ []), ap length e)))

    read_same :
        (block : ℕ)
        → hash_find block d.table ≡ none
        → (c : ℕ)
        → (if c == block then rel.contents d.dev block else view api rel d c) ≡ view api rel d c
    read_same block missing c = elim (Bool-cases (c == block)) [
      | inl here ↦
          let e : c ≡ block = ground arith in rw (here, e) (sym (view-absent d block missing))
      | inr other ↦ rw other
    ]

    -- In a cache that is in order and has two buffers or more, disk_read of a block below 2^20
    -- returns what the block holds and changes no block, and the cache is in order afterwards with
    -- as many buffers. A condition is that, if the block is that of the head of the list, the
    -- head's prev pointer is NULL. The calls of the device file do not fail.
    pub disk_read-view :
        (out : Block) (block : ℕ)
        → block < block_limit
        → IsUntied d x block
        → Returns
            (λ b d'.
              (b ≡ view api rel d block)
              × SameView api rel d d'
              × (y : ℕ) × IsReady d' y (length (z ∷ xs)))
            (disk_read api out block d)
    unfolding disk_read read_from_cache
    disk_read-view out block small untied = elim (Option-cases (hash_find block d.table)) [
      | inl missing ↦
          rw
            (disk_read-miss d block out (rel.contents d.dev block) missing
              (rw (byte_offset_small block small) (rel.reads d.dev block out small)))
            (bind_ok
              (add block (rel.contents d.dev block) false small
                (λ e. sym (view-absent d block missing)) missing)
              λ _ d' (new, y, ready). returns (
                sym (view-absent d block missing),
                (λ c. new c ∙ read_same block missing c),
                y,
                ready,
              ))
      | inr (h, hit) ↦ rw (disk_read-hit d block out h hit) (
          bind_ok (touch d x block (z ∷ xs) h k hit untied)
            λ _ d' (same, ready). returns (sym (view-hit d block h hit), same, h.list_node, ready))
    ]
