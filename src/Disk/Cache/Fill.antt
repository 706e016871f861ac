-- ===== src/Disk/Cache/Fill.antt =====
-- The second half of list_add: the node takes the new block and becomes the head.
use pcd_file_system.Prelude.{
  ℕ, ◌<◌, ◌≡◌, ◌≢◌, refl, Bool, true, false, none, some, List, ◌∷◌, arith, if◌then◌else◌, ◌==◌, ◌∙◌,
  Bool-cases, Option-cases, inl, inr,
}
use pcd_file_system.Prelude.Run.{ok, Returns, returns, returned}
use pcd_file_system.Block.{Block}
use pcd_file_system.Disk.Lru.{Lru, push_front}
use pcd_file_system.Prelude.Lists.{has, has_ne}
use pcd_file_system.Disk.Lru.Shape.{IsList, IsList-frame, SameData}
use pcd_file_system.Disk.Lru.Add.{push_front-IsList}
use pcd_file_system.Disk.Hash.{Table, hash_find, hash_insert}
use pcd_file_system.Disk.Hash.Map.{IsMap, entry, hash_insert-hash_find}
use pcd_file_system.Disk.Device.{FileApi, IsReliable, block_limit}
use pcd_file_system.Disk.Cache.{Disk, fill, assign_node, write_to_cache}
use pcd_file_system.Disk.Cache.Coherent.{view, IsCoherent, IsCache, relink}

assign_node-IsList :
    (n block : ℕ) (dirty : Bool) (l : Lru) (x : ℕ) (xs : List ℕ)
    → IsList l x xs
    → IsList (assign_node n block dirty l) x xs
unfolding assign_node
assign_node-IsList n block dirty l x xs is =
    IsList-frame l (assign_node n block dirty l) x xs is refl refl λ a. ground arith

module _ (api : FileApi) (rel : IsReliable api) where
  open api use {File}

  -- the state before the node is pushed
  assigned : Disk File → ℕ → ℕ → Block → Bool → Table → Disk File
  unfolding write_to_cache
  assigned d n block b dirty t = record (write_to_cache b n d) {
    lru = assign_node n block dirty d.lru;
    table = t;
  }

  module _ (d : Disk File) (n block : ℕ) (b : Block) (dirty : Bool) (ms : List ℕ)
      (c : IsCoherent api rel d ms) (out : has n ms ≡ false) (own : (d.lru.node n).buffer_id ≡ n)
      (small : block < block_limit) (kept : dirty ≡ false → b ≡ rel.contents d.dev block)
      (absent : hash_find block d.table ≡ none) (t : Table) (map : IsMap t)
      (finds : (a : ℕ)
        → hash_find a t
          ≡ (if a == block then some (entry block n n) else hash_find a d.table)) where
    other_block :
        (a : ℕ) → has a ms ≡ true → (d.lru.node a).in_hash ≡ true → (d.lru.node a).block_id ≢ block
    other_block a i m e = let (at, _, _) = c.held a i m in cc

    assigned-IsCoherent : IsCoherent api rel (assigned d n block b dirty t) (n ∷ ms)
    unfolding assigned assign_node
    assigned-IsCoherent = record {
      map = map;
      found = λ a h e. ground (arith, finds a, c.found a h, has_ne h.list_node n ms);
      held = λ a i m. elim (Bool-cases (a == n)) [
        | inl here ↦ rw here (finds block ∙ ground arith, small, λ e. kept e)
        | inr there ↦
            let (at, lt, same) = c.held a (ground arith) (ground arith) in
            let other = other_block a (ground arith) (ground arith) in
            rw there (finds (d.lru.node a).block_id ∙ ground arith, lt, same)
      ];
      owner = λ a i. ground (arith, c.owner a, own);
      tidy = λ a i m. ground (arith, c.tidy a);
    }

    assigned-view :
        (a : ℕ)
        → view api rel (assigned d n block b dirty t) a
          ≡ (if a == block then b else view api rel d a)
    unfolding assigned view
    assigned-view a = elim (Bool-cases (a == block)) [
      | inl here ↦
          let hit : hash_find a t ≡ some (entry block n n) = finds a ∙ ground arith in
          rw (hit, here) (ground arith)
      | inr other ↦
          let same : hash_find a t ≡ hash_find a d.table = finds a ∙ ground arith in
          elim (Option-cases (hash_find a d.table)) [
            | inl missing ↦ rw same (rw (missing, other))
            | inr (h, hit) ↦
                let (inside, number, _, _) = c.found a h hit in
                let apart = has_ne h.list_node n ms inside out in
                rw same (rw (hit, other) (ground arith))
          ]
    ]

  fill-assigned :
      (d : Disk File) (n block : ℕ) (b : Block) (dirty : Bool) (t : Table) (l : Lru)
      → (d.lru.node n).buffer_id ≡ n
      → hash_insert block n n d.table ≡ ok tt t
      → push_front n (assign_node n block dirty d.lru) ≡ ok tt l
      → fill n block b dirty d ≡ ok tt (record (assigned d n block b dirty t) { lru = l })
  unfolding fill assigned
  fill-assigned d n block b dirty t l own ins push = rw own (rw ins (rw push))

  assigned-prev :
      (n block : ℕ) (dirty : Bool) (l : Lru)
      → ((assign_node n block dirty l).node n).prev ≡ (l.node n).prev
  unfolding assign_node
  assigned-prev n block dirty l = ground arith

  lru-assigned :
      (d : Disk File) (n block : ℕ) (b : Block) (dirty : Bool) (t : Table)
      → (assigned d n block b dirty t).lru ≡ assign_node n block dirty d.lru
  unfolding assigned
  lru-assigned d n block b dirty t = refl

  pub view-relink :
      (d : Disk File) (l : Lru) (a : ℕ) → view api rel (record d { lru = l }) a ≡ view api rel d a
  unfolding view
  view-relink d l a = elim (Option-cases (hash_find a d.table)) [
    | inl missing ↦ rw missing
    | inr (h, hit) ↦ rw hit
  ]

  -- The node `n`, which is off the list `x ∷ xs`, becomes its head with the new block.
  pub fill-IsCache :
      (d : Disk File) (x n block : ℕ) (xs : List ℕ) (b : Block) (dirty : Bool)
      → IsCache api rel d x xs
      → has n (x ∷ xs) ≡ false
      → (d.lru.node n).buffer_id ≡ n
      → (d.lru.node n).prev ≡ none
      → block < block_limit
      → (dirty ≡ false → b ≡ rel.contents d.dev block)
      → hash_find block d.table ≡ none
      → Returns
          (λ _ d'.
            IsCache api rel d' n (x ∷ xs)
            × ((d'.lru.node n).prev ≡ none)
            × ((a : ℕ) → view api rel d' a ≡ (if a == block then b else view api rel d a)))
          (fill n block b dirty d)
  fill-IsCache d x n block xs b dirty k out own first small kept absent =
      let (_, t, ins, map_of) =
        returned (hash_insert-hash_find block n n d.table k.coherent.map absent) in
      let (map, finds) = map_of in
      let l1 = assign_node n block dirty d.lru in
      let (_, l, push, pushed) =
        returned
          (push_front-IsList l1 x n xs (assign_node-IsList n block dirty d.lru x xs k.list) out) in
      let (is, prev, same) = pushed in
      let coh =
        assigned-IsCoherent d n block b dirty (x ∷ xs) k.coherent out own small kept absent t map
          finds in
      let d1 = assigned d n block b dirty t in
      let same' : SameData d1.lru l = rw (lru-assigned d n block b dirty t) same in
      rw (fill-assigned d n block b dirty t l own ins push) (
        returns (
          record {
            list = is;
            coherent = relink api rel d1 l (n ∷ x ∷ xs) (n ∷ x ∷ xs) same' (λ a. refl) coh;
          },
          prev ∙ assigned-prev n block dirty d.lru ∙ first,
          λ a.
              view-relink d1 l a
              ∙ assigned-view d n block b dirty (x ∷ xs) k.coherent out own small kept absent t map
                  finds a,
        ))
