-- ===== src/Disk/Hash/Map.antt =====
-- The table as a map from block ids, through hash_find.
use pcd_file_system.Prelude.{
  ℕ, ◌+◌, ◌≤◌, ◌<◌, ◌≡◌, refl, false, none, some, List, [], ◌∷◌, arith, sym, ◌∙◌, Bool-cases, inl,
  inr, if◌then◌else◌, ◌==◌,
}
use pcd_file_system.Prelude.Run.{ok, fail, Returns, returns}
use pcd_file_system.Disk.Hash.{
  HashNode, Table, hash_init, hash_func, find_in, hash_find, set_chain, hash_insert, delete_in,
  hash_delete,
}

-- the number of nodes of a block in a chain
abbrev pub count_in : ℕ → List HashNode → ℕ
count_in b [] = 0
count_in b (h ∷ hs) = (if h.block_id == b then 1 else 0) + count_in b hs

-- No chain holds two nodes of one block.
abbrev pub IsMap : Table → Type 0
IsMap t = (b : ℕ) → count_in b (t (hash_func b)) ≤ 1

pub hash_init-IsMap : IsMap hash_init
unfolding hash_init
hash_init-IsMap b = ground arith

find_in-block_id :
    (b : ℕ) (hs : List HashNode) (h : HashNode) → find_in b hs ≡ some h → h.block_id ≡ b
unfolding find_in
find_in-block_id b [] h e = cc
find_in-block_id b (g ∷ hs) h e = ground (arith, find_in-block_id b hs h)

-- The node that is found is one of the block.
pub hash_find-block_id :
    (b : ℕ) (t : Table) (h : HashNode) → hash_find b t ≡ some h → h.block_id ≡ b
unfolding hash_find
hash_find-block_id b t h e = find_in-block_id b (t (hash_func b)) h e

find_in-eq-none : (b : ℕ) (hs : List HashNode) → find_in b hs ≡ none → count_in b hs ≡ 0
unfolding find_in
find_in-eq-none b [] e = refl
find_in-eq-none b (h ∷ hs) e = ground (arith, find_in-eq-none b hs)

find_in-count_zero : (b : ℕ) (hs : List HashNode) → count_in b hs ≡ 0 → find_in b hs ≡ none
unfolding find_in
find_in-count_zero b [] e = refl
find_in-count_zero b (h ∷ hs) e = ground (arith, find_in-count_zero b hs)

hash_find_lem : (b : ℕ) (t : Table) → hash_find b t ≡ find_in b (t (hash_func b))
unfolding hash_find
hash_find_lem b t = refl

abbrev pub entry : ℕ → ℕ → ℕ → HashNode
entry b buffer node = record { buffer_id = buffer; block_id = b; list_node = node }

module _ (b buffer node : ℕ) (t : Table) where
  insert_absent :
      find_in b (t (hash_func b)) ≡ none
      → hash_insert b buffer node t
        ≡ ok tt (set_chain (hash_func b) (entry b buffer node ∷ t (hash_func b)) t)
  unfolding hash_insert
  insert_absent e = ground arith

  insert_present :
      (h : HashNode) → find_in b (t (hash_func b)) ≡ some h → hash_insert b buffer node t ≡ fail t
  unfolding hash_insert
  insert_present h e = ground arith

  set_chain-find :
      (c : ℕ)
      → find_in c (set_chain (hash_func b) (entry b buffer node ∷ t (hash_func b)) t (hash_func c))
        ≡ (if c == b then some (entry b buffer node) else find_in c (t (hash_func c)))
  unfolding set_chain find_in hash_func
  set_chain-find c = ground arith

  set_chain-count :
      (c : ℕ)
      → count_in c (set_chain (hash_func b) (entry b buffer node ∷ t (hash_func b)) t (hash_func c))
        ≡ (if c == b then 1 else 0) + count_in c (t (hash_func c))
  unfolding set_chain hash_func
  set_chain-count c = ground arith

  -- In a table without two nodes of one block, and where the block is absent, hash_insert adds the
  -- node of the block; every other block is found as before, and no block has two nodes.
  pub hash_insert-hash_find :
      IsMap t
      → hash_find b t ≡ none
      → Returns
          (λ _ t'.
            IsMap t'
            × ((c : ℕ)
                → hash_find c t' ≡ (if c == b then some (entry b buffer node) else hash_find c t)))
          (hash_insert b buffer node t)
  hash_insert-hash_find m e =
      let absent = sym (hash_find_lem b t) ∙ e in
      rw (insert_absent absent) (
        returns (
          (λ c. ground (arith, set_chain-count c, m c, find_in-eq-none b (t (hash_func b)))),
          (λ c. simp hash_find_lem (set_chain-find c)),
        ))

  -- Where the block is in the table, hash_insert returns -1 and changes nothing.
  pub hash_insert-present :
      (h : HashNode) → hash_find b t ≡ some h → hash_insert b buffer node t ≡ fail t
  hash_insert-present h e = insert_present h (sym (hash_find_lem b t) ∙ e)

-- What delete_in leaves of the other blocks, and of its own.
delete_in_lem :
    (b c : ℕ) (hs : List HashNode)
    → 0 < count_in b hs
    → (rest : List HashNode) × (delete_in b hs ≡ some rest)
      × (count_in c rest + (if c == b then 1 else 0) ≡ count_in c hs)
      × ((c == b) ≡ false → find_in c rest ≡ find_in c hs)
unfolding delete_in find_in
delete_in_lem b c [] h = absurd (omega arith)
delete_in_lem b c (g ∷ hs) h = elim (Bool-cases (g.block_id == b)) [
  | inl here ↦ (hs, rw here, ground arith, ground arith)
  | inr there ↦
      let (rest, e, n, f) = delete_in_lem b c hs (ground arith) in
      (g ∷ rest, rw there (rw e), ground arith, ground arith)
]

module _ (b : ℕ) (t : Table) where
  delete_present :
      (rest : List HashNode)
      → delete_in b (t (hash_func b)) ≡ some rest
      → hash_delete b t ≡ ok tt (set_chain (hash_func b) rest t)
  unfolding hash_delete
  delete_present rest e = ground arith

  find_in-present : (hs : List HashNode) (h : HashNode) → find_in b hs ≡ some h → 0 < count_in b hs
  unfolding find_in
  find_in-present [] h e = cc
  find_in-present (g ∷ hs) h e = ground (arith, find_in-present hs h)

  -- one lookup after the deletion
  deleted :
      (rest : List HashNode)
      → delete_in b (t (hash_func b)) ≡ some rest
      → 0 < count_in b (t (hash_func b))
      → (c : ℕ)
      → (count_in c rest + (if c == b then 1 else 0) ≡ count_in c (t (hash_func b)))
        × ((c == b) ≡ false → find_in c rest ≡ find_in c (t (hash_func b)))
  deleted rest del found c =
      let (rest', del', n, f) = delete_in_lem b c (t (hash_func b)) found in
      let e : rest' ≡ rest = cc in rw (← e) (n, f)

  module _ (rest : List HashNode) (del : delete_in b (t (hash_func b)) ≡ some rest)
      (found : 0 < count_in b (t (hash_func b))) (m : IsMap t) (c : ℕ) where
    deleted-count : count_in c (set_chain (hash_func b) rest t (hash_func c)) ≤ 1
    unfolding set_chain
    deleted-count = ground (arith, m c, m b, (deleted rest del found c).0)

    deleted-find :
        find_in c (set_chain (hash_func b) rest t (hash_func c))
        ≡ (if c == b then none else find_in c (t (hash_func c)))
    unfolding set_chain
    deleted-find =
        let (n, f) = deleted rest del found c in
        ground (arith, n, f, find_in-count_zero c rest, m c, m b)

  -- In a table without two nodes of one block, and where the block is found, hash_delete takes its
  -- node out; every other block is found as before, and no block has two nodes.
  pub hash_delete-hash_find :
      (h : HashNode)
      → IsMap t
      → hash_find b t ≡ some h
      → Returns
          (λ _ t'. IsMap t' × ((c : ℕ) → hash_find c t' ≡ (if c == b then none else hash_find c t)))
          (hash_delete b t)
  hash_delete-hash_find h m e =
      let chain = t (hash_func b) in
      let found = find_in-present chain h (sym (hash_find_lem b t) ∙ e) in
      let (rest, del, _, _) = delete_in_lem b b chain found in
      rw (delete_present rest del) (
        returns (
          (λ c. deleted-count rest del found m c),
          (λ c. simp hash_find_lem (deleted-find rest del found m c)),
        ))
