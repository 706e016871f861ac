-- ===== src/Db/FreeList.antt =====
-- What the free list on the disk stands for: the ids of the free blocks, in the order in which
-- db_allocate hands them out.
use mathlib.Core.Path.{subst}
use pcd_file_system.Prelude.{
  ℕ, ◌-◌, ◌^◌, ◌≤◌, ◌<◌, ◌≡◌, ◌≢◌, true, List, [], ◌∷◌, ◌++◌, arith, sym, ap, ◌∙◌, some, none, ◌⊎◌,
  inl, inr,
}
use pcd_file_system.Prelude.Lists.{has, has-append, Distinct, Distinct-back, has_ne, length}
use pcd_file_system.Block.{Block, word, set_word}
use pcd_file_system.Block.Words.{word-set_word_ne}
use pcd_file_system.Sb.{Sb}
use pcd_file_system.Db.{uint_max, find_used}
use pcd_file_system.Db.Entries.{entries, find_used-some, find_used-none}

-- the free blocks that a block of the list names in its entries
abbrev pub named : Block → List ℕ
named b = entries b 1023 1

-- From the block `l` on the list stands for `ids`, on a disk that holds `v`.
pub data Chain (v : ℕ → Block) : ℕ → List ℕ → Type 0 where
  last_one : {l : ℕ} {ids : List ℕ} → word (v l) 0 ≡ l → ids ≡ named (v l) ++ l ∷ [] → Chain v l ids
  linked :
      {l m : ℕ} {ids rest : List ℕ}
      → word (v l) 0 ≡ m
      → m ≢ l
      → Chain v m rest
      → ids ≡ named (v l) ++ l ∷ rest
      → Chain v l ids

-- The free blocks are different blocks, none of them block 0, and their ids are below
-- UINT_MAX, the mark of an empty list.
pub record AreFree (ids : List ℕ) : Type 0 where
  pub distinct : Distinct ids
  pub positive : (a : ℕ) → has a ids ≡ true → a ≢ 0
  pub small : (a : ℕ) → has a ids ≡ true → a < 2 ^ 32 - 1

-- The super block and the disk have the free list `ids`, and the super block counts that many free
-- blocks or more.
pub data IsFreeList (v : ℕ → Block) (super : Sb) : List ℕ → Type 0 where
  exhausted :
      {ids : List ℕ}
      → super.num_free_block ≡ 0
      → super.free_list ≡ uint_max
      → ids ≡ []
      → IsFreeList v super ids
  listed :
      {ids : List ℕ}
      → Chain v super.free_list ids
      → length ids ≤ super.num_free_block
      → AreFree ids
      → IsFreeList v super ids

pub Chain-head : (v : ℕ → Block) (l : ℕ) (ids : List ℕ) → Chain v l ids → has l ids ≡ true
Chain-head v l ids (last_one w e) = rw e (ground (arith, has-append l (named (v l)) (l ∷ [])))
Chain-head v l ids (linked {rest} w ne c e) =
    rw e (ground (arith, has-append l (named (v l)) (l ∷ rest)))

-- A list depends on its own blocks alone.
pub Chain-frame :
    (v v' : ℕ → Block) (l : ℕ) (ids : List ℕ)
    → Chain v l ids
    → ((a : ℕ) → has a ids ≡ true → v' a ≡ v a)
    → Chain v' l ids
Chain-frame v v' l ids (last_one w e) same =
    let here = same l (Chain-head v l ids (last_one w e)) in last_one (rw here w) (rw here e)
Chain-frame v v' l ids (linked {m} {rest} w ne c e) same =
    let here = same l (Chain-head v l ids (linked w ne c e)) in
    linked (rw here w) ne
      (Chain-frame v v' m rest c
        λ a i. same a (rw e (ground (arith, has-append a (named (v l)) (l ∷ rest)))))
      (rw here e)

-- The blocks behind the head are neither the head nor block 0.
pub behind :
    (l : ℕ) (ids front rest : List ℕ)
    → AreFree ids
    → ids ≡ front ++ l ∷ rest
    → (a : ℕ) → has a rest ≡ true
    → (a ≢ l) × (a ≢ 0)
behind l ids front rest free e a i =
    let d : Distinct (front ++ l ∷ rest) = subst Distinct e free.distinct in
    let inside : has a ids ≡ true =
      subst (λ xs. has a xs ≡ true) (sym e) (ground (arith, has-append a front (l ∷ rest))) in
    (has_ne a l rest i (Distinct-back front (l ∷ rest) d).0, free.positive a inside)

module _ (v v' : ℕ → Block) (l id : ℕ) (ids : List ℕ) (free : AreFree (id ∷ ids)) where
  -- The first entry is the first id of the list, and the list goes on without it.
  pub Chain-take_entry :
      (i : ℕ)
      → Chain v l (id ∷ ids)
      → find_used (v l) 1023 1 ≡ some i
      → v' l ≡ set_word (v l) i 0
      → ((a : ℕ) → a ≢ l → a ≢ 0 → v' a ≡ v a)
      → (word (v l) i ≡ id) × Chain v' l ids
  Chain-take_entry i (last_one w e) found now same =
      let (le, first) = find_used-some (v l) 1023 1 i found in
      let split : id ∷ ids ≡ word (v l) i ∷ named (set_word (v l) i 0) ++ l ∷ [] =
        e ∙ ap (λ xs. xs ++ l ∷ []) first in
      (cc, last_one (rw now (word-set_word_ne (v l) i 0 0 (omega arith) ∙ w)) (rw now cc))
  Chain-take_entry i (linked {m} {rest} w ne c e) found now same =
      let (le, first) = find_used-some (v l) 1023 1 i found in
      let split : id ∷ ids ≡ word (v l) i ∷ named (set_word (v l) i 0) ++ l ∷ rest =
        e ∙ ap (λ xs. xs ++ l ∷ rest) first in
      (
        cc,
        linked (rw now (word-set_word_ne (v l) i 0 0 (omega arith) ∙ w)) ne
            (Chain-frame v v' m rest c λ a j.
              let (nl, nz) = behind l (id ∷ ids) (named (v l)) rest free e a j in same a nl nz)
            (rw now cc),
      )

  -- Without entries the head is the first id; the list ends there, or goes on at the next block.
  pub Chain-take_head :
      Chain v l (id ∷ ids)
      → find_used (v l) 1023 1 ≡ none
      → ((a : ℕ) → a ≢ 0 → v' a ≡ v a)
      → (l ≡ id)
        × (((word (v l) 0 ≡ l) × (ids ≡ [])) ⊎ ((word (v l) 0 ≢ l) × Chain v' (word (v l) 0) ids))
  Chain-take_head (last_one w e) found same =
      let empty = find_used-none (v l) 1023 1 found in
      let split : id ∷ ids ≡ l ∷ [] = e ∙ ap (λ xs. xs ++ l ∷ []) empty in (cc, inl (w, cc))
  Chain-take_head (linked {m} {rest} w ne c e) found same =
      let empty = find_used-none (v l) 1023 1 found in
      let split : id ∷ ids ≡ l ∷ rest = e ∙ ap (λ xs. xs ++ l ∷ rest) empty in
      let tail : rest ≡ ids = cc in
      (
        cc,
        inr (
          (λ h. ne (sym w ∙ h)),
          rw w (
              rw (← tail) (
                Chain-frame v v' m rest c
                  λ a j. same a (behind l (id ∷ ids) (named (v l)) rest free e a j).1)),
        ),
      )
