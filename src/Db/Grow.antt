-- ===== src/Db/Grow.antt =====
-- What db_free does to the list: an id joins it, in an entry of its head or as its new head.
use mathlib.Core.Path.{subst}
use pcd_file_system.Prelude.{
  ℕ, suc, ◌-◌, ◌^◌, ◌≤◌, ◌<◌, ◌≡◌, ◌≢◌, false, some, List, [], ◌∷◌, ◌++◌, arith, ◌==◌, sym, ap, ◌∙◌,
  Bool-cases, inl, inr,
}
use pcd_file_system.Prelude.Lists.{has, append_assoc, Distinct-put, has-put, length-put, length}
use pcd_file_system.Block.{Block, zero_block, word, set_word}
use pcd_file_system.Block.Words.{word-set_word, word-set_word_ne}
use pcd_file_system.Sb.{Sb}
use pcd_file_system.Db.{find_empty}
use pcd_file_system.Db.Entries.{entries-frame, find_empty-some, entries-zero_block}
use pcd_file_system.Db.FreeList.{
  named, Chain, last_one, linked, Chain-frame, behind, AreFree, IsFreeList, listed,
}

-- The id `b` joins the ids `us ++ vs`.
pub AreFree-put :
    (us vs : List ℕ) (b : ℕ)
    → AreFree (us ++ vs)
    → has b (us ++ vs) ≡ false
    → b ≢ 0
    → b < 2 ^ 32 - 1
    → AreFree (us ++ b ∷ vs)
AreFree-put us vs b f out nz lt = record {
  distinct = Distinct-put b us vs f.distinct out;
  positive = λ a i. elim (Bool-cases (a == b)) [
    | inl e ↦ ground arith
    | inr ne ↦ f.positive a (ground (arith, has-put a b us vs))
  ];
  small = λ a i. elim (Bool-cases (a == b)) [
    | inl e ↦ ground arith
    | inr ne ↦ f.small a (ground (arith, has-put a b us vs))
  ];
}

-- a list of one block
abbrev pub link : ℕ → Block
link l = set_word zero_block 0 l

pub named-link : (l : ℕ) → named (link l) ≡ []
named-link l =
    entries-frame zero_block (link l) 1023 1
      (λ j le. word-set_word_ne zero_block 0 j l (omega arith))
    ∙ entries-zero_block 1023 1

pub word-link : (l : ℕ) → l < 2 ^ 32 → word (link l) 0 ≡ l
word-link l lt = word-set_word zero_block 0 l ∙ omega arith

pub Chain-single : (v : ℕ → Block) (b : ℕ) → b < 2 ^ 32 → v b ≡ link b → Chain v b (b ∷ [])
Chain-single v b lt e = last_one (rw e (word-link b lt)) (rw e (rw (named-link b)))

pub Chain-push :
    (v : ℕ → Block) (l b : ℕ) (ids : List ℕ)
    → l < 2 ^ 32
    → l ≢ b
    → v b ≡ link l
    → Chain v l ids
    → Chain v b (b ∷ ids)
Chain-push v l b ids lt ne e c = linked (rw e (word-link l lt)) ne c (rw e (rw (named-link l)))

module _ (v v' : ℕ → Block) (l : ℕ) (ids : List ℕ) (b i : ℕ) where
  -- With the id in the entry that is empty, the list stands for one id more.
  pub Chain-put :
      AreFree ids
      → Chain v l ids
      → find_empty (v l) 1023 1 ≡ some i
      → b ≢ 0
      → b < 2 ^ 32
      → v' l ≡ set_word (v l) i b
      → ((a : ℕ) → a ≢ l → a ≢ 0 → v' a ≡ v a)
      → (us : List ℕ) × (vs : List ℕ) × (ids ≡ us ++ vs) × Chain v' l (us ++ b ∷ vs)
  Chain-put free (last_one w e) found nz lt now same =
      let (le, us, vs, old, new) = find_empty-some (v l) 1023 1 i b found nz lt in
      (
        us,
        vs ++ l ∷ [],
        e ∙ ap (λ xs. xs ++ l ∷ []) old ∙ append_assoc us vs (l ∷ []),
        last_one (rw now (word-set_word_ne (v l) i 0 b (omega arith) ∙ w))
            (rw now (sym (append_assoc us (b ∷ vs) (l ∷ [])) ∙ ap (λ xs. xs ++ l ∷ []) (sym new))),
      )
  Chain-put free (linked {m} {rest} w ne c e) found nz lt now same =
      let (le, us, vs, old, new) = find_empty-some (v l) 1023 1 i b found nz lt in
      (
        us,
        vs ++ l ∷ rest,
        e ∙ ap (λ xs. xs ++ l ∷ rest) old ∙ append_assoc us vs (l ∷ rest),
        linked (rw now (word-set_word_ne (v l) i 0 b (omega arith) ∙ w)) ne
            (Chain-frame v v' m rest c
              λ a j. let (nl, nz) = behind l ids (named (v l)) rest free e a j in same a nl nz)
            (rw now
              (sym (append_assoc us (b ∷ vs) (l ∷ rest)) ∙ ap (λ xs. xs ++ l ∷ rest) (sym new))),
      )

-- the list with one id more, under a super block that counts it
pub listed-put :
    (v : ℕ → Block) (super : Sb) (ids us vs : List ℕ) (b : ℕ)
    → ids ≡ us ++ vs
    → AreFree ids
    → has b ids ≡ false
    → b ≢ 0
    → b < 2 ^ 32 - 1
    → suc (length ids) ≤ super.num_free_block
    → Chain v super.free_list (us ++ b ∷ vs)
    → IsFreeList v super (us ++ b ∷ vs)
listed-put v super ids us vs b e free out nz lt n c =
    let free' : AreFree (us ++ vs) = subst AreFree e free in
    let out' : has b (us ++ vs) ≡ false = subst (λ xs. has b xs ≡ false) e out in
    let n' : suc (length (us ++ vs)) ≤ super.num_free_block =
      subst (λ xs. suc (length xs) ≤ super.num_free_block) e n in
    listed c (omega (arith, length-put b us vs)) (AreFree-put us vs b free' out' nz lt)
