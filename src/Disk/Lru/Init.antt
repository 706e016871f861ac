-- ===== src/Disk/Lru/Init.antt =====
-- list_init and the list of all buffers.
use mathlib.Core.List.{append-nil, append_assoc}
use mathlib.Core.Path.{subst}
use pcd_file_system.Prelude.{
  ℕ, zero, suc, ◌+◌, ◌<◌, ◌≡◌, refl, true, false, none, some, List, [], ◌∷◌, ◌++◌, arith, ap, ◌∙◌,
  ◌==◌, if◌then◌else◌, Bool-cases, inl, inr,
}
use pcd_file_system.Disk.Lru.{
  Lru, set_node, set_next, set_head, set_tail, new_node, init_loop, list_init,
}
use pcd_file_system.Prelude.Lists.{has, Distinct, last, length, has-append, has-last, last-append}
use pcd_file_system.Disk.Lru.Shape.{
  Nexts, Prevs, IsList, Nexts-join, Nexts-redirect, Prevs-join, Prevs-frame, Nexts-frame,
}

-- i, i + 1, ..., k numbers in all
pub count_from : ℕ → ℕ → List ℕ
count_from i zero = []
count_from i (suc k) = i ∷ count_from (i + 1) k

-- Node `a` is free and owns buffer `a`.
pub record IsFresh (l : Lru) (a : ℕ) : Type 0 where
  pub buffer : (l.node a).buffer_id ≡ a
  pub unused : (l.node a).in_hash ≡ false
  pub clean : (l.node a).dirty ≡ false

-- the list that the loop has built when it comes to node `i`
record IsBuilt (l : Lru) (x : ℕ) (xs : List ℕ) (i : ℕ) : Type 0 where
  head : l.head ≡ some x
  nexts : Nexts l (l.node x).next xs none
  first : (l.node x).prev ≡ none
  prevs : Prevs l (some x) xs
  distinct : Distinct (x ∷ xs)
  below : (a : ℕ) → has a (x ∷ xs) ≡ true → a < i
  fresh : (a : ℕ) → has a (x ∷ xs) ≡ true → IsFresh l a

Distinct-snoc : (xs : List ℕ) (n : ℕ) → Distinct xs → has n xs ≡ false → Distinct (xs ++ n ∷ [])
Distinct-snoc [] n d out = (refl, tt)
Distinct-snoc (x ∷ xs) n d out = ground (arith, has-append x xs (n ∷ []), Distinct-snoc xs n d.1)

-- one turn of the loop
grown : ℕ → ℕ → ℕ → Lru → Lru
grown junk h i l = set_next h (some i) (set_node i (new_node i junk (some h)) l)

module _ (junk h i : ℕ) (l : Lru) (lt : h < i) where
  grown-next :
      (a : ℕ)
      → ((grown junk h i l).node a).next
        ≡ (if a == h then some i else (if a == i then none else (l.node a).next))
  unfolding grown set_next set_node new_node
  grown-next a = ground arith

  grown-prev :
      (a : ℕ) → ((grown junk h i l).node a).prev ≡ (if a == i then some h else (l.node a).prev)
  unfolding grown set_next set_node new_node
  grown-prev a = ground arith

  grown-fresh_new : IsFresh (grown junk h i l) i
  unfolding grown set_next set_node new_node
  grown-fresh_new = ground arith

  grown-fresh_old : (a : ℕ) → IsFresh l a → a < i → IsFresh (grown junk h i l) a
  unfolding grown set_next set_node new_node
  grown-fresh_old a f b = ground arith

head-grown : (junk h i : ℕ) (l : Lru) → (grown junk h i l).head ≡ l.head
unfolding grown set_next set_node
head-grown junk h i l = refl

grown-IsBuilt :
    (junk i x : ℕ) (xs : List ℕ) (l : Lru)
    → IsBuilt l x xs i
    → IsBuilt (grown junk (last x xs) i l) x (xs ++ i ∷ []) (i + 1)
grown-IsBuilt junk i x xs l b =
    let h = last x xs in
    let l' = grown junk h i l in
    let lt = b.below h (has-last x xs) in
    let next' = grown-next junk h i l lt in
    let prev' = grown-prev junk h i l lt in
    let out : has i (x ∷ xs) ≡ false = ground (arith, b.below i) in
    record {
      head = head-grown junk h i l ∙ b.head;
      nexts =
          Nexts-join l' (l'.node x).next (some i) xs (i ∷ []) none
            (Nexts-redirect l l' x xs none (some i) b.nexts b.distinct
              (λ a m o. ground (arith, next' a, b.below a m)) (ground (arith, next' h)))
            (refl, ground (arith, next' i));
      first = ground (arith, prev' x, b.below x (ground arith), b.first);
      prevs =
          Prevs-join l' x xs (i ∷ [])
            (Prevs-frame l l' (some x) xs b.prevs
              λ a m. ground (arith, prev' a, b.below a (ground arith)))
            (ground (arith, prev' i), tt);
      distinct = Distinct-snoc (x ∷ xs) i b.distinct out;
      below = λ a m. ground (arith, has-append a xs (i ∷ []), b.below a);
      fresh = λ a m. elim (Bool-cases (has a (x ∷ xs))) [
        | inl old ↦ grown-fresh_old junk h i l lt a (b.fresh a old) (b.below a old)
        | inr other ↦
            let e : i ≡ a = ground (arith, has-append a xs (i ∷ [])) in
            subst (IsFresh l') e (grown-fresh_new junk h i l lt)
      ];
    }

init_loop-IsBuilt :
    (junk rounds i x : ℕ) (xs : List ℕ) (l : Lru)
    → IsBuilt l x xs i
    → (l' : Lru) × (init_loop junk rounds i (some (last x xs)) l
        ≡ set_tail (some (last x (xs ++ count_from i rounds))) l')
      × IsBuilt l' x (xs ++ count_from i rounds) (i + rounds)
unfolding init_loop grown count_from
init_loop-IsBuilt junk zero i x xs l b =
    (l, rw (append-nil xs), rw append-nil (let e : i ≡ i + 0 = omega arith in rw (← e) b))
init_loop-IsBuilt junk (suc rounds) i x xs l b =
    let (l', e, b') =
      init_loop-IsBuilt junk rounds (i + 1) x (xs ++ i ∷ []) _ (grown-IsBuilt junk i x xs l b) in
    let count : i + 1 + rounds ≡ i + suc rounds = omega arith in
    (
      l',
      simp last-append (simp (append_assoc, last-append) at e),
      subst (IsBuilt l' x (xs ++ i ∷ count_from (i + 1) rounds)) count (
          subst (λ zs. IsBuilt l' x zs (i + 1 + rounds))
            (append_assoc xs (i ∷ []) (count_from (i + 1) rounds)) b'),
    )

first_node : ℕ → Lru → Lru
first_node junk l = set_head (some 0) (set_node 0 (new_node 0 junk none) (set_head none l))

first_node-IsBuilt : (junk : ℕ) (l : Lru) → IsBuilt (first_node junk l) 0 [] 1
unfolding first_node set_head set_node new_node
first_node-IsBuilt junk l = record {
  head = refl;
  nexts = refl;
  first = refl;
  prevs = tt;
  distinct = (refl, tt);
  below = λ a m. ground arith;
  fresh = λ a m. ground arith;
}

finished :
    (l : Lru) (x i : ℕ) (xs : List ℕ)
    → IsBuilt l x xs i
    → IsList (set_tail (some (last x xs)) l) x xs
      × (((set_tail (some (last x xs)) l).node x).prev ≡ none)
      × ((a : ℕ) → has a (x ∷ xs) ≡ true → IsFresh (set_tail (some (last x xs)) l) a)
unfolding set_tail
finished l x i xs b =
    let l' = set_tail (some (last x xs)) l in
    (
      record {
        head = b.head;
        tail = refl;
        nexts = Nexts-frame l l' _ xs none b.nexts (λ a m. refl);
        prevs = Prevs-frame l l' (some x) xs b.prevs (λ a m. refl);
        distinct = b.distinct;
      },
      b.first,
      λ a m. ground (arith, b.fresh a m),
    )

-- After list_init with n + 1 buffers the list is 0, 1, ..., n; the prev pointer of the head is
-- NULL, every node is free and clean, and node i owns buffer i.
pub list_init-IsList :
    (junk n : ℕ) (l : Lru)
    → let l' = list_init junk (suc n) l in
      IsList l' 0 (count_from 1 n)
      × ((l'.node 0).prev ≡ none)
      × ((a : ℕ) → has a (0 ∷ count_from 1 n) ≡ true → IsFresh l' a)
unfolding list_init init_loop first_node
list_init-IsList junk n l =
    let (l', e, b) = init_loop-IsBuilt junk n 1 0 [] _ (first_node-IsBuilt junk l) in
    rw e (finished l' 0 _ _ b)

pub length-count_from : (i k : ℕ) → length (count_from i k) ≡ k
unfolding count_from
length-count_from i zero = refl
length-count_from i (suc k) = ap suc (length-count_from (i + 1) k)
