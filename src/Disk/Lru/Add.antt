-- ===== src/Disk/Lru/Add.antt =====
-- The pointer work of list_add on a list in order.
use mathlib.Core.List.{append-nil}
use mathlib.Core.Path.{subst}
use pcd_file_system.Prelude.{
  ℕ, ◌≡◌, ◌≢◌, refl, false, none, some, List, [], ◌∷◌, ◌++◌, arith, sym, ap, ◌∙◌, ◌==◌,
  if◌then◌else◌,
}
use pcd_file_system.Prelude.Run.{ok, Returns, returns}
use pcd_file_system.Disk.Lru.{Lru, set_next, set_prev, set_head, set_tail, push_front, take_tail}
use pcd_file_system.Disk.Lru.Moves.{pushed, head-pushed, push_front_lem}
use pcd_file_system.Prelude.Lists.{has, Distinct, last, last-append, Distinct-append, has_ne}
use pcd_file_system.Disk.Lru.Shape.{
  Nexts, IsList, SameData, Nexts-split, Nexts-frame, Nexts-redirect, Prevs-split, Prevs-frame,
}

-- the state after the last node `n` has left the list, whose last is then `p`
taken : ℕ → ℕ → Lru → Lru
taken p n l = set_prev n none (set_next p none (set_tail (some p) l))

take_tail_lem :
    (p n : ℕ) (l : Lru)
    → l.tail ≡ some n
    → (l.node n).prev ≡ some p
    → take_tail l ≡ ok n (taken p n l)
unfolding take_tail taken
take_tail_lem p n l ht hp = simp (ht, hp)

module _ (p n : ℕ) (l : Lru) where
  taken_ends : ((taken p n l).head ≡ l.head) × ((taken p n l).tail ≡ some p)
  unfolding taken set_next set_prev set_tail
  taken_ends = (refl, refl)

  taken-next : (a : ℕ) → ((taken p n l).node a).next ≡ (if a == p then none else (l.node a).next)
  unfolding taken set_next set_prev set_tail
  taken-next a = ground arith

  taken-prev : (a : ℕ) → ((taken p n l).node a).prev ≡ (if a == n then none else (l.node a).prev)
  unfolding taken set_next set_prev set_tail
  taken-prev a = ground arith

  taken-SameData : SameData l (taken p n l)
  unfolding taken set_next set_prev set_tail
  taken-SameData a = ground arith

-- From a list in order of two nodes or more, take_tail removes the last node and returns it, with
-- prev NULL; the others keep their order, and no node loses its contents.
pub take_tail-IsList :
    (l : Lru) (x n : ℕ) (xs : List ℕ)
    → IsList l x (xs ++ n ∷ [])
    → Returns
        (λ m l'.
          (m ≡ n)
          × IsList l' x xs
          × ((l'.node n).prev ≡ none)
          × (has n (x ∷ xs) ≡ false)
          × SameData l l')
        (take_tail l)
take_tail-IsList l x n xs is =
    let (m, front, back) = Nexts-split l (l.node x).next xs (n ∷ []) none is.nexts in
    let (before, behind) = Prevs-split l x xs (n ∷ []) is.prevs in
    let p = last x xs in
    let d : Distinct (n ∷ x ∷ xs) =
      rw (append-nil xs) at (Distinct-append n (x ∷ xs) [] is.distinct) in
    let l' = taken p n l in
    let ends = taken_ends p n l in
    rw (take_tail_lem p n l (is.tail ∙ ap some (last-append x n xs [])) behind.0) (
      returns (
        refl,
        record {
          head = ends.0 ∙ is.head;
          tail = ends.1;
          nexts =
              Nexts-redirect l l' x xs m none front d.1
                (λ a i o. ground (arith, taken-next p n l a)) (ground (arith, taken-next p n l p));
          prevs =
              Prevs-frame l l' (some x) xs before
                λ a i. ground (arith, taken-prev p n l a, has_ne a n (x ∷ xs) (ground arith) d.0);
          distinct = d.1;
        },
        ground (arith, taken-prev p n l n),
        d.0,
        taken-SameData p n l,
      ))

module _ (x n : ℕ) (l : Lru) where
  pushed-next :
      (a : ℕ) → ((pushed x n l).node a).next ≡ (if a == n then some x else (l.node a).next)
  unfolding pushed set_next set_prev set_head
  pushed-next a = ground arith

  pushed-prev :
      (a : ℕ) → ((pushed x n l).node a).prev ≡ (if a == x then some n else (l.node a).prev)
  unfolding pushed set_next set_prev set_head
  pushed-prev a = ground arith

  pushed-SameData : SameData l (pushed x n l)
  unfolding pushed set_next set_prev set_head
  pushed-SameData a = ground arith

  tail-pushed : (pushed x n l).tail ≡ l.tail
  unfolding pushed set_next set_prev set_head
  tail-pushed = refl

-- push_front of a node that is not in a list in order makes it the head of that list; its prev
-- pointer is as before, and no node loses its contents.
pub push_front-IsList :
    (l : Lru) (x n : ℕ) (xs : List ℕ)
    → IsList l x xs
    → has n (x ∷ xs) ≡ false
    → Returns
        (λ _ l'. IsList l' n (x ∷ xs) × ((l'.node n).prev ≡ (l.node n).prev) × SameData l l')
        (push_front n l)
push_front-IsList l x n xs is out =
    let l' = pushed x n l in
    let nx : n ≢ x = λ e. has_ne x n (x ∷ xs) (ground arith) out (sym e) in
    let next_x : (l'.node x).next ≡ (l.node x).next = ground (arith, pushed-next x n l x) in
    rw (push_front_lem x n l is.head) (
      returns (
        record {
          head = head-pushed x n l;
          tail = tail-pushed x n l ∙ is.tail;
          nexts = (
            pushed-next x n l n ∙ ground arith,
            subst (λ o. Nexts l' o xs none) (sym next_x)
                (Nexts-frame l l' (l.node x).next xs none is.nexts λ a i.
                  ground (arith, pushed-next x n l a, has_ne a n (x ∷ xs) (ground arith) out)),
          );
          prevs = (
            ground (arith, pushed-prev x n l x),
            Prevs-frame l l' (some x) xs is.prevs
                λ a i. ground (arith, pushed-prev x n l a, has_ne a x xs i is.distinct.0),
          );
          distinct = (out, is.distinct);
        },
        ground (arith, pushed-prev x n l n),
        pushed-SameData x n l,
      ))
