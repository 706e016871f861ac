-- ===== src/Disk/Lru/Prioritize.antt =====
-- list_prioritize of a node of a list in order.
use mathlib.Core.List.{append-nil}
use mathlib.Core.Bool.{false≢true}
use mathlib.Core.Path.{subst}
use pcd_file_system.Prelude.{
  ℕ, ◌≡◌, ◌≢◌, refl, true, false, none, some, List, [], ◌∷◌, ◌++◌, arith, sym, ap, ◌∙◌,
}
use pcd_file_system.Prelude.Run.{Returns, returns}
use pcd_file_system.Disk.Lru.{Lru, set_next, set_prev, set_head, set_tail, list_prioritize}
use pcd_file_system.Disk.Lru.Moves.{
  pushed, unlinked, head-pushed, list_prioritize-middle, list_prioritize-last, middle-next,
  middle-prev, last-next, last-prev,
}
use pcd_file_system.Prelude.Lists.{
  has, Distinct, last, has-append, has-last, last-append, Distinct-append, Distinct-front,
  Distinct-apart, has_ne, Distinct-apart_back, Distinct-back,
}
use pcd_file_system.Disk.Lru.Shape.{
  Nexts, IsList, SameData, Nexts-split, Nexts-join, Nexts-frame, Nexts-redirect, Prevs-split,
  Prevs-join, Prevs-frame,
}

module _ (x n q : ℕ) (xs ys : List ℕ) (l : Lru) (is : IsList l x (xs ++ n ∷ q ∷ ys)) where
  middle_links : ((l.node n).prev ≡ some (last x xs)) × ((l.node n).next ≡ some q)
  middle_links =
      let (m, front, back) = Nexts-split l (l.node x).next xs (n ∷ q ∷ ys) none is.nexts in
      let (before, behind) = Prevs-split l x xs (n ∷ q ∷ ys) is.prevs in (behind.0, back.1.0)

  tail-middle : (pushed x n (unlinked (last x xs) q n l)).tail ≡ l.tail
  unfolding pushed unlinked set_next set_prev set_head
  tail-middle = refl

  middle-Distinct : Distinct (n ∷ x ∷ xs ++ q ∷ ys)
  middle-Distinct = Distinct-append n (x ∷ xs) (q ∷ ys) is.distinct

  middle_apart : (n ≢ last x xs) × (x ≢ n) × (q ≢ n) × (x ≢ q)
  middle_apart =
      let d = middle-Distinct in
      let inside = has-last x xs in
      ground (arith, has-append n xs (q ∷ ys), has-append x xs (q ∷ ys), inside, d)

  middle_IsList : IsList (pushed x n (unlinked (last x xs) q n l)) n (x ∷ xs ++ q ∷ ys)
  middle_IsList =
      let (m, front, back) = Nexts-split l (l.node x).next xs (n ∷ q ∷ ys) none is.nexts in
      let (before, behind) = Prevs-split l x xs (n ∷ q ∷ ys) is.prevs in
      let p = last x xs in
      let d = middle-Distinct in
      let l' = pushed x n (unlinked p q n l) in
      let (np, xn, qn, xq) = middle_apart in
      let next' = λ (a : ℕ). middle-next p q x n l a np in
      let prev' = λ (a : ℕ). middle-prev p q x n l a xn in
      let front_apart : (a : ℕ) → has a (x ∷ xs) ≡ true → (a ≢ n) × (has a (q ∷ ys) ≡ false) =
        λ a i. (
          has_ne a n (x ∷ xs) i (ground (arith, has-append n xs (q ∷ ys), d.0)),
          Distinct-apart (x ∷ xs) (q ∷ ys) a d.1 i,
        ) in
      let back_apart : (a : ℕ) → has a ys ≡ true → (a ≢ n) × (a ≢ q) × (has a (x ∷ xs) ≡ false) =
        λ a i. (
          has_ne a n ys i (ground (arith, has-append n xs (q ∷ ys), d.0)),
          has_ne a q ys i (Distinct-back (x ∷ xs) (q ∷ ys) d.1).0,
          Distinct-apart_back (x ∷ xs) (q ∷ ys) a d.1 (ground arith),
        ) in
      let fd = Distinct-front (x ∷ xs) (q ∷ ys) d.1 in
      let inside = has-last x xs in
      let not_p : q ≢ p = λ e. false≢true (
        sym (Distinct-apart_back (x ∷ xs) (q ∷ ys) q d.1 (ground arith))
        ∙ subst (λ a. has a (x ∷ xs) ≡ true) (sym e) inside) in
      let next_q : (l'.node q).next ≡ (l.node q).next = ground (arith, next' q) in
      record {
        head = head-pushed _ n _;
        tail =
            tail-middle
            ∙ is.tail
            ∙ ap some (last-append x n xs (q ∷ ys) ∙ sym (last-append x q xs ys));
        nexts = (
          next' n ∙ ground arith,
          Nexts-join l' (l'.node x).next (some q) xs (q ∷ ys) none
              (Nexts-redirect l l' x xs m (some q) front (Distinct-front (x ∷ xs) (q ∷ ys) d.1)
                (λ a i o. ground (arith, next' a, front_apart a i)) (ground (arith, next' p)))
              (
                refl,
                subst (λ o. Nexts l' o ys none) (sym next_q)
                    (Nexts-frame l l' (l.node q).next ys none back.1.1
                      (λ a i. ground (arith, next' a, back_apart a i, inside))),
              ),
        );
        prevs = (
          ground (arith, prev' x),
          Prevs-join l' x xs (q ∷ ys)
              (Prevs-frame l l' (some x) xs before (λ a i.
                ground (arith, prev' a, front_apart a (ground arith), has_ne a x xs i fd.0)))
              (
                ground (arith, prev' q),
                Prevs-frame l l' (some q) ys behind.1.1
                    λ a i. ground (arith, prev' a, back_apart a i),
              ),
        );
        distinct = d;
      }

module _ (x n : ℕ) (xs : List ℕ) (l : Lru) (is : IsList l x (xs ++ n ∷ [])) where
  pub last_links : ((l.node n).prev ≡ some (last x xs)) × ((l.node n).next ≡ none)
  last_links =
      let (m, front, back) = Nexts-split l (l.node x).next xs (n ∷ []) none is.nexts in
      let (before, behind) = Prevs-split l x xs (n ∷ []) is.prevs in (behind.0, back.1)

  tail-last :
      (pushed x n (set_next (last x xs) none (set_tail (some (last x xs)) l))).tail
      ≡ some (last x xs)
  unfolding pushed set_next set_prev set_head set_tail
  tail-last = refl

  pub last-Distinct : Distinct (n ∷ x ∷ xs)
  last-Distinct = rw (append-nil xs) at (Distinct-append n (x ∷ xs) [] is.distinct)

  last-IsList :
      IsList (pushed x n (set_next (last x xs) none (set_tail (some (last x xs)) l))) n (x ∷ xs)
  last-IsList =
      let (m, front, back) = Nexts-split l (l.node x).next xs (n ∷ []) none is.nexts in
      let (before, behind) = Prevs-split l x xs (n ∷ []) is.prevs in
      let p = last x xs in
      let d = last-Distinct in
      let l' = pushed x n (set_next p none (set_tail (some p) l)) in
      let np : n ≢ p = λ e. has_ne p n (x ∷ xs) (has-last x xs) d.0 (sym e) in
      let next' = λ (a : ℕ). last-next p x x n l a np in
      let prev' = λ (a : ℕ). last-prev p x x n l a in
      record {
        head = head-pushed _ n _;
        tail = tail-last;
        nexts = (
          next' n ∙ ground arith,
          Nexts-redirect l l' x xs m none front d.1
              (λ a i o. ground (arith, next' a, has_ne a n (x ∷ xs) i d.0))
              (ground (arith, next' p)),
        );
        prevs = (
          ground (arith, prev' x),
          Prevs-frame l l' (some x) xs before λ a i. ground (arith, prev' a, has_ne a x xs i d.1.0),
        );
        distinct = d;
      }

module _ (p q x n : ℕ) (l : Lru) where
  pub middle-SameData : SameData l (pushed x n (unlinked p q n l))
  unfolding pushed unlinked set_next set_prev set_head
  middle-SameData a = ground arith

  pub last-SameData : SameData l (pushed x n (set_next p none (set_tail (some p) l)))
  unfolding pushed set_next set_prev set_head set_tail
  last-SameData a = ground arith

-- list_prioritize of a node that is not the head moves it to the front of a list that is in order;
-- the others keep their order, and no node loses its contents.
pub list_prioritize-IsList :
    (l : Lru) (x n : ℕ) (xs ys : List ℕ)
    → IsList l x (xs ++ n ∷ ys)
    → Returns (λ _ l'. IsList l' n (x ∷ xs ++ ys) × SameData l l') (list_prioritize n l)
list_prioritize-IsList l x n xs [] is =
    let (hp, hn) = last_links x n xs l is in
    rw (list_prioritize-last n (last x xs) x l hp hn is.head, append-nil xs)
      (returns (last-IsList x n xs l is, last-SameData (last x xs) x x n l))
list_prioritize-IsList l x n xs (q ∷ ys) is =
    let (hp, hn) = middle_links x n q xs ys l is in
    rw (list_prioritize-middle n (last x xs) q x l hp hn is.head)
      (returns (middle_IsList x n q xs ys l is, middle-SameData (last x xs) q x n l))
