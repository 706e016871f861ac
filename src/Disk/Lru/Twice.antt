-- ===== src/Disk/Lru/Twice.antt =====
-- list_prioritize at the head of the list, and twice in a row for the last node.
use pcd_file_system.Prelude.{ℕ, ◌≡◌, ◌≢◌, none, some, List, [], ◌∷◌, ◌++◌, arith, sym}
use pcd_file_system.Prelude.Run.{ok, Returns, returns, ◌>>◌}
use pcd_file_system.Disk.Lru.{Lru, set_next, set_prev, set_head, set_tail, list_prioritize}
use pcd_file_system.Disk.Lru.Moves.{
  pushed, unlinked, head-pushed, list_prioritize-middle, list_prioritize-last, last-next, last-prev,
}
use pcd_file_system.Disk.Lru.Prioritize.{last_links, last-Distinct, middle-SameData, last-SameData}
use pcd_file_system.Prelude.Lists.{last, has-last, has_ne}
use pcd_file_system.Disk.Lru.Shape.{IsList, SameData}

-- A head whose prev pointer is NULL stays where it is.
pub list_prioritize-head :
    (l : Lru) (n : ℕ) → (l.node n).prev ≡ none → list_prioritize n l ≡ ok tt l
unfolding list_prioritize
list_prioritize-head l n h = simp h

knot : (p q n : ℕ) (l : Lru) → ((pushed n n (unlinked p q n l)).node n).next ≡ some n
unfolding pushed unlinked set_next set_prev set_head
knot p q n l = ground arith

-- Two calls of list_prioritize in a row for the last node of a list in order, of two nodes or
-- more, leave a head whose next pointer leads to itself, and change no node's contents.
pub list_prioritize-twice :
    (l : Lru) (x n : ℕ) (xs : List ℕ)
    → IsList l x (xs ++ n ∷ [])
    → Returns
        (λ _ l'. (l'.head ≡ some n) × ((l'.node n).next ≡ some n) × SameData l l')
        ((list_prioritize n >> list_prioritize n) l)
list_prioritize-twice l x n xs is =
    let (hp, hn) = last_links x n xs l is in
    let p = last x xs in
    let l' = pushed x n (set_next p none (set_tail (some p) l)) in
    let d = last-Distinct x n xs l is in
    let np : n ≢ p = λ e. has_ne p n (x ∷ xs) (has-last x xs) d.0 (sym e) in
    let nx : n ≢ x = λ e. has_ne x n (x ∷ xs) (ground arith) d.0 (sym e) in
    rw (list_prioritize-last n p x l hp hn is.head) (
      rw
        (list_prioritize-middle n p x n l' (ground (arith, last-prev p x x n l n, hp))
          (ground (arith, last-next p x x n l n np)) (head-pushed x n _))
        (returns (
          head-pushed n n _,
          knot p x n l',
          λ a. ground (arith, last-SameData p p x n l a, middle-SameData p x n n l' a),
        )))
