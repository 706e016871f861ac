-- ===== src/Disk/Lru/Moves.antt =====
-- The states that list_prioritize and the end of list_add leave, pointer by pointer.
use pcd_file_system.Prelude.{ℕ, ◌≡◌, ◌≢◌, refl, Option, none, some, arith, ◌==◌, if◌then◌else◌}
use pcd_file_system.Prelude.Run.{ok}
use pcd_file_system.Disk.Lru.{
  Lru, set_next, set_prev, set_head, set_tail, push_front, list_prioritize,
}

head-set_next : (p : ℕ) (q : Option ℕ) (l : Lru) → (set_next p q l).head ≡ l.head
unfolding set_next
head-set_next p q l = refl

head-set_prev : (p : ℕ) (q : Option ℕ) (l : Lru) → (set_prev p q l).head ≡ l.head
unfolding set_prev
head-set_prev p q l = refl

head-set_tail : (q : Option ℕ) (l : Lru) → (set_tail q l).head ≡ l.head
unfolding set_tail
head-set_tail q l = refl

-- the state after a push in front of the node `x`
unfoldable pub pushed : ℕ → ℕ → Lru → Lru
pushed x n l = set_head (some n) (set_prev x (some n) (set_next n (some x) l))

pub head-pushed : (x n : ℕ) (l : Lru) → (pushed x n l).head ≡ some n
unfolding pushed set_head
head-pushed x n l = refl

pub push_front_lem : (x n : ℕ) (l : Lru) → l.head ≡ some x → push_front n l ≡ ok tt (pushed x n l)
unfolding push_front pushed
push_front_lem x n l h = simp (head-set_next, h)

-- the state after a node from the middle has been unlinked
unfoldable pub unlinked : (p q n : ℕ) → Lru → Lru
unlinked p q n l = set_prev n none (set_prev q (some p) (set_next p (some q) l))

pub list_prioritize-middle :
    (n p q x : ℕ) (l : Lru)
    → (l.node n).prev ≡ some p
    → (l.node n).next ≡ some q
    → l.head ≡ some x
    → list_prioritize n l ≡ ok tt (pushed x n (unlinked p q n l))
unfolding list_prioritize unlinked
list_prioritize-middle n p q x l hp hq hx =
    simp (hp, hq) (push_front_lem x n (unlinked p q n l) (simp (head-set_prev, head-set_next) hx))

pub list_prioritize-last :
    (n p x : ℕ) (l : Lru)
    → (l.node n).prev ≡ some p
    → (l.node n).next ≡ none
    → l.head ≡ some x
    → list_prioritize n l ≡ ok tt (pushed x n (set_next p none (set_tail (some p) l)))
unfolding list_prioritize
list_prioritize-last n p x l hp hq hx =
    simp (hp, hq)
      (push_front_lem x n (set_next p none (set_tail (some p) l))
        (simp (head-set_tail, head-set_next) hx))

module _ (p q x n : ℕ) (l : Lru) (a : ℕ) where
  pub middle-next :
      n ≢ p
      → ((pushed x n (unlinked p q n l)).node a).next
        ≡ (if a == n then some x else (if a == p then some q else (l.node a).next))
  unfolding pushed unlinked set_next set_prev set_head
  middle-next h = ground arith

  pub middle-prev :
      x ≢ n
      → ((pushed x n (unlinked p q n l)).node a).prev ≡ (
          if a == x
          then some n
          else (if a == n then none else (if a == q then some p else (l.node a).prev)))
  unfolding pushed unlinked set_next set_prev set_head
  middle-prev h = ground arith

  pub last-next :
      n ≢ p
      → ((pushed x n (set_next p none (set_tail (some p) l))).node a).next
        ≡ (if a == n then some x else (if a == p then none else (l.node a).next))
  unfolding pushed set_next set_prev set_head set_tail
  last-next h = ground arith

  pub last-prev :
      ((pushed x n (set_next p none (set_tail (some p) l))).node a).prev
      ≡ (if a == x then some n else (l.node a).prev)
  unfolding pushed set_next set_prev set_head set_tail
  last-prev = ground arith
