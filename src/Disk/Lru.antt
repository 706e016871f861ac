-- ===== src/Disk/Lru.antt =====
-- disk.c, the list of the cache's buffers in the order of their last use: list_init, list_free's
-- list, list_prioritize and the pointer work of list_add, on the nodes that malloc handed out.
-- A pointer is an address or NULL; the i-th node that list_init allocates has the address i.
pub mod Shape
pub mod Moves
pub mod Prioritize
pub mod Add
pub mod Twice
pub mod Init
use pcd_file_system.Prelude.{
  ℕ, zero, suc, ◌+◌, Bool, true, false, Option, none, some, if◌then◌else◌, ◌==◌,
}
use pcd_file_system.Prelude.Run.{Cmd, pure, get, modify, deref, ◌>>=◌, ◌>>◌}

-- struct List_Node
pub record ListNode : Type 0 where
  pub buffer_id : ℕ
  pub block_id : ℕ
  pub next : Option ℕ
  pub prev : Option ℕ
  pub dirty : Bool
  pub in_hash : Bool

-- the allocated nodes, with the globals list_head and list_tail
pub record Lru : Type 0 where
  pub node : ℕ → ListNode
  pub head : Option ℕ
  pub tail : Option ℕ

unfoldable pub set_node : ℕ → ListNode → Lru → Lru
set_node p n l = record l { node = λ a. if a == p then n else l.node a }

-- p->next = q
unfoldable pub set_next : ℕ → Option ℕ → Lru → Lru
unfolding set_node
set_next p q l = set_node p (record (l.node p) { next = q }) l

-- p->prev = q
unfoldable pub set_prev : ℕ → Option ℕ → Lru → Lru
unfolding set_node
set_prev p q l = set_node p (record (l.node p) { prev = q }) l

unfoldable pub set_head : Option ℕ → Lru → Lru
set_head q l = record l { head = q }

unfoldable pub set_tail : Option ℕ → Lru → Lru
set_tail q l = record l { tail = q }

-- node->next = list_head; list_head->prev = node; list_head = node
unfoldable pub push_front : ℕ → Cmd Lru (Unit {0})
push_front n = do
  l ← get
  modify (set_next n l.head)
  l ← get
  h ← deref l.head
  modify (set_prev h (some n))
  modify (set_head (some n))

unfoldable pub list_prioritize : ℕ → Cmd Lru (Unit {0})
list_prioritize n = do
  l ← get
  elim (l.node n).prev [
    | none ↦ pure tt
    | some p ↦ elim (l.node n).next [
      | none ↦ do modify (set_tail (some p)); modify (set_next p none); push_front n
      | some q ↦ do
        modify (set_next p (some q))
        modify (set_prev q (some p))
        modify (set_prev n none)
        push_front n
    ]
  ]

-- the first lines of list_add: the last node leaves the list
unfoldable pub take_tail : Cmd Lru ℕ
take_tail = do
  l ← get
  end ← deref l.tail
  modify (set_tail (l.node end).prev)
  t ← deref (l.node end).prev
  modify (set_next t none)
  modify (set_prev end none)
  pure end

-- a node as list_init fills it; its block_id is what malloc left there
unfoldable pub new_node : ℕ → ℕ → Option ℕ → ListNode
new_node i junk h = record {
  buffer_id = i;
  block_id = junk;
  next = none;
  prev = h;
  dirty = false;
  in_hash = false;
}

-- the loop of list_init: `rounds` nodes from number `i` on, behind the node `h`
unfoldable pub init_loop : ℕ → ℕ → ℕ → Option ℕ → Lru → Lru
init_loop junk zero i h l = set_tail h l
init_loop junk (suc rounds) i none l =
    init_loop junk rounds (i + 1) (some i) (set_head (some i) (set_node i (new_node i junk none) l))
init_loop junk (suc rounds) i (some h) l =
    init_loop junk rounds (i + 1) (some i)
      (set_next h (some i) (set_node i (new_node i junk (some h)) l))

unfoldable pub list_init : ℕ → ℕ → Lru → Lru
list_init junk count l = init_loop junk count 0 none (set_head none l)
