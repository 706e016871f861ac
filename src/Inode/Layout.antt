-- ===== src/Inode/Layout.antt =====
-- The struct inode in its slot of a block.
use pcd_file_system.Prelude.{
  ℕ, ◌+◌, ◌-◌, ◌*◌, ◌/◌, ◌%◌, ◌^◌, ◌≤◌, ◌<◌, ◌≡◌, refl, ap, true, false, arith, ltb, if◌then◌else◌,
  Bool-cases, inl, inr, ◌⊎◌,
}
use pcd_file_system.Block.{Block, byte_of, word, long}
use pcd_file_system.Block.Words.{word_of_bytes}
use pcd_file_system.Inode.{
  Inode, inode_word, inode_bytes, inode_sizeof, put_inode, shift, decode_inode,
}

-- The fields fit their C types, and the array has twelve entries.
pub record IsInode (n : Inode) : Type 0 where
  pub mode : n.mode < 2 ^ 32
  pub uid : n.uid < 2 ^ 32
  pub gid : n.gid < 2 ^ 32
  pub padding : n.padding < 2 ^ 32
  pub size : n.size < 2 ^ 64
  pub last_accessed : n.last_accessed < 2 ^ 64
  pub last_modified : n.last_modified < 2 ^ 64
  pub direct_blo : (i : ℕ) → n.direct_blo i < 2 ^ 32
  pub beyond : (i : ℕ) → 12 ≤ i → n.direct_blo i ≡ 0
  pub single_ind : n.single_ind < 2 ^ 32
  pub double_ind : n.double_ind < 2 ^ 32
  pub triple_ind : n.triple_ind < 2 ^ 32
  pub link_count : n.link_count < 2 ^ 32

byte-inode_bytes :
    (n : Inode) (j k o : ℕ) → o ≡ 4 * j + k → k < 4 → inode_bytes n o ≡ byte_of (inode_word n j) k
unfolding inode_bytes
byte-inode_bytes n j k o e lt =
    let quotient : o / 4 ≡ j = omega arith in
    let rest : o % 4 ≡ k = omega arith in rw (quotient, rest)

byte-put_inode :
    (b : Block) (off : ℕ) (n : Inode) (o : ℕ)
    → o < inode_sizeof
    → put_inode b off n (off + o) ≡ inode_bytes n o
unfolding put_inode
byte-put_inode b off n o lt =
    let left : ltb (off + o) off ≡ false = ground arith in
    let right : ltb (off + o) (off + 104) ≡ true = ground arith in
    let back : off + o - off ≡ o = omega arith in rw (left, right, back)

module _ (b : Block) (off : ℕ) (n : Inode) where
  there : Block
  there = shift (put_inode b off n) off

  word-put_inode : (j : ℕ) → j < 26 → word there j ≡ inode_word n j % 2 ^ 32
  unfolding word there
  word-put_inode j lt =
      rw
        (
          byte-put_inode b off n (4 * j) (omega arith),
          byte-put_inode b off n (4 * j + 1) (omega arith),
          byte-put_inode b off n (4 * j + 2) (omega arith),
          byte-put_inode b off n (4 * j + 3) (omega arith),
          byte-inode_bytes n j 0 (4 * j) (omega arith) (omega arith),
          byte-inode_bytes n j 1 (4 * j + 1) refl (omega arith),
          byte-inode_bytes n j 2 (4 * j + 2) refl (omega arith),
          byte-inode_bytes n j 3 (4 * j + 3) refl (omega arith),
        )
        (word_of_bytes (inode_word n j))

  at : (j v : ℕ) → inode_word n j ≡ v → j < 26 → v < 2 ^ 32 → word there j ≡ v
  at j v e lt small = omega (arith, word-put_inode j lt)

  long_at :
      (j v : ℕ)
      → inode_word n j ≡ v
      → inode_word n (j + 1) ≡ v / 2 ^ 32
      → j < 25
      → v < 2 ^ 64
      → long there j ≡ v
  unfolding long
  long_at j v lo hi lt small =
      omega (arith, word-put_inode j (omega arith), word-put_inode (j + 1) (omega arith))

  direct_at : IsInode n → (i : ℕ) → i < 12 → word there (i + 10) ≡ n.direct_blo i
  unfolding inode_word
  direct_at h i lt =
      let back : i + 10 - 10 ≡ i = omega arith in
      let array : ltb (i + 10) 22 ≡ true = ground arith in
      at (i + 10) (n.direct_blo i) (ground (arith, ap n.direct_blo back)) (omega arith)
        (h.direct_blo i)

  direct : IsInode n → (k : ℕ) → (if ltb k 12 then word there (k + 10) else 0) ≡ n.direct_blo k
  direct h k = elim (Bool-cases (ltb k 12)) [
    | inl lt ↦ rw lt (direct_at h k (ground arith))
    | inr ge ↦ rw ge (ground (arith, h.beyond k))
  ]

  -- An inode whose fields fit their C types is the same after the copy into a block at any offset
  -- and back.
  pub decode_inode-put_inode : IsInode n → decode_inode (shift (put_inode b off n) off) ≡ n
  unfolding decode_inode inode_word there
  decode_inode-put_inode h = λ i. record {
    mode = at 0 _ refl (omega arith) h.mode i;
    uid = at 1 _ refl (omega arith) h.uid i;
    gid = at 2 _ refl (omega arith) h.gid i;
    padding = at 3 _ refl (omega arith) h.padding i;
    size = long_at 4 _ refl refl (omega arith) h.size i;
    last_accessed = long_at 6 _ refl refl (omega arith) h.last_accessed i;
    last_modified = long_at 8 _ refl refl (omega arith) h.last_modified i;
    direct_blo = λ k. direct h k i;
    single_ind = at 22 _ refl (omega arith) h.single_ind i;
    double_ind = at 23 _ refl (omega arith) h.double_ind i;
    triple_ind = at 24 _ refl (omega arith) h.triple_ind i;
    link_count = at 25 _ refl (omega arith) h.link_count i;
  }

  -- What is outside the slot is as before.
  pub put_inode-outside : (o : ℕ) → (o < off) ⊎ (off + inode_sizeof ≤ o) → put_inode b off n o ≡ b o
  unfolding put_inode
  put_inode-outside o h = ground arith

word-same :
    (b b' : Block) (j : ℕ)
    → ((o : ℕ) → o < inode_sizeof → b' o ≡ b o)
    → j < 26
    → word b' j ≡ word b j
unfolding word
word-same b b' j same lt = rw (
  same (4 * j) (omega arith),
  same (4 * j + 1) (omega arith),
  same (4 * j + 2) (omega arith),
  same (4 * j + 3) (omega arith),
)

-- The struct depends on its own bytes alone.
pub decode_inode-same :
    (b b' : Block) → ((o : ℕ) → o < inode_sizeof → b' o ≡ b o) → decode_inode b' ≡ decode_inode b
unfolding decode_inode long
decode_inode-same b b' same =
    let w : (j : ℕ) → j < 26 → word b' j ≡ word b j = λ j lt. word-same b b' j same lt in
    let direct : (k : ℕ)
        → (if ltb k 12 then word b' (k + 10) else 0) ≡ (if ltb k 12 then word b (k + 10) else 0) =
      λ k. elim (Bool-cases (ltb k 12)) [
        | inl lt ↦ rw lt (w (k + 10) (ground arith))
        | inr ge ↦ rw ge
      ] in
    λ i. record {
      mode = w 0 (omega arith) i;
      uid = w 1 (omega arith) i;
      gid = w 2 (omega arith) i;
      padding = w 3 (omega arith) i;
      size = w 4 (omega arith) i + 2 ^ 32 * w 5 (omega arith) i;
      last_accessed = w 6 (omega arith) i + 2 ^ 32 * w 7 (omega arith) i;
      last_modified = w 8 (omega arith) i + 2 ^ 32 * w 9 (omega arith) i;
      direct_blo = λ k. direct k i;
      single_ind = w 22 (omega arith) i;
      double_ind = w 23 (omega arith) i;
      triple_ind = w 24 (omega arith) i;
      link_count = w 25 (omega arith) i;
    }
