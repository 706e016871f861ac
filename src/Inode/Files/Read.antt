-- ===== src/Inode/Files/Read.antt =====
-- read_file of inode.c against the bytes of the blocks that the tree of the inode leads to.
use mathlib.Core.Path.{subst}
use pcd_file_system.Prelude.{
  ℕ, suc, ◌+◌, ◌-◌, ◌*◌, ◌/◌, ◌%◌, ◌^◌, ◌≤◌, ◌<◌, ◌≡◌, ◌≢◌, ◌⊎◌, inl, inr, refl, ◌∙◌, true, false,
  arith, leb, ltb, ◌==◌, Bool-cases, if◌then◌else◌,
}
use pcd_file_system.Block.{Block}
use pcd_file_system.Db.{}
use pcd_file_system.Inode.Blocks.{}
use pcd_file_system.Inode.Files.{copy, at_most}

-- What a read of `size` bytes at `pos` of `file` to offset `at` of `buf` gives: the number of bytes,
-- and a buffer that is the same but there.
pub record IsRead (file : ℕ → ℕ) (buf : Block) (at size pos count : ℕ) (out : Block) : Type 0 where
  pub length : count ≡ at + size
  pub before : (o : ℕ) → o < at → out o ≡ buf o
  pub bytes : (k : ℕ) → k < size → out (at + k) ≡ file (pos + k)
  pub after : (o : ℕ) → at + size ≤ o → out o ≡ buf o

-- one copy, followed by the rest
IsRead-copy :
    (file : ℕ → ℕ) (buf b out : Block) (at n size off pos count : ℕ)
    → ((k : ℕ) → k < n → b (off + k) ≡ file (pos + k))
    → IsRead file (copy buf at b off n) (at + n) size (pos + n) count out
    → IsRead file buf at (n + size) pos count out
unfolding copy
IsRead-copy file buf b out at n size off pos count bytes r = record {
  length = omega (arith, r.length);
  before = λ o lt. r.before o (omega arith) ∙ ground arith;
  bytes = λ k lt. elim (Bool-cases (ltb k n)) [
    | inl here ↦
        let below : k < n = ground arith in
        let start : ltb (at + k) at ≡ false = ground arith in
        let inside : ltb (at + k) (at + n) ≡ true = ground arith in
        let index : at + k - at ≡ k = omega arith in
        r.before (at + k) (omega arith) ∙ rw (start, inside, index) (bytes k below)
    | inr there ↦
        let from : at + n + (k - n) ≡ at + k = ground arith in
        let to : pos + n + (k - n) ≡ pos + k = ground arith in
        subst (λ i. out i ≡ file (pos + k)) from
          (subst (λ i. out (at + n + (k - n)) ≡ file i) to (r.bytes (k - n) (ground arith)))
  ];
  after = λ o le. r.after o (omega arith) ∙ ground arith;
}

-- the rest begins where the part ended, or is empty
IsRead-from :
    (file : ℕ → ℕ) (buf out : Block) (at size pos pos' count : ℕ)
    → (pos' ≡ pos) ⊎ (size ≡ 0)
    → IsRead file buf at size pos' count out
    → IsRead file buf at size pos count out
IsRead-from file buf out at size pos pos' count from r = elim from [
  | inl e ↦ subst (λ i. IsRead file buf at size i count out) e r
  | inr none ↦ record {
    length = r.length;
    before = r.before;
    bytes = λ k lt. absurd (omega (arith, none));
    after = r.after;
  }
]

pub IsRead-round :
    (file : ℕ → ℕ) (buf b out : Block) (at n size off pos pos' count : ℕ)
    → ((k : ℕ) → k < n → b (off + k) ≡ file (pos + k))
    → n ≤ size
    → (pos' ≡ pos + n) ⊎ (n ≡ size)
    → IsRead file (copy buf at b off n) (at + n) (size - n) pos' count out
    → IsRead file buf at size pos count out
IsRead-round file buf b out at n size off pos pos' count bytes le from r =
    let from' : (pos' ≡ pos + n) ⊎ (size - n ≡ 0) = elim from [
      | inl e ↦ inl e
      | inr e ↦ inr (omega arith)
    ] in
    let whole : n + (size - n) ≡ size = omega arith in
    subst (λ z. IsRead file buf at z pos count out) whole
      (IsRead-copy file buf b out at n (size - n) off pos count bytes (
        IsRead-from file (copy buf at b off n) out (at + n) (size - n) (pos + n) pos' count from'
          r))

-- byte `p` of a file whose blocks are `ids`, on a disk that holds `v`
unfoldable pub file_byte : (ℕ → Block) → (ℕ → ℕ) → ℕ → ℕ
file_byte v ids p = v (ids (p / 4096)) (p % 4096)

pub in_block :
    (v : ℕ → Block) (ids : ℕ → ℕ) (num off k : ℕ)
    → off + k < 4096
    → v (ids num) (off + k) ≡ file_byte v ids (4096 * num + off + k)
unfolding file_byte
in_block v ids num off k lt =
    let quotient : (4096 * num + off + k) / 4096 ≡ num = omega arith in
    let rest : (4096 * num + off + k) % 4096 ≡ off + k = omega arith in rw (quotient, rest)

-- what a round of the loop copies: up to the end of the block, or of what is asked for
pub record IsPart (off size n : ℕ) : Type 0 where
  pub fits : n ≤ size
  pub inside : off + n ≤ 4096
  pub full : (off + n ≡ 4096) ⊎ (n ≡ size)

pub at_most-IsPart : (off size : ℕ) → off < 4096 → IsPart off size (at_most (4096 - off) size)
unfolding at_most
at_most-IsPart off size lt = elim (Bool-cases (leb (4096 - off) size)) [
  | inl full ↦
      rw full (record { fits = ground arith; inside = omega arith; full = inl (omega arith) })
  | inr rest ↦ rw rest (record { fits = omega arith; inside = ground arith; full = inr refl })
]

pub next_pos :
    (num : ℕ) {off size n : ℕ}
    → IsPart off size n
    → (4096 * (num + 1) + 0 ≡ 4096 * num + off + n) ⊎ (n ≡ size)
next_pos num p = elim p.full [ inl e ↦ inl (omega arith) | inr e ↦ inr e ]

-- The `rounds` blocks from `num` on are those of the `size` bytes from offset `off` of the first.
pub record Covers (rounds num off size : ℕ) : Type 0 where
  pub off_lt : off < 4096
  pub enough : 4096 * num + off + size ≤ 4096 * (num + rounds)
  pub least : 4096 * (num + rounds) < 4096 * num + off + size + 4096

pub next-Covers :
    (rounds num off size n : ℕ)
    → Covers (suc rounds) num off size
    → IsPart off size n
    → Covers rounds (num + 1) 0 (size - n)
next-Covers rounds num off size n c p = elim p.full [
  | inl full ↦ record {
    off_lt = omega arith;
    enough = omega (arith, c.enough, p.fits, full);
    least = omega (arith, c.least, p.fits, full);
  }
  | inr all ↦ record {
    off_lt = omega arith;
    enough = omega (arith, c.least, all);
    least = omega (arith, c.enough, c.least, p.inside, all);
  }
]

-- the rounds that read_range asks for
abbrev pub range_rounds : ℕ → ℕ → ℕ
range_rounds offset size =
    (if (offset + size) % 4096 == 0
      then ((offset + size) / 4096 + 2 ^ 32 - 1) % 2 ^ 32
      else (offset + size) / 4096)
    + 1
    - offset / 4096

pub range-Covers :
    (offset size : ℕ)
    → 0 < size
    → offset + size < 2 ^ 31
    → Covers (range_rounds offset size) (offset / 4096) (offset % 4096) size
range-Covers offset size some_bytes lt = elim (Bool-cases ((offset + size) % 4096 == 0)) [
  | inl aligned ↦
      let rest : (offset + size) % 4096 ≡ 0 = ground arith in
      rw aligned (record { off_lt = omega arith; enough = omega arith; least = omega arith })
  | inr inside ↦
      let rest : (offset + size) % 4096 ≢ 0 = ground arith in
      rw inside (record { off_lt = omega arith; enough = omega arith; least = omega arith })
]
