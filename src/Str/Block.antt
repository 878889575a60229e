-- ===== src/Str/Block.antt =====
-- memset, memcpy and memcmp of kernel/memop/string.c.
use jat_os.Prelude.{
  ℕ, zero, suc, ◌+◌, ◌-◌, ◌^◌, ◌≤◌, ◌<◌, ◌≡◌, ◌≢◌, ◌↔◌, ◌⊎◌, refl, sym, ap, ◌∙◌, Bool, ◌==◌, ltb,
  leb, ◌&&◌, if◌then◌else◌, done, done-injective, panic, ◌||◌, arith,
}
use mathlib.Core.Path.{fun_ext}
use native.Mathlib.Decide.{ℕ_discrete, dec_lt}
use native.Mathlib.Nat.{add-zero, add_assoc}
use jat_os.Str.{Memory, store, next, memset_loop, memset, memcpy_loop, memcpy, memcmp_loop, memcmp}

-- Whether `q` is one of the `n` addresses from `p` on.
abbrev pub inside : ℕ → ℕ → ℕ → Bool
inside p n q = leb p q && ltb q (p + n)

memset_loop_lem :
    (n : ℕ) (m : Memory) (dst value q : ℕ)
    → dst + n ≤ 2 ^ 32
    → memset_loop n m dst value q ≡ (if inside dst n q then value else m q)
unfolding memset_loop
memset_loop_lem zero m dst value q h = ground arith
memset_loop_lem (suc n) m dst value q h = elim (ℕ_discrete n 0) [
  | yes e ↦ rw e (unfold memset_loop in ground arith)
  | no ne ↦
      let e : next dst ≡ dst + 1 = omega arith in
      rw (e, memset_loop_lem n (store m dst value) (dst + 1) value q (omega arith)) (ground arith)
]

-- For a block that lies in the address space, memset fails an ASSERT at NULL and for no byte; else
-- it fills the bytes of the block and no others.
pub memset_lem :
    (m : Memory) (dst value n : ℕ)
    → dst + n ≤ 2 ^ 32
    → memset m dst value n ≡ (
        if (dst == 0) || (n == 0) then panic else done (λ q. if inside dst n q then value else m q))
unfolding memset
memset_lem m dst value n h =
    let e : memset_loop n m dst value ≡ (λ q. if inside dst n q then value else m q) =
      fun_ext (λ q. memset_loop_lem n m dst value q h) in
    rw e (ground arith)

copy_one :
    (m : Memory) (dst src q : ℕ)
    → store m dst (m src) q ≡ (if inside dst 1 q then m (src + (q - dst)) else m q)
copy_one m dst src q = elim (ℕ_discrete q dst) [
  | yes e ↦ let z : src + (dst - dst) ≡ src = omega arith in rw (e, z) (ground arith)
  | no ne ↦ ground arith
]

pub memcpy_loop_lem :
    (n : ℕ) (m : Memory) (dst src q : ℕ)
    → dst + n ≤ 2 ^ 32
    → src + n ≤ 2 ^ 32
    → ((dst ≤ src) ⊎ (src + n ≤ dst))
    → memcpy_loop n m dst src q ≡ (if inside dst n q then m (src + (q - dst)) else m q)
unfolding memcpy_loop
memcpy_loop_lem zero m dst src q h k apart = ground arith
memcpy_loop_lem (suc n) m dst src q h k apart = elim (ℕ_discrete n 0) [
  | yes e ↦ rw e (unfold memcpy_loop in copy_one m dst src q)
  | no ne ↦
      let d : next dst ≡ dst + 1 = omega arith in
      let s : next src ≡ src + 1 = omega arith in
      rw
        (
          d,
          s,
          memcpy_loop_lem n (store m dst (m src)) (dst + 1) (src + 1) q (omega arith) (omega arith)
              (omega arith),
        )
        (elim (dec_lt dst q) [
          | yes lt ↦
              let e : src + 1 + (q - (dst + 1)) ≡ src + (q - dst) = omega arith in
              rw e (ground arith)
          | no ge ↦ elim (ℕ_discrete q dst) [
            | yes e ↦ let z : src + (dst - dst) ≡ src = omega arith in rw (e, z) (ground arith)
            | no ne' ↦ ground arith
          ]
        ])
]

-- For blocks that lie in the address space, memcpy fails an ASSERT at NULL; else, if the source does
-- not begin below the destination and reach into it, the destination holds what the source held,
-- and no other byte changes.
pub memcpy_lem :
    (m : Memory) (dst src n : ℕ)
    → dst + n ≤ 2 ^ 32
    → src + n ≤ 2 ^ 32
    → ((dst ≤ src) ⊎ (src + n ≤ dst))
    → memcpy m dst src n ≡ (
        if (dst == 0) || (src == 0)
        then panic
        else done (λ q. if inside dst n q then m (src + (q - dst)) else m q))
unfolding memcpy
memcpy_lem m dst src n h k apart =
    let e : memcpy_loop n m dst src ≡ (λ q. if inside dst n q then m (src + (q - dst)) else m q) =
      fun_ext (λ q. memcpy_loop_lem n m dst src q h k apart) in
    rw e (ground arith)

-- The first `n` bytes at two addresses.
abbrev pub SameBlock : Memory → ℕ → ℕ → ℕ → Type 0
SameBlock m a b n = (i : ℕ) → i < n → m (a + i) ≡ m (b + i)

module _ (m : Memory) where
  SameBlock-suc :
      (a b n : ℕ) → SameBlock m a b (suc n) ↔ ((m a ≡ m b) × SameBlock m (a + 1) (b + 1) n)
  SameBlock-suc a b n = (split, join)
    where
      split : SameBlock m a b (suc n) → (m a ≡ m b) × SameBlock m (a + 1) (b + 1) n
      split same = (
        rw (add-zero, add-zero) at (same 0 (omega arith)),
        λ i lt. rw (add_assoc, add_assoc) (same (1 + i) (omega arith)),
      )

      join : (m a ≡ m b) × SameBlock m (a + 1) (b + 1) n → SameBlock m a b (suc n)
      join (e, same) zero lt = rw (add-zero, add-zero) e
      join (e, same) (suc i) lt =
          let x : a + suc i ≡ a + 1 + i = omega arith in
          let y : b + suc i ≡ b + 1 + i = omega arith in rw (x, y) (same i (omega arith))

  memcmp_loop-next :
      (n a b : ℕ)
      → a + suc n ≤ 2 ^ 32
      → b + suc n ≤ 2 ^ 32
      → memcmp_loop n m (next a) (next b) ≡ memcmp_loop n m (a + 1) (b + 1)
  unfolding memcmp_loop
  memcmp_loop-next zero a b h k = refl
  memcmp_loop-next (suc n) a b h k =
      let x : next a ≡ a + 1 = omega arith in let y : next b ≡ b + 1 = omega arith in rw (x, y)

  memcmp_loop-zero :
      (n a b : ℕ) → a + n ≤ 2 ^ 32 → b + n ≤ 2 ^ 32 → (memcmp_loop n m a b ≡ 0) ↔ SameBlock m a b n
  unfolding memcmp_loop
  memcmp_loop-zero zero a b h k = (λ e i lt. absurd (omega arith), λ same. refl)
  memcmp_loop-zero (suc n) a b h k = elim (ℕ_discrete (m a) (m b)) [
    | yes e ↦
        let ih = memcmp_loop-zero n (a + 1) (b + 1) (omega arith) (omega arith) in
        let step : memcmp_loop (suc n) m a b ≡ memcmp_loop n m (a + 1) (b + 1) =
          ground (arith, memcmp_loop-next n a b h k) in
        (
          λ z. (SameBlock-suc a b n).1 (e, ih.0 (sym step ∙ z)),
          λ same. step ∙ ih.1 ((SameBlock-suc a b n).0 same).1,
        )
    | no ne ↦ (λ z. absurd (ground arith), λ same. absurd (ne ((SameBlock-suc a b n).0 same).0))
  ]

  -- memcmp of two blocks that lie in the address space, neither at NULL, returns 0 exactly when the
  -- blocks hold the same bytes.
  pub memcmp-zero :
      (a b n : ℕ)
      → a ≢ 0
      → b ≢ 0
      → a + n ≤ 2 ^ 32
      → b + n ≤ 2 ^ 32
      → (memcmp m a b n ≡ done 0) ↔ SameBlock m a b n
  unfolding memcmp
  memcmp-zero a b n na nb h k =
      let loop = memcmp_loop-zero n a b h k in
      let e : memcmp m a b n ≡ done (memcmp_loop n m a b) = ground arith in
      (λ z. loop.0 (done-injective (sym e ∙ z)), λ same. e ∙ ap done (loop.1 same))
