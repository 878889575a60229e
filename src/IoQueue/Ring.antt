-- ===== src/IoQueue/Ring.antt =====
-- The ring of kernel/device/ioqueue.c as a sequence of at most 63 characters.
use jat_os.Prelude.{
  ℕ, zero, suc, ◌+◌, ◌%◌, ◌<◌, ◌≡◌, ◌≢◌, refl, ap, ◌∙◌, false, List, [], ◌∷◌, ◌++◌, length, ◌==◌,
  if◌then◌else◌, arith,
}
use jat_os.IoQueue.{Ioqueue, next_pos, ioq_full, ioq_empty, ioq_length, bufsize}

-- The characters at `n` indices from `i` on, around the ring.
unfoldable pub window : (ℕ → ℕ) → ℕ → ℕ → List ℕ
unfolding next_pos
window buf i zero = []
window buf i (suc n) = buf i ∷ window buf (next_pos i) n

-- The characters in the queue, the oldest first.
abbrev pub contents : Ioqueue → List ℕ
contents q = window q.buf q.tail (ioq_length q)

-- The indices are in the buffer.
pub record RingInv (q : Ioqueue) : Type 0 where
  pub head_in : q.head < bufsize
  pub tail_in : q.tail < bufsize

pub length-window : (buf : ℕ → ℕ) (i n : ℕ) → length (window buf i n) ≡ n
unfolding window
length-window buf i zero = refl
length-window buf i (suc n) = ap suc (length-window buf (next_pos i) n)

abbrev pub write : (ℕ → ℕ) → ℕ → ℕ → ℕ → ℕ
write buf h c j = if h == j then c else buf j

-- A write outside a window leaves it.
window-write :
    (buf : ℕ → ℕ) (h c i n : ℕ)
    → i < bufsize
    → ((m : ℕ) → m < n → (i + m) % bufsize ≢ h)
    → window (write buf h c) i n ≡ window buf i n
unfolding window next_pos
window-write buf h c i zero a away = refl
window-write buf h c i (suc n) a away =
    let rest =
      window-write buf h c (next_pos i) n (omega arith)
        (λ m lt e. away (suc m) (omega arith) (omega arith)) in
    let here : (h == i) ≡ false = ground (arith, away 0) in rw (here, rest) refl

window-snoc :
    (buf : ℕ → ℕ) (i n : ℕ)
    → i < bufsize
    → window buf i (suc n) ≡ window buf i n ++ buf ((i + n) % bufsize) ∷ []
unfolding window next_pos
window-snoc buf i zero a = ap (λ j. buf j ∷ []) (omega arith)
window-snoc buf i (suc n) a =
    let e : ((next_pos i) + n) % bufsize ≡ (i + suc n) % bufsize = omega arith in
    ap (λ t. buf i ∷ t)
      (window-snoc buf (next_pos i) n (omega arith)
        ∙ ap (λ j. window buf (next_pos i) n ++ buf j ∷ []) e)

module _ (q : Ioqueue) (inv : RingInv q) where
  pub length_bound : ioq_length q < bufsize
  unfolding ioq_length
  length_bound = ground (arith, inv.head_in, inv.tail_in)

  head_at : (q.tail + ioq_length q) % bufsize ≡ q.head
  unfolding ioq_length
  head_at = ground (arith, inv.head_in, inv.tail_in)

  pub full_iff : ioq_full q ≡ (ioq_length q == 63)
  unfolding ioq_length ioq_full next_pos
  full_iff = ground (arith, inv.head_in, inv.tail_in)

  pub empty_iff : ioq_empty q ≡ (ioq_length q == 0)
  unfolding ioq_length ioq_empty
  empty_iff = ground (arith, inv.head_in, inv.tail_in)

length-put :
    (q q' : Ioqueue)
    → RingInv q
    → ioq_full q ≡ false
    → q'.head ≡ next_pos q.head
    → q'.tail ≡ q.tail
    → ioq_length q' ≡ suc (ioq_length q)
unfolding next_pos ioq_length
length-put q q' inv room eh et = ground (arith, full_iff q inv, inv.head_in, inv.tail_in)

length-take :
    (q q' : Ioqueue)
    → RingInv q
    → ioq_empty q ≡ false
    → q'.head ≡ q.head
    → q'.tail ≡ next_pos q.tail
    → ioq_length q ≡ suc (ioq_length q')
unfolding next_pos ioq_length
length-take q q' inv left eh et = ground (arith, empty_iff q inv, inv.head_in, inv.tail_in)

-- One character more at the end, as `ioq_putchar` stores it.
pub contents-put :
    (q q' : Ioqueue) (c : ℕ)
    → RingInv q
    → ioq_full q ≡ false
    → q'.buf ≡ write q.buf q.head c
    → q'.head ≡ next_pos q.head
    → q'.tail ≡ q.tail
    → RingInv q' × (contents q' ≡ contents q ++ c ∷ [])
unfolding next_pos
contents-put q q' c inv room eb eh et =
    let n = ioq_length q in
    let bound = length_bound q inv in
    let at = head_at q inv in
    let more : ioq_length q' ≡ suc n = length-put q q' inv room eh et in
    let new : write q.buf q.head c q.head ≡ c = ground arith in
    (
      record { head_in = rw eh (omega arith); tail_in = rw et inv.tail_in },
      rw (more, eb, et)
          (window-snoc (write q.buf q.head c) q.tail n inv.tail_in
            ∙ rw
                (
                  window-write q.buf q.head c q.tail n inv.tail_in
                      (λ m lt e. omega (arith, at, bound, inv.tail_in)),
                  at,
                  new,
                )
                refl),
    )

-- One character less at the front, as `ioq_getchar` takes it.
pub contents-take :
    (q q' : Ioqueue)
    → RingInv q
    → ioq_empty q ≡ false
    → q'.buf ≡ q.buf
    → q'.head ≡ q.head
    → q'.tail ≡ next_pos q.tail
    → RingInv q' × (contents q ≡ q.buf q.tail ∷ contents q')
unfolding next_pos window
contents-take q q' inv some_left eb eh et =
    let less : ioq_length q ≡ suc (ioq_length q') = length-take q q' inv some_left eh et in
    (record { head_in = rw eh inv.head_in; tail_in = rw et (omega arith) }, rw (less, eb, et) refl)
