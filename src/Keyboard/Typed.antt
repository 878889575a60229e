-- ===== src/Keyboard/Typed.antt =====
-- intr_keyboard_handler of kernel/device/keyboard.c on the queue of characters.
use jat_os.Prelude.{
  ℕ, ◌≡◌, refl, ap, sym, ◌∙◌, true, false, ◌==◌, if◌then◌else◌, List, [], ◌∷◌, ◌++◌, length, Option,
  none, some, done, Bool-cases, inl, inr,
}
use jat_os.Kernel.{Kernel}
use jat_os.IoQueue.{Ioqueue, ioq_full}
use jat_os.IoQueue.Ring.{contents, full_iff, length-window}
use jat_os.IoQueue.Inv.{IoInv}
use jat_os.IoQueue.Move.{put_char-Stored}
use jat_os.IoQueue.Put.{putchar_round-room}
use jat_os.Keyboard.{Keys, decode, offer, offer_some, intr_keyboard_handler}

-- A queue of at most 63 characters: what does not fit is lost.
pub enqueue : List ℕ → Option ℕ → List ℕ
enqueue xs none = xs
enqueue xs (some c) = if length xs == 63 then xs else xs ++ c ∷ []

-- What the handler reads, on a queue as a sequence: the bytes it leaves, the variables, the queue.
pub type_keys : List ℕ → Keys → List ℕ → List ℕ × Keys × List ℕ
unfolding enqueue
type_keys [] keys xs = ([], keys, xs)
type_keys (byte ∷ bytes) keys xs =
    let d = decode keys byte in
    elim d.returns [
      | true ↦ (bytes, d.keys, enqueue xs d.char)
      | false ↦ type_keys bytes d.keys (enqueue xs d.char)
    ]

type_keys-returns :
    (byte : ℕ) (bytes : List ℕ) (keys : Keys) (xs : List ℕ)
    → (decode keys byte).returns ≡ true
    → type_keys (byte ∷ bytes) keys xs
      ≡ (bytes, (decode keys byte).keys, enqueue xs (decode keys byte).char)
unfolding type_keys
type_keys-returns byte bytes keys xs e = rw (type_keys, e) refl

type_keys-goes_on :
    (byte : ℕ) (bytes : List ℕ) (keys : Keys) (xs : List ℕ)
    → (decode keys byte).returns ≡ false
    → type_keys (byte ∷ bytes) keys xs
      ≡ type_keys bytes (decode keys byte).keys (enqueue xs (decode keys byte).char)
unfolding type_keys
type_keys-goes_on byte bytes keys xs e = rw (type_keys, e) refl

-- A state that a call leaves, with the queue as a sequence.
record Offered (q : Ioqueue) (c : Option ℕ) (s : Ioqueue × Kernel) : Type 0 where
  inv : IoInv s.0 s.1
  queued : contents s.0 ≡ enqueue (contents q) c

full_length : (q : Ioqueue) (k : Kernel) → IoInv q k → ioq_full q ≡ (length (contents q) == 63)
full_length q k inv =
    full_iff q inv.ring ∙ ap (λ (t : ℕ). t == 63) (sym (length-window q.buf q.tail _))

offer-Offered :
    (c : ℕ) (q : Ioqueue) (k : Kernel)
    → IoInv q k
    → (s : Ioqueue × Kernel) × (offer c (q, k) ≡ done s) × Offered q (some c) s
unfolding offer enqueue
offer-Offered c q k inv = elim (Bool-cases (ioq_full q)) [
  | inl e ↦
      (let full : (length (contents q) == 63) ≡ true = sym (full_length q k inv) ∙ e in
        ((q, k), rw e refl, record { inv = inv; queued = rw full refl }))
  | inr e ↦
      (let room : (length (contents q) == 63) ≡ false = sym (full_length q k inv) ∙ e in
        let (r, run, st) = put_char-Stored q k inv c e in
        (
          (r.1, r.2),
          rw (e, putchar_round-room q k c e, run) refl,
          record { inv = st.inv; queued = rw room st.stored },
        ))
]

offer_some-Offered :
    (c : Option ℕ) (q : Ioqueue) (k : Kernel)
    → IoInv q k
    → (s : Ioqueue × Kernel) × (offer_some c (q, k) ≡ done s) × Offered q c s
unfolding offer_some enqueue
offer_some-Offered none q k inv = ((q, k), refl, record { inv = inv; queued = refl })
offer_some-Offered (some c) q k inv = unfold enqueue in offer-Offered c q k inv

-- What the handler leaves.
pub record Typed (bytes : List ℕ) (keys : Keys) (q : Ioqueue) (k : Kernel) : Type 0 where
  pub waiting : List ℕ
  pub keys' : Keys
  pub queue : Ioqueue
  pub kernel : Kernel
  pub runs : intr_keyboard_handler bytes keys (q, k) ≡ done (waiting, keys', queue, kernel)
  pub inv : IoInv queue kernel
  pub typed : type_keys bytes keys (contents q) ≡ (waiting, keys', contents queue)

-- Under the invariant of the queue and the kernel, the handler fails no ASSERT, never sleeps and
-- keeps the invariant. It reads the bytes that wait in turn, each as `decode` has it, up to the
-- first break code or the last; every character goes to the end of the queue, or is lost when the
-- queue holds 63.
pub intr_keyboard_handler-Typed :
    (bytes : List ℕ) (keys : Keys) (q : Ioqueue) (k : Kernel) → IoInv q k → Typed bytes keys q k
unfolding intr_keyboard_handler type_keys
intr_keyboard_handler-Typed [] keys q k inv = record {
  waiting = [];
  keys' = keys;
  queue = q;
  kernel = k;
  runs = refl;
  inv = inv;
  typed = refl;
}
intr_keyboard_handler-Typed (byte ∷ bytes) keys q k inv =
    let d = decode keys byte in
    let (s, run, off) = offer_some-Offered d.char q k inv in
    elim (Bool-cases d.returns) [
      | inl e ↦ record {
        waiting = bytes;
        keys' = d.keys;
        queue = s.0;
        kernel = s.1;
        runs = rw (run, e) refl;
        inv = off.inv;
        typed =
            type_keys-returns byte bytes keys (contents q) e
            ∙ ap (λ (t : List ℕ). (bytes, d.keys, t)) (sym off.queued);
      }
      | inr e ↦
          (let rest = intr_keyboard_handler-Typed bytes d.keys s.0 s.1 off.inv in
            record {
              waiting = rest.waiting;
              keys' = rest.keys';
              queue = rest.queue;
              kernel = rest.kernel;
              runs = rw (run, e) rest.runs;
              inv = rest.inv;
              typed =
                  type_keys-goes_on byte bytes keys (contents q) e
                  ∙ ap (λ (t : List ℕ). type_keys bytes d.keys t) (sym off.queued)
                  ∙ rest.typed;
            })
    ]
