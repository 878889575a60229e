-- ===== src/Sha256/Whole.antt =====
-- SHA256 of kernel/crypto/sha256.c on a file: the padding, and the whole hash.
use mathlib.Core.List.{append_assoc}
use jat_os.Prelude.{
  ℕ, ◌+◌, ◌-◌, ◌*◌, ◌/◌, ◌%◌, ◌^◌, ◌≤◌, ◌<◌, ◌≡◌, Bool, refl, ap, sym, ◌∙◌, true, false, ltb, ◌==◌,
  if◌then◌else◌, Bool-cases, inl, inr, panic, done, ◌||◌, List, [], ◌∷◌, ◌++◌, take, drop, length,
  length-append, drop-append, drop-exact, append-snoc, take-all, arith,
}
use native.Mathlib.Decide.{dec_lt}
use jat_os.Sha256.{
  State, Sha256Ctx, sha256_init, sha256_transform, transform_blocks, zero_bytes, length_bytes,
  read_loop, cleared, finish_padding, sha256,
}
use jat_os.Sha256.Blocks.{
  length-zero_bytes, zero_bytes-add, transform_blocks-append, transform_blocks-add,
}
use jat_os.Sha256.Message.{
  padded, message_digest, concat, WholeReads, Ready, tail_length, read_loop-Ready,
}

take_whole : (n : ℕ) (xs : List ℕ) → length xs ≡ n → take n xs ≡ xs
take_whole n xs e = ap (λ (t : ℕ). take t xs) (sym e) ∙ take-all xs

one_block : (s : State) (x : List ℕ) → length x ≡ 64 → transform_blocks 1 s x ≡ sha256_transform s x
unfolding transform_blocks
one_block s x e = ap (sha256_transform s) (take_whole 64 x e)

two_blocks :
    (s : State) (x y : List ℕ)
    → length x ≡ 64
    → length y ≡ 64
    → transform_blocks 2 s (x ++ y) ≡ sha256_transform (sha256_transform s x) y
two_blocks s x y ex ey =
    transform_blocks-add 1 1 s (x ++ y)
    ∙ ap (λ (t : State). transform_blocks 1 t (drop (1 * 64) (x ++ y)))
        (transform_blocks-append 1 s x y (omega arith) ∙ one_block s x ex)
    ∙ ap (λ (t : List ℕ). transform_blocks 1 (sha256_transform s x) t) (drop-exact 64 x y ex)
    ∙ one_block (sha256_transform s x) y ey

-- The two endings of the padding, by the state, the bytes up to the bit, and the count.
abbrev short_block : State → List ℕ → ℕ → State
short_block s front count =
    sha256_transform s
      (front ++ zero_bytes (56 - (count % 64 + 1)) ++ length_bytes (count * 8 % 2 ^ 64))

abbrev long_blocks : State → List ℕ → ℕ → State
long_blocks s front count =
    sha256_transform (sha256_transform s (front ++ zero_bytes (64 - (count % 64 + 1))))
      (zero_bytes 56 ++ length_bytes (count * 8 % 2 ^ 64))

finish_padding-one :
    (ctx : Sha256Ctx)
    → ltb 56 (ctx.count % 64 + 1) ≡ false
    → finish_padding ctx ≡ (
        if ctx.count % 64 == 55
        then panic
        else done (short_block ctx.state (take (ctx.count % 64) ctx.buffer ++ 0x80 ∷ []) ctx.count))
unfolding finish_padding cleared
finish_padding-one ctx e = elim (Bool-cases (ctx.count % 64 == 55)) [
  | inl full ↦
      let none : ltb 0 (64 - (ctx.count % 64 + 1) - 8) ≡ false = ground arith in
      rw (e, full, none) refl
  | inr room ↦
      let some : ltb 0 (64 - (ctx.count % 64 + 1) - 8) ≡ true = ground arith in
      let same : 64 - (ctx.count % 64 + 1) - 8 ≡ 56 - (ctx.count % 64 + 1) = omega arith in
      rw (e, room, some, same) refl
]

finish_padding-two :
    (ctx : Sha256Ctx)
    → ltb 56 (ctx.count % 64 + 1) ≡ true
    → finish_padding ctx ≡ (
        if ctx.count % 64 == 63
        then panic
        else done (long_blocks ctx.state (take (ctx.count % 64) ctx.buffer ++ 0x80 ∷ []) ctx.count))
unfolding finish_padding cleared
finish_padding-two ctx e = elim (Bool-cases (ctx.count % 64 == 63)) [
  | inl full ↦
      let none : ltb 0 (64 - (ctx.count % 64 + 1)) ≡ false = ground arith in rw (e, full, none) refl
  | inr room ↦
      let some : ltb 0 (64 - (ctx.count % 64 + 1)) ≡ true = ground arith in rw (e, room, some) refl
]

-- The padding would clear no byte behind the bit.
unfoldable pub clears_nothing : List ℕ → Bool
clears_nothing m = (length m % 64 == 55) || (length m % 64 == 63)

module _ (m : List ℕ) where
  abbrev rest_of : List ℕ
  rest_of = drop (length m / 64 * 64) m

  abbrev zeros : ℕ
  zeros = (119 - length m % 64) % 64

  abbrev bits : List ℕ
  bits = length_bytes (length m * 8 % 2 ^ 64)

  abbrev padding : List ℕ
  padding = 0x80 ∷ (zero_bytes zeros ++ bits)

  length-padding : length padding ≡ zeros + 9
  length-padding = omega (arith, length-append (zero_bytes zeros) bits, length-zero_bytes zeros)

  -- The blocks that are whole, and then the rest with its padding.
  split_blocks :
      (n : ℕ)
      → transform_blocks (length m / 64 + n) sha256_init (m ++ padding)
        ≡ transform_blocks n (transform_blocks (length m / 64) sha256_init m) (rest_of ++ padding)
  split_blocks n =
      transform_blocks-add (length m / 64) n sha256_init (m ++ padding)
      ∙ ap (λ (t : State). transform_blocks n t (drop (length m / 64 * 64) (m ++ padding)))
          (transform_blocks-append (length m / 64) sha256_init m padding (omega arith))
      ∙ ap (λ (t : List ℕ). transform_blocks n (transform_blocks (length m / 64) sha256_init m) t)
          (drop-append (length m / 64 * 64) m padding (omega arith))

  module _ (ctx : Sha256Ctx) (ready : Ready sha256_init 0 m ctx) where
    count_mod : ctx.count ≡ length m
    count_mod = let e = ready.count_is in omega arith

    front_is : take (ctx.count % 64) ctx.buffer ++ 0x80 ∷ [] ≡ rest_of ++ 0x80 ∷ []
    front_is =
        ap (λ (t : ℕ). take (t % 64) ctx.buffer ++ 0x80 ∷ []) count_mod
        ∙ ap (λ (t : List ℕ). t ++ 0x80 ∷ []) ready.kept

    -- The last bytes of the message and the bit behind them.
    abbrev front : List ℕ
    front = rest_of ++ 0x80 ∷ []

    length-front : length front ≡ length m % 64 + 1
    length-front = omega (arith, length-append rest_of (0x80 ∷ []), tail_length m)

    abbrev before : State
    before = transform_blocks (length m / 64) sha256_init m

    finish_padding-short :
        length m % 64 < 56
        → finish_padding ctx ≡ (
            if length m % 64 == 55
            then panic
            else done (transform_blocks (length m / 64 + 1) sha256_init (m ++ padding)))
    finish_padding-short lt =
        let same_zeros : 56 - (length m % 64 + 1) ≡ zeros = omega arith in
        let whole : front ++ zero_bytes (56 - (length m % 64 + 1)) ++ bits ≡ rest_of ++ padding =
          ap (λ (t : ℕ). front ++ zero_bytes t ++ bits) same_zeros
          ∙ append_assoc front (zero_bytes zeros) bits
          ∙ append-snoc rest_of 0x80 (zero_bytes zeros ++ bits) in
        let len : length (rest_of ++ padding) ≡ 64 =
          omega (arith, length-append rest_of padding, length-padding, tail_length m) in
        finish_padding-one ctx (ground (arith, count_mod))
        ∙ ap
            (λ (n : ℕ).
              if n % 64 == 55
              then panic
              else done
                  (short_block ctx.state (take (ctx.count % 64) ctx.buffer ++ 0x80 ∷ []) ctx.count))
            count_mod
        ∙ ap (λ (s : State). if length m % 64 == 55 then panic else done s)
            (ap
                (λ (t : State).
                  short_block t (take (ctx.count % 64) ctx.buffer ++ 0x80 ∷ []) ctx.count)
                ready.state_is
              ∙ ap (λ (t : List ℕ). short_block before t ctx.count) front_is
              ∙ ap (short_block before front) count_mod
              ∙ ap (sha256_transform before) whole
              ∙ sym (one_block before (rest_of ++ padding) len)
              ∙ sym (split_blocks 1))

    finish_padding-long :
        56 ≤ length m % 64
        → finish_padding ctx ≡ (
            if length m % 64 == 63
            then panic
            else done (transform_blocks (length m / 64 + 2) sha256_init (m ++ padding)))
    finish_padding-long le =
        let first = front ++ zero_bytes (64 - (length m % 64 + 1)) in
        let last = zero_bytes 56 ++ bits in
        let same_zeros : zeros ≡ 64 - (length m % 64 + 1) + 56 = omega arith in
        let whole : rest_of ++ padding ≡ first ++ last =
          sym (append-snoc rest_of 0x80 (zero_bytes zeros ++ bits))
          ∙ ap (λ (t : ℕ). front ++ (zero_bytes t ++ bits)) same_zeros
          ∙ ap (λ (t : List ℕ). front ++ (t ++ bits)) (zero_bytes-add (64 - (length m % 64 + 1)) 56)
          ∙ ap (λ (t : List ℕ). front ++ t)
              (append_assoc (zero_bytes (64 - (length m % 64 + 1))) (zero_bytes 56) bits)
          ∙ sym (append_assoc front (zero_bytes (64 - (length m % 64 + 1))) last) in
        let len : length first ≡ 64 = omega (
          arith,
          length-append front (zero_bytes (64 - (length m % 64 + 1))),
          length-zero_bytes (64 - (length m % 64 + 1)),
          length-front,
        ) in
        finish_padding-two ctx (ground (arith, count_mod))
        ∙ ap
            (λ (n : ℕ).
              if n % 64 == 63
              then panic
              else done
                  (long_blocks ctx.state (take (ctx.count % 64) ctx.buffer ++ 0x80 ∷ []) ctx.count))
            count_mod
        ∙ ap (λ (s : State). if length m % 64 == 63 then panic else done s)
            (ap
                (λ (t : State).
                  long_blocks t (take (ctx.count % 64) ctx.buffer ++ 0x80 ∷ []) ctx.count)
                ready.state_is
              ∙ ap (λ (t : List ℕ). long_blocks before t ctx.count) front_is
              ∙ ap (long_blocks before front) count_mod
              ∙ sym (two_blocks before first last len refl)
              ∙ ap (transform_blocks 2 before) (sym whole)
              ∙ sym (split_blocks 2))

    length-padded : length (m ++ padding) ≡ length m + zeros + 9
    length-padded = omega (arith, length-append m padding, length-padding)

    -- All blocks of the padded message.
    finish_padding-padded : finish_padding ctx ≡ (
        if clears_nothing m
        then panic
        else done (transform_blocks (length (padded m) / 64) sha256_init (padded m)))
    unfolding padded clears_nothing
    finish_padding-padded = elim (dec_lt (length m % 64) 56) [
      | yes lt ↦
          (let e : length m / 64 + 1 ≡ length (m ++ padding) / 64 = omega (arith, length-padded) in
            let same : (length m % 64 == 55) ≡ ((length m % 64 == 55) || (length m % 64 == 63)) =
              ground arith in
            finish_padding-short lt
            ∙ ap
                (λ (t : ℕ).
                  if length m % 64 == 55
                  then panic
                  else done (transform_blocks t sha256_init (m ++ padding)))
                e
            ∙ ap
                (λ (b : Bool).
                  if b
                  then panic
                  else done
                      (transform_blocks (length (m ++ padding) / 64) sha256_init (m ++ padding)))
                same)
      | no ge ↦
          (let e : length m / 64 + 2 ≡ length (m ++ padding) / 64 = omega (arith, length-padded) in
            let same : (length m % 64 == 63) ≡ ((length m % 64 == 55) || (length m % 64 == 63)) =
              ground arith in
            finish_padding-long (omega arith)
            ∙ ap
                (λ (t : ℕ).
                  if length m % 64 == 63
                  then panic
                  else done (transform_blocks t sha256_init (m ++ padding)))
                e
            ∙ ap
                (λ (b : Bool).
                  if b
                  then panic
                  else done
                      (transform_blocks (length (m ++ padding) / 64) sha256_init (m ++ padding)))
                same)
    ]

-- When every read of a file below 2 GiB gives some bytes, and each but the last whole blocks of 64,
-- the result is the digest of all bytes in order: of the message with a bit, the fewest zeros that
-- fill the last block, and its length in bits, block after block. But a file whose length is 55 or
-- 63 modulo 64 fails the ASSERT of memset, which is called with size 0.
pub sha256-message_digest :
    (hash_size : ℕ) (buffer : List ℕ) (reads : List (List ℕ))
    → WholeReads reads
    → hash_size ≡ length (concat reads)
    → hash_size < 2 ^ 31
    → sha256 hash_size buffer reads
      ≡ (if clears_nothing (concat reads) then panic else done (message_digest (concat reads)))
unfolding sha256 message_digest
sha256-message_digest hash_size buffer reads whole size small =
    let start : Sha256Ctx = record { state = sha256_init; count = 0; buffer = buffer } in
    let ready = read_loop-Ready hash_size reads start whole (omega arith) small in
    let run = finish_padding-padded (concat reads) (read_loop hash_size 0 start reads) ready in
    elim (Bool-cases (clears_nothing (concat reads))) [
      | inl e ↦ rw (run, e) refl
      | inr e ↦ rw (run, e) refl
    ]
