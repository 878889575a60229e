-- ===== src/Sha256/Message.antt =====
-- SHA256 of kernel/crypto/sha256.c against the hash of a whole message.
use jat_os.Prelude.{
  ℕ, ◌+◌, ◌-◌, ◌*◌, ◌/◌, ◌%◌, ◌^◌, ◌<◌, ◌≡◌, refl, ap, sym, ◌∙◌, true, false, ltb, if◌then◌else◌,
  List, [], ◌∷◌, ◌++◌, take, drop, length, length-append, length-drop, drop-same, drop-drop,
  take-exact, drop-exact, append-nil, arith, subst,
}
use jat_os.Sha256.{
  State, Sha256Ctx, sha256_init, transform_blocks, zero_bytes, length_bytes, hash_chunk, read_loop,
  digest_of, u32,
}
use jat_os.Sha256.Blocks.{transform_blocks-append, transform_blocks-add}

-- The message with its padding: a bit, as few zeros as fill the last block, and the length in bits.
unfoldable pub padded : List ℕ → List ℕ
padded m =
    m ++ 0x80 ∷ (zero_bytes ((119 - length m % 64) % 64) ++ length_bytes (length m * 8 % 2 ^ 64))

-- The hash of a message: its padded blocks, one after another.
unfoldable pub message_digest : List ℕ → List ℕ
unfolding padded
message_digest m = digest_of (transform_blocks (length (padded m) / 64) sha256_init (padded m))

unfoldable pub concat : List (List ℕ) → List ℕ
concat [] = []
concat (c ∷ cs) = c ++ concat cs

-- Every read gives some bytes, and all but the last whole blocks.
pub data WholeReads : List (List ℕ) → Type 0 where
  no_read : WholeReads []
  last_read : {c : List ℕ} → 0 < length c → WholeReads (c ∷ [])
  more_reads :
      {c d : List ℕ} {cs : List (List ℕ)}
      → 0 < length c
      → length c % 64 ≡ 0
      → WholeReads (d ∷ cs)
      → WholeReads (c ∷ d ∷ cs)

-- The context behind the bytes `m`, from the state and the count before them.
pub record Ready (s : State) (count : ℕ) (m : List ℕ) (ctx : Sha256Ctx) : Type 0 where
  pub state_is : ctx.state ≡ transform_blocks (length m / 64) s m
  pub count_is : ctx.count ≡ count + length m
  pub kept : take (length m % 64) ctx.buffer ≡ drop (length m / 64 * 64) m

pub tail_length : (m : List ℕ) → length (drop (length m / 64 * 64) m) ≡ length m % 64
tail_length m = length-drop (length m / 64 * 64) m ∙ omega arith

hash_chunk-Ready :
    (ctx : Sha256Ctx) (c : List ℕ)
    → ctx.count + length c < 2 ^ 64
    → Ready ctx.state ctx.count c (hash_chunk ctx c)
unfolding hash_chunk
hash_chunk-Ready ctx c small =
    let tail = drop (length c / 64 * 64) c in
    record {
      state_is = refl;
      count_is = omega arith;
      kept = take-exact (length c % 64) tail (drop (length tail) ctx.buffer) (tail_length c);
    }

-- One chunk of whole blocks, and then the rest.
Ready-append :
    (s : State) (count : ℕ) (c m : List ℕ) (s' : State) (ctx : Sha256Ctx)
    → length c % 64 ≡ 0
    → s' ≡ transform_blocks (length c / 64) s c
    → Ready s' (count + length c) m ctx
    → Ready s count (c ++ m) ctx
Ready-append s count c m s' ctx whole state ready =
    let len = length-append c m in
    let blocks : length (c ++ m) / 64 ≡ length c / 64 + length m / 64 = omega arith in
    let front : length c / 64 * 64 ≡ length c = omega arith in
    record {
      state_is =
          ready.state_is
          ∙ ap (λ (t : State). transform_blocks (length m / 64) t m)
              (state ∙ sym (transform_blocks-append (length c / 64) s c m (omega arith)))
          ∙ ap
              (λ (t : List ℕ).
                transform_blocks (length m / 64) (transform_blocks (length c / 64) s (c ++ m)) t)
              (sym (drop-exact (length c / 64 * 64) c m (omega arith)))
          ∙ sym (transform_blocks-add (length c / 64) (length m / 64) s (c ++ m))
          ∙ ap (λ (t : ℕ). transform_blocks t s (c ++ m)) (sym blocks);
      count_is = let e = ready.count_is in omega (arith, len);
      kept =
          let r : length (c ++ m) % 64 ≡ length m % 64 = omega arith in
          let at_end : length (c ++ m) / 64 * 64 ≡ length c + length m / 64 * 64 = omega arith in
          ap (λ (t : ℕ). take t ctx.buffer) r
          ∙ ready.kept
          ∙ ap (drop (length m / 64 * 64)) (sym (drop-exact (length c) c m refl))
          ∙ drop-drop (length m / 64 * 64) (length c) (c ++ m)
          ∙ drop-same (length c + length m / 64 * 64) (length (c ++ m) / 64 * 64) (c ++ m)
              (sym at_end);
    }

read_loop-step :
    (hash_size total : ℕ) (ctx : Sha256Ctx) (c : List ℕ) (reads : List (List ℕ))
    → 0 < length c
    → read_loop hash_size total ctx (c ∷ reads) ≡ (
        if ltb (u32 (total + length c)) hash_size
        then read_loop hash_size (u32 (total + length c)) (hash_chunk ctx c) reads
        else hash_chunk ctx c)
unfolding read_loop
read_loop-step hash_size total ctx [] reads pos = absurd (omega arith)
read_loop-step hash_size total ctx (b ∷ bs) reads pos = refl

-- The last read ends the loop.
read_loop-last :
    (hash_size total : ℕ) (ctx : Sha256Ctx) (c : List ℕ)
    → 0 < length c
    → hash_size ≡ total + length c
    → hash_size < 2 ^ 31
    → read_loop hash_size total ctx (c ∷ []) ≡ hash_chunk ctx c
read_loop-last hash_size total ctx c pos size small =
    let e : ltb (u32 (total + length c)) hash_size ≡ false = ground arith in
    read_loop-step hash_size total ctx c [] pos ∙ (rw e refl)

read_loop-more :
    (hash_size total : ℕ) (ctx : Sha256Ctx) (c : List ℕ) (reads : List (List ℕ))
    → 0 < length c
    → total + length c < hash_size
    → hash_size < 2 ^ 31
    → read_loop hash_size total ctx (c ∷ reads)
      ≡ read_loop hash_size (total + length c) (hash_chunk ctx c) reads
read_loop-more hash_size total ctx c reads pos more small =
    let same : u32 (total + length c) ≡ total + length c = omega arith in
    let e : ltb (total + length c) hash_size ≡ true = ground arith in
    read_loop-step hash_size total ctx c reads pos ∙ (rw (same, e) refl)

concat-some : (d : List ℕ) (cs : List (List ℕ)) → WholeReads (d ∷ cs) → 0 < length (concat (d ∷ cs))
unfolding concat
concat-some d [] (last_read pos) = omega (arith, length-append d [])
concat-some d (e ∷ cs) (more_reads pos whole rest) =
    omega (arith, length-append d (concat (e ∷ cs)))

pub read_loop-Ready :
    (hash_size : ℕ) (reads : List (List ℕ)) (ctx : Sha256Ctx)
    → WholeReads reads
    → hash_size ≡ ctx.count + length (concat reads)
    → hash_size < 2 ^ 31
    → Ready ctx.state ctx.count (concat reads) (read_loop hash_size ctx.count ctx reads)
unfolding concat
read_loop-Ready hash_size [] ctx no_read size small = record {
  state_is = unfold read_loop in refl;
  count_is = unfold read_loop in omega arith;
  kept = refl;
}
read_loop-Ready hash_size (c ∷ []) ctx (last_read pos) size small =
    let len = length-append c [] in
    let run = read_loop-last hash_size ctx.count ctx c pos (omega arith) small in
    let nil = append-nil c in
    subst (λ t. Ready ctx.state ctx.count t (read_loop hash_size ctx.count ctx (c ∷ []))) (sym nil)
      (subst (λ t. Ready ctx.state ctx.count c t) (sym run) (hash_chunk-Ready ctx c (omega arith)))
read_loop-Ready hash_size (c ∷ d ∷ cs) ctx (more_reads pos whole rest) size small =
    let len = length-append c (concat (d ∷ cs)) in
    let some = concat-some d cs rest in
    let size' : hash_size ≡ ctx.count + length c + length (concat (d ∷ cs)) = omega arith in
    let run = read_loop-more hash_size ctx.count ctx c (d ∷ cs) pos (omega arith) small in
    let one = hash_chunk-Ready ctx c (omega arith) in
    let next : (hash_chunk ctx c).count ≡ ctx.count + length c = one.count_is in
    let ih =
      read_loop-Ready hash_size (d ∷ cs) (hash_chunk ctx c) rest (omega (arith, next)) small in
    let ih' : Ready (hash_chunk ctx c).state (ctx.count + length c) (concat (d ∷ cs))
        (read_loop hash_size (ctx.count + length c) (hash_chunk ctx c) (d ∷ cs)) =
      subst
        (λ t.
          Ready (hash_chunk ctx c).state t (concat (d ∷ cs))
            (read_loop hash_size t (hash_chunk ctx c) (d ∷ cs)))
        next ih in
    subst (λ t. Ready ctx.state ctx.count (c ++ concat (d ∷ cs)) t) (sym run)
      (Ready-append ctx.state ctx.count c (concat (d ∷ cs)) (hash_chunk ctx c).state
        (read_loop hash_size (ctx.count + length c) (hash_chunk ctx c) (d ∷ cs)) whole one.state_is
        ih')
