-- ===== src/Str/Text.antt =====
-- strlen, strcpy and strcat of kernel/memop/string.c.
use jat_os.Prelude.{
  ℕ, zero, suc, ◌+◌, ◌-◌, ◌^◌, ◌≤◌, ◌<◌, ◌≡◌, ◌≢◌, ◌⊎◌, ◌∙◌, true, false, if◌then◌else◌, done,
  arith, List, [], ◌∷◌, ◌++◌, length,
}
use jat_os.Str.{Memory, store, next, strlen_loop, strlen, strcpy_loop, strcpy, memcpy_loop, strcat}
use jat_os.Str.Block.{inside, memcpy_loop_lem}

-- At `p` stands the text `s`, ended by a 0.
abbrev pub IsString : Memory → ℕ → List ℕ → Type 0
IsString m p [] = m p ≡ 0
IsString m p (c ∷ s) = (m p ≡ c) × (c ≢ 0) × IsString m (p + 1) s

pub IsString-copy :
    (m m' : Memory) (p q : ℕ) (s : List ℕ)
    → ((i : ℕ) → i ≤ length s → m' (q + i) ≡ m (p + i))
    → IsString m p s
    → IsString m' q s
IsString-copy m m' p q [] same h =
    let x : q + 0 ≡ q = omega arith in
    let y : p + 0 ≡ p = omega arith in
    let e : m' q ≡ m p = rw (x, y) at (same 0 (omega arith)) in e ∙ h
IsString-copy m m' p q (c ∷ s) same (h, ne, rest) =
    let x : q + 0 ≡ q = omega arith in
    let y : p + 0 ≡ p = omega arith in
    let e : m' q ≡ m p = rw (x, y) at (same 0 (omega arith)) in
    (
      e ∙ h,
      ne,
      IsString-copy m m' (p + 1) (q + 1) s
          (λ i le.
            let u : q + 1 + i ≡ q + suc i = omega arith in
            let v : p + 1 + i ≡ p + suc i = omega arith in rw (u, v) (same (suc i) (omega arith)))
          rest,
    )

pub strlen_loop_lem :
    (fuel : ℕ) (m : Memory) (p : ℕ) (s : List ℕ)
    → IsString m p s
    → p + length s + 1 < 2 ^ 32
    → length s < fuel
    → strlen_loop fuel m p ≡ done (p + length s + 1)
unfolding strlen_loop
strlen_loop_lem zero m p s h fits enough = absurd (omega arith)
strlen_loop_lem (suc fuel) m p [] h fits enough = ground arith
strlen_loop_lem (suc fuel) m p (c ∷ s) (h, ne, rest) fits enough =
    let e : next p ≡ p + 1 = omega arith in
    ground (arith, e, strlen_loop_lem fuel m (p + 1) s rest (omega arith) (omega arith))

-- strlen of a text that lies in the address space, at no NULL, returns the length of the text.
pub strlen-length :
    (fuel : ℕ) (m : Memory) (str : ℕ) (s : List ℕ)
    → IsString m str s
    → str ≢ 0
    → str + length s + 1 < 2 ^ 32
    → length s < fuel
    → strlen fuel m str ≡ done (length s)
unfolding strlen
strlen-length fuel m str s h ne fits enough =
    ground (arith, strlen_loop_lem fuel m str s h fits enough)

-- A write outside a text and its terminator leaves the text.
IsString-store :
    (m : Memory) (p v q : ℕ) (s : List ℕ)
    → ((p < q) ⊎ (q + length s < p))
    → IsString m q s
    → IsString (store m p v) q s
IsString-store m p v q s apart h = IsString-copy m (store m p v) q q s (λ i le. ground arith) h

-- Copying a text up to its terminator copies a block of its length and one byte more.
strcpy_loop-memcpy_loop :
    (fuel : ℕ) (m : Memory) (dst src : ℕ) (s : List ℕ)
    → IsString m src s
    → ((dst ≤ src) ⊎ (src + length s < dst))
    → dst + length s < 2 ^ 32
    → src + length s < 2 ^ 32
    → length s < fuel
    → strcpy_loop fuel m dst src ≡ done (memcpy_loop (suc (length s)) m dst src)
unfolding strcpy_loop memcpy_loop
strcpy_loop-memcpy_loop zero m dst src s h apart d r enough = absurd (omega arith)
strcpy_loop-memcpy_loop (suc fuel) m dst src [] h apart d r enough = ground arith
strcpy_loop-memcpy_loop (suc fuel) m dst src (c ∷ s) (h, ne, rest) apart d r enough =
    let x : next dst ≡ dst + 1 = omega arith in
    let y : next src ≡ src + 1 = omega arith in
    let later : IsString (store m dst (m src)) (src + 1) s =
      IsString-store m dst (m src) (src + 1) s (omega arith) rest in
    ground (
      arith,
      x,
      y,
      strcpy_loop-memcpy_loop fuel (store m dst (m src)) (dst + 1) (src + 1) s later (omega arith)
          (omega arith) (omega arith) (omega arith),
    )

-- What a copy of `s` to `dst` leaves: the text there, and all else as before.
pub record Copied (m m' : Memory) (dst : ℕ) (s : List ℕ) : Type 0 where
  pub text : IsString m' dst s
  pub same : (q : ℕ) → inside dst (suc (length s)) q ≡ false → m' q ≡ m q

module _ (m : Memory) (dst src : ℕ) (s : List ℕ) (h : IsString m src s)
    (apart : (dst ≤ src) ⊎ (src + length s < dst)) (d : dst + length s < 2 ^ 32)
    (r : src + length s < 2 ^ 32) where
  copy_at :
      (q : ℕ)
      → memcpy_loop (suc (length s)) m dst src q
        ≡ (if inside dst (suc (length s)) q then m (src + (q - dst)) else m q)
  copy_at q = memcpy_loop_lem (suc (length s)) m dst src q (omega arith) (omega arith) (omega arith)

  memcpy_loop-Copied : Copied m (memcpy_loop (suc (length s)) m dst src) dst s
  memcpy_loop-Copied = record {
    text =
        IsString-copy m _ src dst s
          (λ i le.
            let e : dst + i - dst ≡ i = omega arith in
            let t : inside dst (suc (length s)) (dst + i) ≡ true = ground arith in
            copy_at (dst + i) ∙ rw (t, e))
          h;
    same = λ q out. copy_at q ∙ rw out;
  }

-- strcpy ends when its source is a text, returns its destination, and leaves the text there; only
-- the bytes of the copy change. The source must not begin below the destination and reach into it.
pub strcpy-Copied :
    (fuel : ℕ) (m : Memory) (dst src : ℕ) (s : List ℕ)
    → IsString m src s
    → dst ≢ 0
    → src ≢ 0
    → ((dst ≤ src) ⊎ (src + length s < dst))
    → dst + length s < 2 ^ 32
    → src + length s < 2 ^ 32
    → length s < fuel
    → (m' : Memory) × (strcpy fuel m dst src ≡ done (dst, m')) × Copied m m' dst s
unfolding strcpy
strcpy-Copied fuel m dst src s h nd ns apart d r enough = (
  memcpy_loop (suc (length s)) m dst src,
  ground (arith, strcpy_loop-memcpy_loop fuel m dst src s h apart d r enough),
  memcpy_loop-Copied m dst src s h apart d r,
)

IsString-append :
    (m : Memory) (p : ℕ) (t s : List ℕ) (m' : Memory)
    → IsString m p t
    → ((i : ℕ) → i < length t → m' (p + i) ≡ m (p + i))
    → IsString m' (p + length t) s
    → IsString m' p (t ++ s)
IsString-append m p [] s m' h same tail = let e : p + 0 ≡ p = omega arith in rw e at tail
IsString-append m p (c ∷ t) s m' (h, ne, rest) same tail =
    let e : p + 0 ≡ p = omega arith in
    let f : p + suc (length t) ≡ p + 1 + length t = omega arith in
    (
      (rw e at (same 0 (omega arith))) ∙ h,
      ne,
      IsString-append m (p + 1) t s m' rest
          (λ i lt.
            (let g : p + 1 + i ≡ p + suc i = omega arith in rw g (same (suc i) (omega arith))))
          (rw f at tail),
    )

-- strcat of two texts that lie apart ends, returns its destination, and leaves the two texts joined
-- there; only bytes from the old terminator on change.
pub strcat-append :
    (fuel : ℕ) (m : Memory) (dst src : ℕ) (t s : List ℕ)
    → IsString m dst t
    → IsString m src s
    → dst ≢ 0
    → src ≢ 0
    → ((dst + length t ≤ src) ⊎ (src + length s < dst))
    → dst + length t + length s + 1 < 2 ^ 32
    → src + length s < 2 ^ 32
    → length t + length s < fuel
    → (m' : Memory) × (strcat fuel m dst src ≡ done (dst, m'))
      × IsString m' dst (t ++ s)
      × ((q : ℕ) → inside (dst + length t) (suc (length s)) q ≡ false → m' q ≡ m q)
unfolding strcat
strcat-append fuel m dst src t s ht hs nd ns apart d r enough =
    let end = dst + length t in
    let copied = memcpy_loop-Copied m end src s hs (omega arith) (omega arith) r in
    (
      memcpy_loop (suc (length s)) m end src,
      ground (
        arith,
        strlen_loop_lem fuel m dst t ht (omega arith) (omega arith),
        strcpy_loop-memcpy_loop fuel m end src s hs (omega arith) (omega arith) r (omega arith),
      ),
      IsString-append m dst t s _ ht (λ i lt. copied.same (dst + i) (ground arith)) copied.text,
      copied.same,
    )
