-- ===== src/Str.antt =====
-- kernel/memop/string.c: the memory and string routines, over a byte-addressed memory.
pub mod Block
pub mod Text
pub mod Compare
pub mod Chars
mod Tests
use jat_os.Prelude.{
  ℕ, zero, suc, ◌+◌, ◌-◌, ◌%◌, ◌^◌, Bool, true, false, not, ◌&&◌, ltb, ◌==◌, if◌then◌else◌, Outcome,
  done, out_of_fuel, ◌>>=◌, ◌>>◌, assert,
}

-- The byte at each address. Pointers are 32-bit numbers, and NULL is 0.
abbrev pub Memory : Type 0
Memory = ℕ → ℕ

abbrev pub store : Memory → ℕ → ℕ → Memory
store m p v q = if p == q then v else m q

-- `p++`
abbrev pub next : ℕ → ℕ
next p = (p + 1) % 2 ^ 32

-- A `char` is signed on this target: `signed_lt` compares two bytes as such.
abbrev pub signed_lt : ℕ → ℕ → Bool
signed_lt a b = ltb ((a + 128) % 256) ((b + 128) % 256)

-- `*str == ch` between a `char` and a `uint8_t`: a byte from 128 on is negative, and `ch` is not.
abbrev pub char_is : ℕ → ℕ → Bool
char_is c ch = (c == ch) && ltb c 128

-- `while (size-- > 0) *dst++ = value`
pub memset_loop : ℕ → Memory → ℕ → ℕ → Memory
memset_loop zero m dst value = m
memset_loop (suc size) m dst value = memset_loop size (store m dst value) (next dst) value

pub memset : Memory → ℕ → ℕ → ℕ → Outcome Memory
unfolding memset_loop
memset m dst value size = do
  assert (not (dst == 0) && ltb 0 size)
  done (memset_loop size m dst value)

-- `while (size-- > 0) *dst++ = *src++`
pub memcpy_loop : ℕ → Memory → ℕ → ℕ → Memory
memcpy_loop zero m dst src = m
memcpy_loop (suc size) m dst src = memcpy_loop size (store m dst (m src)) (next dst) (next src)

pub memcpy : Memory → ℕ → ℕ → ℕ → Outcome Memory
unfolding memcpy_loop
memcpy m dst src size = do
  assert (not (dst == 0) && not (src == 0))
  done (memcpy_loop size m dst src)

-- -1 as an `int` and as an `int8_t`.
abbrev pub minus_one32 : ℕ
minus_one32 = 2 ^ 32 - 1

abbrev pub minus_one8 : ℕ
minus_one8 = 2 ^ 8 - 1

pub memcmp_loop : ℕ → Memory → ℕ → ℕ → ℕ
memcmp_loop zero m a b = 0
memcmp_loop (suc size) m a b =
    let rest = memcmp_loop size m (next a) (next b) in
    if not (m a == m b) then (if signed_lt (m b) (m a) then 1 else minus_one32) else rest

pub memcmp : Memory → ℕ → ℕ → ℕ → Outcome ℕ
unfolding memcmp_loop
memcmp m a b size = do assert (not (a == 0) && not (b == 0)); done (memcmp_loop size m a b)

-- `while ((*dst++ = *src++));`
pub strcpy_loop : ℕ → Memory → ℕ → ℕ → Outcome Memory
strcpy_loop zero m dst src = out_of_fuel
strcpy_loop (suc fuel) m dst src =
    let m' = store m dst (m src) in
    elim (m src == 0) [ true ↦ done m' | false ↦ strcpy_loop fuel m' (next dst) (next src) ]

-- The pointer that it returns is `dst`.
pub strcpy : ℕ → Memory → ℕ → ℕ → Outcome (ℕ × Memory)
unfolding strcpy_loop
strcpy fuel m dst src = do
  assert (not (dst == 0) && not (src == 0))
  m' ← strcpy_loop fuel m dst src
  done (dst, m')

-- `while (*(p++) != '\0');`: the pointer behind the loop
pub strlen_loop : ℕ → Memory → ℕ → Outcome ℕ
strlen_loop zero m p = out_of_fuel
strlen_loop (suc fuel) m p = elim (m p == 0) [
  | true ↦ done (next p)
  | false ↦ strlen_loop fuel m (next p)
]

pub strlen : ℕ → Memory → ℕ → Outcome ℕ
unfolding strlen_loop
strlen fuel m str = do
  assert (not (str == 0))
  p ← strlen_loop fuel m str
  done ((p + 2 ^ 32 - str - 1) % 2 ^ 32)

-- The two pointers behind the loop.
pub strcmp_loop : ℕ → Memory → ℕ → ℕ → Outcome (ℕ × ℕ)
strcmp_loop zero m a b = out_of_fuel
strcmp_loop (suc fuel) m a b = elim (not (m a == 0) && (m a == m b)) [
  | true ↦ strcmp_loop fuel m (next a) (next b)
  | false ↦ done (a, b)
]

abbrev pub order : ℕ → ℕ → ℕ
order x y = if signed_lt x y then minus_one8 else if signed_lt y x then 1 else 0

pub strcmp : ℕ → Memory → ℕ → ℕ → Outcome ℕ
unfolding strcmp_loop
strcmp fuel m a b = do
  assert (not (a == 0) && not (b == 0))
  p ← strcmp_loop fuel m a b
  done (order (m p.0) (m p.1))

pub strchr_loop : ℕ → Memory → ℕ → ℕ → Outcome ℕ
strchr_loop zero m str ch = out_of_fuel
strchr_loop (suc fuel) m str ch = elim (m str == 0) [
  | true ↦ done 0
  | false ↦ elim (char_is (m str) ch) [ true ↦ done str | false ↦ strchr_loop fuel m (next str) ch ]
]

pub strchr : ℕ → Memory → ℕ → ℕ → Outcome ℕ
unfolding strchr_loop
strchr fuel m str ch = do assert (not (str == 0)); strchr_loop fuel m str ch

pub strrchr_loop : ℕ → Memory → ℕ → ℕ → ℕ → Outcome ℕ
strrchr_loop zero m str ch last_char = out_of_fuel
strrchr_loop (suc fuel) m str ch last_char = elim (m str == 0) [
  | true ↦ done last_char
  | false ↦ strrchr_loop fuel m (next str) ch (if char_is (m str) ch then str else last_char)
]

pub strrchr : ℕ → Memory → ℕ → ℕ → Outcome ℕ
unfolding strrchr_loop
strrchr fuel m str ch = do assert (not (str == 0)); strrchr_loop fuel m str ch 0

-- `while (*str++); str--;` and the copying loop
pub strcat : ℕ → Memory → ℕ → ℕ → Outcome (ℕ × Memory)
unfolding strlen_loop strcpy_loop
strcat fuel m dst src = do
  assert (not (dst == 0) && not (src == 0))
  p ← strlen_loop fuel m dst
  m' ← strcpy_loop fuel m ((p + 2 ^ 32 - 1) % 2 ^ 32) src
  done (dst, m')

pub strchrs_loop : ℕ → Memory → ℕ → ℕ → ℕ → Outcome ℕ
strchrs_loop zero m p ch ch_cnt = out_of_fuel
strchrs_loop (suc fuel) m p ch ch_cnt = elim (m p == 0) [
  | true ↦ done ch_cnt
  | false ↦
      strchrs_loop fuel m (next p) ch (if char_is (m p) ch then (ch_cnt + 1) % 2 ^ 32 else ch_cnt)
]

pub strchrs : ℕ → Memory → ℕ → ℕ → Outcome ℕ
unfolding strchrs_loop
strchrs fuel m str ch = do assert (not (str == 0)); strchrs_loop fuel m str ch 0
