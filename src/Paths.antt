-- ===== src/Paths.antt =====
-- path_parse and path_depth_cnt of kernel/fs/fs.c. A path is its characters up to the NUL, and a
-- position in it is what is left from there; `none` is NULL. A name that does not fit in the buffer
-- of the caller is a fault.
pub mod Depth
mod Tests
use jat_os.Prelude.{
  ℕ, zero, suc, ◌+◌, ◌≡◌, Bool, true, false, ◌==◌, ltb, if◌then◌else◌, Option, none, some, List, [],
  ◌∷◌, length, Outcome, done, fault, out_of_fuel, ◌>>=◌,
}

-- MAX_FILE_NAME_LEN, the size of the buffers for a name.
abbrev pub max_file_name_len : ℕ
max_file_name_len = 24

-- `/`
abbrev pub slash : ℕ
slash = 47

-- The slashes in front.
unfoldable pub skip_slashes : List ℕ → List ℕ
skip_slashes [] = []
skip_slashes (c ∷ cs) = elim (c == slash) [ true ↦ skip_slashes cs | false ↦ c ∷ cs ]

-- The characters up to a slash, and the position of the slash.
unfoldable pub take_name : List ℕ → List ℕ × Option (List ℕ)
take_name [] = ([], none)
take_name (c ∷ cs) = elim (c == slash) [
  | true ↦ ([], some (c ∷ cs))
  | false ↦ let (name, left) = take_name cs in (c ∷ name, left)
]

unfoldable pub path_parse : List ℕ → Outcome (List ℕ × Option (List ℕ))
path_parse pathname =
    let (name, left) = take_name (skip_slashes pathname) in
    if ltb (length name) max_file_name_len then done (name, left) else fault

-- `if(p)`: at NULL the buffer stays cleared.
unfoldable pub parse_left : Option (List ℕ) → Outcome (List ℕ × Option (List ℕ))
parse_left none = done ([], none)
parse_left (some p) = path_parse p

unfoldable pub depth_loop : ℕ → List ℕ → Option (List ℕ) → ℕ → Outcome ℕ
depth_loop zero name p depth = out_of_fuel
depth_loop (suc fuel) [] p depth = done depth
depth_loop (suc fuel) (c ∷ name) p depth = do
  (next, left) ← parse_left p
  depth_loop fuel next left (suc depth)

-- The loop takes a name in each round, and one more round ends it.
unfoldable pub path_depth_cnt : List ℕ → Outcome ℕ
path_depth_cnt pathname = do
  (name, left) ← path_parse pathname
  depth_loop (length pathname + 2) name left 0
