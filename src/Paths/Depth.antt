-- ===== src/Paths/Depth.antt =====
-- path_depth_cnt of kernel/fs/fs.c against the places where a name starts.
use jat_os.Prelude.{
  ℕ, zero, suc, ◌+◌, ◌≤◌, ◌<◌, ◌≡◌, refl, ap, ◌∙◌, inl, inr, Bool, Bool-cases, true, false, ◌==◌,
  ◌&&◌, ltb, if◌then◌else◌, Option, none, some, List, [], ◌∷◌, length, Outcome, done, fault, ◌>>=◌,
  arith,
}
use jat_os.Paths.{
  max_file_name_len, slash, skip_slashes, take_name, path_parse, parse_left, depth_loop,
  path_depth_cnt,
}

-- How many characters start a name: they are no slash, and stand first or behind a slash.
unfoldable pub names : Bool → List ℕ → ℕ
names after [] = 0
names after (c ∷ cs) = elim (c == slash) [
  | true ↦ names true cs
  | false ↦ (if after then 1 else 0) + names false cs
]

-- All names are shorter than the buffer, behind `k` characters of one.
unfoldable pub names_fit : ℕ → List ℕ → Bool
names_fit k [] = ltb k max_file_name_len
names_fit k (c ∷ cs) = elim (c == slash) [
  | true ↦ ltb k max_file_name_len && names_fit 0 cs
  | false ↦ names_fit (suc k) cs
]

names_left : Option (List ℕ) → ℕ
unfolding names
names_left none = 0
names_left (some p) = names true p

fit_left : Option (List ℕ) → Bool
unfolding names_fit
fit_left none = true
fit_left (some p) = names_fit 0 p

size_left : Option (List ℕ) → ℕ
size_left none = 0
size_left (some p) = length p

-- What take_name finds, with `k` characters of the name in front.
record Taken (k : ℕ) (p : List ℕ) (name : List ℕ) (left : Option (List ℕ)) : Type 0 where
  counts : names false p ≡ names_left left
  fits : names_fit k p ≡ (ltb (k + length name) max_file_name_len && fit_left left)
  shorter : size_left left + length name ≤ length p

take_name-Taken : (k : ℕ) (p : List ℕ) → Taken k p (take_name p).0 (take_name p).1
unfolding take_name names names_fit names_left fit_left size_left
take_name-Taken k [] = record { counts = refl; fits = ground arith; shorter = omega arith }
take_name-Taken k (c ∷ cs) = elim (Bool-cases (c == slash)) [
  | inl e ↦
      rw (take_name, e)
        record {
          counts = rw (names, e) refl;
          fits = rw (names_fit, e) ground arith;
          shorter = omega arith;
        }
  | inr e ↦
      let r = take_name-Taken (suc k) cs in
      rw (take_name, e)
        record {
          counts = rw (names, e, r.counts) omega arith;
          fits =
              rw (names_fit, e)
                (r.fits
                  ∙ ap (λ n. ltb n max_file_name_len && fit_left (take_name cs).1) (omega arith));
          shorter = let le = r.shorter in omega arith;
        }
]

-- Whether a name was found.
found : List ℕ → ℕ
found [] = 0
found (c ∷ name) = 1

-- What path_parse finds before it stores the name.
record Parsed (p : List ℕ) (name : List ℕ) (left : Option (List ℕ)) : Type 0 where
  counts : names true p ≡ found name + names_left left
  fits : names_fit 0 p ≡ (ltb (length name) max_file_name_len && fit_left left)
  shorter : size_left left + found name ≤ length p
  ends : name ≡ [] → left ≡ none

take_name-Parsed :
    (p : List ℕ) → Parsed p (take_name (skip_slashes p)).0 (take_name (skip_slashes p)).1
unfolding take_name skip_slashes names names_fit names_left fit_left size_left found
take_name-Parsed [] = record { counts = refl; fits = refl; shorter = omega arith; ends = λ e. refl }
take_name-Parsed (c ∷ cs) = elim (Bool-cases (c == slash)) [
  | inl e ↦
      let r = take_name-Parsed cs in
      rw (skip_slashes, e)
        record {
          counts = rw (names, e) r.counts;
          fits = rw (names_fit, e) r.fits;
          shorter = let le = r.shorter in omega arith;
          ends = r.ends;
        }
  | inr e ↦
      let r = take_name-Taken 1 cs in
      rw (skip_slashes, e) rw (take_name, e)
        record {
          counts = rw (names, e, r.counts) refl;
          fits =
              rw (names_fit, e)
                (r.fits
                  ∙ ap (λ n. ltb n max_file_name_len && fit_left (take_name cs).1) (omega arith));
          shorter = let le = r.shorter in omega arith;
          ends = λ h. cc;
        }
]

-- A continuation that does right behind the name does right behind path_parse.
path_parse-then :
    (p : List ℕ) (rest : List ℕ × Option (List ℕ) → Outcome ℕ) (result : ℕ)
    → rest (take_name (skip_slashes p))
      ≡ (if fit_left (take_name (skip_slashes p)).1 then done result else fault)
    → (path_parse p >>= rest) ≡ (if names_fit 0 p then done result else fault)
unfolding path_parse
path_parse-then p rest result h =
    let r = take_name-Parsed p in
    elim (Bool-cases (ltb (length (take_name (skip_slashes p)).0) max_file_name_len)) [
      | inl e ↦ rw (e, r.fits, e) h
      | inr e ↦ rw (e, r.fits, e) refl
    ]

depth_loop-names :
    (fuel : ℕ) (name : List ℕ) (left : Option (List ℕ)) (depth : ℕ)
    → size_left left + found name < fuel
    → (name ≡ [] → left ≡ none)
    → depth_loop fuel name left depth
      ≡ (if fit_left left then done (depth + (found name + names_left left)) else fault)
unfolding depth_loop parse_left size_left found fit_left names_left
depth_loop-names zero name left depth enough ends = absurd (omega arith)
depth_loop-names (suc fuel) [] left depth enough ends = rw (ends refl) (ap done (omega arith))
depth_loop-names (suc zero) (c ∷ name) none depth enough ends = absurd (omega arith)
depth_loop-names (suc (suc fuel)) (c ∷ name) none depth enough ends = ap done (omega arith)
depth_loop-names (suc fuel) (c ∷ name) (some p) depth enough ends =
    let r = take_name-Parsed p in
    path_parse-then p _ _ (
      depth_loop-names fuel _ _ (suc depth) (let le = r.shorter in omega arith) r.ends
      ∙ ap (λ n. if fit_left (take_name (skip_slashes p)).1 then done n else fault)
          (let e = r.counts in omega arith))

-- path_depth_cnt returns the number of places in the path where a name starts, when all names are
-- shorter than the buffer of 24 bytes; else it writes past the buffer.
pub path_depth_cnt-names :
    (p : List ℕ) → path_depth_cnt p ≡ (if names_fit 0 p then done (names true p) else fault)
unfolding path_depth_cnt
path_depth_cnt-names p =
    let r = take_name-Parsed p in
    path_parse-then p _ _ (
      depth_loop-names _ _ _ 0 (let le = r.shorter in omega arith) r.ends
      ∙ ap (λ n. if fit_left (take_name (skip_slashes p)).1 then done n else fault)
          (let e = r.counts in omega arith))
