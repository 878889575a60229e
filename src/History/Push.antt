-- ===== src/History/Push.antt =====
-- history_push of kernel/shell/history.c: the last ten commands, the newest first.
use jat_os.Prelude.{
  ℕ, zero, suc, ◌-◌, ◌≤◌, ◌≡◌, ◌≢◌, refl, ap, sym, ◌∙◌, true, false, leb, ◌==◌, if◌then◌else◌, List,
  [], ◌∷◌, ◌++◌, map, length, length-append, take, take-exact, append-nil, arith, subst, ==_refl,
}
use native.Mathlib.Decide.{dec_lt}
use jat_os.DList.{Links, null, tail, list_remove, set_prev, set_next}
use jat_os.DList.Distinct.{Fresh, Fresh-left, Fresh-right}
use jat_os.DList.Seg.{nodes, IsList, Seg-Keeps}
use jat_os.DList.Ops.{list_push-IsList, list_remove-IsList, Seg-left}
use jat_os.History.{History, history_push, throw_oldest, history_elem_init}

-- The nodes of the list, and their number.
pub record Holds (h : History) (xs : List ℕ) : Type 0 where
  pub is_list : IsList h.links h.history_list xs
  pub counted : h.cnt ≡ length xs
  pub most : length xs ≤ 10

-- The commands, the newest first.
abbrev pub commands : History → List ℕ → List (List ℕ)
commands h xs = map h.cmd_line xs

last_of :
    (n : ℕ) (xs : List ℕ)
    → length xs ≡ suc n
    → (ys : List ℕ) × (x : ℕ) × (xs ≡ ys ++ x ∷ []) × (length ys ≡ n)
last_of n [] e = absurd (omega arith)
last_of n (x ∷ []) e = ([], x, refl, omega arith)
last_of zero (x ∷ y ∷ xs) e = absurd (omega arith)
last_of (suc n) (x ∷ y ∷ xs) e =
    let (ys, z, split, len) = last_of n (y ∷ xs) (omega arith) in
    (x ∷ ys, z, ap (λ t. x ∷ t) split, omega arith)

-- The nodes that a push keeps.
abbrev pub newest : List ℕ → List ℕ
newest xs = take 9 xs

take_short : (n : ℕ) (xs : List ℕ) → length xs ≤ n → take n xs ≡ xs
take_short zero [] le = refl
take_short zero (x ∷ xs) le = absurd (omega arith)
take_short (suc n) [] le = refl
take_short (suc n) (x ∷ xs) le = ap (λ t. x ∷ t) (take_short n xs (omega arith))

length-take_le : (n : ℕ) (xs : List ℕ) → length (take n xs) ≤ n
length-take_le zero xs = omega arith
length-take_le (suc n) [] = omega arith
length-take_le (suc n) (x ∷ xs) = omega (arith, length-take_le n xs)

-- A history with the nodes `ys` left, at the same place and with the same texts.
record Kept (h h' : History) (ys : List ℕ) : Type 0 where
  holds : Holds h' ys
  lines : h'.cmd_line ≡ h.cmd_line
  place : h'.history_list ≡ h.history_list

abbrev thrown : History → History
thrown h = record h {
  links = list_remove h.links (h.links.prev (tail h.history_list));
  cnt = h.cnt - 1;
}

throw_oldest-full : (h : History) → leb 10 h.cnt ≡ true → throw_oldest h ≡ thrown h
unfolding throw_oldest
throw_oldest-full h e = rw e refl

throw_oldest-room : (h : History) → leb 10 h.cnt ≡ false → throw_oldest h ≡ h
unfolding throw_oldest
throw_oldest-room h e = rw e refl

thrown-Kept :
    (h : History) (ys : List ℕ) (x : ℕ)
    → Holds h (ys ++ x ∷ [])
    → length ys ≡ 9
    → Kept h (thrown h) ys
thrown-Kept h ys x holds len =
    let (before, behind) =
      Seg-left h.links h.history_list ys x [] (tail h.history_list) holds.is_list.chain in
    let (removed, p, n) = list_remove-IsList h.links h.history_list x ys [] holds.is_list in
    let same : h.links.prev (tail h.history_list) ≡ x = behind.1 in
    let nil : ys ++ [] ≡ ys = append-nil ys in
    let counted = holds.counted in
    let small = length-append ys (x ∷ []) in
    record {
      holds = record {
        is_list =
            subst (λ t. IsList (list_remove h.links t) h.history_list ys) (sym same)
              (subst (λ t. IsList (list_remove h.links x) h.history_list t) nil removed);
        counted = omega arith;
        most = omega arith;
      };
      lines = refl;
      place = refl;
    }

throw_oldest-Kept : (h : History) (xs : List ℕ) → Holds h xs → Kept h (throw_oldest h) (newest xs)
throw_oldest-Kept h xs holds = elim (dec_lt (length xs) 10) [
  | yes lt ↦
      (let counted = holds.counted in
        let room : leb 10 h.cnt ≡ false = ground arith in
        let all : newest xs ≡ xs = take_short 9 xs (omega arith) in
        subst (λ t. Kept h t (newest xs)) (sym (throw_oldest-room h room))
          (record { holds = subst (λ t. Holds h t) (sym all) holds; lines = refl; place = refl }))
  | no ge ↦
      (let counted = holds.counted in
        let most = holds.most in
        let is_full : leb 10 h.cnt ≡ true = ground arith in
        let (ys, x, split, len) = last_of 9 xs (omega arith) in
        let front : newest xs ≡ ys = ap (take 9) split ∙ take-exact 9 ys (x ∷ []) len in
        subst (λ t. Kept h t (newest xs)) (sym (throw_oldest-full h is_full))
          (subst (λ t. Kept h (thrown h) t) (sym front)
            (thrown-Kept h ys x (subst (λ t. Holds h t) split holds) len)))
]

-- A new node's links are cleared outside the list.
cleared-IsList :
    (h : Links) (l e : ℕ) (xs : List ℕ)
    → IsList h l xs
    → Fresh e (nodes l xs)
    → IsList (set_next (set_prev h e null) e null) l xs
cleared-IsList h l e xs is new =
    let at_end : e ≢ tail l = (Fresh-right e xs (tail l ∷ []) new.1).0 in
    record {
      chain =
          Seg-Keeps h (set_next (set_prev h e null) e null) l xs (tail l)
            (record {
              next_same = λ a n.
                  (let ne : e ≢ a = λ s. n (
                      subst (λ t. Fresh t (l ∷ xs)) s
                        (new.0, Fresh-left e xs (tail l ∷ []) new.1)) in
                    ground (arith, ne));
              prev_same = λ a n.
                  (let ne : e ≢ a = λ s. n (subst (λ t. Fresh t (xs ++ tail l ∷ [])) s new.1) in
                    ground (arith, ne));
            })
            is.chain;
      starts = let s = is.starts in ground (arith, new.0);
      ends = let s = is.ends in ground (arith, at_end);
      distinct = is.distinct;
      proper = is.proper;
    }

map-Fresh :
    (f : ℕ → List ℕ) (e : ℕ) (line : List ℕ) (xs : List ℕ)
    → Fresh e xs
    → map (λ a. if e == a then line else f a) xs ≡ map f xs
map-Fresh f e line [] new = refl
map-Fresh f e line (x ∷ xs) new =
    let other : (e == x) ≡ false = ground (arith, new.0) in
    rw (other) (ap (λ t. f x ∷ t) (map-Fresh f e line xs new.1))

-- The history behind a push.
pub record Pushed (h : History) (xs : List ℕ) (e : ℕ) (line : List ℕ) : Type 0 where
  pub holds : Holds (history_push h e line) (e ∷ newest xs)
  pub first : commands (history_push h e line) (e ∷ newest xs) ≡ line ∷ take 9 (commands h xs)
  pub at_none : (history_push h e line).now_history_elem ≡ null

map-take : (f : ℕ → List ℕ) (n : ℕ) (xs : List ℕ) → map f (take n xs) ≡ take n (map f xs)
map-take f zero xs = refl
map-take f (suc n) [] = refl
map-take f (suc n) (x ∷ xs) = ap (λ t. f x ∷ t) (map-take f n xs)

module _ (h : History) (xs : List ℕ) (e : ℕ) (line : List ℕ) (holds : Holds h xs) (ne : e ≢ null)
    (new : Fresh e (nodes h.history_list (newest xs))) where
  -- history_push of an element that the list does not hold and that is not NULL puts the command in
  -- front of the nine newest of the others, keeps the list and its count, at most 10, and forgets the
  -- position.
  pub history_push-Pushed : Pushed h xs e line
  unfolding history_push history_elem_init
  history_push-Pushed =
      let k = throw_oldest-Kept h xs holds in
      let new' : Fresh e (nodes (throw_oldest h).history_list (newest xs)) =
        subst (λ t. Fresh e (nodes t (newest xs))) (sym k.place) new in
      let clear =
        cleared-IsList (throw_oldest h).links (throw_oldest h).history_list e (newest xs)
          k.holds.is_list new' in
      let counted = k.holds.counted in
      let own : (e == e) ≡ true = ==_refl e in
      record {
        holds = record {
          is_list = list_push-IsList _ (throw_oldest h).history_list e (newest xs) clear new' ne;
          counted = omega arith;
          most = omega (arith, length-take_le 9 xs);
        };
        first =
            ap (λ (t : List (List ℕ)). (if e == e then line else (throw_oldest h).cmd_line e) ∷ t)
              (map-Fresh (throw_oldest h).cmd_line e line (newest xs)
                (Fresh-left e (newest xs) (tail h.history_list ∷ []) new.1))
            ∙ (rw own refl)
            ∙ ap (λ (f : ℕ → List ℕ). line ∷ map f (newest xs)) k.lines
            ∙ ap (λ t. line ∷ t) (map-take h.cmd_line 9 xs);
        at_none = refl;
      }
