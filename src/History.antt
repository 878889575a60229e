-- ===== src/History.antt =====
-- The command history: kernel/shell/history.c, on the lists of DList. The address of a
-- `struct history_elem` is that of its tag; `malloc` is a parameter, by the address it returns.
pub mod Push
pub mod Walk
mod Tests
use jat_os.Prelude.{ℕ, ◌+◌, ◌-◌, leb, ◌==◌, if◌then◌else◌, List, [], Option, none, some}
use jat_os.DList.{Links, null, tail, list_init, list_push, list_remove, set_prev, set_next}

abbrev pub max_his_cmd_cnt : ℕ
max_his_cmd_cnt = 10

-- `struct history` at its list's address, the links of all list nodes, and the texts `cmd_line`.
pub record History : Type 0 where
  pub links : Links
  pub history_list : ℕ
  pub cnt : ℕ
  pub now_history_elem : ℕ
  pub cmd_line : ℕ → List ℕ

pub history_init : History → History
history_init h = record h {
  links = list_init h.links h.history_list;
  cnt = 0;
  now_history_elem = null;
}

-- The branch that throws the oldest command away.
pub throw_oldest : History → History
throw_oldest h =
    if leb max_his_cmd_cnt h.cnt
    then record h {
      links = list_remove h.links (h.links.prev (tail h.history_list));
      cnt = h.cnt - 1;
    }
    else h

pub history_elem_init : History → ℕ → List ℕ → History
history_elem_init h phe line = record h {
  links = set_next (set_prev h.links phe null) phe null;
  cmd_line = λ e. if phe == e then line else h.cmd_line e;
}

-- `new_elem` is what malloc returns.
pub history_push : History → (new_elem : ℕ) → List ℕ → History
unfolding throw_oldest history_elem_init
history_push h new_elem line =
    let h1 = history_elem_init (throw_oldest h) new_elem line in
    record h1 {
      links = list_push h1.links h1.history_list new_elem;
      now_history_elem = null;
      cnt = h1.cnt + 1;
    }

-- The text, or NULL.
pub history_get_next : History → Option (List ℕ) × History
history_get_next h =
    if h.now_history_elem == null
    then (none, h)
    else let prev = h.links.prev h.now_history_elem in
      if prev == h.history_list
      then (some [], record h { now_history_elem = null })
      else (some (h.cmd_line prev), record h { now_history_elem = prev })

pub history_get_prev : History → Option (List ℕ) × History
history_get_prev h =
    if h.now_history_elem == null
    then (if h.cnt == 0
        then (none, h)
        else let first = h.links.next h.history_list in
          (some (h.cmd_line first), record h { now_history_elem = first }))
    else let next = h.links.next h.now_history_elem in
      if next == tail h.history_list
      then (none, h)
      else (some (h.cmd_line next), record h { now_history_elem = next })
