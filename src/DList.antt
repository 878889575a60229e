-- ===== src/DList.antt =====
-- kernel/list/list.c: doubly linked lists between two sentinels, over the links of all nodes.
-- Each operation runs with interrupts off and restores them, so it is one step of the model.
pub mod Distinct
pub mod Seg
pub mod Insert
pub mod Remove
pub mod Walk
pub mod Ops
pub mod Queries
mod Tests
use jat_os.Prelude.{
  ℕ, zero, suc, ◌+◌, ◌%◌, ◌^◌, Bool, true, false, ◌||◌, ◌==◌, if◌then◌else◌, Outcome, done,
  out_of_fuel,
}

-- The fields of every `struct list_elem`, by its address.
pub record Links : Type 0 where
  pub prev : ℕ → ℕ
  pub next : ℕ → ℕ

abbrev pub null : ℕ
null = 0

abbrev pub write : (ℕ → ℕ) → ℕ → ℕ → ℕ → ℕ
write f p v q = if p == q then v else f q

abbrev pub set_prev : Links → ℕ → ℕ → Links
set_prev h p v = record h { prev = write h.prev p v }

abbrev pub set_next : Links → ℕ → ℕ → Links
set_next h p v = record h { next = write h.next p v }

-- A `struct list` at `l` holds its head there, and its tail behind the head's 8 bytes.
abbrev pub tail : ℕ → ℕ
tail l = l + 8

pub list_init : Links → ℕ → Links
list_init h l =
    let h1 = set_prev h l null in
    let h2 = set_next h1 l (tail l) in let h3 = set_prev h2 (tail l) l in set_next h3 (tail l) null

pub list_insert_before : Links → ℕ → ℕ → Links
list_insert_before h before elem =
    let h1 = set_prev h elem (h.prev before) in
    let h2 = set_next h1 elem before in
    let h3 = set_prev h2 before elem in set_next h3 (h3.prev elem) elem

pub list_push : Links → ℕ → ℕ → Links
unfolding list_insert_before
list_push h l elem = list_insert_before h (h.next l) elem

pub list_append : Links → ℕ → ℕ → Links
unfolding list_insert_before
list_append h l elem = list_insert_before h (tail l) elem

pub list_remove : Links → ℕ → Links
list_remove h pelem =
    let h1 = set_next h (h.prev pelem) (h.next pelem) in
    let h2 = set_prev h1 (h1.next pelem) (h1.prev pelem) in
    let h3 = set_next h2 pelem null in
    let h4 = set_prev h3 pelem null in
    if (h.prev pelem == null) || (h.next pelem == null) then h else h4

pub list_pop : Links → ℕ → ℕ × Links
unfolding list_remove
list_pop h l = (h.next l, list_remove h (h.next l))

-- The walks follow `next` on fuel.
pub elem_find_loop : ℕ → Links → ℕ → ℕ → Outcome Bool
elem_find_loop zero h elem obj = out_of_fuel
elem_find_loop (suc fuel) h elem obj = elim (elem == null) [
  | true ↦ done false
  | false ↦ elim (elem == obj) [
    | true ↦ done true
    | false ↦ elem_find_loop fuel h (h.next elem) obj
  ]
]

pub elem_find : ℕ → Links → ℕ → ℕ → Outcome Bool
unfolding elem_find_loop
elem_find fuel h l obj = elem_find_loop fuel h (h.next l) obj

pub list_empty : Links → ℕ → Bool
list_empty h l = if h.next (h.next l) == null then true else false

-- `func` is the callback at its `arg`.
pub list_traversal_loop : ℕ → Links → (ℕ → Bool) → ℕ → Outcome ℕ
list_traversal_loop zero h func elem = out_of_fuel
list_traversal_loop (suc fuel) h func elem = elim (h.next elem == null) [
  | true ↦ done null
  | false ↦ elim (func elem) [
    | true ↦ done elem
    | false ↦ list_traversal_loop fuel h func (h.next elem)
  ]
]

pub list_traversal : ℕ → Links → ℕ → (ℕ → Bool) → Outcome ℕ
unfolding list_traversal_loop list_empty
list_traversal fuel h l func =
    if list_empty h l then done null else list_traversal_loop fuel h func (h.next l)

pub list_len_loop : ℕ → Links → ℕ → ℕ → ℕ → Outcome ℕ
list_len_loop zero h end elem length = out_of_fuel
list_len_loop (suc fuel) h end elem length = elim (elem == end) [
  | true ↦ done length
  | false ↦ list_len_loop fuel h end (h.next elem) ((length + 1) % 2 ^ 32)
]

pub list_len : ℕ → Links → ℕ → Outcome ℕ
unfolding list_len_loop
list_len fuel h l = list_len_loop fuel h (tail l) (h.next l) 0
