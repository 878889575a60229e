-- ===== src/History/Tests.antt =====
-- The theorems on the history at two pushed commands.
use jat_os.Prelude.{[], ◌∷◌, ◌≡◌, refl, some, arith}
use jat_os.DList.{Links, list_init}
use jat_os.DList.Ops.{list_init-IsList}
use jat_os.History.{History, history_push, history_get_prev, history_get_next}
use jat_os.History.Push.{Holds, Pushed, history_push-Pushed}
use jat_os.History.Walk.{at_node, get_next-get_prev}

abbrev nothing : Links
nothing = record { prev = λ a. 0; next = λ a. 0 }

-- The history at 100, without commands.
abbrev no_commands : History
no_commands = record {
  links = list_init nothing 100;
  history_list = 100;
  cnt = 0;
  now_history_elem = 0;
  cmd_line = λ e. [];
}

no_commands-Holds : Holds no_commands []
no_commands-Holds = record {
  is_list = list_init-IsList nothing 100 (omega arith);
  counted = refl;
  most = omega arith;
}

first_push : Pushed no_commands [] 200 (108 ∷ 115 ∷ [])
first_push =
    history_push-Pushed no_commands [] 200 (108 ∷ 115 ∷ []) no_commands-Holds (omega arith)
      (omega arith)

-- "ls"
abbrev one : History
one = history_push no_commands 200 (108 ∷ 115 ∷ [])

second_push : Pushed one (200 ∷ []) 300 (99 ∷ 100 ∷ [])
unfolding history_push
second_push =
    history_push-Pushed one (200 ∷ []) 300 (99 ∷ 100 ∷ []) first_push.holds (omega arith)
      (omega arith)

history_push_example : Pushed one (200 ∷ []) 300 (99 ∷ 100 ∷ [])
unfolding history_push
history_push_example =
    history_push-Pushed one (200 ∷ []) 300 (99 ∷ 100 ∷ []) first_push.holds (omega arith)
      (omega arith)

-- "cd"
abbrev two : History
two = at_node (history_push one 300 (99 ∷ 100 ∷ [])) 300

two-Holds : Holds two (300 ∷ 200 ∷ [])
two-Holds =
    (let p = second_push.holds in
      record { is_list = p.is_list; counted = p.counted; most = p.most })

get_next-get_prev_example :
    ((history_get_prev two).0 ≡ some (two.cmd_line 200))
    × (history_get_next (history_get_prev two).1 ≡ (some (two.cmd_line 300), two))
get_next-get_prev_example = get_next-get_prev two [] 300 200 [] two-Holds refl
