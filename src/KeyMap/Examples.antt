-- ===== src/KeyMap/Examples.antt =====
-- The key map on concrete runs: the session's export table, whose first key is 1.
use rexa.Common.{ℕ, ◌≡◌, refl, some, none, Bool, false, true, arith, nat_eq}
use rexa.DashMap.{MapOps}
use rexa.DashMap.Assoc.{assoc_ops, assoc_laws}
use rexa.KeyMap.{with_initial, reserve, push, get}
use rexa.KeyMap.Interleaving.{
  Shared, Reach, begin, next, reserves, pushes, start, after_reserve, next_key_fresh,
}

abbrev table : MapOps ℕ Bool
table = assoc_ops

-- One task has reserved key 1, another pushed `true` under key 2.
abbrev one_reserved : Shared table
one_reserved = after_reserve table (start table 1)

abbrev one_pushed : Shared table
one_pushed = record one_reserved { keys = (push table one_reserved.keys true).1 }

run : Reach table 1 2 one_pushed
run = next (next begin (reserves 0 (start table 1))) (pushes 1 true one_reserved)

next_key_fresh_example :
    ((reserve table one_pushed.keys).0.key ≡ 3)
    × ((push table one_pushed.keys false).0 ≡ 3)
    × (get table one_pushed.keys 3 ≡ none)
    × (one_pushed.pending 3 ≡ false)
next_key_fresh_example = next_key_fresh table assoc_laws 1 false run (omega arith)

push_then_get : get table one_pushed.keys 2 ≡ some true
unfolding push reserve with_initial get
push_then_get = refl
