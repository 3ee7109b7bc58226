-- ===== src/Proc/Args/Examples.antt =====
-- A method that takes two numbers, called with one that fits and one that does not.
use rexa.Common.{
  ℕ, ◌≡◌, Bool, true, Option, none, some, Bytes, List, [], ◌∷◌, Result, ok, err, nat_beq, codes,
  if◌then◌else◌,
}
use rexa.Proc.{DeliverInput, receiver, syrup, from_item}
use rexa.Proc.Examples.{texts}
use rexa.Proc.Args.{Scope, unexpected, read_inputs, read_input, syrup_value}
use rexa.Proc.Args.Positions.{Reads, read_inputs-Reads}

-- Of numbers, only 300 does not fit.
abbrev scope : Scope texts
scope = record {
  Item = ℕ;
  Value = ℕ;
  Raised = Bool;
  from_syrup_item = λ ty item. if nat_beq item 300 then none else some item;
  convert = λ from to v. v;
  of_item = λ item. item;
  of_args = λ items. 0;
  self_value = 0;
  session_value = 0;
  resolver_value = 0;
  eval = λ e it st. ok (0, st);
  unbound = true;
}

abbrev inputs : List (DeliverInput texts)
inputs =
    receiver
    ∷ syrup (codes "u8") (from_item (codes "u8"))
    ∷ syrup (codes "u8") (from_item (codes "u8"))
    ∷ []

leaves_all :
    (e : Bytes) (it : Option ℕ) (st st' : List ℕ × ℕ) (v : ℕ)
    → ◌≡◌ {A = Result Bool (ℕ × (List ℕ × ℕ))} (ok (0, st)) (ok (v, st'))
    → st' ≡ st
leaves_all e it st st' v h = cc

-- The second number stands behind the name of the function and the first number.
read_inputs-Reads_example :
    Reads texts scope {A = List ℕ} 2 (7 ∷ 300 ∷ []) 1 (err (unexpected (codes "u8") 2 300))
unfolding read_inputs read_input syrup_value
read_inputs-Reads_example = read_inputs-Reads texts scope leaves_all inputs (7 ∷ 300 ∷ []) 1
