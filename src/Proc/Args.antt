-- ===== src/Proc/Args.antt =====
-- lib/rexa-proc/src/input.rs: the code that is emitted for the parameters of a method, as what it
-- does with the arguments of a delivery. The state is the emitted variables `args` and `args_pos`.
pub mod Positions
pub mod Examples
use rexa.Common.{
  ℕ, suc, ◌+◌, ◌-◌, ◌<◌, ◌≡◌, refl, sym, ap, ◌∙◌, Option, none, some, List, [], ◌∷◌, ◌++◌, length,
  length-append, Result, ok, err, ◌>>=◌, map_err, arith,
}
use mathlib.Core.Option
use rexa.Proc.{
  Syn, Quoted, DeliverInput, session, resolver, args_into, arg, from_item, into, given, receiver,
  mapped, syrup,
}

module _ (syn : Syn) where
  open syn use {Ty, Expr}

  -- `error_t::missing` and `error_t::unexpected`, and what an expression of an attribute returns
  -- early.
  pub data ArgError (Item Raised : Type 0) : Type 0 where
    missing : ℕ → Ty → ArgError Item Raised
    unexpected : Ty → ℕ → Item → ArgError Item Raised
    raised : Raised → ArgError Item Raised

  -- The method that the emitted code stands in, and the expressions that its attributes give.
  pub record Scope : Type 1 where
    pub Item : Type 0
    pub Value : Type 0
    pub Raised : Type 0
    pub from_syrup_item : Ty → Item → Option Value
    pub convert : Ty → Ty → Value → Value
    pub of_item : Item → Value
    pub of_args : List Item → Value
    pub self_value : Value
    pub session_value : Value
    pub resolver_value : Value
    pub eval : Expr → Option Item → List Item × ℕ → Result Raised (Value × (List Item × ℕ))
    -- A name that is not in scope: the emitted code does not compile.
    pub unbound : Raised

  module _ (scope : Scope) where
    open scope use {Item, Value, Raised, from_syrup_item, convert, eval}

    abbrev pub State : Type 0
    State = List Item × ℕ

    abbrev pub Reading : Type 0 → Type 0
    Reading A = Result (ArgError Item Raised) (A × State)

    -- `.map_err(|_| #error_t::unexpected(..., args_pos - 1, arg))?`
    abbrev pub converted : Ty → Item → State → Option Value → Reading Value
    converted ty item (args, pos) none = err (unexpected ty (pos - 1) item)
    converted ty item (args, pos) (some v) = ok (v, (args, pos))

    abbrev evaluated : Result Raised (Value × State) → Reading Value
    evaluated r = map_err raised r

    unfoldable pub mapped_value : Quoted syn → State → Reading Value
    mapped_value session st = ok (scope.session_value, st)
    mapped_value resolver st = ok (scope.resolver_value, st)
    mapped_value args_into st = ok (scope.of_args st.0, st)
    mapped_value (given e) st = evaluated (eval e none st)
    mapped_value _ st = err (raised scope.unbound)

    -- `#map`, with the argument in the variable `arg`.
    unfoldable pub syrup_value : Quoted syn → Item → State → Reading Value
    syrup_value arg item st = ok (scope.of_item item, st)
    syrup_value (from_item ty) item st = converted ty item st (from_syrup_item ty item)
    syrup_value (into from to) item st =
        converted from item st (Option.map (convert from to) (from_syrup_item from item))
    syrup_value (given e) item st = evaluated (eval e (some item) st)
    syrup_value _ item st = err (raised scope.unbound)

    abbrev pub next_arg : Ty → Quoted syn → State → Reading Value
    next_arg ty map ([], pos) = err (missing pos ty)
    next_arg ty map (item ∷ args, pos) = syrup_value map item (args, suc pos)

    unfoldable pub read_input : DeliverInput syn → State → Reading Value
    unfolding mapped_value syrup_value
    read_input receiver st = ok (scope.self_value, st)
    read_input (mapped is map) st = mapped_value map st
    read_input (syrup ty map) st = next_arg ty map st

    -- The arguments of the call are evaluated from left to right.
    unfoldable pub read_inputs : List (DeliverInput syn) → State → Reading (List Value)
    unfolding read_input
    read_inputs [] st = ok ([], st)
    read_inputs (input ∷ inputs) st = read_input input st >>= λ (v, st').
        read_inputs inputs st' >>= λ (vs, st''). ok (v ∷ vs, st'')
