-- ===== src/Proc/Args/Positions.antt =====
-- lib/rexa-proc/src/input.rs: which argument each parameter of a method reads, and where an error
-- says it stands.
use mathlib.Core.List.{append_assoc}
use rexa.Common.{
  ℕ, suc, ◌+◌, ◌<◌, ◌≡◌, refl, sym, ap, ◌∙◌, subst, Option, none, some, List, [], ◌∷◌, ◌++◌, length,
  length-append, Result, ok, err, map_err, ◌>>=◌, arith,
}
use mathlib.Core.Option
use rexa.Proc.{
  Syn, Quoted, DeliverInput, session, resolver, args_into, arg, from_item, into, given, receiver,
  mapped, syrup, ok_list, err_ref, res_list, res_ref,
}
use rexa.Proc.Args.{
  Scope, missing, unexpected, raised, State, Reading, mapped_value, syrup_value, read_input,
  read_inputs, converted,
}

module _ (syn : Syn) (scope : Scope syn) where
  open scope use {Item, Value, Raised, eval, from_syrup_item, convert}

  -- An expression that an attribute gives leaves the variables of the emitted code as they are.
  abbrev Leaves : Type 0
  Leaves =
      (e : syn.Expr) (it : Option Item) (st st' : List Item × ℕ) (v : Value)
      → eval e it st ≡ ok (v, st')
      → st' ≡ st

  -- What a reading of `n` arguments comes to, from the arguments `args` of which the first stands
  -- at the position `pos`.
  abbrev pub Reads : {A : Type 0} → ℕ → List Item → ℕ → Reading syn scope A → Type 0
  Reads n args pos (ok (a, (rest, pos'))) =
      (taken : List Item) × (args ≡ taken ++ rest) × (length taken ≡ n) × (pos' ≡ pos + n)
  Reads n args pos (err (missing p ty)) = (p ≡ pos + length args) × (length args < n)
  Reads n args pos (err (unexpected ty p item)) =
      (seen : List Item) × (rest : List Item) × (args ≡ seen ++ item ∷ rest)
      × (p ≡ pos + length seen)
      × (length seen < n)
  Reads n args pos (err (raised e)) = Unit

  -- How many arguments the parameters read.
  abbrev reads : List (DeliverInput syn) → ℕ
  reads [] = 0
  reads (syrup ty map ∷ inputs) = suc (reads inputs)
  reads (_ ∷ inputs) = reads inputs

  abbrev takes : DeliverInput syn → ℕ
  takes (syrup ty map) = 1
  takes _ = 0

  reads-cons :
      (input : DeliverInput syn) (inputs : List (DeliverInput syn))
      → reads (input ∷ inputs) ≡ takes input + reads inputs
  reads-cons receiver inputs = omega arith
  reads-cons (mapped is map) inputs = omega arith
  reads-cons (syrup ty map) inputs = omega arith

  -- A reading that goes on with the arguments behind those taken.
  behind :
      {A : Type 0} (n m pos : ℕ) (args taken rest : List Item) (q : Reading syn scope A)
      → args ≡ taken ++ rest
      → length taken ≡ n
      → Reads m rest (pos + n) q
      → Reads (n + m) args pos q
  behind n m pos args taken rest (ok (a, (rest', pos'))) e l (more, e', l', p') = (
    taken ++ more,
    e ∙ ap (λ xs. taken ++ xs) e' ∙ sym (append_assoc taken more rest'),
    omega (arith, length-append {0} taken more),
    omega arith,
  )
  behind n m pos args taken rest (err (missing p ty)) e l (at, few) =
      let all : length args ≡ length taken + length rest =
        ap length e ∙ length-append {0} taken rest in
      (omega arith, omega arith)
  behind n m pos args taken rest (err (unexpected ty p item)) e l (seen, after, e', at, few) = (
    taken ++ seen,
    after,
    e ∙ ap (λ xs. taken ++ xs) e' ∙ sym (append_assoc taken seen (item ∷ after)),
    omega (arith, length-append {0} taken seen),
    omega (arith, length-append {0} taken seen),
  )
  behind n m pos args taken rest (err (raised x)) e l h = tt

  Reads-bind :
      {A B : Type 0} (n m pos : ℕ) (args : List Item) (r : Reading syn scope A)
      (f : A × (List Item × ℕ) → Reading syn scope B)
      → Reads n args pos r
      → ((a : A) (rest : List Item) (pos' : ℕ) → Reads m rest pos' (f (a, (rest, pos'))))
      → Reads (n + m) args pos (r >>= f)
  Reads-bind n m pos args (ok (a, (rest, pos'))) f (taken, e, l, p) all =
      behind n m pos args taken rest (f (a, (rest, pos'))) e l
        (subst (λ p. Reads m rest p (f (a, (rest, pos')))) p (all a rest pos'))
  Reads-bind n m pos args (err (missing p ty)) f (at, few) all = (at, omega arith)
  Reads-bind n m pos args (err (unexpected ty p item)) f (seen, rest, e, at, few) all =
      (seen, rest, e, at, omega arith)
  Reads-bind n m pos args (err (raised x)) f h all = tt

  Reads-map :
      {A B : Type 0} (n : ℕ) (args : List Item) (pos : ℕ) (f : A → B) (r : Reading syn scope A)
      → Reads n args pos r
      → Reads n args pos (r >>= λ (a, st). ok (f a, st))
  Reads-map n args pos f (ok (a, (rest, pos'))) h = h
  Reads-map n args pos f (err (missing p ty)) h = h
  Reads-map n args pos f (err (unexpected ty p item)) h = h
  Reads-map n args pos f (err (raised x)) h = tt

  module _ (leaves : Leaves) where
    -- What an expression comes to, when `taken` are the arguments that were taken before.
    evaluated-Reads :
        (n : ℕ) (args taken rest : List Item) (pos at : ℕ)
        (r : Result Raised (Value × State syn scope))
        → ((v : Value) (st : List Item × ℕ) → r ≡ ok (v, st) → st ≡ (rest, at))
        → args ≡ taken ++ rest
        → length taken ≡ n
        → at ≡ pos + n
        → Reads n args pos (map_err raised r)
    evaluated-Reads n args taken rest pos at (ok (v, (rest', at'))) same e l p =
        let q = same v (rest', at') refl in
        (
          taken,
          e ∙ ap (λ (st : List Item × ℕ). taken ++ st.0) (sym q),
          l,
          ap (λ (st : List Item × ℕ). st.1) q ∙ p,
        )
    evaluated-Reads n args taken rest pos at (err x) same e l p = tt

    mapped_value-Reads :
        (map : Quoted syn) (args : List Item) (pos : ℕ)
        → Reads 0 args pos (mapped_value syn scope map (args, pos))
    unfolding mapped_value
    mapped_value-Reads session args pos = ([], refl, refl, omega arith)
    mapped_value-Reads resolver args pos = ([], refl, refl, omega arith)
    mapped_value-Reads args_into args pos = ([], refl, refl, omega arith)
    mapped_value-Reads (given e) args pos =
        evaluated-Reads 0 args [] args pos pos (eval e none (args, pos))
          (λ v st. leaves e none (args, pos) st v) refl refl (omega arith)
    mapped_value-Reads arg args pos = tt
    mapped_value-Reads (from_item t) args pos = tt
    mapped_value-Reads (into s t) args pos = tt
    mapped_value-Reads ok_list args pos = tt
    mapped_value-Reads err_ref args pos = tt
    mapped_value-Reads res_list args pos = tt
    mapped_value-Reads res_ref args pos = tt

    -- A conversion takes the argument, or says which it has refused.
    converted-Reads :
        (ty : syn.Ty) (item : Item) (args : List Item) (pos : ℕ) (v : Option Value)
        → Reads 1 (item ∷ args) pos (converted syn scope ty item (args, suc pos) v)
    converted-Reads ty item args pos none = ([], args, refl, omega arith, omega arith)
    converted-Reads ty item args pos (some v) = (item ∷ [], refl, refl, omega arith)

    syrup_value-Reads :
        (map : Quoted syn) (item : Item) (args : List Item) (pos : ℕ)
        → Reads 1 (item ∷ args) pos (syrup_value syn scope map item (args, suc pos))
    unfolding syrup_value
    syrup_value-Reads session item args pos = tt
    syrup_value-Reads resolver item args pos = tt
    syrup_value-Reads args_into item args pos = tt
    syrup_value-Reads (given e) item args pos =
        evaluated-Reads 1 (item ∷ args) (item ∷ []) args pos (suc pos)
          (eval e (some item) (args, suc pos)) (λ v st. leaves e (some item) (args, suc pos) st v)
          refl refl (omega arith)
    syrup_value-Reads arg item args pos = (item ∷ [], refl, refl, omega arith)
    syrup_value-Reads (from_item t) item args pos =
        converted-Reads t item args pos (from_syrup_item t item)
    syrup_value-Reads (into s t) item args pos =
        converted-Reads s item args pos (Option.map (convert s t) (from_syrup_item s item))
    syrup_value-Reads ok_list item args pos = tt
    syrup_value-Reads err_ref item args pos = tt
    syrup_value-Reads res_list item args pos = tt
    syrup_value-Reads res_ref item args pos = tt

    read_input-Reads :
        (input : DeliverInput syn) (args : List Item) (pos : ℕ)
        → Reads (takes input) args pos (read_input syn scope input (args, pos))
    unfolding read_input
    read_input-Reads receiver args pos = ([], refl, refl, omega arith)
    read_input-Reads (mapped is map) args pos = mapped_value-Reads map args pos
    read_input-Reads (syrup ty map) [] pos = (omega arith, omega arith)
    read_input-Reads (syrup ty map) (item ∷ args) pos = syrup_value-Reads map item args pos

    -- The code that is emitted for the parameters of a method, if the expressions of its attributes
    -- leave the emitted variables alone, reads one argument for each parameter that takes one, in
    -- order, and returns with the others left and the position moved on by as many. It refuses an
    -- argument as unexpected only with that argument and its position, and says that one is missing
    -- only if there are fewer arguments than such parameters, with the position behind the last
    -- argument.
    pub read_inputs-Reads :
        (inputs : List (DeliverInput syn)) (args : List Item) (pos : ℕ)
        → Reads (reads inputs) args pos (read_inputs syn scope inputs (args, pos))
    unfolding read_inputs
    read_inputs-Reads [] args pos = ([], refl, refl, omega arith)
    read_inputs-Reads (input ∷ inputs) args pos =
        subst (λ n. Reads n args pos (read_inputs syn scope (input ∷ inputs) (args, pos)))
          (sym (reads-cons input inputs))
          (Reads-bind (takes input) (reads inputs) pos args (read_input syn scope input (args, pos))
            _ (read_input-Reads input args pos)
            (λ v rest pos'.
              Reads-map (reads inputs) rest pos' (λ vs. v ∷ vs)
                (read_inputs syn scope inputs (rest, pos')) (read_inputs-Reads inputs rest pos')))
