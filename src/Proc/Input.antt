-- ===== src/Proc/Input.antt =====
-- lib/rexa-proc/src/input.rs: the parameters of a method, and the properties of attributes. The
-- parsers of the syn crate are the parameter `Syn`; spans are left out, and an expression that the
-- macros quote is a constructor of `Quoted`.
use rexa.Common.{
  Bool, true, false, Option, none, some, Bytes, bytes_beq, List, [], ◌∷◌, ◌++◌, Result, ok, err,
  ◌>>=◌, map_ok, codes, if◌then◌else◌,
}

pub record Syn : Type 1 where
  pub Expr : Type 0
  pub Ty : Type 0
  pub Tokens : Type 0
  pub Error : Type 0
  pub parse_expr : Tokens → Result Error Expr
  pub parse_type : Tokens → Result Error Ty
  pub parse_str : Tokens → Result Error Bytes
  pub parse_bool : Tokens → Result Error Bool
  -- The errors of `meta.value()` and of `meta.error`.
  pub no_value : Bytes → Error
  pub meta_error : Bytes → Error

module _ (syn : Syn) where
  open syn use {Expr, Ty, Tokens, Error, parse_expr, parse_type, parse_str, no_value, meta_error}

  -- One nested property of an attribute, with what stands after its `=`.
  pub record Meta : Type 0 where
    pub path : Bytes
    pub tokens : Option Tokens

  pub data Quoted : Type 0 where
    session : Quoted
    resolver : Quoted
    args_into : Quoted
    arg : Quoted
    from_item : Ty → Quoted
    into : Ty → Ty → Quoted
    ok_list : Quoted
    err_ref : Quoted
    res_list : Quoted
    res_ref : Quoted
    given : Expr → Quoted

  -- `meta.value()?.parse()?`, and `value_or_else`, by which only a missing `=` gives the default.
  abbrev pub value : {A : Type 0} → (Tokens → Result Error A) → Meta → Result Error A
  value parse meta = elim meta.tokens [ none ↦ err (no_value meta.path) | some t ↦ parse t ]

  abbrev pub given_value : Meta → Result Error Quoted
  given_value meta = value parse_expr meta >>= λ e. ok (given e)

  unfoldable pub value_or_else : Quoted → Meta → Result Error Quoted
  value_or_else default meta = elim meta.tokens [
    | none ↦ ok default
    | some t ↦ map_ok given (parse_expr t)
  ]

  pub data DeliverInput : Type 0 where
    receiver : DeliverInput
    mapped : Bool → Quoted → DeliverInput
    syrup : Ty → Quoted → DeliverInput

  pub record Attribute : Type 0 where
    pub name : Bytes
    pub nested : List Meta

  pub data FnArg : Type 0 where
    self : FnArg
    typed : List Attribute → Ty → FnArg

  abbrev pub is_resolver : DeliverInput → Bool
  is_resolver (mapped true map) = true
  is_resolver _ = false

  -- One property of `#[arg(...)]`, on a parameter of the type `ty`.
  unfoldable pub arg_property : Ty → Meta → Result Error DeliverInput
  unfolding value_or_else
  arg_property ty meta =
      if bytes_beq meta.path (codes "session")
      then ok (mapped false session)
      else if bytes_beq meta.path (codes "args")
      then ok (mapped false args_into)
      else if bytes_beq meta.path (codes "resolver")
      then ok (mapped true resolver)
      else if bytes_beq meta.path (codes "map")
      then (given_value meta >>= λ e. ok (mapped false e))
      else if bytes_beq meta.path (codes "syrup_from")
      then (value parse_type meta >>= λ t. ok (syrup t (into t ty)))
      else if bytes_beq meta.path (codes "syrup")
      then (value_or_else arg meta >>= λ e. ok (syrup ty e))
      else err (meta_error meta.path)

  -- Each property replaces the one before it.
  abbrev pub arg_properties :
      Ty → List Meta → Option DeliverInput → Result Error (Option DeliverInput)
  arg_properties ty [] res = ok res
  arg_properties ty (meta ∷ metas) res =
      arg_property ty meta >>= λ input. arg_properties ty metas (some input)

  -- The first attribute `arg` is read, and no other.
  abbrev pub find_arg : Ty → List Attribute → Result Error (Option DeliverInput)
  find_arg ty [] = ok none
  find_arg ty (attr ∷ attrs) =
      let rest = find_arg ty attrs in
      if bytes_beq attr.name (codes "arg") then arg_properties ty attr.nested none else rest

  abbrev pub or_syrup : Ty → Option DeliverInput → DeliverInput
  or_syrup ty none = syrup ty (from_item ty)
  or_syrup ty (some input) = input

  unfoldable pub process_input : List Attribute → Ty → Result Error DeliverInput
  process_input attrs ty = map_ok (or_syrup ty) (find_arg ty attrs)

  abbrev pub process_from :
      Bool → List DeliverInput → List FnArg → Result Error (Bool × List DeliverInput)
  process_from takes res [] = ok (takes, res)
  process_from takes res (self ∷ inputs) = process_from takes (res ++ receiver ∷ []) inputs
  process_from takes res (typed attrs ty ∷ inputs) = process_input attrs ty >>= λ input.
      process_from (if is_resolver input then true else takes) (res ++ input ∷ []) inputs

  unfoldable pub process_inputs : List FnArg → Result Error (Bool × List DeliverInput)
  process_inputs inputs = process_from false [] inputs
