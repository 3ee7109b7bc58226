-- ===== src/Proc/Examples.antt =====
-- Methods with and without a resolver, for a parser whose values are text.
use rexa.Common.{◌≡◌, refl, true, false, none, some, Bytes, List, [], ◌∷◌, ok, err, length, codes}
use rexa.Proc.{
  Syn, Meta, FnArg, self, typed, process, process_inputs, process_input, arg_property, property,
  value_or_else, external, always_fulfill, given, receiver, syrup, from_item, as_normal, to_body,
  sends,
}
use rexa.Proc.Resolution.{resolved_once}

abbrev pub texts : Syn
texts = record {
  Expr = Bytes;
  Ty = Bytes;
  Tokens = Bytes;
  Error = Bytes;
  parse_expr = ok;
  parse_type = ok;
  parse_str = ok;
  parse_bool = λ t. ok true;
  no_value = λ path. path;
  meta_error = λ path. path;
}

-- `#[deliver(always_fulfill = "x", symbol = "go")] fn f(&self, n: u8)`
abbrev metas : List (Meta texts)
metas =
    record { path = codes "always_fulfill"; tokens = some (codes "x") }
    ∷ record { path = codes "symbol"; tokens = some (codes "go") }
    ∷ []

abbrev args : List (FnArg texts)
args = self ∷ typed [] (codes "u8") ∷ []

resolved_once_example :
    length (
      sends texts
        (to_body texts
          (as_normal false (external (always_fulfill (given (codes "x")))) (some (codes "go"))))
        false)
    ≡ 1
unfolding process process_inputs process_input property arg_property value_or_else
resolved_once_example =
    resolved_once texts metas args false (external (always_fulfill (given (codes "x"))))
      (some (codes "go")) (receiver ∷ syrup (codes "u8") (from_item (codes "u8")) ∷ []) false refl

-- `#[deliver(always_break)] fn g(#[arg(resolver)] r: R)`: the two are in conflict.
abbrev with_resolver : List (FnArg texts)
with_resolver =
    typed
      (record {
        name = codes "arg";
        nested = record { path = codes "resolver"; tokens = none } ∷ [];
      }
        ∷ [])
      (codes "R")
    ∷ []

takes_resolver_test :
    process texts (record { path = codes "always_break"; tokens = none } ∷ []) with_resolver
    ≡ err (codes "always_break")
unfolding process process_inputs process_input property arg_property value_or_else
takes_resolver_test = refl
