-- ===== src/Proc/Objects/Examples.antt =====
-- Blocks of methods, for a parser whose values are text.
use rexa.Common.{◌≡◌, refl, false, none, some, Bytes, List, [], ◌∷◌, err, codes, nat_eq, bytes_eq}
use rexa.Proc.{
  Meta, Attribute, self, process, process_inputs, property, receiver, symbol_of, as_normal,
  external, res_list, always_fulfill, value_or_else,
}
use rexa.Proc.Examples.{texts}
use rexa.Proc.Fns.{Method, DeliverFn, delivers, process_fn, scan_attrs, deliver_fn}
use rexa.Proc.Objects.{
  ImplItem, fn_item, const_item, macro_item, ObjectDef, parse_object, parse_items, process_item,
  add_fn, empty_def,
}
use rexa.Proc.Objects.Last.{by_deliver, named, held, last_on, parse_object-last}
use rexa.Proc.Objects.Marked.{Emitted, process_fn-marked}

abbrev attribute : Bytes → List (Meta texts) → Attribute texts
attribute name nested = record { name = name; nested = nested }

abbrev method : Bytes → List (Attribute texts) → Method texts
method name attrs = record {
  attrs = attrs;
  sig = record { asyncness = false; ident = name; inputs = self ∷ []; output = none };
  block = [];
}

-- `#[exported] #[deliver(always_fulfill)] fn go(&self)`
abbrev go : Method texts
go = method (codes "go") (
    attribute (codes "exported") []
    ∷ attribute (codes "deliver") (record { path = codes "always_fulfill"; tokens = none } ∷ [])
    ∷ [])

-- `#[deliver(symbol = "go", always_fulfill)] fn run(&self)`
abbrev run : Method texts
run = method (codes "run") (
    attribute (codes "deliver") (
      record { path = codes "symbol"; tokens = some (codes "go") }
      ∷ record { path = codes "always_fulfill"; tokens = none }
      ∷ [])
    ∷ [])

abbrev go_fn : DeliverFn texts
go_fn = record {
  attr = as_normal false (external (always_fulfill res_list)) none;
  ident = codes "go";
  is_async = false;
  inputs = receiver ∷ [];
  output = none;
}

abbrev run_fn : DeliverFn texts
run_fn = record go_fn {
  attr = as_normal false (external (always_fulfill res_list)) (some (codes "go"));
  ident = codes "run";
}

-- The export's attribute stays on the method that is emitted.
process_fn-marked_example :
    Emitted texts (some (delivers go_fn)) go.attrs (attribute (codes "exported") [] ∷ [])
unfolding process_fn scan_attrs deliver_fn process process_inputs property value_or_else
process_fn-marked_example =
    process_fn-marked texts go (method (codes "go") (attribute (codes "exported") [] ∷ []))
      (some (delivers go_fn)) refl

abbrev items : List (ImplItem texts)
items = fn_item go ∷ const_item [] ∷ fn_item run ∷ []

abbrev left : List (ImplItem texts)
left =
    fn_item (method (codes "go") (attribute (codes "exported") [] ∷ []))
    ∷ const_item []
    ∷ fn_item (method (codes "run") [])
    ∷ []

abbrev def : ObjectDef texts
def = record (empty_def texts) { deliver_fns = (codes "go", run_fn) ∷ [] }

parse_object-last_example :
    held texts (by_deliver (named (codes "go"))) def
    ≡ last_on texts (by_deliver (named (codes "go"))) items
unfolding parse_object parse_items process_item add_fn process_fn scan_attrs deliver_fn process
    process_inputs property value_or_else symbol_of
parse_object-last_example =
    parse_object-last texts items left def (by_deliver (named (codes "go"))) refl

macro_item_test : parse_object texts (fn_item go ∷ macro_item [] ∷ []) ≡ err (codes "macro item")
unfolding parse_object parse_items process_item add_fn process_fn scan_attrs deliver_fn process
    process_inputs property value_or_else symbol_of
macro_item_test = refl
