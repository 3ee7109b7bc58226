-- ===== src/Proc/Objects.antt =====
-- lib/rexa-proc/src/lib.rs, `ObjectDefParser` and `impl_object`: the methods of an object sorted by
-- what they answer, and the implementation of `Object` that is emitted for them.
pub mod Examples
pub mod Last
pub mod Marked
use rexa.Common.{
  Bool, true, false, Option, none, some, Bytes, bytes_eq, List, [], ◌∷◌, Result, ok, err, ◌>>=◌,
  map_ok, codes, if◌then◌else◌,
}
use mathlib.Core.Option
use rexa.DashMap.Assoc.{without}
use rexa.Proc.{Syn, as_normal, verbatim, symbol_of}
use rexa.Proc.Only.{only_verbatim, only_normal}
use rexa.Proc.Fns.{
  Method, DeliverFn, DeliverOnlyFn, ExportFn, ObjectFn, delivers, delivers_only, is_export,
  process_fn, only_symbol_of,
}

-- `HashMap::insert`
abbrev pub put : {V : Type 0} → Bytes → V → List (Bytes × V) → List (Bytes × V)
put k v m = (k, v) ∷ without k m

module _ (syn : Syn) where
  open syn use {Ty, Tokens, Error, meta_error}

  pub data ImplItem : Type 0 where
    fn_item : Method syn → ImplItem
    verbatim_item : Tokens → ImplItem
    macro_item : Tokens → ImplItem
    const_item : Tokens → ImplItem
    type_item : Tokens → ImplItem
    unknown_item : Tokens → ImplItem

  -- The variables of `parse2`, which are the fields of `ObjectDef`; a `HashMap` is the list of its
  -- entries, each key once.
  pub record ObjectDef : Type 0 where
    pub deliver_fns : List (Bytes × DeliverFn syn)
    pub deliver_fallback : Option (DeliverFn syn)
    pub deliver_verbatim : Option (DeliverFn syn)
    pub deliver_only_fns : List (Bytes × DeliverOnlyFn syn)
    pub deliver_only_fallback : Option (DeliverOnlyFn syn)
    pub deliver_only_verbatim : Option (DeliverOnlyFn syn)
    pub exported : Option (ExportFn syn)

  abbrev pub empty_def : ObjectDef
  empty_def = record {
    deliver_fns = [];
    deliver_fallback = none;
    deliver_verbatim = none;
    deliver_only_fns = [];
    deliver_only_fallback = none;
    deliver_only_verbatim = none;
    exported = none;
  }

  abbrev pub add_deliver : DeliverFn syn → ObjectDef → ObjectDef
  unfolding symbol_of
  add_deliver del def = elim del.attr [
    | verbatim ↦ record def { deliver_verbatim = some del }
    | as_normal true resolution symbol ↦ record def { deliver_fallback = some del }
    | as_normal false resolution symbol ↦ record def {
      deliver_fns = put (symbol_of syn del.attr del.ident) del def.deliver_fns;
    }
  ]

  abbrev pub add_deliver_only : DeliverOnlyFn syn → ObjectDef → ObjectDef
  unfolding only_symbol_of
  add_deliver_only del def = elim del.attr [
    | only_verbatim ↦ record def { deliver_only_verbatim = some del }
    | only_normal true symbol ↦ record def { deliver_only_fallback = some del }
    | only_normal false symbol ↦ record def {
      deliver_only_fns = put (only_symbol_of syn del.attr del.ident) del def.deliver_only_fns;
    }
  ]

  -- The arms of `match ObjectFn::process(...)?`.
  unfoldable pub add_fn : Option (ObjectFn syn) → ObjectDef → ObjectDef
  add_fn none def = def
  add_fn (some (is_export export)) def = record def { exported = some export }
  add_fn (some (delivers del)) def = add_deliver del def
  add_fn (some (delivers_only del)) def = add_deliver_only del def

  -- The item that is emitted, and what the method that it is comes to.
  unfoldable pub process_item : ImplItem → Result Error (Option (ObjectFn syn) × ImplItem)
  unfolding process_fn
  process_item (fn_item f) = map_ok (λ (found, f'). (found, fn_item f')) (process_fn syn f)
  process_item (verbatim_item t) = err (meta_error (codes "verbatim impl item"))
  process_item (macro_item t) = err (meta_error (codes "macro item"))
  process_item (const_item t) = ok (none, const_item t)
  process_item (type_item t) = ok (none, type_item t)
  process_item (unknown_item t) = err (meta_error (codes "unrecognized impl item"))

  -- The loop of `parse2` over the items: the items after it, and the definition.
  unfoldable pub parse_items : List ImplItem → ObjectDef → Result Error (List ImplItem × ObjectDef)
  unfolding process_item add_fn
  parse_items [] def = ok ([], def)
  parse_items (item ∷ items) def = process_item item >>= λ (found, item').
      map_ok (λ (items', def'). (item' ∷ items', def')) (parse_items items (add_fn found def))

  -- `ObjectDefParser::parse2`, on the block that syn has parsed.
  unfoldable pub parse_object : List ImplItem → Result Error (List ImplItem × ObjectDef)
  unfolding parse_items
  parse_object items = parse_items items empty_def

  -- The items that stay, and the method that the emitted `exported` calls. The bodies that are
  -- emitted for `deliver` and `deliver_only` are `todo!()`, and no part of the record.
  pub record ObjectImpl : Type 0 where
    pub base : List ImplItem
    pub exported : Option Bytes

  -- The method that the emitted call names: `Self::#ident(self, remote_key, position)`.
  abbrev pub exported_call : ExportFn syn → Bytes
  exported_call export = export.ident

  abbrev pub emit : List ImplItem × ObjectDef → ObjectImpl
  emit (items, def) = record { base = items; exported = Option.map exported_call def.exported }

  unfoldable pub impl_object : List ImplItem → Result Error ObjectImpl
  unfolding parse_object
  impl_object items = map_ok emit (parse_object items)
