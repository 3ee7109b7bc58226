-- ===== src/Proc/Objects/Last.antt =====
-- lib/rexa-proc/src/lib.rs: which method of a block an object keeps for a symbol, a fallback or an
-- export.
use rexa.Common.{
  ◌≡◌, refl, Bool, true, false, Option, none, some, Bytes, bytes_beq, bytes_eq, List, [], ◌∷◌, ok,
  err, arith, if◌then◌else◌, bind_ok, ok_inj, map_ok_inv, ap, sym,
}
use mathlib.Core.Option
use rexa.DashMap.Assoc.{lookup, lookup-without}
use rexa.Proc.{Syn, as_normal, verbatim, symbol_of}
use rexa.Proc.Only.{only_verbatim, only_normal}
use rexa.Proc.Fns.{
  DeliverFn, DeliverOnlyFn, ObjectFn, delivers, delivers_only, is_export, only_symbol_of,
}
use rexa.Proc.Objects.{
  ImplItem, ObjectDef, empty_def, add_fn, process_item, parse_items, parse_object, put,
}

-- What a method can answer.
pub data Slot : Type 0 where
  verbatim_slot : Slot
  fallback_slot : Slot
  named : Bytes → Slot

pub data Route : Type 0 where
  by_deliver : Slot → Route
  by_deliver_only : Slot → Route
  by_export : Route

abbrev pub slot_beq : Slot → Slot → Bool
slot_beq verbatim_slot verbatim_slot = true
slot_beq fallback_slot fallback_slot = true
slot_beq (named j) (named k) = bytes_beq j k
slot_beq _ _ = false

abbrev pub route_beq : Route → Route → Bool
route_beq (by_deliver a) (by_deliver b) = slot_beq a b
route_beq (by_deliver_only a) (by_deliver_only b) = slot_beq a b
route_beq by_export by_export = true
route_beq _ _ = false

module _ (syn : Syn) where
  abbrev pub deliver_slot : DeliverFn syn → Slot
  unfolding symbol_of
  deliver_slot del = elim del.attr [
    | verbatim ↦ verbatim_slot
    | as_normal true resolution symbol ↦ fallback_slot
    | as_normal false resolution symbol ↦ named (symbol_of syn del.attr del.ident)
  ]

  abbrev pub deliver_only_slot : DeliverOnlyFn syn → Slot
  unfolding only_symbol_of
  deliver_only_slot del = elim del.attr [
    | only_verbatim ↦ verbatim_slot
    | only_normal true symbol ↦ fallback_slot
    | only_normal false symbol ↦ named (only_symbol_of syn del.attr del.ident)
  ]

  abbrev pub route_of : ObjectFn syn → Route
  route_of (delivers del) = by_deliver (deliver_slot del)
  route_of (delivers_only del) = by_deliver_only (deliver_only_slot del)
  route_of (is_export export) = by_export

  -- The method itself, if it answers the route.
  abbrev pub answers : Route → Option (ObjectFn syn) → Option (ObjectFn syn)
  answers r none = none
  answers r (some f) = if route_beq (route_of f) r then some f else none

  abbrev pub own : Route → ImplItem syn → Option (ObjectFn syn)
  own r item = elim (process_item syn item) [ ok (found, item') ↦ answers r found | err e ↦ none ]

  -- The last method of the block that answers a route, searched from the end.
  abbrev pub last_on : Route → List (ImplItem syn) → Option (ObjectFn syn)
  last_on r [] = none
  last_on r (item ∷ items) = Option.or_else (last_on r items) (own r item)

  -- What the definition holds for a route.
  abbrev pub held : Route → ObjectDef syn → Option (ObjectFn syn)
  held (by_deliver verbatim_slot) def = Option.map delivers def.deliver_verbatim
  held (by_deliver fallback_slot) def = Option.map delivers def.deliver_fallback
  held (by_deliver (named k)) def = Option.map delivers (lookup k def.deliver_fns)
  held (by_deliver_only verbatim_slot) def = Option.map delivers_only def.deliver_only_verbatim
  held (by_deliver_only fallback_slot) def = Option.map delivers_only def.deliver_only_fallback
  held (by_deliver_only (named k)) def = Option.map delivers_only (lookup k def.deliver_only_fns)
  held by_export def = Option.map is_export def.exported

  lookup-put :
      {V : Type 0} (j k : Bytes) (v : V) (m : List (Bytes × V))
      → lookup j (put k v m) ≡ (if bytes_beq k j then some v else lookup j m)
  lookup-put j k v m = rw (lookup-without k j m) (ground arith)

  -- A table holds its entries as methods of one kind.
  map-lookup-put :
      {V : Type 0} (kind : V → ObjectFn syn) (j k : Bytes) (v : V) (m : List (Bytes × V))
      → Option.map kind (lookup j (put k v m))
        ≡ Option.or_else
            (if bytes_beq k j then some (kind v) else none)
            (Option.map kind (lookup j m))
  unfolding Option.or_else
  map-lookup-put kind j k v m = rw (lookup-put j k v m) (ground arith)

  held-add_fn :
      (r : Route) (found : Option (ObjectFn syn)) (def : ObjectDef syn)
      → held r (add_fn syn found def) ≡ Option.or_else (answers r found) (held r def)
  unfolding add_fn symbol_of only_symbol_of Option.or_else
  held-add_fn r none def = refl
  held-add_fn (by_deliver verbatim_slot) (some f) def = ground arith
  held-add_fn (by_deliver fallback_slot) (some f) def = ground arith
  held-add_fn (by_deliver (named k)) (some (delivers del)) def =
      ground
        (arith, map-lookup-put delivers k (symbol_of syn del.attr del.ident) del def.deliver_fns)
  held-add_fn (by_deliver (named k)) (some (delivers_only del)) def = ground arith
  held-add_fn (by_deliver (named k)) (some (is_export del)) def = ground arith
  held-add_fn (by_deliver_only verbatim_slot) (some f) def = ground arith
  held-add_fn (by_deliver_only fallback_slot) (some f) def = ground arith
  held-add_fn (by_deliver_only (named k)) (some (delivers del)) def = ground arith
  held-add_fn (by_deliver_only (named k)) (some (delivers_only del)) def = ground (
    arith,
    map-lookup-put delivers_only k (only_symbol_of syn del.attr del.ident) del def.deliver_only_fns,
  )
  held-add_fn (by_deliver_only (named k)) (some (is_export del)) def = ground arith
  held-add_fn by_export (some f) def = ground arith

  held_nothing : (r : Route) → held r (empty_def syn) ≡ none
  held_nothing (by_deliver verbatim_slot) = refl
  held_nothing (by_deliver fallback_slot) = refl
  held_nothing (by_deliver (named k)) = refl
  held_nothing (by_deliver_only verbatim_slot) = refl
  held_nothing (by_deliver_only fallback_slot) = refl
  held_nothing (by_deliver_only (named k)) = refl
  held_nothing by_export = refl

  own_ok :
      (r : Route) (item item' : ImplItem syn) (found : Option (ObjectFn syn))
      → process_item syn item ≡ ok (found, item')
      → own r item ≡ answers r found
  own_ok r item item' found e = rw (own, e) refl

  parse_items-last :
      (r : Route) (items out : List (ImplItem syn)) (def result : ObjectDef syn)
      → parse_items syn items def ≡ ok (out, result)
      → held r result ≡ Option.or_else (last_on r items) (held r def)
  unfolding parse_items Option.or_else process_item
  parse_items-last r [] out def result h = ap (λ p. held r p.1) (sym (ok_inj h))
  parse_items-last r (item ∷ items) out def result h =
      let ((found, item'), e, h') = bind_ok (process_item syn item) _ (out, result) h in
      let ((items', def'), e', h'') =
        map_ok_inv _ (parse_items syn items (add_fn syn found def)) (out, result) h' in
      let same : held r def' ≡ held r result = ap (λ p. held r p.1) h'' in
      let rest = parse_items-last r items items' (add_fn syn found def) def' e' in
      let own_is = own_ok r item item' found e in
      ground (arith, same, rest, own_is, held-add_fn r found def)

  -- When a block is accepted, the object keeps for each symbol, for the fallback, for the verbatim
  -- body and for the export the last method of the block that answers it, and nothing if none does:
  -- a later method replaces an earlier one without an error.
  pub parse_object-last :
      (items out : List (ImplItem syn)) (def : ObjectDef syn) (r : Route)
      → parse_object syn items ≡ ok (out, def)
      → held r def ≡ last_on r items
  unfolding parse_object Option.or_else
  parse_object-last items out def r h =
      let e = parse_items-last r items out (empty_def syn) def h in
      ground (arith, e, held_nothing r)
