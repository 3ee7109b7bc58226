-- ===== src/Proc/Only.antt =====
-- lib/rexa-proc/src/deliver_only.rs: the macros' reading of a method that is marked `deliver_only`.
use rexa.Common.{
  ◌≡◌, refl, sym, ◌∙◌, ap, Bool, true, false, Option, none, some, Bytes, bytes_beq, List, [], ◌∷◌,
  Result, ok, err, ◌>>=◌, codes, if◌then◌else◌, bind_ok,
}
use rexa.Proc.{Syn, Meta, DeliverInput, FnArg, value, process_inputs}
use rexa.Proc.Resolution.{any_resolver, process_from_takes}

module _ (syn : Syn) where
  open syn use {Error, parse_str, parse_bool, meta_error}

  pub data DeliverOnlyAttr : Type 0 where
    only_verbatim : DeliverOnlyAttr
    only_normal : Bool → Option Bytes → DeliverOnlyAttr

  -- The variables that the closure of `DeliverOnlyAttr::process` writes.
  pub record OnlyProperties : Type 0 where
    pub verbatim : Bool
    pub fallback : Bool
    pub symbol : Option Bytes

  -- `fallback` alone is true, and a value after it is read.
  unfoldable pub only_property : Meta syn → OnlyProperties → Result Error OnlyProperties
  only_property meta p =
      if bytes_beq meta.path (codes "verbatim")
      then ok (record p { verbatim = true })
      else if bytes_beq meta.path (codes "fallback")
      then elim meta.tokens [
        | none ↦ ok (record p { fallback = true })
        | some t ↦ parse_bool t >>= λ b. ok (record p { fallback = b })
      ]
      else if bytes_beq meta.path (codes "symbol")
      then (value syn parse_str meta >>= λ s. ok (record p { symbol = some s }))
      else err (meta_error meta.path)

  abbrev pub only_properties : List (Meta syn) → OnlyProperties → Result Error OnlyProperties
  only_properties [] p = ok p
  only_properties (meta ∷ metas) p = only_property meta p >>= only_properties metas

  abbrev pub only_attr : OnlyProperties → DeliverOnlyAttr
  only_attr p = if p.verbatim then only_verbatim else only_normal p.fallback p.symbol

  abbrev pub without_resolver :
      List (Meta syn)
      → Bool × List (DeliverInput syn)
      → Result Error (DeliverOnlyAttr × List (DeliverInput syn))
  without_resolver metas (true, inputs) = err (meta_error (codes "resolver"))
  without_resolver metas (false, inputs) =
      only_properties metas (record { verbatim = false; fallback = false; symbol = none }) >>= λ p.
      ok (only_attr p, inputs)

  -- `DeliverOnlyAttr::process`
  unfoldable pub process_only :
      List (Meta syn) → List (FnArg syn) → Result Error (DeliverOnlyAttr × List (DeliverInput syn))
  unfolding process_inputs only_property
  process_only metas args = process_inputs syn args >>= without_resolver metas

  without_resolver_inputs :
      (metas : List (Meta syn)) (takes : Bool) (ins inputs : List (DeliverInput syn))
      (attr : DeliverOnlyAttr)
      → without_resolver metas (takes, ins) ≡ ok (attr, inputs)
      → (takes ≡ false) × (ins ≡ inputs)
  without_resolver_inputs metas true ins inputs attr h = cc
  without_resolver_inputs metas false ins inputs attr h =
      let (p, e, h') = bind_ok (only_properties metas _) _ (attr, inputs) h in (refl, same p h')
    where
      same :
          (p : OnlyProperties)
          → ◌≡◌ {A = Result Error (DeliverOnlyAttr × List (DeliverInput syn))}
              (ok (only_attr p, ins))
              (ok (attr, inputs))
          → ins ≡ inputs
      same p e = cc

  -- A `deliver_only` method that is accepted has no parameter for a resolver: there is no promise
  -- that it could resolve.
  only_takes_no_resolver :
      (metas : List (Meta syn)) (args : List (FnArg syn)) (attr : DeliverOnlyAttr)
      (inputs : List (DeliverInput syn))
      → process_only metas args ≡ ok (attr, inputs)
      → any_resolver syn inputs ≡ false
  unfolding process_only process_inputs
  only_takes_no_resolver metas args attr inputs h =
      let ((takes, ins), e, h') =
        bind_ok (process_inputs syn args) (without_resolver metas) (attr, inputs) h in
      let (none_taken, same) = without_resolver_inputs metas takes ins inputs attr h' in
      ap (any_resolver syn) (sym same)
      ∙ sym (process_from_takes syn false [] args takes ins refl e)
      ∙ none_taken
