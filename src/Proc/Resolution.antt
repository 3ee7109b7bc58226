-- ===== src/Proc/Resolution.antt =====
-- lib/rexa-proc/src/deliver.rs: who resolves the promise of a `deliver` method.
use rexa.Common.{
  ◌≡◌, refl, subst, ◌∙◌, ap, Bool, true, false, not, ◌||◌, Option, none, some, Bytes, List, [], ◌∷◌,
  ◌++◌, Result, ok, arith, length, bind_ok, ◌⊎◌, if◌then◌else◌,
}
use rexa.Proc.{
  Syn, Meta, DeliverInput, FnArg, receiver, self, typed, is_resolver, process_input, process_inputs,
  process_from, process, property, properties, Properties, no_properties, DeliverResolution,
  internal, external, DeliverAttr, as_normal, conclude, to_body, sends, normal, always_fulfill,
  always_break,
}

module _ (syn : Syn) where
  abbrev pub any_resolver : List (DeliverInput syn) → Bool
  any_resolver [] = false
  any_resolver (input ∷ inputs) = is_resolver syn input || any_resolver inputs

  any_resolver-append :
      (xs ys : List (DeliverInput syn))
      → any_resolver (xs ++ ys) ≡ (any_resolver xs || any_resolver ys)
  any_resolver-append [] ys = refl
  any_resolver-append (x ∷ xs) ys = ground (arith, any_resolver-append xs ys)

  -- What `process_inputs` says of the parameters is true.
  pub process_from_takes :
      (takes : Bool) (res : List (DeliverInput syn)) (args : List (FnArg syn)) (after : Bool)
      (inputs : List (DeliverInput syn))
      → takes ≡ any_resolver res
      → process_from syn takes res args ≡ ok (after, inputs)
      → after ≡ any_resolver inputs
  process_from_takes takes res [] after inputs e h = cc
  process_from_takes takes res (self ∷ args) after inputs e h =
      process_from_takes takes (res ++ receiver ∷ []) args after inputs
        (ground (arith, any_resolver-append res (receiver ∷ []))) h
  process_from_takes takes res (typed attrs ty ∷ args) after inputs e h =
      let (input, _, h') = bind_ok (process_input syn attrs ty) _ (after, inputs) h in
      process_from_takes (if is_resolver syn input then true else takes) (res ++ input ∷ []) args
        after inputs (ground (arith, any_resolver-append res (input ∷ []))) h'

  -- Whether the properties read so far leave the resolution of a method as it must be.
  abbrev pub fits : Bool → Option (DeliverResolution syn) → Bool
  fits takes none = true
  fits takes (some internal) = false
  fits takes (some (external e)) = not takes

  property-fits :
      (takes : Bool) (meta : Meta syn) (p q : Properties syn)
      → fits takes p.resolution ≡ true
      → property syn takes meta p ≡ ok q
      → fits takes q.resolution ≡ true
  unfolding property
  property-fits true meta p q f h = ground arith
  property-fits false meta p q f h = ground arith

  properties-fits :
      (takes : Bool) (metas : List (Meta syn)) (p q : Properties syn)
      → fits takes p.resolution ≡ true
      → properties syn takes metas p ≡ ok q
      → fits takes q.resolution ≡ true
  properties-fits takes [] p q f h = ground arith
  properties-fits takes (meta ∷ metas) p q f h =
      let (r, e, h') = bind_ok (property syn takes meta p) (properties syn takes metas) q h in
      properties-fits takes metas r q (property-fits takes meta p r f e) h'

  sends_count :
      (takes : Bool) (is_ok : Bool) (resolution : DeliverResolution syn) (fallback : Bool)
      (symbol : Option Bytes)
      → fits takes (some resolution) ≡ true ⊎ (takes ≡ true) × (resolution ≡ internal)
      → length (sends syn (to_body syn (as_normal fallback resolution symbol)) is_ok)
        ≡ (if takes then 0 else 1)
  unfolding to_body sends
  sends_count takes is_ok internal fallback symbol fit = ground arith
  sends_count takes is_ok (external (normal a b)) fallback symbol fit = ground arith
  sends_count takes is_ok (external (always_fulfill a)) fallback symbol fit = ground arith
  sends_count takes is_ok (external (always_break a)) fallback symbol fit = ground arith

  conclude_resolution :
      (takes : Bool) (p : Properties syn) (fallback : Bool) (resolution : DeliverResolution syn)
      (symbol : Option Bytes)
      → fits takes p.resolution ≡ true
      → conclude syn takes p ≡ as_normal fallback resolution symbol
      → fits takes (some resolution) ≡ true ⊎ (takes ≡ true) × (resolution ≡ internal)
  conclude_resolution takes p fallback resolution symbol fit h = ground arith

  ok_pair :
      (a b : DeliverAttr syn) (xs ys : List (DeliverInput syn))
      → ◌≡◌ {A = Result syn.Error (DeliverAttr syn × List (DeliverInput syn))}
          (ok (a, xs))
          (ok (b, ys))
      → (a ≡ b) × (xs ≡ ys)
  ok_pair a b xs ys h = (cc, cc)

  -- When the attribute of a method is accepted, and is not `verbatim`, the method resolves the
  -- promise itself exactly if one of its parameters is the resolver: then the emitted code sends
  -- nothing to the resolver, and otherwise it sends one message, whichever way the method returns.
  pub resolved_once :
      (metas : List (Meta syn)) (args : List (FnArg syn)) (fallback : Bool)
      (resolution : DeliverResolution syn) (symbol : Option Bytes)
      (inputs : List (DeliverInput syn)) (is_ok : Bool)
      → process syn metas args ≡ ok (as_normal fallback resolution symbol, inputs)
      → length (sends syn (to_body syn (as_normal fallback resolution symbol)) is_ok)
        ≡ (if any_resolver inputs then 0 else 1)
  unfolding process process_inputs to_body sends
  resolved_once metas args fallback resolution symbol inputs is_ok h =
      let ((takes, ins), e, h') =
        bind_ok (process_inputs syn args) _ (as_normal fallback resolution symbol, inputs) h in
      let (p, e', h'') =
        bind_ok (properties syn takes metas (no_properties syn)) _
          (as_normal fallback resolution symbol, inputs) h' in
      let (same, ins_same) = ok_pair (conclude syn takes p) _ ins inputs h'' in
      let fit = properties-fits takes metas (no_properties syn) p refl e' in
      let known : takes ≡ any_resolver inputs =
        process_from_takes false [] args takes ins refl e ∙ ap any_resolver ins_same in
      subst
        (λ t.
          length (sends syn (to_body syn (as_normal fallback resolution symbol)) is_ok)
          ≡ (if t then 0 else 1))
        known
        (sends_count takes is_ok resolution fallback symbol
          (conclude_resolution takes p fallback resolution symbol fit same))
