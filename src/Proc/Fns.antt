-- ===== src/Proc/Fns.antt =====
-- lib/rexa-proc/src/lib.rs, `ObjectFn`: a method of an `impl_object` block, and what the attribute
-- on it makes of it; with the `process` and `symbol` of deliver.rs, deliver_only.rs and export.rs
-- beside it.
use rexa.Common.{
  ℕ, zero, suc, Bool, Option, none, some, Bytes, bytes_beq, List, [], ◌∷◌, map, Result, ok, err,
  ◌>>=◌, map_ok, codes, if◌then◌else◌,
}
use rexa.Proc.{
  Syn, Meta, Attribute, FnArg, self, typed, DeliverInput, DeliverAttr, process, process_inputs,
  property,
}
use rexa.Proc.Only.{DeliverOnlyAttr, only_verbatim, only_normal, process_only, only_property}

-- `attrs.remove(i)`
abbrev pub remove_at : {A : Type 0} → ℕ → List A → List A
remove_at n [] = []
remove_at zero (x ∷ xs) = xs
remove_at (suc n) (x ∷ xs) = x ∷ remove_at n xs

module _ (syn : Syn) where
  open syn use {Ty, Tokens, Error, meta_error}

  pub record Signature : Type 0 where
    pub asyncness : Bool
    pub ident : Bytes
    pub inputs : List (FnArg syn)
    pub output : Option Ty

  pub record Method : Type 0 where
    pub attrs : List (Attribute syn)
    pub sig : Signature
    pub block : Tokens

  pub record DeliverFn : Type 0 where
    pub attr : DeliverAttr syn
    pub ident : Bytes
    pub is_async : Bool
    pub inputs : List (DeliverInput syn)
    pub output : Option Ty

  pub record DeliverOnlyFn : Type 0 where
    pub attr : DeliverOnlyAttr syn
    pub ident : Bytes
    pub inputs : List (DeliverInput syn)
    pub output : Option Ty

  pub data ExportInput : Type 0 where
    export_receiver : ExportInput
    export_arg : List (Attribute syn) → Ty → ExportInput

  pub record ExportFn : Type 0 where
    pub ident : Bytes
    pub inputs : List ExportInput

  pub data ObjectFn : Type 0 where
    delivers : DeliverFn → ObjectFn
    delivers_only : DeliverOnlyFn → ObjectFn
    is_export : ExportFn → ObjectFn

  -- What `DeliverInput::process` leaves of the attributes of a parameter.
  abbrev pub without_arg : List (Attribute syn) → List (Attribute syn)
  without_arg [] = []
  without_arg (attr ∷ attrs) =
      let rest = without_arg attrs in
      if bytes_beq attr.name (codes "arg") then attrs else attr ∷ rest

  abbrev pub processed_input : FnArg syn → FnArg syn
  processed_input self = self
  processed_input (typed attrs ty) = typed (without_arg attrs) ty

  -- The signature after `process_inputs`.
  abbrev pub processed_sig : Signature → Signature
  processed_sig sig = record sig { inputs = map processed_input sig.inputs }

  -- `DeliverAttr::process`, then `DeliverFn::process`.
  unfoldable pub deliver_fn : List (Meta syn) → Signature → Result Error DeliverFn
  unfolding process process_inputs property
  deliver_fn metas sig = process syn metas sig.inputs >>= λ (attr, inputs). ok (record {
    attr = attr;
    ident = sig.ident;
    is_async = sig.asyncness;
    inputs = inputs;
    output = sig.output;
  })

  abbrev pub sync_only :
      Signature → DeliverOnlyAttr syn × List (DeliverInput syn) → Result Error DeliverOnlyFn
  sync_only sig (attr, inputs) =
      if sig.asyncness
      then err (meta_error (codes "async"))
      else ok (record { attr = attr; ident = sig.ident; inputs = inputs; output = sig.output })

  -- `DeliverOnlyAttr::process`, then `DeliverOnlyFn::process`.
  unfoldable pub deliver_only_fn : List (Meta syn) → Signature → Result Error DeliverOnlyFn
  unfolding process_only process_inputs only_property
  deliver_only_fn metas sig = process_only syn metas sig.inputs >>= sync_only sig

  -- `DeliverOnlyFn::symbol`, of a method with the name `ident`.
  unfoldable pub only_symbol_of : DeliverOnlyAttr syn → Bytes → Bytes
  only_symbol_of only_verbatim ident = ident
  only_symbol_of (only_normal f none) ident = ident
  only_symbol_of (only_normal f (some symbol)) ident = symbol

  abbrev pub export_input : FnArg syn → ExportInput
  export_input self = export_receiver
  export_input (typed attrs ty) = export_arg attrs ty

  -- `ExportFn::process`
  abbrev pub export_fn : Signature → ExportFn
  export_fn sig = record { ident = sig.ident; inputs = map export_input sig.inputs }

  -- The attribute found, by its place, and the signature as it is left.
  abbrev pub Found : Type 0
  Found = Option (ℕ × ObjectFn) × Signature

  -- The loop over the attributes, from the place `i`: a delivery ends it, an export does not.
  unfoldable pub scan_attrs :
      ℕ → List (Attribute syn) → Option (ℕ × ObjectFn) → Signature → Result Error Found
  unfolding deliver_fn deliver_only_fn
  scan_attrs i [] found sig = ok (found, sig)
  scan_attrs i (attr ∷ attrs) found sig =
      let after_export = scan_attrs (suc i) attrs (some (i, is_export (export_fn sig))) sig in
      let after = scan_attrs (suc i) attrs found sig in
      if bytes_beq attr.name (codes "deliver")
      then map_ok (λ del. (some (i, delivers del), processed_sig sig)) (deliver_fn attr.nested sig)
      else if bytes_beq attr.name (codes "deliver_only")
      then map_ok (λ del. (some (i, delivers_only del), processed_sig sig))
          (deliver_only_fn attr.nested sig)
      else if bytes_beq attr.name (codes "exported")
      then after_export
      else after

  abbrev pub finish_method : Method → Found → Option ObjectFn × Method
  finish_method f (none, sig) = (none, record f { sig = sig })
  finish_method f (some (i, found), sig) =
      (some found, record f { attrs = remove_at i f.attrs; sig = sig })

  -- `ObjectFn::process`: what the method is, and the method that is emitted.
  unfoldable pub process_fn : Method → Result Error (Option ObjectFn × Method)
  unfolding scan_attrs
  process_fn f = map_ok (finish_method f) (scan_attrs 0 f.attrs none f.sig)
