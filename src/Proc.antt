-- ===== src/Proc.antt =====
-- lib/rexa-proc/src/deliver.rs: the macros' reading of a method that is marked `deliver`, and the
-- code that they emit around its call.
mod Input
unfoldable pub use Input.*
pub mod Resolution
pub mod Only
pub mod Fns
pub mod Attr
pub mod Args
pub mod Metadata
pub mod Objects
pub mod Examples
use rexa.Common.{
  Bool, true, false, Option, none, some, Bytes, bytes_beq, List, [], ◌∷◌, Result, ok, err, ◌>>=◌,
  codes, if◌then◌else◌,
}

module _ (syn : Syn) where
  open syn use {Error, parse_str, meta_error}

  pub data ResolveExternal : Type 0 where
    normal : Quoted syn → Quoted syn → ResolveExternal
    always_fulfill : Quoted syn → ResolveExternal
    always_break : Quoted syn → ResolveExternal

  pub data DeliverResolution : Type 0 where
    internal : DeliverResolution
    external : ResolveExternal → DeliverResolution

  pub data DeliverAttr : Type 0 where
    verbatim : DeliverAttr
    as_normal : Bool → DeliverResolution → Option Bytes → DeliverAttr

  -- The variables that the closure of `DeliverAttr::process` writes.
  pub record Properties : Type 0 where
    pub is_verbatim : Bool
    pub fallback : Bool
    pub resolution : Option DeliverResolution
    pub symbol : Option Bytes
    pub ok_map : Quoted syn
    pub err_map : Quoted syn

  abbrev pub no_properties : Properties
  no_properties = record {
    is_verbatim = false;
    fallback = false;
    resolution = none;
    symbol = none;
    ok_map = ok_list;
    err_map = err_ref;
  }

  -- `RESOLVER_CONFLICT`, or the value.
  abbrev pub unless_resolver : {A : Type 0} → Bool → Meta syn → Result Error A → Result Error A
  unless_resolver takes meta r = if takes then err (meta_error meta.path) else r

  unfoldable pub property : Bool → Meta syn → Properties → Result Error Properties
  unfolding value_or_else
  property takes meta p =
      if bytes_beq meta.path (codes "verbatim")
      then ok (record p { is_verbatim = true })
      else if bytes_beq meta.path (codes "fallback")
      then ok (record p { fallback = true })
      else if bytes_beq meta.path (codes "ok")
      then unless_resolver takes meta (given_value syn meta >>= λ e. ok (record p { ok_map = e }))
      else if bytes_beq meta.path (codes "err")
      then unless_resolver takes meta (given_value syn meta >>= λ e. ok (record p { err_map = e }))
      else if bytes_beq meta.path (codes "always_fulfill")
      then unless_resolver takes meta (
          value_or_else syn res_list meta >>= λ e.
          ok (record p { resolution = some (external (always_fulfill e)) }))
      else if bytes_beq meta.path (codes "always_break")
      then unless_resolver takes meta (
          value_or_else syn res_ref meta >>= λ e.
          ok (record p { resolution = some (external (always_break e)) }))
      else if bytes_beq meta.path (codes "symbol")
      then (value syn parse_str meta >>= λ s. ok (record p { symbol = some s }))
      else err (meta_error meta.path)

  abbrev pub properties : Bool → List (Meta syn) → Properties → Result Error Properties
  properties takes [] p = ok p
  properties takes (meta ∷ metas) p = property takes meta p >>= properties takes metas

  abbrev pub or_default : Bool → Properties → DeliverResolution
  or_default takes p = elim p.resolution [
    | some r ↦ r
    | none ↦ if takes then internal else external (normal p.ok_map p.err_map)
  ]

  abbrev pub conclude : Bool → Properties → DeliverAttr
  conclude takes p =
      if p.is_verbatim then verbatim else as_normal p.fallback (or_default takes p) p.symbol

  -- `DeliverAttr::process`, on the properties of the attribute and the method's parameters.
  unfoldable pub process :
      List (Meta syn) → List (FnArg syn) → Result Error (DeliverAttr × List (DeliverInput syn))
  unfolding process_inputs property
  process metas args = process_inputs syn args >>= λ (takes, inputs).
      properties takes metas no_properties >>= λ p. ok (conclude takes p, inputs)

  -- `DeliverFn::symbol`, of a method with the name `ident`.
  unfoldable pub symbol_of : DeliverAttr → Bytes → Bytes
  symbol_of verbatim ident = ident
  symbol_of (as_normal f r none) ident = ident
  symbol_of (as_normal f r (some symbol)) ident = symbol

  -- What `DeliverFn::to_tokens` emits around the call of the method.
  pub data Body : Type 0 where
    plain : Body
    error_mapped : Body
    matched : Quoted syn → Quoted syn → Body
    then_fulfill : Quoted syn → Body
    then_break : Quoted syn → Body

  abbrev pub external_body : ResolveExternal → Body
  external_body (normal ok_map err_map) = matched ok_map err_map
  external_body (always_fulfill res_map) = then_fulfill res_map
  external_body (always_break res_map) = then_break res_map

  unfoldable pub to_body : DeliverAttr → Body
  to_body verbatim = plain
  to_body (as_normal f internal s) = error_mapped
  to_body (as_normal f (external e) s) = external_body e

  pub data Sent : Type 0 where
    fulfill : Quoted syn → Sent
    break_promise : Quoted syn → Sent

  -- What the emitted code sends to the resolver when the method has returned `Ok`, or `Err`.
  unfoldable pub sends : Body → (is_ok : Bool) → List Sent
  sends plain is_ok = []
  sends error_mapped is_ok = []
  sends (matched ok_map err_map) true = fulfill ok_map ∷ []
  sends (matched ok_map err_map) false = break_promise err_map ∷ []
  sends (then_fulfill res_map) is_ok = fulfill res_map ∷ []
  sends (then_break res_map) is_ok = break_promise res_map ∷ []
