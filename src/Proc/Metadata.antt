-- ===== src/Proc/Metadata.antt =====
-- lib/rexa-proc/src/lib.rs, `Metadata`: the properties of `impl_object`, and the paths and types
-- that the emitted code names. Paths are syn's; what the macros quote is a constructor of
-- `QuotedPath` or `QuotedType`.
pub mod Last
pub mod Examples
use rexa.Common.{
  ◌≡◌, refl, Bool, true, false, Option, none, some, Bytes, bytes_beq, bytes_beq_iff, Bool-cases, ap,
  ◌⊎◌, inl, inr, List, [], ◌∷◌, Result, ok, err, ◌>>=◌, ◌||◌, ◌&&◌, map_ok, codes, arith,
  if◌then◌else◌, bind_ok, ok_inj, map_ok_inv,
}
use mathlib.Core.Option
use rexa.Proc.Attr.{Stream, AttrProperty, parse_property}

module _ (str : Stream) (CratePath : Type 0) where
  open str use {Token, Error, new_error}

  pub data QuotedPath : Type 0 where
    given : CratePath → QuotedPath
    root : Bytes → QuotedPath

  -- A path behind another one, `Arc<dyn #rexa::captp::AbstractCapTpSession + Send + Sync>`, and
  -- `Result<(), T>`.
  pub data QuotedType : Type 0 where
    within : QuotedPath → Bytes → QuotedType
    shared_session : QuotedPath → QuotedType
    result_of_unit : QuotedType → QuotedType

  pub record Metadata : Type 0 where
    pub rexa : QuotedPath
    pub syrup : QuotedPath
    pub futures : QuotedPath
    pub tracing : Option CratePath
    pub object_t : QuotedType
    pub session_t : QuotedType
    pub item_t : QuotedType
    pub error_t : QuotedType
    pub deliver_only_result_t : QuotedType
    pub deliver_result_t : QuotedType
    pub args_t : QuotedType
    pub resolver_t : QuotedType
    pub from_fn : QuotedPath

  -- The variables that the loop over the properties writes.
  pub record Given : Type 0 where
    pub rexa : Option CratePath
    pub syrup : Option CratePath
    pub futures : Option CratePath
    pub tracing : Option CratePath

  abbrev pub nothing_given : Given
  nothing_given = record { rexa = none; syrup = none; futures = none; tracing = none }

  abbrev pub unrecognized : Result Error Given
  unrecognized = err (new_error (codes "unrecognized impl_object property"))

  unfoldable pub give : AttrProperty str CratePath → Given → Result Error Given
  give arg g =
      if bytes_beq arg.ident (codes "rexa")
      then ok (record g { rexa = some arg.right })
      else if bytes_beq arg.ident (codes "syrup")
      then ok (record g { syrup = some arg.right })
      else if bytes_beq arg.ident (codes "futures")
      then ok (record g { futures = some arg.right })
      else if bytes_beq arg.ident (codes "tracing")
      then ok (record g { tracing = some arg.right })
      else unrecognized

  unfoldable pub read_properties : List (AttrProperty str CratePath) → Given → Result Error Given
  unfolding give
  read_properties [] g = ok g
  read_properties (arg ∷ args) g = give arg g >>= read_properties args

  abbrev pub unwrap_or : Option CratePath → Bytes → QuotedPath
  unwrap_or none default = root default
  unwrap_or (some path) default = given path

  unfoldable pub metadata : Given → Metadata
  metadata g =
      let rexa = unwrap_or g.rexa (codes "::rexa") in
      let syrup = unwrap_or g.syrup (codes "::syrup") in
      let error_t = within rexa (codes "captp::object::ObjectError") in
      record {
        rexa = rexa;
        syrup = syrup;
        futures = unwrap_or g.futures (codes "::futures");
        tracing = g.tracing;
        object_t = within rexa (codes "captp::object::Object");
        session_t = shared_session rexa;
        item_t = within syrup (codes "Item");
        error_t = error_t;
        deliver_only_result_t = result_of_unit error_t;
        deliver_result_t = result_of_unit error_t;
        args_t = within syrup (codes "de::Sequence<'args>");
        resolver_t = within rexa (codes "captp::GenericResolver");
        from_fn = root (codes "::std::convert::From::from");
      }

  -- `Metadata::parse`. `Punctuated::parse_terminated` is given the parser of one property.
  unfoldable pub parse_metadata :
      ((List Token → Result Error (AttrProperty str CratePath × List Token))
        → List Token
        → Result Error (List (AttrProperty str CratePath)))
      → (List Token → Result Error (CratePath × List Token))
      → List Token
      → Result Error Metadata
  unfolding parse_property read_properties
  parse_metadata parse_terminated parse_path tokens =
      parse_terminated (parse_property str parse_path) tokens >>= λ args.
      read_properties args nothing_given >>= λ g. ok (metadata g)
