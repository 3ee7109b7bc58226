-- ===== src/Locator/Print.antt =====
-- src/locator.rs: locators as text, `Index`, and the addresses in designators. `None` stands for
-- the panic of an `unwrap`, or of the index of a map.
use rexa.Common.{◌≡◌, refl, ap, ◌∙◌, false, Option, none, some, Bytes, [], Result, ok, err, All}
use rexa.Text.{has}
use rexa.Locator.{
  NodeLocator, SturdyRefLocator, Uri, UriCodec, hint, build_uri, uri_parts, sturdy_uri,
}
use rexa.Locator.Hints.{UriLaws, Plain, Distinct}
use rexa.Locator.RoundTrip.{ReadsBack, build_uri-parses}

unfoldable pub sturdy_new : NodeLocator → Bytes → SturdyRefLocator
sturdy_new node_locator swiss_num = record { node_locator = node_locator; swiss_num = swiss_num }

unfoldable pub index : NodeLocator → Bytes → Option Bytes
unfolding hint
index loc key = hint loc key

-- With the parser of the kind of address that is asked for.
unfoldable pub ip_from_designator : {E A : Type 0} → (Bytes → Result E A) → NodeLocator → Result E A
ip_from_designator parse loc = parse loc.designator

module _ (c : UriCodec) where
  open c use {BuildError, build}

  -- `Uri::try_from(&NodeLocator)`
  unfoldable pub uri_of : NodeLocator → Result BuildError Uri
  unfolding build_uri
  uri_of loc = build_uri c loc []

  -- `Display` of a `Uri`, and `Uri::parse`.
  pub record UriText : Type 1 where
    pub print : Uri → Bytes
    pub ParseError : Type 0
    pub parse : Bytes → Result ParseError Uri
    -- What the builder has made is parsed from its text.
    pub parse-print : (parts uri : Uri) → build parts ≡ ok uri → parse (print uri) ≡ ok uri

  module _ (t : UriText) where
    open t use {print, ParseError, parse, parse-print}

    abbrev pub printed : Result BuildError Uri → Option Bytes
    printed (err e) = none
    printed (ok uri) = some (print uri)

    unfoldable pub display : NodeLocator → Option Bytes
    unfolding uri_of
    display loc = printed (uri_of loc)

    unfoldable pub sturdy_display : SturdyRefLocator → Option Bytes
    unfolding sturdy_uri
    sturdy_display loc = printed (sturdy_uri c loc)

    printed_inv :
        (r : Result BuildError Uri) (text : Bytes)
        → printed r ≡ some text
        → (uri : Uri) × (r ≡ ok uri) × (text ≡ print uri)
    printed_inv (ok uri) text h = (uri, refl, cc)
    printed_inv (err e) text h = cc

    module _ (laws : UriLaws c) where
      -- What is printed of a locator is a URI's text, and reads back as that URI does.
      pub display-parses :
          (loc : NodeLocator) (text : Bytes)
          → Distinct c laws loc.hints
          → All (Plain c laws) loc.hints
          → has 46 (c.encode_reg_name loc.transport) ≡ false
          → display loc ≡ some text
          → (uri : Uri) × (parse text ≡ ok uri) × ReadsBack c laws loc uri
      unfolding display uri_of build_uri
      display-parses loc text d all dot h =
          let (uri, built, e) = printed_inv (build_uri c loc []) text h in
          (
            uri,
            ap parse e ∙ parse-print (uri_parts c loc []) uri built,
            build_uri-parses c laws loc [] uri d all dot built,
          )
