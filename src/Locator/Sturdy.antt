-- ===== src/Locator/Sturdy.antt =====
-- src/locator.rs: sturdy references, and the errors of the conversions.
use rexa.Common.{
  ◌≡◌, refl, ◌∙◌, ap, true, false, Option, none, some, Option-cases, bind_ok, Bool-cases, inl, inr,
  Bytes, [], ◌∷◌, ◌++◌, Result, ok, codes, All, arith,
}
use rexa.Text.{has, rsplit_once, rsplit_once-some, eq_ignore_ascii_case}
use rexa.Locator.{
  NodeLocator, SturdyRefLocator, Uri, located, add_userinfo, add_port, add_query, Hints,
  from_authority, UriCodec, UriError, Authority, sturdy_uri, sturdy_try_from, encoded_path,
  try_from,
}
use rexa.Locator.Hints.{UriLaws, Plain, Distinct}
use rexa.Locator.RoundTrip.{ReadsBack, build_uri-parses}

module _ (c : UriCodec) (laws : UriLaws c) where
  -- A URI that the builder makes for a sturdy reference is parsed to one with the same swiss
  -- number, the encoded designator and transport, and the same hints, if the hints are text without
  -- `&` and have no `=` in a key, and no `.` is in the encoded transport.
  pub sturdy_uri-parses :
      (loc : SturdyRefLocator) (uri : Uri)
      → Distinct c laws loc.node_locator.hints
      → All (Plain c laws) loc.node_locator.hints
      → has 46 (c.encode_reg_name loc.node_locator.transport) ≡ false
      → sturdy_uri c loc ≡ ok uri
      → (r : ReadsBack c laws loc.node_locator uri) × (sturdy_try_from c uri
          ≡ ok (record { node_locator = r.back; swiss_num = loc.swiss_num }))
  unfolding sturdy_uri sturdy_try_from
  sturdy_uri-parses loc uri d all dot built =
      let r = build_uri-parses c laws loc.node_locator (encoded_path c loc) uri d all dot built in
      (
        r,
        rw
            (
              r.parses,
              ap (λ (u : Uri). c.decode u.path) (laws.build_parts _ uri built)
                  ∙ laws.decode-path loc.swiss_num,
            )
            refl,
      )

module _ (c : UriCodec) where
  abbrev ok_of : Bytes → Bytes → Hints c → Result (UriError c) NodeLocator
  ok_of d t hints = ok (record { designator = d; transport = t; hints = hints })

  located_host :
      (a : Authority) (query : Option Bytes) (loc : NodeLocator) (split : Option (Bytes × Bytes))
      → located c a query split ≡ ok loc
      → split ≡ some (loc.designator, loc.transport)
  located_host a query loc none h = cc
  located_host a query loc (some (d, t)) h =
      let (hints, _, h') = bind_ok (add_userinfo c a.userinfo []) _ loc h in
      let (hints', _, h'') = bind_ok (add_query c query (add_port c a.port hints)) _ loc h' in
      same_parts hints' h''
    where
      same_parts :
          (hints : Hints c)
          → ok_of d t hints ≡ ok loc
          → ◌≡◌ {A = Option (Bytes × Bytes)} (some (d, t)) (some (loc.designator, loc.transport))
      same_parts hints e = cc

  from_authority_host :
      (authority : Option Authority) (query : Option Bytes) (loc : NodeLocator)
      → from_authority c authority query ≡ ok loc
      → (a : Authority) × (authority ≡ some a)
        × (a.host ≡ loc.designator ++ 46 ∷ loc.transport)
        × (has 46 loc.transport ≡ false)
  from_authority_host none query loc h = cc
  from_authority_host (some a) query loc h =
      let (host, free) =
        rsplit_once-some 46 a.host loc.designator loc.transport
          (located_host a query loc (rsplit_once 46 a.host) h) in
      (a, refl, host, free)

  -- A URI that is parsed has no scheme or `ocapn` in any case, and an authority whose host is the
  -- designator and the transport around its last dot.
  parsed_host :
      (uri : Uri) (loc : NodeLocator)
      → try_from c uri ≡ ok loc
      → (a : Authority) × (uri.authority ≡ some a)
        × (a.host ≡ loc.designator ++ 46 ∷ loc.transport)
        × (has 46 loc.transport ≡ false)
        × (elim uri.scheme [ none ↦ true | some s ↦ eq_ignore_ascii_case s (codes "ocapn") ] ≡ true)
  unfolding try_from
  parsed_host uri loc h = elim (Option-cases uri.scheme) [
    | inl e ↦
        let (a, p, q, r) = from_authority_host uri.authority uri.query loc (ground arith) in
        (a, p, q, r, rw e refl)
    | inr (s, e) ↦ elim (Bool-cases (eq_ignore_ascii_case s (codes "ocapn"))) [
      | inl f ↦
          let (a, p, q, r) = from_authority_host uri.authority uri.query loc (ground arith) in
          (a, p, q, r, rw (e, f) refl)
      | inr f ↦ ground arith
    ]
  ]
