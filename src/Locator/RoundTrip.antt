-- ===== src/Locator/RoundTrip.antt =====
-- src/locator.rs: from a locator to the parts of its URI and back.
use rexa.Common.{
  ◌≡◌, refl, sym, subst, ◌∙◌, Bool, true, false, Option, none, some, Bytes, bytes_eq, bytes_beq,
  bytes_beq_iff, List, [], ◌∷◌, ok, codes, All, arith, if◌then◌else◌, Bool-cases, Option-cases, inl,
  inr,
}
use rexa.DashMap.Assoc.{lookup}
use rexa.Text.{has, rsplit_once-append}
use rexa.Locator.{
  NodeLocator, Uri, add_port, insert_hint, add_userinfo, UriCodec, hint, is_special, build_uri,
  uri_parts, try_from, encoded_host, encoded_query, encoded_userinfo,
}
use rexa.Locator.Hints.{
  UriLaws, Plain, Distinct, insert_all, add_query-encode_pairs, lookup-insert_all, or_else,
}

module _ (c : UriCodec) (laws : UriLaws c) where
  bytes_beq_sym : (a b : Bytes) → bytes_beq a b ≡ bytes_beq b a
  bytes_beq_sym [] [] = refl
  bytes_beq_sym [] (y ∷ ys) = refl
  bytes_beq_sym (x ∷ xs) [] = refl
  bytes_beq_sym (x ∷ xs) (y ∷ ys) = ground (arith, bytes_beq_sym xs ys)

  text_of :
      (k v : Bytes) (hints : List (Bytes × Bytes))
      → All (Plain c laws) hints
      → lookup k hints ≡ some v
      → c.into_string v ≡ ok v
  text_of k v [] all h = cc
  text_of k v ((j, w) ∷ hints) (p, all) h = elim (Bool-cases (bytes_beq j k)) [
    | inl e ↦ ground (arith, p.1)
    | inr e ↦ text_of k v hints all (ground arith)
  ]

  -- The hints that the authority holds.
  abbrev authority_hints : Option Bytes → Option Bytes → List (Bytes × Bytes)
  authority_hints info port =
      add_port c port (elim info [ none ↦ [] | some v ↦ insert_hint (codes "userinfo") v [] ])

  abbrev held : NodeLocator → List (Bytes × Bytes)
  held loc = authority_hints (lookup (codes "userinfo") loc.hints) (lookup (codes "port") loc.hints)

  port_held : (info port : Option Bytes) → lookup (codes "port") (authority_hints info port) ≡ port
  port_held none none = refl
  port_held none (some p) = refl
  port_held (some v) none = refl
  port_held (some v) (some p) = refl

  userinfo_held :
      (info port : Option Bytes) → lookup (codes "userinfo") (authority_hints info port) ≡ info
  userinfo_held none none = refl
  userinfo_held none (some p) = refl
  userinfo_held (some v) none = refl
  userinfo_held (some v) (some p) = refl

  none_else :
      (key : Bytes) (info port : Option Bytes)
      → bytes_beq (codes "port") key ≡ false
      → bytes_beq (codes "userinfo") key ≡ false
      → lookup key (authority_hints info port) ≡ none
  none_else key none none e f = refl
  none_else key none (some p) e f = rw e refl
  none_else key (some v) none e f = rw f refl
  none_else key (some v) (some p) e f = rw (e, f) refl

  lookup-authority_hints :
      (key : Bytes) (hints : List (Bytes × Bytes))
      → lookup key (authority_hints (lookup (codes "userinfo") hints) (lookup (codes "port") hints))
        ≡ (if is_special key then lookup key hints else none)
  lookup-authority_hints key hints =
      let info = lookup (codes "userinfo") hints in
      let port = lookup (codes "port") hints in
      elim (Bool-cases (bytes_beq key (codes "port"))) [
        | inl e ↦
            subst
              (λ k.
                lookup k (authority_hints info port)
                ≡ (if is_special k then lookup k hints else none))
              (sym ((bytes_beq_iff key (codes "port")).0 e)) (port_held info port)
        | inr e ↦ elim (Bool-cases (bytes_beq key (codes "userinfo"))) [
          | inl f ↦
              subst
                (λ k.
                  lookup k (authority_hints info port)
                  ≡ (if is_special k then lookup k hints else none))
                (sym ((bytes_beq_iff key (codes "userinfo")).0 f)) (userinfo_held info port)
          | inr f ↦
              rw (e, f)
                (none_else key info port (bytes_beq_sym (codes "port") key ∙ e)
                  (bytes_beq_sym (codes "userinfo") key ∙ f))
        ]
      ]

  add-encoded_userinfo :
      (loc : NodeLocator)
      → All (Plain c laws) loc.hints
      → add_userinfo c (encoded_userinfo c loc) []
        ≡ ok (authority_hints (lookup (codes "userinfo") loc.hints) none)
  unfolding encoded_userinfo hint
  add-encoded_userinfo loc all = elim (Option-cases (lookup (codes "userinfo") loc.hints)) [
    | inl e ↦ rw (encoded_userinfo, e) refl
    | inr (v, e) ↦
        rw
          (
            encoded_userinfo,
            e,
            laws.decode-userinfo v,
            text_of (codes "userinfo") v loc.hints all e,
          )
          refl
  ]

  back-held :
      (key : Bytes) (loc : NodeLocator)
      → Distinct c laws loc.hints
      → lookup key (insert_all c laws loc.hints (held loc)) ≡ lookup key loc.hints
  back-held key loc d =
      lookup-insert_all c laws key loc.hints (held loc) d
      ∙ rw (lookup-authority_hints key loc.hints) (both (is_special key) (lookup key loc.hints))
    where
      both :
          (b : Bool) (o : Option Bytes)
          → (if b then (if b then o else none) else or_else c laws o (if b then o else none)) ≡ o
      both true o = refl
      both false none = refl
      both false (some v) = refl

  -- What comes back: the designator as it is encoded in the host, and every hint.
  pub record ReadsBack (loc : NodeLocator) (uri : Uri) : Type 0 where
    pub back : NodeLocator
    pub parses : try_from c uri ≡ ok back
    pub same_designator : back.designator ≡ c.encode_reg_name loc.designator
    pub same_transport : back.transport ≡ c.encode_reg_name loc.transport
    pub same_hints : (key : Bytes) → hint back key ≡ hint loc key

  -- A URI that the builder makes for a locator, whatever the path, is parsed to a locator with the
  -- encoded designator and transport, and with the same hints, if the hints are text without `&`
  -- and have no `=` in a key, and no `.` is in the encoded transport.
  pub build_uri-parses :
      (loc : NodeLocator) (path : Bytes) (uri : Uri)
      → Distinct c laws loc.hints
      → All (Plain c laws) loc.hints
      → has 46 (c.encode_reg_name loc.transport) ≡ false
      → build_uri c loc path ≡ ok uri
      → ReadsBack loc uri
  unfolding build_uri uri_parts encoded_host encoded_query encoded_userinfo hint try_from
  build_uri-parses loc path uri d all dot built =
      let parts : Uri = uri_parts c loc path in
      subst (ReadsBack loc) (sym (laws.build_parts parts uri built)) (record {
        back = record {
          designator = c.encode_reg_name loc.designator;
          transport = c.encode_reg_name loc.transport;
          hints = insert_all c laws loc.hints (held loc);
        };
        parses =
            rw
              (
                rsplit_once-append 46 (c.encode_reg_name loc.designator)
                    (c.encode_reg_name loc.transport) dot,
                add-encoded_userinfo loc all,
                add_query-encode_pairs c laws loc.hints (held loc) all,
              )
              refl;
        same_designator = refl;
        same_transport = refl;
        same_hints = λ key. back-held key loc d;
      })
