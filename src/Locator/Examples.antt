-- ===== src/Locator/Examples.antt =====
-- A codec that leaves text as it is, and locators on it.
use mathlib.Core.Quot
use rexa.Common.{
  ◌≡◌, refl, sym, ap, All, Bool, true, false, none, some, Bytes, List, [], ◌∷◌, Result, ok, err,
  codes,
}
use rexa.Locator.{
  NodeLocator, SturdyRefLocator, Uri, UriCodec, build_uri, sturdy_uri, sturdy_try_from, uri_parts,
  encoded_host, encoded_query, encoded_userinfo, hint, encoded_path,
}
use rexa.Text.{has}
use rexa.Locator.Hints.{UriLaws, Plain, Distinct}
use rexa.Locator.RoundTrip.{ReadsBack, build_uri-parses}
use rexa.Locator.Order.{unordered, ReadAlike, SameMap-swap, equal_locators-build_uri}
use rexa.Locator.Sturdy.{sturdy_uri-parses}

abbrev plain : UriCodec
plain = record {
  encode_reg_name = λ b. b;
  encode_userinfo = λ b. b;
  encode_query = λ b. b;
  encode_path = λ b. b;
  decode = λ b. b;
  FromUtf8Error = Bool;
  into_string = ok;
  BuildError = Bool;
  build = ok;
  IpAddr = Bytes;
  AddrParseError = Bool;
  parse_ip = ok;
  ParseIntError = Bool;
  parse_port = λ b. err true;
}

built : Uri → Result Bool Uri → Uri
built u (ok v) = v
built u (err e) = u

plain_laws : UriLaws plain
unfolding built
plain_laws = record {
  decode-query = λ b. refl;
  decode-userinfo = λ b. refl;
  decode-path = λ b. refl;
  query_keeps_and = λ b. refl;
  query_keeps_equals = λ b. refl;
  build_parts = λ u v e. ap (built u) (sym e);
}

abbrev node : NodeLocator
node = record {
  designator = codes "n.1";
  transport = codes "tcp";
  hints =
      (codes "port", codes "80")
      ∷ (codes "a", codes "b=")
      ∷ (codes "userinfo", codes "me")
      ∷ (codes "x", [])
      ∷ [];
}

node_Distinct : Distinct plain plain_laws node.hints
node_Distinct = (refl, (refl, (refl, (refl, tt))))

abbrev text :
    (k v : Bytes)
    → has 38 k ≡ false
    → has 61 k ≡ false
    → has 38 v ≡ false
    → Plain plain plain_laws (k, v)
text k v a b c = (refl, refl, a, b, c)

node_Plain : All (Plain plain plain_laws) node.hints
node_Plain = (
  text (codes "port") (codes "80") refl refl refl,
  (
    text (codes "a") (codes "b=") refl refl refl,
    (text (codes "userinfo") (codes "me") refl refl refl, (text (codes "x") [] refl refl refl, tt)),
  ),
)

abbrev reference : SturdyRefLocator
reference = record { node_locator = node; swiss_num = codes "42" }

abbrev uri : Bytes → Uri
uri path = record {
  scheme = some (codes "ocapn");
  authority =
      some
        (record { userinfo = some (codes "me"); host = codes "n.1.tcp"; port = some (codes "80") });
  path = path;
  query = some (codes "a=b=&x=");
}

build_uri-parses_example : ReadsBack plain plain_laws node (uri [])
unfolding build_uri uri_parts encoded_host encoded_query encoded_userinfo hint
build_uri-parses_example =
    build_uri-parses plain plain_laws node [] (uri []) node_Distinct node_Plain refl refl

sturdy_uri-parses_example :
    (r : ReadsBack plain plain_laws node (uri (codes "/s/42"))) × (sturdy_try_from plain
        (uri (codes "/s/42"))
      ≡ ok (record { node_locator = r.back; swiss_num = codes "42" }))
unfolding sturdy_uri build_uri uri_parts encoded_host encoded_query encoded_userinfo hint
    encoded_path
sturdy_uri-parses_example =
    sturdy_uri-parses plain plain_laws reference (uri (codes "/s/42")) node_Distinct node_Plain refl
      refl

abbrev loc : NodeLocator
loc = record { designator = codes "n.1"; transport = codes "tcp"; hints = [] }

abbrev bare : Uri
bare = record {
  scheme = none;
  authority = some (record { userinfo = none; host = codes "n.1.tcp"; port = none });
  path = [];
  query = none;
}

-- A locator whose map is iterated in one of two orders.
abbrev with_hints : List (Bytes × Bytes) → NodeLocator
with_hints hints = record { designator = codes "n.1"; transport = codes "tcp"; hints = hints }

abbrev forth : NodeLocator
forth = with_hints ((codes "a", codes "b=") ∷ (codes "x", []) ∷ [])

abbrev back : NodeLocator
back = with_hints ((codes "x", []) ∷ (codes "a", codes "b=") ∷ [])

abbrev query_uri : Bytes → Uri
query_uri query = record {
  scheme = some (codes "ocapn");
  authority = some (record { userinfo = none; host = codes "n.1.tcp"; port = none });
  path = [];
  query = some query;
}

forth-back : unordered forth ≡ unordered back
forth-back =
    ap (λ hints. record { designator = codes "n.1"; transport = codes "tcp"; hints = hints })
      (Quot.sound (SameMap-swap (codes "a") (codes "x") (codes "b=") [] [] refl))

equal_locators-build_uri_example :
    ReadAlike plain plain_laws forth (query_uri (codes "a=b=&x=")) (query_uri (codes "x=&a=b="))
unfolding build_uri uri_parts encoded_host encoded_query encoded_userinfo hint
equal_locators-build_uri_example =
    equal_locators-build_uri plain plain_laws forth back [] [] (query_uri (codes "a=b=&x="))
      (query_uri (codes "x=&a=b=")) forth-back (refl, (refl, tt)) (refl, (refl, tt))
      (text (codes "a") (codes "b=") refl refl refl, (text (codes "x") [] refl refl refl, tt)) refl
      refl refl
