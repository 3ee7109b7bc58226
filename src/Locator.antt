-- ===== src/Locator.antt =====
-- src/locator.rs: node locators, sturdy references, and their URIs.
-- A `HashMap` is an association list in the order in which the map is iterated.
mod Types
pub use Types.*
pub mod Hints
pub mod RoundTrip
pub mod Sturdy
pub mod Print
pub mod Order
pub mod Examples
use rexa.Common.{
  ℕ, Bool, true, false, ◌||◌, Option, none, some, Bytes, bytes_eq, bytes_beq, List, [], ◌∷◌, ◌++◌,
  Result, ok, err, ◌>>=◌, map_err, codes, not, if◌then◌else◌,
}
use rexa.DashMap.Assoc.{lookup, without}
use rexa.Text.{split, split_once, rsplit_once, eq_ignore_ascii_case, strip_prefix}

-- `HashMap::insert`.
abbrev pub insert_hint : Bytes → Bytes → List (Bytes × Bytes) → List (Bytes × Bytes)
insert_hint k v hints = (k, v) ∷ without k hints

unfoldable pub hint : NodeLocator → Bytes → Option Bytes
hint loc key = lookup key loc.hints

unfoldable pub new : Bytes → Bytes → NodeLocator
new designator transport = record { designator = designator; transport = transport; hints = [] }

-- With the parser of the type that is asked for.
unfoldable pub hint_into :
    {E V : Type 0} → (Bytes → Result E V) → NodeLocator → Bytes → Option (Result E V)
unfolding hint
hint_into parse loc key = elim (hint loc key) [ none ↦ none | some text ↦ some (parse text) ]

-- The hints that the authority of a URI holds.
abbrev pub is_special : Bytes → Bool
is_special k = bytes_beq k (codes "port") || bytes_beq k (codes "userinfo")

module _ (c : UriCodec) where
  open c use {
    encode_reg_name, encode_userinfo, encode_query, encode_path, decode, FromUtf8Error, into_string,
    BuildError, build, IpAddr, AddrParseError, parse_ip, ParseIntError, parse_port,
  }

  abbrev pub UriError : Type 0
  UriError = ParseUriError FromUtf8Error

  abbrev pub Hints : Type 0
  Hints = List (Bytes × Bytes)

  abbrev pub decoded : Bytes → Result UriError Bytes
  decoded text = map_err decode_hint (into_string (decode text))

  -- The hint of one part of the query, if that has a `=`: its key is decoded first.
  abbrev pub add_pair : Option (Bytes × Bytes) → Hints → Result UriError Hints
  add_pair none hints = ok hints
  add_pair (some (key, value)) hints =
      decoded key >>= λ k. decoded value >>= λ v. ok (insert_hint k v hints)

  abbrev pub add_pairs : List Bytes → Hints → Result UriError Hints
  add_pairs [] hints = ok hints
  add_pairs (pair ∷ pairs) hints = add_pair (split_once 61 pair) hints >>= add_pairs pairs

  abbrev pub add_userinfo : Option Bytes → Hints → Result UriError Hints
  add_userinfo none hints = ok hints
  add_userinfo (some info) hints = decoded info >>= λ v. ok (insert_hint (codes "userinfo") v hints)

  abbrev pub add_port : Option Bytes → Hints → Hints
  add_port none hints = hints
  add_port (some port) hints = insert_hint (codes "port") port hints

  abbrev pub add_query : Option Bytes → Hints → Result UriError Hints
  add_query none hints = ok hints
  add_query (some query) hints = add_pairs (split 38 query) hints

  abbrev pub located :
      Authority → Option Bytes → Option (Bytes × Bytes) → Result UriError NodeLocator
  located authority query none = err missing_transport
  located authority query (some (designator, transport)) =
      add_userinfo authority.userinfo [] >>= λ hints.
      add_query query (add_port authority.port hints) >>= λ hints'.
      ok (record { designator = designator; transport = transport; hints = hints' })

  abbrev pub from_authority : Option Authority → Option Bytes → Result UriError NodeLocator
  from_authority none query = err missing_authority
  from_authority (some authority) query = located authority query (rsplit_once 46 authority.host)

  -- `NodeLocator::try_from`: a URI without a scheme is taken, one of another scheme is not.
  unfoldable pub try_from : Uri → Result UriError NodeLocator
  try_from uri = elim uri.scheme [
    | none ↦ from_authority uri.authority uri.query
    | some scheme ↦
        if eq_ignore_ascii_case scheme (codes "ocapn")
        then from_authority uri.authority uri.query
        else err (unrecognized_scheme scheme)
  ]

  abbrev pub pair_of : Bytes → Bytes → Bytes
  pair_of k v = encode_query k ++ 61 ∷ encode_query v

  abbrev pub push_pair : Bytes → Bytes → Bytes
  push_pair [] pair = pair
  push_pair (b ∷ query) pair = (b ∷ query) ++ 38 ∷ pair

  -- The loop over the hints. Those that the authority holds are passed over.
  abbrev pub encode_pairs : Bytes → Hints → Bytes
  encode_pairs query [] = query
  encode_pairs query ((k, v) ∷ hints) =
      if is_special k
      then encode_pairs query hints
      else encode_pairs (push_pair query (pair_of k v)) hints

  abbrev pub if_any : Bytes → Option Bytes
  if_any [] = none
  if_any (b ∷ query) = some (b ∷ query)

  unfoldable pub encoded_query : NodeLocator → Option Bytes
  encoded_query loc = if_any (encode_pairs [] loc.hints)

  unfoldable pub encoded_userinfo : NodeLocator → Option Bytes
  unfolding hint
  encoded_userinfo loc = elim (hint loc (codes "userinfo")) [
    | none ↦ none
    | some info ↦ some (encode_userinfo info)
  ]

  unfoldable pub encoded_host : NodeLocator → Bytes
  encoded_host loc = encode_reg_name loc.designator ++ 46 ∷ encode_reg_name loc.transport

  -- The parts that `build_uri` hands to the builder.
  unfoldable pub uri_parts : NodeLocator → Bytes → Uri
  unfolding encoded_query encoded_userinfo encoded_host hint
  uri_parts loc path = record {
    scheme = some (codes "ocapn");
    authority = some (record {
      userinfo = encoded_userinfo loc;
      host = encoded_host loc;
      port = hint loc (codes "port");
    });
    path = path;
    query = encoded_query loc;
  }

  unfoldable pub build_uri : NodeLocator → Bytes → Result BuildError Uri
  unfolding uri_parts
  build_uri loc path = build (uri_parts loc path)

  unfoldable pub as_socket_addr :
      NodeLocator → Result (AsSocketAddrError AddrParseError ParseIntError) (IpAddr × ℕ)
  unfolding hint
  as_socket_addr loc = map_err parse_addr (parse_ip loc.designator) >>= λ ip.
      elim (hint loc (codes "port")) [
        | none ↦ err missing_port
        | some port ↦ map_err parse_port_failed (parse_port port) >>= λ p. ok (ip, p)
      ]

  unfoldable pub encoded_path : SturdyRefLocator → Bytes
  encoded_path loc = codes "/s/" ++ encode_path loc.swiss_num

  abbrev pub swiss_of :
      NodeLocator → Bytes → Result (ParseSturdyRefUriError FromUtf8Error) SturdyRefLocator
  swiss_of loc [] = err missing_path
  swiss_of loc (b ∷ path) = elim (strip_prefix (codes "/s/") (b ∷ path)) [
    | none ↦ err invalid_path
    | some swiss ↦ ok (record { node_locator = loc; swiss_num = swiss })
  ]

  -- `SturdyRefLocator::try_from`, and the other way.
  unfoldable pub sturdy_try_from :
      Uri → Result (ParseSturdyRefUriError FromUtf8Error) SturdyRefLocator
  unfolding try_from
  sturdy_try_from uri = map_err locator (try_from uri) >>= λ loc. swiss_of loc (decode uri.path)

  unfoldable pub sturdy_uri : SturdyRefLocator → Result BuildError Uri
  unfolding build_uri encoded_path
  sturdy_uri loc = build_uri loc.node_locator (encoded_path loc)
