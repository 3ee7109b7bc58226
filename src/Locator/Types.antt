-- ===== src/Locator/Types.antt =====
-- src/locator.rs: the data of locators, their errors, and what the fluent_uri crate and the
-- standard library's parsers do for them (`UriCodec`). Text is its bytes.
use rexa.Common.{ℕ, Option, Bytes, List, Result}

pub record NodeLocator : Type 0 where
  pub designator : Bytes
  pub transport : Bytes
  pub hints : List (Bytes × Bytes)

pub record SturdyRefLocator : Type 0 where
  pub node_locator : NodeLocator
  pub swiss_num : Bytes

-- The parts of a URI, as they are written in it.
pub record Authority : Type 0 where
  pub userinfo : Option Bytes
  pub host : Bytes
  pub port : Option Bytes

pub record Uri : Type 0 where
  pub scheme : Option Bytes
  pub authority : Option Authority
  pub path : Bytes
  pub query : Option Bytes

pub record UriCodec : Type 1 where
  -- `EString::encode` with the encoders of the parts, and `EStr::decode`.
  pub encode_reg_name : Bytes → Bytes
  pub encode_userinfo : Bytes → Bytes
  pub encode_query : Bytes → Bytes
  pub encode_path : Bytes → Bytes
  pub decode : Bytes → Bytes
  pub FromUtf8Error : Type 0
  pub into_string : Bytes → Result FromUtf8Error Bytes
  pub BuildError : Type 0
  pub build : Uri → Result BuildError Uri
  pub IpAddr : Type 0
  pub AddrParseError : Type 0
  pub parse_ip : Bytes → Result AddrParseError IpAddr
  pub ParseIntError : Type 0
  pub parse_port : Bytes → Result ParseIntError ℕ

-- `ParseUriError`, with the errors that these conversions return.
pub data ParseUriError (Utf8 : Type 0) : Type 0 where
  decode_hint : Utf8 → ParseUriError Utf8
  unrecognized_scheme : Bytes → ParseUriError Utf8
  missing_authority : ParseUriError Utf8
  missing_transport : ParseUriError Utf8

pub data ParseSturdyRefUriError (Utf8 : Type 0) : Type 0 where
  locator : ParseUriError Utf8 → ParseSturdyRefUriError Utf8
  missing_path : ParseSturdyRefUriError Utf8
  invalid_path : ParseSturdyRefUriError Utf8

pub data AsSocketAddrError (Addr Int : Type 0) : Type 0 where
  parse_addr : Addr → AsSocketAddrError Addr Int
  missing_port : AsSocketAddrError Addr Int
  parse_port_failed : Int → AsSocketAddrError Addr Int
