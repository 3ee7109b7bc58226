-- ===== src/Netlayer/Tcp.antt =====
-- lib/rexa-netlayer-datastream/src/tcp.rs and unix.rs: the locators that listeners have, and the
-- addresses that streams are opened to. The sockets of tokio and the printers and parsers of the
-- standard library are parameters; text is its bytes.
use rexa.Common.{
  ◌≡◌, ℕ, ◌<◌, ◌^◌, Option, none, some, Bytes, bytes_eq, [], ◌∷◌, Result, ok, err, map_ok, map_err,
  ok_or, ◌>>=◌, codes, arith,
}
use rexa.Locator.{NodeLocator, new, hint_into}
use rexa.Session.{Node}
use rexa.Handshake.{Keys, get}
use rexa.Netlayer.{DataStreamNetlayer, connect, connect_new}

-- Addresses in text.
pub record TcpCodec : Type 1 where
  pub IpAddr : Type 0
  pub ip_text : IpAddr → Bytes
  pub port_text : ℕ → Bytes
  pub ParseIntError : Type 0
  -- `u16::from_str`
  pub parse_port : Bytes → Result ParseIntError ℕ

-- A 16-bit number is read back from its decimal digits.
pub record TcpLaws (c : TcpCodec) : Type 0 where
  pub parse-text : (port : ℕ) → port < 2 ^ 16 → c.parse_port (c.port_text port) ≡ ok port

pub data TcpConnectError (IoError ParseIntError : Type 0) : Type 0 where
  io_failed : IoError → TcpConnectError IoError ParseIntError
  missing_port : TcpConnectError IoError ParseIntError
  parse_port_failed : ParseIntError → TcpConnectError IoError ParseIntError

pub record SocketAddr (c : TcpCodec) : Type 0 where
  pub ip : c.IpAddr
  pub port : ℕ

module _ (c : TcpCodec) (IoError Halves : Type 0) where
  open c use {ip_text, port_text, ParseIntError, parse_port}

  abbrev pub locator_at : SocketAddr c → NodeLocator
  locator_at addr = record {
    designator = ip_text addr.ip;
    transport = codes "tcpip";
    hints = (codes "port", port_text addr.port) ∷ [];
  }

  -- `locator`, with what `local_addr` answers.
  unfoldable pub tcp_locator : Result IoError (SocketAddr c) → Result IoError NodeLocator
  tcp_locator local_addr = map_ok locator_at local_addr

  -- `TcpStream::connect` is given the host as text and the port.
  unfoldable pub tcp_connect :
      (Bytes × ℕ → Result IoError Halves)
      → NodeLocator
      → Result (TcpConnectError IoError ParseIntError) Halves
  unfolding hint_into
  tcp_connect dial addr =
      ok_or missing_port (hint_into parse_port addr (codes "port")) >>= λ parsed.
      map_err parse_port_failed parsed >>= λ port. map_err io_failed (dial (addr.designator, port))

module _ (IoError Halves : Type 0) where
  -- `none` is the `todo!` of an address that has no path, or a path that is not text.
  unfoldable pub unix_locator : Result IoError (Option Bytes) → Option (Result IoError NodeLocator)
  unfolding new
  unix_locator (err e) = some (err e)
  unix_locator (ok none) = none
  unix_locator (ok (some path)) = some (ok (new path (codes "unix")))

  unfoldable pub unix_connect :
      (Bytes → Result IoError Halves) → NodeLocator → Result IoError Halves
  unix_connect dial addr = dial addr.designator

  -- A listener at a path has a locator at which a stream is opened to that path.
  pub unix_connect-locator :
      (dial : Bytes → Result IoError Halves) (path : Bytes) (loc : NodeLocator)
      → unix_locator (ok (some path)) ≡ some (ok loc)
      → unix_connect dial loc ≡ dial path
  unfolding unix_locator unix_connect new
  unix_connect-locator dial path loc e = cc

module _ (c : TcpCodec) (laws : TcpLaws c) (node : Node) (keys : Keys node) (IoError : Type 0) where
  abbrev pub TcpNet : Type 0
  TcpNet = DataStreamNetlayer node keys IoError (TcpConnectError IoError c.ParseIntError)

  -- The locator of a TCP listener is one that peers can connect to: a peer that has no session with
  -- its designator, and connects to it, dials the address and the port of the listener, whatever
  -- they are, and starts a session on the stream if there is one.
  pub connect-tcp_locator :
      (addr : SocketAddr c) (loc : NodeLocator) (fuel : ℕ) (key : node.SigningKey)
      (dial : Bytes × ℕ → Result IoError (node.Reader × node.Writer)) (net : TcpNet)
      → addr.port < 2 ^ 16
      → tcp_locator c IoError (node.Reader × node.Writer) (ok addr) ≡ ok loc
      → get node net.manager loc.designator ≡ none
      → connect node keys IoError
          (TcpConnectError IoError c.ParseIntError)
          fuel
          key
          (tcp_connect c IoError (node.Reader × node.Writer) dial)
          net
          loc
        ≡ connect_new node keys IoError
            (TcpConnectError IoError c.ParseIntError)
            fuel
            key
            net
            (map_err io_failed (dial (c.ip_text addr.ip, addr.port)))
  unfolding tcp_locator tcp_connect hint_into connect
  connect-tcp_locator addr loc fuel key dial net small e unknown =
      ground (arith, laws.parse-text addr.port small, unknown)
