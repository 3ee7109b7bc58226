-- ===== src/Netlayer/Onion/Examples.antt =====
-- Onion and data stream netlayers whose peers say hello.
use rexa.Common.{
  ◌≡◌, refl, ℕ, none, some, Bytes, List, [], ◌∷◌, All, Result, ok, err, codes, Bool, arith, true,
}
use rexa.Locator.{NodeLocator}
use rexa.TestNode.Starts.{node, keys}
use rexa.Handshake.{start_bytes, new_manager, get}
use rexa.Netlayer
use rexa.Netlayer.{DataStreamNetlayer, connect_new}
use rexa.Netlayer.Contract.{Fair, connects, accepts, replies, stream, Call, OneOfAll, call_readers}
use rexa.Netlayer.DataStream.{data_stream}
use rexa.Netlayer.Onion.{OnionNetlayer, new_onion}
use rexa.Netlayer.Onion.Introduced.{onion, onion_introduced}
use rexa.Netlayer.Tcp.{
  TcpCodec, TcpLaws, TcpConnectError, tcp_locator, tcp_connect, connect-tcp_locator,
}

abbrev at : Bytes → NodeLocator
at name = record { designator = name; transport = codes "onion"; hints = [] }

abbrev Halves : Type 0
Halves = (Bytes × List Bytes) × Bytes

-- The halves of a stream on which the peer with the key and the name says hello.
abbrev halves : ℕ → Bytes → Halves
halves k name = ((start_bytes node keys k (at name), []), [])

abbrev net : OnionNetlayer node keys Bool Bool
net = record { onion_name = some (codes "abc.onion"); manager = new_manager node }

abbrev calls : List (Call (onion node keys Bool Bool))
calls =
    accepts (1, 9, some (ok (halves 7 (codes "c"))))
    ∷ connects (1, 5, λ name. ok (halves 8 (codes "d"))) (at (codes "d"))
    ∷ accepts (1, 9, none)
    ∷ []

abbrev arrived : List ((onion node keys Bool Bool).Arrived)
arrived = (1, 9, some (ok (halves 7 (codes "c")))) ∷ []

onion_introduced_example :
    All
      (Fair keys (λ r. OneOfAll (call_readers (onion node keys Bool Bool)) r calls))
      (replies (onion node keys Bool Bool) calls net)
    × All
        (Fair keys (λ r. OneOfAll (onion node keys Bool Bool).arrived_readers r arrived))
        (stream (onion node keys Bool Bool) arrived net)
unfolding new_onion
onion_introduced_example =
    onion_introduced node keys Bool Bool (some (codes "abc.onion")) net calls arrived refl

abbrev data_calls : List (Call (data_stream node keys Bool Bool))
data_calls =
    accepts (1, 9, ok (halves 7 (codes "c")))
    ∷ connects (1, 5, λ loc. err true) (at (codes "c"))
    ∷ []

-- Ports and addresses as lists of one number.
abbrev codec : TcpCodec
codec = record {
  IpAddr = ℕ;
  ip_text = λ ip. ip ∷ [];
  port_text = λ port. port ∷ [];
  ParseIntError = Bool;
  parse_port = elim [ [] ↦ err true | port ∷ rest ↦ ok port ];
}

codec_laws : TcpLaws codec
codec_laws = record { parse-text = λ port small. refl }

abbrev tcp_net : DataStreamNetlayer node keys Bool (TcpConnectError Bool Bool)
tcp_net = record { listeners = []; manager = new_manager node }

abbrev tcp_at : NodeLocator
tcp_at = record {
  designator = 3 ∷ [];
  transport = codes "tcpip";
  hints = (codes "port", 80 ∷ []) ∷ [];
}

abbrev dial : Bytes × ℕ → Result Bool Halves
dial (name, port) = ok (halves port name)

connect-tcp_locator_example :
    Netlayer.connect node keys Bool
      (TcpConnectError Bool Bool)
      1
      5
      (tcp_connect codec Bool Halves dial)
      tcp_net
      tcp_at
    ≡ connect_new node keys Bool (TcpConnectError Bool Bool) 1 5 tcp_net (ok (halves 80 (3 ∷ [])))
unfolding tcp_locator get
connect-tcp_locator_example =
    connect-tcp_locator codec codec_laws node keys Bool (record { ip = 3; port = 80 }) tcp_at 1 5
      dial tcp_net (omega arith) refl refl
