-- ===== src/Netlayer/Onion/Introduced.antt =====
-- lib/rexa-netlayer-onion/src/lib.rs: the onion netlayer as a `Netlayer`.
use rexa.Common.{◌≡◌, subst, ok_inj, ℕ, Option, none, some, Bytes, List, All, Result, ok, err}
use rexa.Locator.{NodeLocator}
use rexa.Session.{Node}
use rexa.Handshake.{Keys, CapTpSessionBuilder, Started, init_session, and_accept, and_connect}
use rexa.Netlayer.Contract.{
  Netlayer, Fair, Keeps, Contract, Call, replies, stream, replies-Fair, stream-Fair, readers_of,
  readers_if, OneOfAll, All-OneOfAll, call_readers,
}
use rexa.Netlayer.Sessions.{Known, Sound, and_accept-Sound, and_connect-Sound}
use rexa.Netlayer.Onion.{
  OnionNetlayer, Error, Halves, connect, accept, locators, of_started, start_at, connect_stream,
  tor_addr, new_onion,
}

module _ (node : Node) (keys : Keys node) (TorError ClientError : Type 0) where
  abbrev pub Net : Type 0
  Net = OnionNetlayer node keys TorError ClientError

  abbrev pub onion : Netlayer node
  onion = record {
    State = Net;
    Error = Error node keys TorError ClientError;
    Dialled =
        ℕ × node.SigningKey × (Bytes → Result TorError (Halves node keys TorError ClientError));
    Arrived =
        ℕ × node.SigningKey × Option (Result ClientError (Halves node keys TorError ClientError));
    connect = λ (fuel, key, dial). connect node keys TorError ClientError fuel key dial;
    accept = λ (fuel, key, request). accept node keys TorError ClientError fuel key request;
    dialled_readers = λ (fuel, key, dial) locator. readers_of (dial (tor_addr locator));
    arrived_readers = λ (fuel, key, request). readers_if request;
    locators = locators node keys TorError ClientError;
  }

  module _ (Came : node.Reader → Type 0) where
    abbrev pub Valid : Net → Type 0
    Valid net = Known node keys Came net.manager

    of_started-Keeps :
        (net : Net) (started : Started node keys)
        → Sound node keys Came started
        → Keeps keys Came Valid (of_started node keys TorError ClientError net started)
    of_started-Keeps net none s = tt
    of_started-Keeps net (some (err e, b)) s = (tt, s)
    of_started-Keeps net (some (ok x, b)) s = s

    start_at-Keeps :
        (start : CapTpSessionBuilder node → NodeLocator → Started node keys) (key : node.SigningKey)
        (net : Net) (halves : Halves node keys TorError ClientError) (own : Option NodeLocator)
        → Came halves.0
        → Valid net
        → ((b : CapTpSessionBuilder node) (own : NodeLocator)
            → Came b.reader
            → Known node keys Came b.manager
            → Sound node keys Came (start b own))
        → Keeps keys Came Valid (start_at node keys TorError ClientError start key net halves own)
    unfolding init_session
    start_at-Keeps start key net halves none m v all = (tt, v)
    start_at-Keeps start key net (reader, writer) (some own) m v all =
        let b = init_session node key net.manager reader writer in
        of_started-Keeps net (start b own) (all b own m v)

    connect_stream-Keeps :
        (fuel : ℕ) (key : node.SigningKey) (net : Net)
        (opened : Result TorError (Halves node keys TorError ClientError))
        → All Came (readers_of opened)
        → Valid net
        → Keeps keys Came Valid (connect_stream node keys TorError ClientError fuel key net opened)
    connect_stream-Keeps fuel key net (err e) m v = (tt, v)
    connect_stream-Keeps fuel key net (ok halves) (m, _) v =
        start_at-Keeps (and_connect node keys fuel) key net halves _ m v
          (and_connect-Sound node keys Came fuel)

    accept-Keeps :
        (fuel : ℕ) (key : node.SigningKey)
        (request : Option (Result ClientError (Halves node keys TorError ClientError))) (net : Net)
        → All Came (readers_if request)
        → Valid net
        → Keeps keys Came Valid (accept node keys TorError ClientError fuel key request net)
    unfolding accept
    accept-Keeps fuel key none net m v = (tt, v)
    accept-Keeps fuel key (some (err e)) net m v = (tt, v)
    accept-Keeps fuel key (some (ok halves)) net (m, _) v =
        start_at-Keeps (and_accept node keys fuel) key net halves _ m v
          (and_accept-Sound node keys Came fuel)

    pub onion-Contract : Contract keys Came onion Valid
    unfolding connect
    onion-Contract = record {
      connect-Keeps = λ (fuel, key, dial) net locator.
          connect_stream-Keeps fuel key net (dial (tor_addr locator));
      accept-Keeps = λ (fuel, key, request). accept-Keeps fuel key request;
    }

  -- An onion netlayer keeps the netlayers' contract: whatever calls are made to it one after the
  -- other from when it is launched, and whatever the onion network answers, each session that
  -- `connect`, `accept` or its stream returns is introduced: from a stream that was opened or
  -- accepted in one of the calls a start message of this version was read, in which the session's
  -- key signs the session's locator.
  pub onion_introduced :
      (name : Option Bytes) (net : Net) (calls : List (Call onion)) (arrived : List onion.Arrived)
      → new_onion node keys TorError ClientError (ok name) ≡ ok net
      → All (Fair keys (λ r. OneOfAll (call_readers onion) r calls)) (replies onion calls net)
        × All (Fair keys (λ r. OneOfAll onion.arrived_readers r arrived)) (stream onion arrived net)
  unfolding new_onion
  onion_introduced name net calls arrived e =
      let v : (Came : node.Reader → Type 0) → Valid Came net =
        λ Came. subst (Valid Came) (ok_inj e) tt in
      let each_call = All-OneOfAll (call_readers onion) _ calls (λ r m. m) in
      let each_item = All-OneOfAll onion.arrived_readers _ arrived (λ r m. m) in
      (
        replies-Fair keys _ onion (Valid _) (onion-Contract _) calls net each_call (v _),
        stream-Fair keys _ onion (Valid _) (onion-Contract _) arrived net each_item (v _),
      )
