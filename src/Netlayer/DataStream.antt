-- ===== src/Netlayer/DataStream.antt =====
-- lib/rexa-netlayer-datastream/src/lib.rs: the data stream netlayer as a `Netlayer`.
use rexa.Common.{List, All, ℕ, Option, none, some, Result, ok, err, Option-cases, inl, inr}
use rexa.Locator.{NodeLocator}
use rexa.Session.{Node}
use rexa.Handshake.{Keys, CapTpSessionBuilder, Started, get, init_session, and_accept, and_connect}
use rexa.Netlayer.Contract.{
  Netlayer, Keeps, Contract, Fair, Call, replies, stream, replies-Fair, stream-Fair, readers_of,
  OneOfAll, All-OneOfAll, call_readers,
}
use rexa.Netlayer.Sessions.{Known, Sound, and_accept-Sound, and_connect-Sound, lookup-Introduced}
use rexa.Netlayer.{
  DataStreamNetlayer, Error, connect, accept, locators, of_started, start_at, start_with, new,
  connect_new,
}

module _ (node : Node) (keys : Keys node) (Listener Stream : Type 0) where
  abbrev pub Net : Type 0
  Net = DataStreamNetlayer node keys Listener Stream

  abbrev pub Halves : Type 0
  Halves = node.Reader × node.Writer

  -- A call is given the rounds of the reading loop, the key that is generated, and what the
  -- listener accepts or the stream's `connect` opens.
  abbrev pub data_stream : Netlayer node
  data_stream = record {
    State = Net;
    Error = Error node keys Listener Stream;
    Dialled = ℕ × node.SigningKey × (NodeLocator → Result Stream Halves);
    Arrived = ℕ × node.SigningKey × Result Listener Halves;
    connect = λ (fuel, key, open_stream). connect node keys Listener Stream fuel key open_stream;
    accept = λ (fuel, key, accepted). accept node keys Listener Stream fuel key accepted;
    dialled_readers = λ (fuel, key, open_stream) locator. readers_of (open_stream locator);
    arrived_readers = λ (fuel, key, accepted). readers_of accepted;
    locators = λ net. some (locators node keys Listener Stream net);
  }

  module _ (Came : node.Reader → Type 0) where
    abbrev pub Valid : Net → Type 0
    Valid net = Known node keys Came net.manager

    pub of_started-Keeps :
        (net : Net) (started : Started node keys)
        → Sound node keys Came started
        → Keeps keys Came Valid (of_started node keys Listener Stream net started)
    of_started-Keeps net none s = tt
    of_started-Keeps net (some (err e, b)) s = (tt, s)
    of_started-Keeps net (some (ok x, b)) s = s

    start_at-Keeps :
        (start : CapTpSessionBuilder node → NodeLocator → Started node keys) (key : node.SigningKey)
        (net : Net) (halves : Halves) (own : Option NodeLocator)
        → Came halves.0
        → Valid net
        → ((b : CapTpSessionBuilder node) (own : NodeLocator)
            → Came b.reader
            → Known node keys Came b.manager
            → Sound node keys Came (start b own))
        → Keeps keys Came Valid (start_at node keys Listener Stream start key net halves own)
    unfolding init_session
    start_at-Keeps start key net halves none m v all = (tt, v)
    start_at-Keeps start key net (reader, writer) (some own) m v all =
        let b = init_session node key net.manager reader writer in
        of_started-Keeps net (start b own) (all b own m v)

    connect_new-Keeps :
        (fuel : ℕ) (key : node.SigningKey) (net : Net) (opened : Result Stream Halves)
        → All Came (readers_of opened)
        → Valid net
        → Keeps keys Came Valid (connect_new node keys Listener Stream fuel key net opened)
    unfolding start_with
    connect_new-Keeps fuel key net (err e) m v = (tt, v)
    connect_new-Keeps fuel key net (ok halves) (m, _) v =
        start_at-Keeps (and_connect node keys fuel) key net halves _ m v
          (and_connect-Sound node keys Came fuel)

    connect-Keeps :
        (fuel : ℕ) (key : node.SigningKey) (open_stream : NodeLocator → Result Stream Halves)
        (net : Net) (locator : NodeLocator)
        → All Came (readers_of (open_stream locator))
        → Valid net
        → Keeps keys Came Valid (connect node keys Listener Stream fuel key open_stream net locator)
    unfolding connect get
    connect-Keeps fuel key open_stream net locator m v =
        elim (Option-cases (get node net.manager locator.designator)) [
          | inl e ↦ rw (Keeps, e) (connect_new-Keeps fuel key net (open_stream locator) m v)
          | inr (s, e) ↦
              rw (Keeps, e)
                (lookup-Introduced node keys Came locator.designator net.manager.sessions s v e, v)
        ]

    accept-Keeps :
        (fuel : ℕ) (key : node.SigningKey) (accepted : Result Listener Halves) (net : Net)
        → All Came (readers_of accepted)
        → Valid net
        → Keeps keys Came Valid (accept node keys Listener Stream fuel key accepted net)
    unfolding accept start_with
    accept-Keeps fuel key (err e) net m v = (tt, v)
    accept-Keeps fuel key (ok halves) net (m, _) v =
        start_at-Keeps (and_accept node keys fuel) key net halves _ m v
          (and_accept-Sound node keys Came fuel)

    pub data_stream-Contract : Contract keys Came data_stream Valid
    data_stream-Contract = record {
      connect-Keeps = λ (fuel, key, open_stream). connect-Keeps fuel key open_stream;
      accept-Keeps = λ (fuel, key, accepted). accept-Keeps fuel key accepted;
    }

  -- A data stream netlayer keeps the netlayers' contract: whatever calls are made to it one after
  -- the other from when it is new, and whatever the listeners and the network answer, each session
  -- that `connect` or `accept` returns is introduced: from a stream that was opened or accepted in
  -- one of the calls a start message of this version was read, in which the session's key signs the
  -- session's locator. So is each session of its stream.
  data_stream_introduced :
      (listeners : List NodeLocator) (calls : List (Call data_stream))
      (arrived : List data_stream.Arrived)
      → All
          (Fair keys (λ r. OneOfAll (call_readers data_stream) r calls))
          (replies data_stream calls (new node keys Listener Stream listeners))
        × All
            (Fair keys (λ r. OneOfAll data_stream.arrived_readers r arrived))
            (stream data_stream arrived (new node keys Listener Stream listeners))
  unfolding new
  data_stream_introduced listeners calls arrived =
      let net = new node keys Listener Stream listeners in
      let each_call = All-OneOfAll (call_readers data_stream) _ calls (λ r m. m) in
      let each_item = All-OneOfAll data_stream.arrived_readers _ arrived (λ r m. m) in
      (
        replies-Fair keys _ data_stream (Valid _) (data_stream-Contract _) calls net each_call tt,
        stream-Fair keys _ data_stream (Valid _) (data_stream-Contract _) arrived net each_item tt,
      )
