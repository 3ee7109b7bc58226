-- ===== src/Netlayer/Mock/Introduced.antt =====
-- lib/rexa-netlayer-mock/src/lib.rs: the mock netlayer as a `Netlayer`.
use rexa.Common.{
  ℕ, Bool, true, false, Option, none, some, List, [], ◌∷◌, Result, ok, err, Option-cases, inl, inr,
  nat_eq, All,
}
use rexa.DashMap.Assoc.{lookup}
use rexa.Locator.{NodeLocator}
use rexa.Session.{Node}
use rexa.Handshake.{Keys, Started, get, init_session, and_connect}
use rexa.Netlayer.Contract.{Netlayer, Keeps, Contract}
use rexa.Netlayer.Sessions.{Known, Sound, and_connect-Sound, lookup-Introduced}
use rexa.Netlayer.Mock.{MockError, MockNetlayer, Process, request_stream}
use rexa.Netlayer.Mock.Start.{
  Halves, MockEnd, State, Error, connect, accept, accept_next, start, of_started, requested,
  answered, locators, builder, own_locator,
}

module _ (node : Node) (keys : Keys node) where
  -- The reader of the stream that answers a request, if one does.
  abbrev pub readers_given : Option (Halves node keys) → List node.Reader
  readers_given none = []
  readers_given (some halves) = halves.0 ∷ []

  abbrev pub mock : Netlayer node
  mock = record {
    State = State node keys;
    Error = Error node keys;
    Dialled = ℕ × node.SigningKey × ℕ × Option (Halves node keys);
    Arrived = ℕ × node.SigningKey × Halves node keys × Bool × ℕ;
    connect = λ (fuel, key, channel, answer). connect node keys fuel key channel answer;
    accept = λ (fuel, key, pipes, is_taken, id). accept node keys fuel key pipes is_taken id;
    dialled_readers = λ (fuel, key, channel, answer) locator. readers_given answer;
    arrived_readers = λ (fuel, key, pipes, is_taken, id). pipes.0 ∷ [];
    locators = λ (e, p). some (locators node keys e);
  }

  module _ (Came : node.Reader → Type 0) where
    abbrev pub Valid : State node keys → Type 0
    Valid (e, p) = Known node keys Came e.manager

    of_started-Keeps :
        (e : MockEnd node keys) (p : Process) (started : Started node keys)
        → Sound node keys Came started
        → Keeps keys Came Valid (of_started node keys e p started)
    of_started-Keeps e p none s = tt
    of_started-Keeps e p (some (err x, b)) s = (tt, s)
    of_started-Keeps e p (some (ok x, b)) s = s

    start-Keeps :
        (fuel : ℕ) (key : node.SigningKey) (e : MockEnd node keys) (p : Process)
        (halves : Halves node keys)
        → Came halves.0
        → Valid (e, p)
        → Keeps keys Came Valid (start node keys fuel key e p halves)
    unfolding start builder init_session
    start-Keeps fuel key e p halves m v =
        let b = builder node keys key e halves in
        let own = own_locator node keys e in
        of_started-Keeps e p (and_connect node keys fuel b own)
          (and_connect-Sound node keys Came fuel b own m v)

    requested-Keeps :
        (fuel : ℕ) (key : node.SigningKey) (answer : Option (Halves node keys))
        (e : MockEnd node keys) (asked : Result MockError (Unit {0}) × Process)
        → All Came (readers_given answer)
        → Valid (e, asked.1)
        → Keeps keys Came Valid (requested node keys fuel key answer e asked)
    unfolding requested answered
    requested-Keeps fuel key answer e (err x, p) m v = (tt, v)
    requested-Keeps fuel key none e (ok done, p) m v = (tt, v)
    requested-Keeps fuel key (some halves) e (ok done, p) (m, _) v =
        start-Keeps fuel key e p halves m v

    connect-Keeps :
        (fuel : ℕ) (key : node.SigningKey) (channel : ℕ) (answer : Option (Halves node keys))
        (st : State node keys) (locator : NodeLocator)
        → All Came (readers_given answer)
        → Valid st
        → Keeps keys Came Valid (connect node keys fuel key channel answer st locator)
    unfolding connect get
    connect-Keeps fuel key channel answer (e, p) locator m v =
        elim (Option-cases (get node e.manager locator.designator)) [
          | inl h ↦
              rw (Keeps, h)
                (requested-Keeps fuel key answer e (request_stream channel locator.designator p) m
                  v)
          | inr (s, h) ↦
              rw (Keeps, h)
                (lookup-Introduced node keys Came locator.designator e.manager.sessions s v h, v)
        ]

    accept_next-Keeps :
        (fuel : ℕ) (key : node.SigningKey) (pipes : Halves node keys) (is_taken : Bool) (id : ℕ)
        (e : MockEnd node keys) (p : Process) (net : MockNetlayer) (requests : List ℕ)
        → Came pipes.0
        → Valid (e, p)
        → Keeps keys Came Valid (accept_next node keys fuel key pipes is_taken id e p net requests)
    unfolding accept_next
    accept_next-Keeps fuel key pipes is_taken id e p net [] m v = tt
    accept_next-Keeps fuel key pipes true id e p net (channel ∷ requests) m v =
        start-Keeps fuel key e _ pipes m v
    accept_next-Keeps fuel key pipes false id e p net (channel ∷ requests) m v = (tt, v)

    accept-Keeps :
        (fuel : ℕ) (key : node.SigningKey) (pipes : Halves node keys) (is_taken : Bool) (id : ℕ)
        (st : State node keys)
        → All Came (pipes.0 ∷ [])
        → Valid st
        → Keeps keys Came Valid (accept node keys fuel key pipes is_taken id st)
    unfolding accept
    accept-Keeps fuel key pipes is_taken id (e, p) (m, _) v =
        elim (Option-cases (lookup id p.alive)) [
          | inl h ↦ rw (Keeps, h) tt
          | inr (net, h) ↦
              rw (Keeps, h) (accept_next-Keeps fuel key pipes is_taken id e p net net.requests m v)
        ]

    pub mock-Contract : Contract keys Came mock Valid
    mock-Contract = record {
      connect-Keeps = λ (fuel, key, channel, answer). connect-Keeps fuel key channel answer;
      accept-Keeps = λ (fuel, key, pipes, is_taken, id). accept-Keeps fuel key pipes is_taken id;
    }
