-- ===== src/Netlayer.antt =====
-- lib/rexa-netlayer-datastream/src/lib.rs: the netlayer over streams such as TCP's. What a listener
-- or the network does in one call is an argument of it: the stream that is opened or accepted, and
-- the key that the system's randomness gives.
pub mod Contract
pub mod Sessions
pub mod DataStream
pub mod Tcp
pub mod Onion
pub mod Cache
pub mod Tasks
pub mod Locks
pub mod Mock
pub mod Examples
use rexa.Common.{ℕ, Option, none, some, List, [], ◌∷◌, ◌++◌, Result, ok, err}
use rexa.Locator.{NodeLocator}
pub use rexa.Netlayer.Contract.{Reply, connected, failed, panics}
use rexa.Session.{Node, Session}
use rexa.Handshake.{
  Keys, CapTpSessionManager, CapTpSessionBuilder, InitError, Started, new_manager, get,
  init_session, and_accept, and_connect,
}

module _ (node : Node) (keys : Keys node) (Listener Stream : Type 0) where
  pub data Error : Type 0 where
    listener_failed : Listener → Error
    stream_failed : Stream → Error
    init_failed : InitError node keys → Error

  -- A listener is known by its locator.
  pub record DataStreamNetlayer : Type 0 where
    pub listeners : List NodeLocator
    pub manager : CapTpSessionManager node

  unfoldable pub new : List NodeLocator → DataStreamNetlayer
  new listeners = record { listeners = listeners; manager = new_manager node }

  -- With what `Listener::bind` returns.
  unfoldable pub bind : Result Listener NodeLocator → Result Listener DataStreamNetlayer
  unfolding new
  bind (err e) = err e
  bind (ok listener) = ok (new (listener ∷ []))

  unfoldable pub push_bind :
      Result Listener NodeLocator
      → DataStreamNetlayer
      → Result Listener (Unit {0}) × DataStreamNetlayer
  push_bind (err e) net = (err e, net)
  push_bind (ok listener) net = (ok tt, record net { listeners = net.listeners ++ listener ∷ [] })

  unfoldable pub locators : DataStreamNetlayer → List NodeLocator
  locators net = net.listeners

  -- `Vec::pop`.
  abbrev pub pop : List NodeLocator → Option NodeLocator
  pop [] = none
  pop (loc ∷ []) = some loc
  pop (loc ∷ next ∷ locs) = pop (next ∷ locs)

  abbrev pub Answer : Type 0
  Answer = Reply node Error

  abbrev pub of_started :
      DataStreamNetlayer → Started node keys → Option (Answer × DataStreamNetlayer)
  of_started net none = none
  of_started net (some (err e, b)) =
      some (failed (init_failed e), record net { manager = b.manager })
  of_started net (some (ok s, b)) = some (connected s, record net { manager = b.manager })

  abbrev pub start_at :
      (CapTpSessionBuilder node → NodeLocator → Started node keys)
      → node.SigningKey
      → DataStreamNetlayer
      → node.Reader × node.Writer
      → Option NodeLocator
      → Option (Answer × DataStreamNetlayer)
  start_at start key net halves none = some (panics, net)
  start_at start key net (reader, writer) (some own) =
      of_started net (start (init_session node key net.manager reader writer) own)

  -- With the last locator, `self.locators().pop().unwrap()`.
  unfoldable pub start_with :
      (CapTpSessionBuilder node → NodeLocator → Started node keys)
      → node.SigningKey
      → DataStreamNetlayer
      → node.Reader × node.Writer
      → Option (Answer × DataStreamNetlayer)
  unfolding locators
  start_with start key net halves = start_at start key net halves (pop (locators net))

  abbrev pub connect_new :
      ℕ
      → node.SigningKey
      → DataStreamNetlayer
      → Result Stream (node.Reader × node.Writer)
      → Option (Answer × DataStreamNetlayer)
  unfolding start_with
  connect_new fuel key net (err e) = some (failed (stream_failed e), net)
  connect_new fuel key net (ok halves) = start_with (and_connect node keys fuel) key net halves

  -- A session that the manager has is returned as it is.
  unfoldable pub connect :
      ℕ
      → node.SigningKey
      → (NodeLocator → Result Stream (node.Reader × node.Writer))
      → DataStreamNetlayer
      → NodeLocator
      → Option (Answer × DataStreamNetlayer)
  connect fuel key open_stream net locator = elim (get node net.manager locator.designator) [
    | some s ↦ some (connected s, net)
    | none ↦ connect_new fuel key net (open_stream locator)
  ]

  unfoldable pub accept :
      ℕ
      → node.SigningKey
      → Result Listener (node.Reader × node.Writer)
      → DataStreamNetlayer
      → Option (Answer × DataStreamNetlayer)
  unfolding start_with
  accept fuel key (err e) net = some (failed (listener_failed e), net)
  accept fuel key (ok halves) net = start_with (and_accept node keys fuel) key net halves
