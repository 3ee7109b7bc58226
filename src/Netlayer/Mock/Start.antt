-- ===== src/Netlayer/Mock/Start.antt =====
-- lib/rexa-netlayer-mock/src/lib.rs: `connect` and `accept` of a mock netlayer, each with the
-- process that it shares with the others. The pipes that `accept` makes are an argument of it, and
-- what it sends through the one-shot channel is one of `connect`: both wait where the other has not
-- come so far.
use rexa.Common.{
  ℕ, Bool, true, false, Option, none, some, Bytes, List, [], ◌∷◌, Result, ok, err, codes, nat_eq,
  bytes_eq,
}
use rexa.DashMap.Assoc.{lookup, without}
use rexa.Locator.{NodeLocator, new}
use rexa.Session.{Node}
use rexa.Handshake.{
  Keys, CapTpSessionManager, CapTpSessionBuilder, InitError, Started, get, init_session,
  and_connect,
}
use rexa.Netlayer.Contract.{Reply, connected, failed}
use rexa.Netlayer.Mock.{MockError, MockNetlayer, Process, request_stream}

module _ (node : Node) (keys : Keys node) where
  abbrev pub Halves : Type 0
  Halves = node.Reader × node.Writer

  pub data Error : Type 0 where
    registry_failed : MockError → Error
    accept_broken : Error
    connect_failed : Error
    init_failed : InitError node keys → Error

  -- The netlayer's own part of the state, which no other one reads: its name and its manager.
  pub record MockEnd : Type 0 where
    pub name : Bytes
    pub manager : CapTpSessionManager node

  abbrev pub State : Type 0
  State = MockEnd × Process

  abbrev pub Answer : Type 0
  Answer = Option (Reply node Error × State)

  unfoldable pub own_locator : MockEnd → NodeLocator
  unfolding new
  own_locator e = new e.name (codes "mock")

  unfoldable pub locators : MockEnd → List NodeLocator
  unfolding own_locator
  locators e = own_locator e ∷ []

  unfoldable pub builder : node.SigningKey → MockEnd → Halves → CapTpSessionBuilder node
  unfolding init_session
  builder key e (reader, writer) = init_session node key e.manager reader writer

  abbrev pub of_started : MockEnd → Process → Started node keys → Answer
  of_started e p none = none
  of_started e p (some (err x, b)) =
      some (failed (init_failed x), (record e { manager = b.manager }, p))
  of_started e p (some (ok s, b)) = some (connected s, (record e { manager = b.manager }, p))

  -- Both sides start their session as the one that connects.
  unfoldable pub start : ℕ → node.SigningKey → MockEnd → Process → Halves → Answer
  unfolding builder own_locator
  start fuel key e p halves =
      of_started e p (and_connect node keys fuel (builder key e halves) (own_locator e))

  -- `none` of the channel: its sender was dropped.
  unfoldable pub answered : ℕ → node.SigningKey → MockEnd → Process → Option Halves → Answer
  unfolding start
  answered fuel key e p none = some (failed connect_failed, (e, p))
  answered fuel key e p (some halves) = start fuel key e p halves

  unfoldable pub requested :
      ℕ → node.SigningKey → Option Halves → MockEnd → Result MockError (Unit {0}) × Process → Answer
  unfolding answered
  requested fuel key answer e (err x, p) = some (failed (registry_failed x), (e, p))
  requested fuel key answer e (ok done, p) = answered fuel key e p answer

  unfoldable pub connect : ℕ → node.SigningKey → ℕ → Option Halves → State → NodeLocator → Answer
  unfolding requested
  connect fuel key channel answer (e, p) locator = elim (get node e.manager locator.designator) [
    | some s ↦ some (connected s, (e, p))
    | none ↦ requested fuel key answer e (request_stream channel locator.designator p)
  ]

  -- The oldest request is taken; `is_taken` is whether its side still waits for the pipes.
  unfoldable pub accept_next :
      ℕ → node.SigningKey → Halves → Bool → ℕ → MockEnd → Process → MockNetlayer → List ℕ → Answer
  unfolding start
  accept_next fuel key pipes is_taken id e p net [] = none
  accept_next fuel key pipes is_taken id e p net (channel ∷ requests) =
      let p' = record p { alive = (id, record net { requests = requests }) ∷ without id p.alive } in
      elim is_taken [
        | true ↦ start fuel key e p' pipes
        | false ↦ some (failed accept_broken, (e, p'))
      ]

  -- The netlayer with the number `id`, which is alive while it is called.
  unfoldable pub accept : ℕ → node.SigningKey → Halves → Bool → ℕ → State → Answer
  unfolding accept_next
  accept fuel key pipes is_taken id (e, p) = elim (lookup id p.alive) [
    | none ↦ none
    | some net ↦ accept_next fuel key pipes is_taken id e p net net.requests
  ]
