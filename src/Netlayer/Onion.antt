-- ===== src/Netlayer/Onion.antt =====
-- lib/rexa-netlayer-onion/src/lib.rs: the netlayer over onion services. The clients of arti and
-- tor_hsservice are parameters, as are what they answer: an onion service's name, the stream that
-- is opened or accepted, and the key that the system's randomness gives. Text is its bytes, and the
-- name of a service is ASCII.
pub mod Introduced
pub mod Address
pub mod Examples
use rexa.Common.{
  ◌≡◌, refl, ℕ, zero, suc, ◌-◌, ltb, Bool, true, false, Option, none, some, Bytes, List, [], ◌∷◌,
  ◌++◌, length, All, Result, ok, err, codes, if◌then◌else◌, Option-cases, inl, inr, arith,
}
use rexa.Locator.{NodeLocator, new}
use rexa.Session.{Node, Session}
use rexa.Handshake.{
  Keys, CapTpSessionManager, CapTpSessionBuilder, InitError, Started, new_manager, init_session,
  and_accept, and_connect,
}
use rexa.Netlayer.Contract.{
  Reply, connected, failed, panics, Netlayer, Fair, Keeps, Contract, Call, replies, stream,
  replies-Fair, stream-Fair,
}
use rexa.Netlayer.Sessions.{Known, Sound, and_accept-Sound, and_connect-Sound}

-- `TorLocator::into_tor_addr`, the text that arti reads.
abbrev pub tor_addr : NodeLocator → Bytes
tor_addr locator = locator.designator ++ codes ".onion"

-- `String::truncate`
abbrev pub truncate : ℕ → Bytes → Bytes
truncate zero text = []
truncate (suc n) [] = []
truncate (suc n) (b ∷ text) = b ∷ truncate n text

-- The length that is left: a shorter name would underflow, which is a panic where overflow is
-- checked.
unfoldable pub without_suffix : Bytes → Option Bytes
without_suffix name = if ltb (length name) 6 then none else some (truncate (length name - 6) name)

module _ (node : Node) (keys : Keys node) (TorError ClientError : Type 0) where
  abbrev pub Halves : Type 0
  Halves = node.Reader × node.Writer

  pub data Error : Type 0 where
    tor_failed : TorError → Error
    client_failed : ClientError → Error
    lock_poisoned : Error
    init_failed : InitError node keys → Error

  -- `onion_name` is what the running service answers.
  pub record OnionNetlayer : Type 0 where
    pub onion_name : Option Bytes
    pub manager : CapTpSessionManager node

  -- With what launching the service answers.
  unfoldable pub new_onion : Result TorError (Option Bytes) → Result TorError OnionNetlayer
  new_onion (err e) = err e
  new_onion (ok name) = ok (record { onion_name = name; manager = new_manager node })

  -- `none` where the code panics.
  unfoldable pub designator : OnionNetlayer → Option Bytes
  unfolding without_suffix
  designator net = elim net.onion_name [ none ↦ none | some name ↦ without_suffix name ]

  abbrev pub own_locator : OnionNetlayer → Option NodeLocator
  unfolding designator new
  own_locator net = elim (designator net) [ none ↦ none | some d ↦ some (new d (codes "onion")) ]

  unfoldable pub locators : OnionNetlayer → Option (List NodeLocator)
  locators net = elim (own_locator net) [ none ↦ none | some loc ↦ some (loc ∷ []) ]

  abbrev pub Answer : Type 0
  Answer = Reply node Error

  abbrev pub of_started : OnionNetlayer → Started node keys → Option (Answer × OnionNetlayer)
  of_started net none = none
  of_started net (some (err e, b)) =
      some (failed (init_failed e), record net { manager = b.manager })
  of_started net (some (ok s, b)) = some (connected s, record net { manager = b.manager })

  -- The handshake on the halves of a stream, with the own locator or a panic where it has none.
  abbrev pub start_at :
      (CapTpSessionBuilder node → NodeLocator → Started node keys)
      → node.SigningKey
      → OnionNetlayer
      → Halves
      → Option NodeLocator
      → Option (Answer × OnionNetlayer)
  start_at start key net halves none = some (panics, net)
  start_at start key net (reader, writer) (some own) =
      of_started net (start (init_session node key net.manager reader writer) own)

  abbrev pub connect_stream :
      ℕ → node.SigningKey → OnionNetlayer → Result TorError Halves → Option (Answer × OnionNetlayer)
  connect_stream fuel key net (err e) = some (failed (tor_failed e), net)
  connect_stream fuel key net (ok halves) =
      start_at (and_connect node keys fuel) key net halves (own_locator net)

  -- The client is asked for the address of the locator; the manager's sessions are not.
  unfoldable pub connect :
      ℕ
      → node.SigningKey
      → (Bytes → Result TorError Halves)
      → OnionNetlayer
      → NodeLocator
      → Option (Answer × OnionNetlayer)
  connect fuel key dial net locator = connect_stream fuel key net (dial (tor_addr locator))

  -- The next request for a stream, `none` if they have ended, and what accepting it answers.
  unfoldable pub accept :
      ℕ
      → node.SigningKey
      → Option (Result ClientError Halves)
      → OnionNetlayer
      → Option (Answer × OnionNetlayer)
  accept fuel key none net = some (panics, net)
  accept fuel key (some (err e)) net = some (failed (client_failed e), net)
  accept fuel key (some (ok halves)) net =
      start_at (and_accept node keys fuel) key net halves (own_locator net)
