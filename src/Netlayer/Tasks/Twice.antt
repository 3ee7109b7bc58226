-- ===== src/Netlayer/Tasks/Twice.antt =====
-- `connect` of lib/rexa-netlayer-datastream/src/lib.rs, called by two tasks for one peer.
use rexa.Common.{ℕ, ◌≡◌, refl, Option, none, some, List, [], ◌∷◌, true}
use rexa.Locator.{NodeLocator}
use rexa.Session.{Node, Session}
use rexa.Handshake.{Keys, CapTpSessionBuilder, Started, get, init_session, and_connect}
use rexa.Netlayer.{connected, start_with, start_at, of_started}
use rexa.Netlayer.Tasks.{
  Net, Halves, connects, Task, Ending, ended, Move, Reach, at_rest, returned, starting, waiting,
  misses, opens, locks, ends, here, there, now, turns, calls,
}

module _ (node : Node) (keys : Keys node) (Listener Stream : Type 0) where
  abbrev pub Tasks : Type 0
  Tasks = List (Task node keys Listener Stream)

  abbrev connecting :
      NodeLocator → Halves node keys Listener Stream → Task node keys Listener Stream
  connecting locator halves = record { role = connects locator; pc = waiting halves }

  abbrev pub has_connected : NodeLocator → Session node → Task node keys Listener Stream
  has_connected locator s = record { role = connects locator; pc = returned (connected s) }

  has_locator :
      (start : CapTpSessionBuilder node → NodeLocator → Started node keys) (key : node.SigningKey)
      (net net' : Net node keys Listener Stream) (halves : Halves node keys Listener Stream)
      (own : Option NodeLocator) (s : Session node)
      → start_at node keys Listener Stream start key net halves own ≡ some (connected s, net')
      → (loc : NodeLocator) × (own ≡ some loc)
        × (of_started node keys Listener Stream net
              (start (init_session node key net.manager halves.0 halves.1) loc)
            ≡ some (connected s, net'))
  has_locator start key net net' halves none s h = cc
  has_locator start key net net' halves (some loc) s h = (loc, refl, h)

  -- A call that has its stream starts the session when no task holds the lock.
  start_alone :
      (locator : NodeLocator) (fuel : ℕ) (key : node.SigningKey)
      (net net' : Net node keys Listener Stream) (halves : Halves node keys Listener Stream)
      (s : Session node)
      → start_with node keys Listener Stream (and_connect node keys fuel) key net halves
        ≡ some (connected s, net')
      → (own : NodeLocator) × (b : CapTpSessionBuilder node) × Move node keys Listener Stream
          (at_rest node keys Listener Stream net)
          (connects locator)
          (waiting halves)
          none
          (record { net = net; locked = true })
          (starting own b)
        × Move node keys Listener Stream
            (record { net = net; locked = true })
            (connects locator)
            (starting own b)
            (some (ended (connects locator) fuel b.signing_key (b.reader, b.writer) (connected s)))
            (at_rest node keys Listener Stream net')
            (returned (connected s))
  unfolding start_with
  start_alone locator fuel key net net' (r, w) s h =
      let (own, at, started) = has_locator (and_connect node keys fuel) key net net' (r, w) _ s h in
      (
        own,
        init_session node key net.manager r w,
        locks (connects locator) key r w own refl at,
        ends (connects locator) fuel own _ (connected s) net' started,
      )

  -- Two tasks can both connect to a peer that the manager has no session with, each on a stream of
  -- its own, and both get a new session: the look for a session and the start of one are not one
  -- step. This is so whenever the second start succeeds on the netlayer that the first one leaves,
  -- as does the first.
  pub connected_by_two :
      (locator : NodeLocator) (fuel fuel' : ℕ) (key key' : node.SigningKey)
      (net net' net'' : Net node keys Listener Stream)
      (halves halves' : Halves node keys Listener Stream) (s s' : Session node)
      → get node net.manager locator.designator ≡ none
      → start_with node keys Listener Stream (and_connect node keys fuel) key net halves
        ≡ some (connected s, net')
      → start_with node keys Listener Stream (and_connect node keys fuel') key' net' halves'
        ≡ some (connected s', net'')
      → (es : List (Ending node keys Listener Stream)) × Reach node keys Listener Stream
          (at_rest node keys Listener Stream net)
          []
          es
          (at_rest node keys Listener Stream net'')
          (has_connected locator s ∷ has_connected locator s' ∷ [])
  connected_by_two locator fuel fuel' key key' net net' net'' halves halves' s s' new one two =
      let called_both = calls (calls now (connects locator)) (connects locator) in
      let looked =
        turns (turns called_both (here (misses locator refl new)))
          (there (here (misses locator refl new))) in
      let opened =
        turns (turns looked (here (opens locator halves))) (there (here (opens locator halves'))) in
      let (_, _, locks_first, ends_first) = start_alone locator fuel key net net' halves s one in
      let (_, _, locks_second, ends_second) =
        start_alone locator fuel' key' net' net'' halves' s' two in
      (
        _,
        turns
            (turns (turns (turns opened (here locks_first)) (here ends_first))
              (there (here locks_second)))
            (there (here ends_second)),
      )
