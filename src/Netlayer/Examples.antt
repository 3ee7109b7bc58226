-- ===== src/Netlayer/Examples.antt =====
-- A netlayer whose peer says hello, and one without a listener.
use rexa.Common.{
  All, bytes_eq, ℕ, ◌≡◌, refl, Bool, true, some, Bytes, List, [], ◌∷◌, Result, ok, err, codes,
}
use rexa.Locator.{NodeLocator}
use rexa.Session.{Session, new_session}
use rexa.Reader.{consume_syrup, try_consume_syrup}
use rexa.TestNode.Starts.{node, keys}
use rexa.Msg.{start_session}
use rexa.Handshake.{
  get, finalize_session, and_connect, start_bytes, generate_start_msg, recv_start_session,
  check_start, verify_location, send_start, finish, init_session,
}
use rexa.Netlayer.{DataStreamNetlayer, connected, panics, connect, start_with, locators, new}
use rexa.Netlayer.Mock.{Process, bind_name, drop_netlayer, close, request_stream, not_found}
use rexa.Netlayer.Tasks.{
  Ending, Shared, Task, Reach, at_rest, connects, accepts, called, starting, calls, now, turns,
  here, arrives, locks,
}
use rexa.Netlayer.Tasks.Serial.{replay, answers_of, serializable}
use rexa.Netlayer.Contract.{OneOfAll}
use rexa.Netlayer.Tasks.Introduced.{Answered, ending_readers, tasks_introduced}
use rexa.Netlayer.Tasks.Blocked.{handed_out, silent_peer_blocks}
use rexa.Netlayer.Tasks.Twice.{has_connected, connected_by_two}
use rexa.Netlayer.Cache.{connect_twice}

abbrev at : Bytes → NodeLocator
at name = record { designator = name; transport = codes "tcp"; hints = [] }

-- The halves of a stream on which the peer with the key and name has said hello.
abbrev halves : ℕ → Bytes → (Bytes × List Bytes) × Bytes
unfolding start_bytes generate_start_msg start_session
halves k name = ((start_bytes node keys k (at name), []), [])

abbrev net : DataStreamNetlayer node keys Bool Bool
unfolding new
net = new node keys Bool Bool (at (codes "a") ∷ [])

abbrev opens : ℕ → Bytes → NodeLocator → Result Bool ((Bytes × List Bytes) × Bytes)
unfolding halves
opens k name loc = ok (halves k name)

abbrev closed : NodeLocator → Result Bool ((Bytes × List Bytes) × Bytes)
closed loc = err true

-- The session with it, and the netlayer with that session, when the key was generated.
abbrev session_of : ℕ → Session node
unfolding new_session start_bytes generate_start_msg start_session
session_of key =
    new_session node ([], []) (start_bytes node keys key (at (codes "a"))) key 7 (at (codes "c"))

abbrev after_start : ℕ → DataStreamNetlayer node keys Bool Bool
unfolding net session_of
after_start key = record net {
  manager = record { sessions = (codes "c", session_of key) ∷ []; outgoing = [] };
}

abbrev session : Session node
unfolding session_of
session = session_of 9

abbrev after : DataStreamNetlayer node keys Bool Bool
unfolding after_start
after = after_start 9

connect_twice_example :
    connect node keys Bool Bool 0 5 closed after (at (codes "c")) ≡ some (connected session, after)
unfolding connect start_with and_connect init_session halves opens net new session after session_of
    after_start start_bytes generate_start_msg start_session recv_start_session check_start
    verify_location consume_syrup try_consume_syrup send_start finish finalize_session new_session
    locators get
connect_twice_example =
    connect_twice node keys Bool Bool 1 0 9 5 (opens 7 (codes "c")) closed net after
      (at (codes "c")) session refl refl

-- Without a listener the stream is opened before the code panics.
no_listener_test :
    connect node keys Bool Bool 1 9
      (opens 7 (codes "c"))
      (new node keys Bool Bool [])
      (at (codes "c"))
    ≡ some (panics, new node keys Bool Bool [])
unfolding connect start_with locators new get opens
no_listener_test = refl

abbrev empty : Process
empty = record { registry = []; alive = []; bound = 0 }

abbrev one_bound : Process
unfolding bind_name
one_bound = (bind_name (codes "x") empty).1

close_test : (request_stream 8 (codes "x") (close 0 one_bound)).0 ≡ err not_found
unfolding one_bound bind_name close drop_netlayer request_stream
close_test = refl

-- Two tasks that connect to one peer, over a stream each.
abbrev both : List (Task node keys Bool Bool)
both =
    has_connected node keys Bool Bool (at (codes "c")) (session_of 9)
    ∷ has_connected node keys Bool Bool (at (codes "c")) (session_of 8)
    ∷ []

connected_by_two_example :
    (es : List (Ending node keys Bool Bool)) × Reach node keys Bool Bool
      (at_rest node keys Bool Bool net)
      []
      es
      (at_rest node keys Bool Bool (after_start 8))
      both
unfolding start_with and_connect init_session halves net new session_of after_start start_bytes
    generate_start_msg start_session recv_start_session check_start verify_location consume_syrup
    try_consume_syrup send_start finish finalize_session new_session locators get
connected_by_two_example =
    connected_by_two node keys Bool Bool (at (codes "c")) 1 1 9 8 net (after_start 9)
      (after_start 8) (halves 7 (codes "c")) (halves 7 (codes "c")) (session_of 9) (session_of 8)
      refl refl refl

serializable_example :
    replay node keys Bool Bool connected_by_two_example.0 net
    ≡ some (answers_of node keys Bool Bool connected_by_two_example.0, after_start 8)
serializable_example = serializable node keys Bool Bool net connected_by_two_example.1

tasks_introduced_example :
    All
      (λ t.
        Answered node keys Bool Bool
          (λ r. OneOfAll (ending_readers node keys Bool Bool) r connected_by_two_example.0)
          t.pc)
      both
unfolding net
tasks_introduced_example =
    tasks_introduced node keys Bool Bool (at (codes "a") ∷ []) connected_by_two_example.1

-- A call of `accept` has a stream on which nothing comes, and holds the lock.
abbrev silent : Shared node keys Bool Bool
unfolding after_start
silent = record { net = after_start 9; locked = true }

abbrev held_up : Task node keys Bool Bool
unfolding init_session after_start
held_up = record {
  role = accepts;
  pc = starting (at (codes "a")) (init_session node 5 (after_start 9).manager ([], []) []);
}

holds :
    Reach node keys Bool Bool
      (at_rest node keys Bool Bool (after_start 9))
      []
      []
      silent
      (held_up ∷ [])
unfolding silent held_up after_start net init_session locators
holds =
    turns (turns (calls now accepts) (here (arrives (([], []), []))))
      (here (locks accepts 5 ([], []) [] (at (codes "a")) refl refl))

silent_peer_blocks_example :
    (silent ≡ silent)
    × (handed_out node keys Bool Bool
          (record { role = connects (at (codes "c")); pc = called } ∷ held_up ∷ [])
        ≡ [])
unfolding held_up
silent_peer_blocks_example =
    silent_peer_blocks node keys Bool Bool (after_start 9) holds refl
      (calls now (connects (at (codes "c")))) refl
