-- ===== src/Session/Examples.antt =====
-- Sessions on concrete nodes: their bytes come in frames.
use rexa.Common.{
  ◌≡◌, refl, Bool, true, false, none, some, Bytes, List, [], ◌∷◌, ◌++◌, err, codes, ◌⊎◌, nat_eq,
  map, ℕ,
}
use rexa.Reader.Chunks.{chunks, chunks_Buffered}
use rexa.Msg.{export_at}
use rexa.TestNode.{node_of, fresh, reacts}
use rexa.TestNode.Frames.{frames, framing, tokenizer}
use rexa.Session.{
  Node, Session, SendError, RecvError, Outcome, Event, event, error, abort, send_msg, recv_msg,
  is_aborted, new_session, local_abort, set_remote_abort,
}
use rexa.Session.Receive.{recv_event, handle}
use rexa.Reader.{consume_syrup, try_consume_syrup}
use rexa.Session.Calls.{Call, run}
use rexa.Session.Stream.{event_stream, repeat, stream_after_abort}
use rexa.Session.Fifo.{
  Sink, Message, only, operation, send_all, recv_all, Arrives, received_in_order,
}
use rexa.Session.Abort.{Silent, run-Silent, refused, as_recv, refusal}
use rexa.Session.Loop.{Ends, AllEnd, recv_event-Returns}

abbrev pub node : Node
node = node_of frames

-- A delivery to object 5 is on its way, and behind it the peer's abort.
abbrev session : Session node
session = fresh frames ((2 ∷ 0 ∷ 5 ∷ 4 ∷ 1 ∷ codes "bye"), [])

abbrev calls : List (Call node)
calls = Call.exports 7 ∷ Call.receives 3 1 ∷ Call.aborts (record { reason = codes "x" }) ∷ []

abbrev closed : Session node
closed = (abort node session (record { reason = codes "x" })).1

run-Silent_example : Silent node closed.writer (run node calls (closed, [])).0
unfolding abort is_aborted local_abort send_msg
run-Silent_example = run-Silent node calls closed [] refl

refused_example :
    ((e : SendError Bool) × (is_aborted node closed ≡ true)
      × (refusal node closed ≡ some e)
      × (send_msg node closed [] ≡ (err e, closed))
      × (recv_msg node 1 closed ≡ some (err (as_recv node e), closed))
      × (recv_event node 1 1 closed [] ≡ (some (error (as_recv node e)), closed, [])))
    ⊎ ((is_aborted node closed ≡ false)
        × (refusal node closed ≡ none)
        × ((send_msg node closed []).1 ≡ record closed { writer = closed.writer ++ 0 ∷ [] }))
refused_example = refused node closed [] 0 1 []

reacts-Ends :
    (obj : ℕ) (args : node.Args)
    → Ends node (chunks_Buffered tokenizer) (framing chunks) (reacts frames obj args)
reacts-Ends ℕ.zero args = λ res. tt
reacts-Ends (ℕ.suc ℕ.zero) args = λ res. tt
reacts-Ends (ℕ.suc (ℕ.suc n)) args = λ w. tt

nodes_objects_end : AllEnd node (chunks_Buffered tokenizer) (framing chunks)
nodes_objects_end = record { only = reacts-Ends; full = λ obj args resolver. reacts-Ends obj args }

-- Object 5 is not exported: the call ends there.
recv_event-Returns_example :
    (o : Outcome (RecvError Bool Bool Bool (List Bytes))) × ((recv_event node 2 1 session []).0
      ≡ some o)
unfolding new_session
recv_event-Returns_example =
    recv_event-Returns node (chunks_Buffered tokenizer) (framing chunks) ((0 ∷ 5 ∷ []) ∷ [])
      (1 ∷ codes "bye") (record { reason = codes "bye" }) [] 0 session [] nodes_objects_end refl
      refl

abbrev aborting : Session node
aborting = fresh frames ((4 ∷ 1 ∷ codes "bye") ++ 9 ∷ [], [])

abbrev aborted_by_peer : Session node
aborted_by_peer = record (fresh frames (9 ∷ [], [])) { aborted_by_remote = some (codes "bye") }

stream_after_abort_example : event_stream node 1 1 3 aborting [] ≡ (
  event (Event.abort (codes "bye"))
      ∷ repeat node 2 (error (RecvError.session_aborted (codes "bye"))),
  aborted_by_peer,
  [],
)
unfolding new_session recv_event recv_msg consume_syrup try_consume_syrup handle set_remote_abort
stream_after_abort_example =
    stream_after_abort node 0 1 2 aborting aborted_by_peer [] [] (codes "bye") refl

abbrev pub sink : Sink node
sink = record { written = λ w. w; writes = λ w bytes. refl }

-- Deliveries to the positions 3, 4 and 5, of which the first has arrived.
abbrev messages : List (Message node)
messages =
    only (record { to_desc = export_at 3; args = [] })
    ∷ only (record { to_desc = export_at 4; args = [] })
    ∷ only (record { to_desc = export_at 5; args = [] })
    ∷ []

abbrev receiver : Session node
receiver = fresh frames (2 ∷ 0 ∷ 3 ∷ [], (2 ∷ 0 ∷ 4 ∷ 2 ∷ 0 ∷ 5 ∷ []) ∷ [])

arrives :
    Arrives node sink (chunks_Buffered tokenizer) (framing chunks) (λ t. refl) messages receiver
unfolding new_session
arrives = record {
  now = (0 ∷ 3 ∷ []) ∷ [];
  later = ((0 ∷ 4 ∷ []) ∷ (0 ∷ 5 ∷ []) ∷ []) ∷ [];
  holds = record { in_buffer = refl; to_come = refl };
  whole = (tt, tt);
  in_order = refl;
}

received_in_order_example :
    (r : Bytes × List Bytes) × ((send_all node messages (fresh frames ([], []))).writer
      ≡ 2 ∷ 0 ∷ 3 ∷ 2 ∷ 0 ∷ 4 ∷ 2 ∷ 0 ∷ 5 ∷ [])
    × (recv_all node 1 3 receiver
        ≡ some (map (operation node) messages, record receiver { reader = r }))
    × (r.0 ≡ [])
    × (r.1 ≡ [])
unfolding new_session is_aborted
received_in_order_example =
    received_in_order node sink (chunks_Buffered tokenizer) (framing chunks) (λ t. refl) 0 messages
      (fresh frames ([], [])) receiver refl refl refl (refl, (refl, (refl, tt))) arrives
