-- ===== src/Session/Tasks/Examples.antt =====
-- Two tasks that share a session: one sends the bytes 1 2, the other aborts with the byte 3.
use rexa.Common.{refl, Bool, true, false, none, Bytes, List, [], ◌∷◌, ok}
use rexa.TestNode.{fresh}
use rexa.TestNode.Frames.{frames}
use rexa.Session.{Session, new_session}
use rexa.Session.Examples.{node, sink}
use rexa.Session.Tasks
use rexa.Session.Tasks.{
  Shared, Task, Reach, Sent, call, call_abort, returned, closed, waiting, writing, locks, writes,
  here, turns, now, next, checks_locally, checks, unlocks,
}
use rexa.Session.Tasks.Whole.{Pieces, messages_whole}
use rexa.Session.Tasks.Late.{
  Follows, written_after_abort, passed_by, shut_with, onward, message_behind_abort,
}
use rexa.Session.Tasks.Lone.{Uninterrupted, stands, steps, after, Stands, lone_call}
use rexa.Session.Tasks.Alone.{view}

abbrev both : List (Task Bool)
both =
    record (call Bool (1 ∷ 2 ∷ [])) { pc = returned (1 ∷ 2 ∷ []) (ok tt) }
    ∷ record (call_abort Bool (3 ∷ [])) { pc = closed (3 ∷ []) (ok tt) }
    ∷ []

abbrev late_sender : List (Task Bool)
late_sender =
    record (call Bool (1 ∷ 2 ∷ [])) { pc = waiting }
    ∷ record (call_abort Bool (3 ∷ [])) { pc = closed (3 ∷ []) (ok tt) }
    ∷ []

message_behind_abort_example :
    Reach Bool Tasks.fresh [] (shut_with (3 ∷ [])) late_sender
    × Reach Bool (shut_with (3 ∷ [])) late_sender (passed_by (3 ∷ []) (1 ∷ 2 ∷ [])) both
message_behind_abort_example = message_behind_abort Bool 1 3 (2 ∷ []) []

messages_whole_example : Pieces Bool (passed_by (3 ∷ []) (1 ∷ 2 ∷ [])) both
messages_whole_example =
    messages_whole Bool (onward Bool message_behind_abort_example.0 message_behind_abort_example.1)

-- Behind the abort, a task takes the lock and writes one of the two bytes it has.
abbrev shut : Bytes → Bool → Shared
shut written locked = record {
  written = written;
  locked = locked;
  aborted_locally = true;
  aborted_by_remote = none;
}

late_start :
    Reach Bool
      (shut (3 ∷ []) false)
      (record (call Bool (1 ∷ 2 ∷ [])) { pc = waiting } ∷ [])
      (shut (3 ∷ 1 ∷ []) true)
      (record (call Bool (1 ∷ 2 ∷ [])) { pc = writing (1 ∷ []) (2 ∷ []) } ∷ [])
late_start = next (next now (turns (here (locks refl)))) (turns (here (writes 1 [] refl)))

written_after_abort_example : Follows Bool (shut (3 ∷ []) false) 2 (shut (3 ∷ 1 ∷ []) true) 1
written_after_abort_example = written_after_abort Bool refl late_start

abbrev session : Session node
session = fresh frames ([], [])

-- Nothing else happens while the message 2 0 3 is written in two parts.
lone_run :
    Uninterrupted Bool
      (2 ∷ 0 ∷ 3 ∷ [])
      (view node sink session)
      Tasks.called
      (after node sink session (2 ∷ 0 ∷ 3 ∷ []) false)
      (returned (2 ∷ 0 ∷ 3 ∷ []) (ok tt))
unfolding new_session
lone_run =
    let waits = steps (steps stands (checks_locally refl)) (checks refl) in
    let writes_two = steps (steps waits (locks refl)) (writes 2 (0 ∷ []) refl) in
    steps (steps writes_two (writes 3 [] refl)) unlocks

lone_call_example :
    Stands node sink session
      (0 ∷ 3 ∷ [])
      (after node sink session (2 ∷ 0 ∷ 3 ∷ []) false)
      (returned (2 ∷ 0 ∷ 3 ∷ []) (ok tt))
lone_call_example = lone_call node sink lone_run
