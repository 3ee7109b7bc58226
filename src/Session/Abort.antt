-- ===== src/Session/Abort.antt =====
-- Aborted sessions: src/captp/session/internal.rs (`send_msg`, `recv_msg`, `is_aborted`) and
-- `abort`.
use rexa.Common.{
  ℕ, suc, ◌≡◌, refl, true, false, Option, none, some, Bytes, List, err, arith, inl, inr, ◌⊎◌,
  Bool-cases, Option-cases,
}
use rexa.Msg.{OpAbort}
use rexa.Session.{
  Node, Session, SendError, RecvError, error, Error, is_aborted, abort, send_msg, recv_msg,
  local_abort, set_remote_abort, export_object,
}
use rexa.Session.Receive.{recv_event}
use rexa.Session.Calls.{Call, Kept, run, run-Kept}

module _ (node : Node) where
  open node use {Tree, Reader, Writer, IoError, Obj, World, encode, write_all, abort_tokens}

  -- What a call on an aborted session is refused with: a local abort goes before the peer's.
  abbrev pub refusal : Session node → Option (SendError IoError)
  refusal s = elim s.aborted_locally [
    | true ↦ some SendError.session_aborted_locally
    | false ↦ elim s.aborted_by_remote [
      | none ↦ none
      | some reason ↦ some (SendError.session_aborted reason)
    ]
  ]

  abbrev pub as_recv : SendError IoError → Error node
  as_recv (SendError.io_failed e) = RecvError.io_failed e
  as_recv (SendError.session_aborted reason) = RecvError.session_aborted reason
  as_recv SendError.session_aborted_locally = RecvError.session_aborted_locally

  -- A session is aborted exactly if calls are refused. Then a send, a receive and a wait for an
  -- event all fail with the same refusal and leave the session as it is, and nothing is written;
  -- and a send on a session that is not aborted writes the bytes of the message and changes the
  -- writer alone.
  pub refused :
      (s : Session node) (m : Tree) (fuel rounds : ℕ) (w : World)
      → ((e : SendError IoError) × (is_aborted node s ≡ true)
          × (refusal s ≡ some e)
          × (send_msg node s m ≡ (err e, s))
          × (recv_msg node rounds s ≡ some (err (as_recv e), s))
          × (recv_event node (suc fuel) rounds s w ≡ (some (error (as_recv e)), s, w)))
        ⊎ ((is_aborted node s ≡ false)
            × (refusal s ≡ none)
            × ((send_msg node s m).1 ≡ record s { writer = (write_all s.writer (encode m)).1 }))
  unfolding is_aborted send_msg recv_msg recv_event
  refused s m fuel rounds w = elim (Bool-cases s.aborted_locally) [
    | inl a ↦ inl (
      SendError.session_aborted_locally,
      ground arith,
      ground arith,
      ground arith,
      ground arith,
      ground arith,
    )
    | inr a ↦ elim (Option-cases s.aborted_by_remote) [
      | inr (reason, b) ↦ inl (
        SendError.session_aborted reason,
        ground arith,
        ground arith,
        ground arith,
        ground arith,
        ground arith,
      )
      | inl b ↦ inr (ground arith, ground arith, ground arith)
    ]
  ]

  pub live_locally : (s : Session node) → is_aborted node s ≡ false → s.aborted_locally ≡ false
  unfolding is_aborted
  live_locally s h = ground arith

  pub remote_refuses :
      (reason : Bytes) (s : Session node) (m : Tree)
      → s.aborted_locally ≡ false
      → let t = set_remote_abort node reason s in
        (is_aborted node t ≡ true)
        × (send_msg node t m ≡ (err (SendError.session_aborted reason), t))
  unfolding is_aborted send_msg set_remote_abort
  remote_refuses reason s m h = (rw h, rw h)

  -- An aborted session with a given writer.
  pub record Silent (writer : Writer) (s : Session node) : Type 0 where
    pub aborted : is_aborted node s ≡ true
    pub written : s.writer ≡ writer

  Silent-Kept : (writer : Writer) → Kept node (Silent writer)
  unfolding is_aborted send_msg export_object local_abort set_remote_abort
  Silent-Kept writer = record {
    handled = record {
      sending = λ s m h. ground arith;
      exporting = λ obj s w h. record { aborted = h.aborted; written = h.written };
      shutting = λ s h. ground arith;
      shut = λ reason s h. ground arith;
    };
    reading = λ reader s h. ground arith;
  }

  -- An abort is for good: whatever is called on an aborted session, by its tasks and by its
  -- exported objects, it stays aborted, and not a byte more is written.
  pub run-Silent :
      (cs : List (Call node)) (s : Session node) (w : World)
      → is_aborted node s ≡ true
      → Silent s.writer (run node cs (s, w)).0
  run-Silent cs s w h =
      run-Kept node (Silent-Kept s.writer) cs s w (record { aborted = h; written = refl })

  -- `abort` answers what sending the abort message answered. Whatever that is, the session is
  -- aborted locally from then on: later sends and receives fail with `SessionAbortedLocally`.
  pub abort_shuts :
      (s : Session node) (op : OpAbort) (m : Tree) (rounds : ℕ)
      → let (res, t) = abort node s op in
        (res ≡ (send_msg node s (abort_tokens op)).0)
        × (is_aborted node t ≡ true)
        × (send_msg node t m ≡ (err SendError.session_aborted_locally, t))
        × (recv_msg node rounds t ≡ some (err RecvError.session_aborted_locally, t))
  unfolding abort local_abort is_aborted send_msg recv_msg
  abort_shuts s op m rounds = (refl, refl, refl, refl)
