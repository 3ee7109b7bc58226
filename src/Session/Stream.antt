-- ===== src/Session/Stream.antt =====
-- src/captp/session.rs: the streams of events of a session, `event_stream` and `into_event_stream`.
use rexa.Common.{
  ◌≡◌, refl, ℕ, zero, suc, false, none, some, Bytes, List, [], ◌∷◌, ok, err, arith, Option-cases,
  inl, inr,
}
use rexa.Msg.{Operation}
use rexa.Session.{
  Node, Session, RecvError, Event, Outcome, event, error, panics, Error, recv_msg, set_remote_abort,
}
use rexa.Session.Receive.{
  recv_event, handle, handle_deliver, handle_deliver_only, bootstrap_deliver,
  bootstrap_deliver_only, goes_on, stays, breaks, next_turn, Turn, Received,
}

module _ (node : Node) where
  open node use {World, VerifyingKey, SigningKey, Args}

  -- The items so far, and the state then.
  abbrev pub Items : Type 0
  Items = List (Outcome (Error node)) × Session node × World

  abbrev consed : Outcome (Error node) → Items → Items
  consed o (items, s, w) = (o ∷ items, s, w)

  -- The stream polls on after an event or an error. It waits with its call, and a panic ends it.
  abbrev pub next_item : Received node → (Session node → World → Items) → Items
  next_item (none, s, w) rest = ([], s, w)
  next_item (some (panics p), s, w) rest = (panics p ∷ [], s, w)
  next_item (some (event e), s, w) rest = consed (event e) (rest s w)
  next_item (some (error e), s, w) rest = consed (error e) (rest s w)

  -- The first `n` items of `event_stream`; each call of `recv_event` is given its rounds.
  unfoldable pub event_stream : ℕ → ℕ → ℕ → Session node → World → Items
  event_stream fuel rounds zero s w = ([], s, w)
  event_stream fuel rounds (suc n) s w =
      next_item (recv_event node fuel rounds s w) (event_stream fuel rounds n)

  -- `into_event_stream` owns the handle, and is unfolded in the same way.
  abbrev pub into_event_stream : ℕ → ℕ → ℕ → Session node → World → Items
  unfolding event_stream
  into_event_stream fuel rounds n s w = event_stream fuel rounds n s w

  abbrev pub repeat : ℕ → Outcome (Error node) → List (Outcome (Error node))
  repeat zero o = []
  repeat (suc n) o = o ∷ repeat n o

  -- The peer has aborted, and this side has not.
  abbrev pub ByRemote : Bytes → Session node → Type 0
  ByRemote reason s = (s.aborted_locally ≡ false) × (s.aborted_by_remote ≡ some reason)

  refuses-ByRemote :
      (reason : Bytes) (fuel rounds : ℕ) (s : Session node) (w : World)
      → ByRemote reason s
      → recv_event node (suc fuel) rounds s w
        ≡ (some (error (RecvError.session_aborted reason)), s, w)
  unfolding recv_event recv_msg
  refuses-ByRemote reason fuel rounds s w (l, r) = ground arith

  stream_refuses :
      (reason : Bytes) (fuel rounds n : ℕ) (s : Session node) (w : World)
      → ByRemote reason s
      → event_stream (suc fuel) rounds n s w
        ≡ (repeat n (error (RecvError.session_aborted reason)), s, w)
  unfolding event_stream
  stream_refuses reason fuel rounds zero s w b = refl
  stream_refuses reason fuel rounds (suc n) s w b =
      ground (
        arith,
        refuses-ByRemote reason fuel rounds s w b,
        stream_refuses reason fuel rounds n s w b,
      )

  recv_msg_live :
      (rounds : ℕ) (s s' : Session node) (msg : Operation Args)
      → recv_msg node rounds s ≡ some (ok msg, s')
      → s'.aborted_locally ≡ false
  unfolding recv_msg
  recv_msg_live rounds s s' msg h = ground arith

  handle-abort :
      (msg : Operation Args) (s s' : Session node) (w w' : World) (reason : Bytes)
      → s.aborted_locally ≡ false
      → handle node msg s w ≡ (breaks (event (Event.abort reason)), s', w')
      → ByRemote reason s'
  unfolding handle handle_deliver handle_deliver_only bootstrap_deliver bootstrap_deliver_only
      set_remote_abort
  handle-abort (Operation.deliver_only del) s s' w w' reason live h = ground arith
  handle-abort (Operation.deliver del) s s' w w' reason live h = ground arith
  handle-abort (Operation.abort op) s s' w w' reason live h = ground arith

  next_turn-abort :
      (fuel rounds : ℕ) (msg : Operation Args) (s s' : Session node) (w w' : World) (reason : Bytes)
      (x : Turn node × Session node × World)
      → s.aborted_locally ≡ false
      → ((t : Session node) (v : World)
          → recv_event node fuel rounds t v ≡ (some (event (Event.abort reason)), s', w')
          → ByRemote reason s')
      → handle node msg s w ≡ x
      → next_turn node fuel rounds x ≡ (some (event (Event.abort reason)), s', w')
      → ByRemote reason s'
  next_turn-abort fuel rounds msg s s' w w' reason (goes_on, t, v) live again e h = again t v h
  next_turn-abort fuel rounds msg s s' w w' reason (stays, t, v) live again e h = ground arith
  next_turn-abort fuel rounds msg s s' w w' reason (breaks o, t, v) live again e h =
      handle-abort msg s s' w w' reason live (cc)

  recv_event-abort :
      (fuel rounds : ℕ) (s s' : Session node) (w w' : World) (reason : Bytes)
      → recv_event node fuel rounds s w ≡ (some (event (Event.abort reason)), s', w')
      → ByRemote reason s'
  unfolding recv_event
  recv_event-abort zero rounds s s' w w' reason h = ground arith
  recv_event-abort (suc fuel) rounds s s' w w' reason h =
      elim (Option-cases (recv_msg node rounds s)) [
        | inl e ↦ ground arith
        | inr ((err x, s1), e) ↦ ground arith
        | inr ((ok msg, s1), e) ↦
            next_turn-abort fuel rounds msg s1 s' w w' reason (handle node msg s1 w)
              (recv_msg_live rounds s s1 msg e)
              (λ t v. recv_event-abort fuel rounds t s' v w' reason) refl (ground arith)
      ]

  -- The stream of events does not end when the peer aborts the session: once an item is the peer's
  -- abort, every later item is the error `SessionAborted` with the peer's reason, for as many items
  -- as are polled, and the session and the objects stay as they are.
  pub stream_after_abort :
      (fuel rounds n : ℕ) (s s' : Session node) (w w' : World) (reason : Bytes)
      → recv_event node (suc fuel) rounds s w ≡ (some (event (Event.abort reason)), s', w')
      → event_stream (suc fuel) rounds (suc n) s w
        ≡ (event (Event.abort reason) ∷ repeat n (error (RecvError.session_aborted reason)), s', w')
  unfolding event_stream
  stream_after_abort fuel rounds n s s' w w' reason h = ground (
    arith,
    h,
    stream_refuses reason fuel rounds n s' w'
        (recv_event-abort (suc fuel) rounds s s' w w' reason h),
  )
