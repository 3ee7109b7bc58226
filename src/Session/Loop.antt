-- ===== src/Session/Loop.antt =====
-- The receiving loop against the bytes that arrive.
use mathlib.Core.List.{append_assoc}
use rexa.Common.{
  ◌∙◌, ap, drop, drop-append, ℕ, suc, ◌≡◌, refl, true, false, some, List, [], ◌∷◌, ◌++◌, Bytes,
  length, ok, err, map_err, arith, inl, inr, Result-cases, Option-cases, Bool-cases, Bool, ◌≢◌,
  nat_beq,
}
use rexa.KeyMap.{get}
use rexa.Msg.{OpAbort, Operation, DescImportObject}
use rexa.Reader.Frames.{Buffered, Encoding}
use rexa.Reader.Frames
use rexa.Session.Abort.{refused, as_recv, live_locally, remote_refuses}
use rexa.Session.Calls.{Handled, handle-Handled}
use rexa.Session.{
  Node, Session, SendError, RecvError, Error, Outcome, Event, event, error, is_aborted, recv_msg,
  set_remote_abort, local_abort, send_msg, export_object, SendResult, Reaction, GenericResolver,
  deliver_only, deliver, abort,
}
use rexa.Session.Receive.{
  recv_event, handle, Turn, goes_on, stays, breaks, Received, next_turn, react, Reacted, did,
  gave_up, waiting, after_object, handle_deliver, handle_deliver_only, resolver_of,
}

module _ (node : Node) (b : Buffered node.tok node.str) (enc : Encoding node.tok node.str) where
  open node use {
    Tree, Args, Obj, IoError, LexError, Reader, World, objects, on_deliver, on_deliver_only,
    abort_tokens,
  }
  open b use {buffer}
  open enc use {encode}

  -- A live session receives what the next value in the buffer decodes to.
  recv_msg_next :
      (s : Session node) (t : Tree) (rest : Bytes) (rounds : ℕ)
      → is_aborted node s ≡ false
      → buffer s.reader ≡ encode t ++ rest
      → recv_msg node (suc rounds) s
        ≡ some (
          map_err RecvError.decode_failed (node.decode_operation t),
          record s { reader = node.consume s.reader (length (encode t)) },
        )
  unfolding is_aborted recv_msg
  recv_msg_next s t rest rounds live held =
      let whole =
        Frames.take_value node.tok node.str b enc rounds s.reader s.reader t rest
          (Frames.filled node.tok node.str b enc s.reader t rest held) in
      ground (arith, whole)

  reader_Handled : (reader : Reader) → Handled node (λ s. s.reader ≡ reader)
  unfolding send_msg export_object local_abort set_remote_abort
  reader_Handled reader = record {
    sending = λ s m h. ground arith;
    exporting = λ obj s w h. h;
    shutting = λ s h. h;
    shut = λ reason s h. h;
  }

  -- The bytes of values in the order of a list.
  abbrev encode_all : List Tree → Bytes
  encode_all [] = []
  encode_all (t ∷ ts) = encode t ++ encode_all ts

  abbrev Returns : Received node → Type 0
  Returns r = (o : Outcome (Error node)) × (r.0 ≡ some o)

  -- A delivery that comes to its end, whatever the calls that it makes answer.
  abbrev pub Ends : Reaction Args Obj World IoError LexError → Type 0
  Ends (Reaction.finish res) = Unit
  Ends Reaction.give_up = Unit
  Ends Reaction.waits = ⊥
  Ends (Reaction.read next) = (w : World) → Ends (next w)
  Ends (Reaction.write w next) = Ends next
  Ends (Reaction.ask_aborted next) = (b : Bool) → Ends (next b)
  Ends (Reaction.exports obj next) = (desc : DescImportObject) → Ends (next desc)
  Ends (Reaction.sends_only op next) = (res : SendResult node) → Ends (next res)
  Ends (Reaction.sends op next) = (res : SendResult node) → Ends (next res)
  Ends (Reaction.aborts op next) = (res : SendResult node) → Ends (next res)

  pub record AllEnd : Type 0 where
    pub only : (obj : Obj) (args : Args) → Ends (on_deliver_only obj args)
    pub full : (obj : Obj) (args : Args) (r : GenericResolver) → Ends (on_deliver obj args r)

  react-Ends :
      (r : Reaction Args Obj World IoError LexError) (s : Session node) (w : World)
      → Ends r
      → (react node r s w).0 ≢ waiting
  unfolding react
  react-Ends (Reaction.finish res) s w ends = λ e. cc
  react-Ends Reaction.give_up s w ends = λ e. cc
  react-Ends Reaction.waits s w ends = absurd ends
  react-Ends (Reaction.read next) s w ends = react-Ends (next w) s w (ends w)
  react-Ends (Reaction.write w' next) s w ends = react-Ends next s w' ends
  react-Ends (Reaction.ask_aborted next) s w ends =
      react-Ends (next (is_aborted node s)) s w (ends (is_aborted node s))
  react-Ends (Reaction.exports obj next) s w ends =
      let (desc, s', w') = export_object node obj s w in react-Ends (next desc) s' w' (ends desc)
  react-Ends (Reaction.sends_only op next) s w ends =
      let (res, s') = deliver_only node s op in react-Ends (next res) s' w (ends res)
  react-Ends (Reaction.sends op next) s w ends =
      let (res, s') = deliver node s op in react-Ends (next res) s' w (ends res)
  react-Ends (Reaction.aborts op next) s w ends =
      let (res, s') = abort node s op in react-Ends (next res) s' w (ends res)

  after_object-Ends : (x : Reacted node) → x.0 ≢ waiting → (after_object node x).0 ≢ stays
  after_object-Ends (did res, s, w) ends = λ e. cc
  after_object-Ends (gave_up, s, w) ends = λ e. cc
  after_object-Ends (waiting, s, w) ends = absurd (ends refl)

  -- A round stays only at a delivery that does not end.
  handle-Ends :
      (op : Operation Args) (s : Session node) (w : World) → AllEnd → (handle node op s w).0 ≢ stays
  unfolding handle handle_deliver handle_deliver_only
  handle-Ends (Operation.deliver_only del) s w all =
      elim (Bool-cases (nat_beq del.to_desc.position 0)) [
        | inl zero_pos ↦ rw zero_pos (λ e. cc)
        | inr other ↦
            rw other (elim (Option-cases (get objects s.exports.exports del.to_desc.position)) [
              | inl e ↦ rw e (λ e'. cc)
              | inr (obj, e) ↦ rw e (after_object-Ends _ (react-Ends _ s w (all.only obj del.args)))
            ])
      ]
  handle-Ends (Operation.deliver del) s w all = elim (Bool-cases (nat_beq del.to_desc.position 0)) [
    | inl zero_pos ↦ rw zero_pos (λ e. cc)
    | inr other ↦
        rw other (elim (Option-cases (get objects s.exports.exports del.to_desc.position)) [
          | inl e ↦ rw e (λ e'. cc)
          | inr (obj, e) ↦ rw e (
              after_object-Ends _ (react-Ends _ s w (all.full obj del.args (resolver_of node del))))
        ])
  ]
  handle-Ends (Operation.abort op) s w all = λ e. cc

  Returns-after :
      (fuel rounds : ℕ) (rest : Bytes) (x : Turn node × Session node × World)
      → x.0 ≢ stays
      → buffer x.1.reader ≡ rest
      → ((s : Session node) (w : World)
          → buffer s.reader ≡ rest
          → Returns (recv_event node fuel rounds s w))
      → Returns (next_turn node fuel rounds x)
  Returns-after fuel rounds rest (goes_on, s, w) ends h next = next s w h
  Returns-after fuel rounds rest (stays, s, w) ends h next = absurd (ends refl)
  Returns-after fuel rounds rest (breaks outcome, s, w) ends h next = (outcome, refl)

  buffer-handle :
      (op : Operation Args) (s : Session node) (w : World) (t : Tree) (rest : Bytes)
      → buffer s.reader ≡ encode t ++ rest
      → let s' = record s { reader = node.consume s.reader (length (encode t)) } in
        buffer (handle node op s' w).1.reader ≡ rest
  buffer-handle op s w t rest h =
      rw
        (handle-Handled node (reader_Handled _) op
          (record s { reader = node.consume s.reader (length (encode t)) }) w refl)
        (b.buffer-consume s.reader (length (encode t))
          ∙ ap (drop (length (encode t))) h
          ∙ drop-append (encode t) rest)

  -- One round on the next value in the buffer: an aborted session or a value that does not decode
  -- ends the call, and any other message is handled.
  round-Returns :
      (fuel rounds : ℕ) (s : Session node) (w : World) (t : Tree) (rest : Bytes)
      → buffer s.reader ≡ encode t ++ rest
      → ((op : Operation Args)
          → node.decode_operation t ≡ ok op
          → let s' = record s { reader = node.consume s.reader (length (encode t)) } in
            Returns (next_turn node fuel (suc rounds) (handle node op s' w)))
      → Returns (recv_event node (suc fuel) (suc rounds) s w)
  unfolding recv_event
  round-Returns fuel rounds s w t rest held next = elim (refused node s t fuel (suc rounds) w) [
    | inl (e, a, x, y, z, stops) ↦ (error (as_recv node e), ap (λ (r : Received node). r.0) stops)
    | inr (live, x, y) ↦ elim (Result-cases (node.decode_operation t)) [
      | inr (e, bad) ↦
          rw (recv_msg_next s t rest rounds live held, bad, recv_event)
            (error (RecvError.decode_failed e), refl)
      | inl (op, good) ↦
          rw (recv_msg_next s t rest rounds live held, good, recv_event) (next op good)
    ]
  ]

  -- If each delivery to an object of the node comes to its end, whatever it does, even if it aborts
  -- the session: when an abort message stands in the buffer behind `ts` other values, however they
  -- decode, `recv_event` returns an outcome within `length ts + 1` rounds.
  pub recv_event-Returns :
      (ts : List Tree) (stop : Tree) (op : OpAbort) (rest : Bytes) (rounds : ℕ) (s : Session node)
      (w : World)
      → AllEnd
      → node.decode_operation stop ≡ ok (Operation.abort op)
      → buffer s.reader ≡ encode_all ts ++ (encode stop ++ rest)
      → Returns (recv_event node (suc (length ts)) (suc rounds) s w)
  unfolding handle
  recv_event-Returns [] stop op rest rounds s w all dec held =
      round-Returns 0 rounds s w stop rest held (λ got e.
        let is_abort : got ≡ Operation.abort op = cc in
        rw is_abort (event (Event.abort op.reason), refl))
  recv_event-Returns (t ∷ ts) stop op rest rounds s w all dec held =
      let held' = held ∙ append_assoc (encode t) (encode_all ts) (encode stop ++ rest) in
      round-Returns (suc (length ts)) rounds s w t (encode_all ts ++ (encode stop ++ rest)) held'
        (λ got e.
          Returns-after (suc (length ts)) (suc rounds) (encode_all ts ++ (encode stop ++ rest))
            (handle node got _ w) (handle-Ends got _ w all) (buffer-handle got s w t _ held')
            (λ s' w' h. recv_event-Returns ts stop op rest rounds s' w' all dec h))

  -- The next message of a live session is an abort, which decodes to itself: `recv_event` returns
  -- its reason and leaves the session aborted by the peer, so that every send fails with that
  -- reason. The bytes of the message are consumed, and those behind it are not.
  recv_abort :
      (op : OpAbort) (m : Tree) (rest : Bytes) (fuel rounds : ℕ) (s : Session node) (w : World)
      → node.decode_operation (abort_tokens op) ≡ ok (Operation.abort op)
      → is_aborted node s ≡ false
      → buffer s.reader ≡ encode (abort_tokens op) ++ rest
      → let (res, t, w') = recv_event node (suc fuel) (suc rounds) s w in
        (res ≡ some (event (Event.abort op.reason)))
        × (is_aborted node t ≡ true)
        × (send_msg node t m ≡ (err (SendError.session_aborted op.reason), t))
        × (buffer t.reader ≡ rest)
        × (w' ≡ w)
  unfolding handle recv_event set_remote_abort
  recv_abort op m rest fuel rounds s w dec live held =
      let s' : Session node = record s {
        reader = node.consume s.reader (length (encode (abort_tokens op)));
      } in
      let after = remote_refuses node op.reason s' m (live_locally node s live) in
      rw (recv_msg_next s (abort_tokens op) rest rounds live held, dec, recv_event)
        (
          refl,
          after.0,
          after.1,
          b.buffer-consume s.reader (length (encode (abort_tokens op)))
              ∙ ap (drop (length (encode (abort_tokens op)))) held
              ∙ drop-append (encode (abort_tokens op)) rest,
          refl,
        )
