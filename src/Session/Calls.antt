-- ===== src/Session/Calls.antt =====
-- A session under use: any sequence of the calls that its tasks and its objects make on it.
use rexa.Common.{
  ℕ, ◌≡◌, Bytes, some, Result, ok, err, arith, inl, inr, Option-cases, Bool-cases, nat_beq, zero,
  suc, List, [], ◌∷◌,
}
use rexa.KeyMap.{get}
use rexa.Reader.{consume_syrup}
use rexa.Msg.{OpDeliverOnly, OpDeliver, OpAbort, Operation}
use rexa.Session.{
  Node, Session, Reaction, Error, export_object, deliver_only, deliver, abort, send_msg,
  local_abort, set_remote_abort, is_aborted, recv_msg,
}
use rexa.Session.Receive.{
  react, recv_event, handle, handle_deliver, handle_deliver_only, Reacted, after_object,
  resolver_of, Turn, goes_on, stays, breaks, did, gave_up, waiting, next_turn,
}

module _ (node : Node) where
  open node use {
    Tree, Reader, LexError, Args, IoError, Obj, World, objects, on_deliver_only, on_deliver,
  }

  pub data Call : Type 0 where
    sends_only : OpDeliverOnly Args → Call
    sends : OpDeliver Args → Call
    aborts : OpAbort → Call
    exports : Obj → Call
    receives : ℕ → ℕ → Call
    reacts : Reaction Args Obj World IoError LexError → Call

  abbrev pub State : Type 0
  State = Session node × World

  abbrev pub call : Call → State → State
  call (sends_only op) (s, w) = ((deliver_only node s op).1, w)
  call (sends op) (s, w) = ((deliver node s op).1, w)
  call (aborts op) (s, w) = ((abort node s op).1, w)
  call (exports obj) (s, w) = let (desc, s', w') = export_object node obj s w in (s', w')
  call (receives fuel rounds) (s, w) = let (o, s', w') = recv_event node fuel rounds s w in (s', w')
  call (reacts r) (s, w) = let (res, s', w') = react node r s w in (s', w')

  unfoldable pub run : List Call → State → State
  run [] st = st
  run (c ∷ cs) st = run cs (call c st)

  -- Receiving changes the reader alone.
  recv_msg_leaves :
      (rounds : ℕ) (s s' : Session node) (res : Result (Error node) (Operation Args))
      → recv_msg node rounds s ≡ some (res, s')
      → (reader : Reader) × (s' ≡ record s { reader = reader })
  unfolding recv_msg
  recv_msg_leaves rounds s s' res e = elim (Bool-cases s.aborted_locally) [
    | inl a ↦ (s.reader, ground arith)
    | inr a ↦ elim (Option-cases s.aborted_by_remote) [
      | inr (reason, b) ↦ (s.reader, ground arith)
      | inl b ↦ elim (Option-cases (consume_syrup node.tok node.str rounds s.reader)) [
        | inl c ↦ absurd (ground arith)
        | inr ((r, reader), c) ↦ (reader, ground arith)
      ]
    ]
  ]

  -- What each elementary change of a session keeps, every sequence of calls keeps. A message is
  -- handled without touching the reader.
  pub record Handled (P : Session node → Type 0) : Type 0 where
    pub sending : (s : Session node) (m : Tree) → P s → P (send_msg node s m).1
    pub exporting :
        (obj : Obj) (s : Session node) (w : World) → P s → P (export_object node obj s w).1
    pub shutting : (s : Session node) → P s → P (local_abort node s)
    pub shut : (reason : Bytes) (s : Session node) → P s → P (set_remote_abort node reason s)

  pub record Kept (P : Session node → Type 0) : Type 0 where
    pub handled : Handled P
    pub open handled use *
    pub reading : (reader : Reader) (s : Session node) → P s → P (record s { reader = reader })

  module _ {P : Session node → Type 0} (kept : Handled P) where
    react-Handled :
        (r : Reaction Args Obj World IoError LexError) (s : Session node) (w : World)
        → P s
        → P (react node r s w).1
    unfolding react deliver_only deliver abort
    react-Handled (Reaction.finish res) s w h = h
    react-Handled Reaction.give_up s w h = h
    react-Handled Reaction.waits s w h = h
    react-Handled (Reaction.read next) s w h = react-Handled (next w) s w h
    react-Handled (Reaction.write w' next) s w h = react-Handled next s w' h
    react-Handled (Reaction.ask_aborted next) s w h = react-Handled (next (is_aborted node s)) s w h
    react-Handled (Reaction.exports obj next) s w h =
        let (desc, s', w') = export_object node obj s w in
        react-Handled (next desc) s' w' (kept.exporting obj s w h)
    react-Handled (Reaction.sends_only op next) s w h =
        let (res, s') = deliver_only node s op in react-Handled (next res) s' w (kept.sending s _ h)
    react-Handled (Reaction.sends op next) s w h =
        let (res, s') = deliver node s op in react-Handled (next res) s' w (kept.sending s _ h)
    react-Handled (Reaction.aborts op next) s w h =
        let (res, s') = abort node s op in
        react-Handled (next res) s' w (kept.shutting _ (kept.sending s _ h))

    after_object-Handled : (x : Reacted node) → P x.1 → P (after_object node x).1
    after_object-Handled (gave_up, s, w) h = h
    after_object-Handled (did res, s, w) h = h
    after_object-Handled (waiting, s, w) h = h

    pub handle-Handled :
        (op : Operation Args) (s : Session node) (w : World) → P s → P (handle node op s w).1
    unfolding handle handle_deliver handle_deliver_only
    handle-Handled (Operation.deliver_only del) s w h =
        elim (Bool-cases (nat_beq del.to_desc.position 0)) [
          | inl zero_pos ↦ rw zero_pos h
          | inr other ↦
              rw other (elim (Option-cases (get objects s.exports.exports del.to_desc.position)) [
                | inl e ↦ rw e h
                | inr (obj, e) ↦
                    rw e
                      (after_object-Handled _ (react-Handled (on_deliver_only obj del.args) s w h))
              ])
        ]
    handle-Handled (Operation.deliver del) s w h =
        elim (Bool-cases (nat_beq del.to_desc.position 0)) [
          | inl zero_pos ↦ rw zero_pos h
          | inr other ↦
              rw other (elim (Option-cases (get objects s.exports.exports del.to_desc.position)) [
                | inl e ↦ rw e h
                | inr (obj, e) ↦ rw e (
                    after_object-Handled _
                      (react-Handled (on_deliver obj del.args (resolver_of node del)) s w h))
              ])
        ]
    handle-Handled (Operation.abort op) s w h = kept.shut op.reason s h

  module _ {P : Session node → Type 0} (kept : Kept P) where
    recv_msg-Kept :
        (rounds : ℕ) (s s' : Session node) (res : Result (Error node) (Operation Args))
        → recv_msg node rounds s ≡ some (res, s')
        → P s
        → P s'
    recv_msg-Kept rounds s s' res e h =
        let (reader, same) = recv_msg_leaves rounds s s' res e in rw same (kept.reading reader s h)

    after_turn :
        (t : Turn node × Session node × World) (fuel rounds : ℕ)
        → P t.1
        → ((s : Session node) (w : World) → P s → P (recv_event node fuel rounds s w).1)
        → P (next_turn node fuel rounds t).1
    after_turn (goes_on, s, w) fuel rounds h rest = rest s w h
    after_turn (stays, s, w) fuel rounds h rest = h
    after_turn (breaks outcome, s, w) fuel rounds h rest = h

    recv_event-Kept :
        (fuel rounds : ℕ) (s : Session node) (w : World)
        → P s
        → P (recv_event node fuel rounds s w).1
    unfolding recv_event
    recv_event-Kept zero rounds s w h = h
    recv_event-Kept (suc fuel) rounds s w h = elim (Option-cases (recv_msg node rounds s)) [
      | inl e ↦ rw (e, recv_event) h
      | inr ((err x, s'), e) ↦ rw (e, recv_event) (recv_msg-Kept rounds s s' _ e h)
      | inr ((ok msg, s'), e) ↦
          rw (e, recv_event)
            (after_turn (handle node msg s' w) fuel rounds
              (handle-Handled kept.handled msg s' w (recv_msg-Kept rounds s s' _ e h))
              (λ t v. recv_event-Kept fuel rounds t v))
    ]

    call-Kept : (c : Call) (s : Session node) (w : World) → P s → P (call c (s, w)).0
    unfolding deliver_only deliver abort
    call-Kept (sends_only op) s w h = kept.sending s _ h
    call-Kept (sends op) s w h = kept.sending s _ h
    call-Kept (aborts op) s w h = kept.shutting _ (kept.sending s _ h)
    call-Kept (exports obj) s w h = kept.exporting obj s w h
    call-Kept (receives fuel rounds) s w h = recv_event-Kept fuel rounds s w h
    call-Kept (reacts r) s w h = react-Handled kept.handled r s w h

    pub run-Kept : (cs : List Call) (s : Session node) (w : World) → P s → P (run cs (s, w)).0
    unfolding run
    run-Kept [] s w h = h
    run-Kept (c ∷ cs) s w h = let (s', w') = call c (s, w) in run-Kept cs s' w' (call-Kept c s w h)
