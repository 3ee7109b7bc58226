-- ===== src/Session/Receive.antt =====
-- `recv_event` of src/captp/session/internal.rs: the loop that receives messages, hands deliveries
-- to the exported objects, and returns at a bootstrap call, an abort or an error.
use rexa.Common.{
  ℕ, zero, suc, Option, none, some, Bytes, Result, ok, err, if◌then◌else◌, ◌==◌, nat_beq, bytes_eq,
  codes,
}
use rexa.KeyMap.{get}
use rexa.Msg.{OpDeliverOnly, OpDeliver, Operation}
use rexa.Session.{
  Node, Session, RecvError, ObjectError, GenericResolver, Event, Panic, Outcome, Reaction, event,
  error, panics, fetch, bootstrap, export_object, is_aborted, set_remote_abort, deliver_only,
  deliver, abort, recv_msg, Error,
}

module _ (node : Node) where
  open node use {
    Tree, LexError, Args, pop, as_symbol, IoError, Obj, World, objects, on_deliver_only, on_deliver,
  }

  -- What a delivery to an object comes to: a result, a panic, or no end.
  pub data Delivered : Type 0 where
    did : Result (ObjectError IoError LexError) (Unit {0}) → Delivered
    gave_up : Delivered
    waiting : Delivered

  abbrev pub Reacted : Type 0
  Reacted = Delivered × Session node × World

  -- Carries out what an object does, call by call.
  unfoldable pub react : Reaction Args Obj World IoError LexError → Session node → World → Reacted
  react (Reaction.finish res) s w = (did res, s, w)
  react Reaction.give_up s w = (gave_up, s, w)
  react Reaction.waits s w = (waiting, s, w)
  react (Reaction.read next) s w = react (next w) s w
  react (Reaction.write w' next) s w = react next s w'
  react (Reaction.ask_aborted next) s w = react (next (is_aborted node s)) s w
  react (Reaction.exports obj next) s w =
      let (desc, s', w') = export_object node obj s w in react (next desc) s' w'
  react (Reaction.sends_only op next) s w =
      let (res, s') = deliver_only node s op in react (next res) s' w
  react (Reaction.sends op next) s w = let (res, s') = deliver node s op in react (next res) s' w
  react (Reaction.aborts op next) s w = let (res, s') = abort node s op in react (next res) s' w

  abbrev only_called : Bytes → Outcome (Error node)
  only_called ident =
      if ident == codes "deposit-gift"
      then panics Panic.deposit_gift
      else panics Panic.unrecognized_function

  unfoldable pub bootstrap_deliver_only : Args → Outcome (Error node)
  bootstrap_deliver_only args = elim (pop args) [
    | none ↦ panics Panic.not_a_function
    | some (tree, rest) ↦ elim (as_symbol tree) [
      | none ↦ panics Panic.not_a_function
      | some ident ↦ only_called ident
    ]
  ]

  abbrev fetched : Args → GenericResolver → Outcome (Error node)
  fetched args resolver = elim (pop args) [
    | none ↦ panics Panic.missing_swiss
    | some (tree, rest) ↦ elim (as_symbol tree) [
      | none ↦ panics Panic.malformed_swiss
      | some swiss ↦ event (bootstrap (fetch swiss (record { base = resolver })))
    ]
  ]

  abbrev called : Bytes → Args → GenericResolver → Outcome (Error node)
  called ident args resolver =
      if ident == codes "fetch"
      then fetched args resolver
      else if ident == codes "withdraw-gift"
      then panics Panic.withdraw_gift
      else panics Panic.unrecognized_function

  unfoldable pub bootstrap_deliver : Args → GenericResolver → Outcome (Error node)
  bootstrap_deliver args resolver = elim (pop args) [
    | none ↦ panics Panic.not_a_function
    | some (tree, rest) ↦ elim (as_symbol tree) [
      | none ↦ panics Panic.not_a_function
      | some ident ↦ called ident rest resolver
    ]
  ]

  -- What one round of the loop comes to: it goes on, stays at the `await` of a delivery, or breaks with
  -- an outcome.
  pub data Turn : Type 0 where
    goes_on : Turn
    stays : Turn
    breaks : Outcome (Error node) → Turn

  -- An object's error is logged and dropped; its panic is one of the session's task. The loop awaits
  -- the delivery, and holds the entry of the object in the export table meanwhile.
  abbrev pub after_object : Reacted → Turn × Session node × World
  after_object (gave_up, s, w) = (breaks (panics Panic.in_object), s, w)
  after_object (did res, s, w) = (goes_on, s, w)
  after_object (waiting, s, w) = (stays, s, w)

  unfoldable pub handle_deliver_only :
      OpDeliverOnly Args → Session node → World → Turn × Session node × World
  handle_deliver_only del s w =
      let pos = del.to_desc.position in
      if nat_beq pos 0
      then (breaks (bootstrap_deliver_only del.args), s, w)
      else elim (get objects s.exports.exports pos) [
        | some obj ↦ after_object (react (on_deliver_only obj del.args) s w)
        | none ↦ (breaks (error (RecvError.unknown_target pos del.args)), s, w)
      ]

  abbrev pub resolver_of : OpDeliver Args → GenericResolver
  resolver_of del = record { answer_pos = del.answer_pos; resolve_me_desc = del.resolve_me_desc }

  unfoldable pub handle_deliver :
      OpDeliver Args → Session node → World → Turn × Session node × World
  handle_deliver del s w =
      let pos = del.to_desc.position in
      if nat_beq pos 0
      then (breaks (bootstrap_deliver del.args (resolver_of del)), s, w)
      else elim (get objects s.exports.exports pos) [
        | some obj ↦ after_object (react (on_deliver obj del.args (resolver_of del)) s w)
        | none ↦ (breaks (error (RecvError.unknown_target pos del.args)), s, w)
      ]

  unfoldable pub handle : Operation Args → Session node → World → Turn × Session node × World
  handle (Operation.deliver_only del) s w = handle_deliver_only del s w
  handle (Operation.deliver del) s w = handle_deliver del s w
  handle (Operation.abort op) s w =
      (breaks (event (Event.abort op.reason)), set_remote_abort node op.reason s, w)

  -- The outcome, or `none` while the call still waits, and the state then.
  abbrev pub Received : Type 0
  Received = Option (Outcome (Error node)) × Session node × World

  -- At most `fuel` messages, each read in at most `rounds` rounds.
  unfoldable pub recv_event : ℕ → ℕ → Session node → World → Received
  recv_event zero rounds s w = (none, s, w)
  recv_event (suc fuel) rounds s w = elim (recv_msg node rounds s) [
    | none ↦ (none, s, w)
    | some (err e, s') ↦ (some (error e), s', w)
    | some (ok msg, s') ↦
        let (turn, s'', w') = handle msg s' w in
        elim turn [
          | goes_on ↦ recv_event fuel rounds s'' w'
          | stays ↦ (none, s'', w')
          | breaks outcome ↦ (some outcome, s'', w')
        ]
  ]

  -- What a round makes of its turn.
  abbrev pub next_turn : ℕ → ℕ → Turn × Session node × World → Received
  next_turn fuel rounds (turn, s, w) = elim turn [
    | goes_on ↦ recv_event fuel rounds s w
    | stays ↦ (none, s, w)
    | breaks outcome ↦ (some outcome, s, w)
  ]
