-- ===== src/Objects.antt =====
-- src/captp/object.rs, src/captp/object/bootstrap.rs, src/captp/session/resolver.rs and
-- `deliver_and` of src/captp/session/traits.rs: what a node does with the objects and promises of
-- its peer. A remote object's `session` is the session argument.
pub mod Answers
pub mod Promises
pub mod Bootstrap
pub mod Examples
use rexa.Common.{
  ℕ, Option, none, some, Bytes, List, [], ◌∷◌, Result, ok, err, map_err, codes, ◌>>=◌,
}
use rexa.Msg.{
  DescExport, DescImport, DescImportObject, object, OpDeliverOnly, OpDeliver, export_at,
  import_position, DescHandoffReceive, deliver_only_new, deliver_new,
}
use rexa.Session.{
  Node, Session, SendResult, SendError, ObjectError, GenericResolver, FetchResolver, deliver_only,
  deliver, export_object,
}

pub record RemoteObject : Type 0 where
  pub position : DescExport

module _ (node : Node) where
  open node use {
    Tree, Args, IoError, LexError, DecodeError, Obj, World, VerifyingKey, symbol, string,
    byte_string, integer, sequence, call_sequence, insert_front, import_tokens, require_export,
  }

  -- `GenericResolver::position`
  abbrev pub position : GenericResolver → DescExport
  position r = export_at (import_position r.resolve_me_desc)

  -- The message that `fulfill` delivers.
  abbrev pub fulfillment : GenericResolver → Args → Option ℕ → DescImport → OpDeliver Args
  fulfillment r args answer_pos resolve_me_desc =
      deliver_new (position r) (insert_front (symbol (codes "fulfill")) args) answer_pos
        resolve_me_desc

  pub fulfill :
      GenericResolver → Args → Option ℕ → DescImport → Session node → SendResult node × Session node
  fulfill r args answer_pos resolve_me_desc s =
      deliver node s (fulfillment r args answer_pos resolve_me_desc)

  -- The message that `break_promise` delivers.
  abbrev pub breaking : GenericResolver → Tree → OpDeliverOnly Args
  breaking r error = deliver_only_new (position r) (sequence (symbol (codes "break") ∷ error ∷ []))

  unfoldable pub break_promise :
      GenericResolver → Tree → Session node → SendResult node × Session node
  break_promise r error s = deliver_only node s (breaking r error)

  -- The message of `deliver_and`: the resolver exported at `pos` is to be told the answer.
  abbrev pub request : DescExport → Args → DescImportObject → OpDeliver Args
  request to_desc args pos = deliver_new to_desc args none (object pos)

  -- `deliver_and` up to its wait: `resolver` is the object that `Resolver::new` makes.
  unfoldable pub deliver_and :
      Obj → DescExport → Args → Session node → World → SendResult node × Session node × World
  deliver_and resolver to_desc args s w =
      let (pos, s', w') = export_object node resolver s w in
      let (res, s'') = deliver node s' (request to_desc args pos) in (res, s'', w')

  pub data DeliverError (RecvError : Type 0) : Type 0 where
    send : SendError IoError → DeliverError RecvError
    recv : RecvError → DeliverError RecvError
    broken : Tree → DeliverError RecvError

  abbrev pub PromiseResult : Type 0
  PromiseResult = Result Tree Args

  -- The rest of `deliver_and`: `sent` is the result of the send, and `answer` what the channel
  -- gave.
  unfoldable pub answered :
      {RecvError : Type 0}
      → SendResult node
      → Result RecvError PromiseResult
      → Result (DeliverError RecvError) Args
  answered (err e) answer = err (DeliverError.send e)
  answered (ok done) (err e) = err (DeliverError.recv e)
  answered (ok done) (ok res) = map_err DeliverError.broken res

  pub fulfill_and :
      Obj → GenericResolver → Args → Session node → World → SendResult node × Session node × World
  fulfill_and resolver r args s w =
      deliver_and resolver (position r) (insert_front (symbol (codes "fulfill")) args) s w

  -- `FetchResolver`
  pub fetch_fulfill :
      FetchResolver
      → DescExport
      → Option ℕ
      → DescImport
      → Session node
      → SendResult node × Session node
  fetch_fulfill r pos answer_pos resolve_me_desc s =
      fulfill r.base (sequence (node.export_tokens pos ∷ [])) answer_pos resolve_me_desc s

  pub fetch_fulfill_and :
      Obj
      → FetchResolver
      → DescExport
      → Session node
      → World
      → SendResult node × Session node × World
  fetch_fulfill_and resolver r pos s w =
      fulfill_and resolver r.base (sequence (node.export_tokens pos ∷ [])) s w

  pub fetch_break : FetchResolver → Tree → Session node → SendResult node × Session node
  fetch_break r error s = break_promise r.base error s

  abbrev pub only_message : RemoteObject → Args → OpDeliverOnly Args
  only_message o args = deliver_only_new o.position args

  pub object_deliver_only : RemoteObject → Args → Session node → SendResult node × Session node
  object_deliver_only o args s = deliver_only node s (only_message o args)

  abbrev pub object_message : RemoteObject → Args → Option ℕ → DescImport → OpDeliver Args
  object_message o args answer_pos resolve_me_desc =
      deliver_new o.position args answer_pos resolve_me_desc

  pub object_deliver :
      RemoteObject → Args → Option ℕ → DescImport → Session node → SendResult node × Session node
  object_deliver o args answer_pos resolve_me_desc s =
      deliver node s (object_message o args answer_pos resolve_me_desc)

  pub object_deliver_and :
      Obj → RemoteObject → Args → Session node → World → SendResult node × Session node × World
  object_deliver_and resolver o args s w = deliver_and resolver o.position args s w
