-- ===== src/Objects/Bootstrap.antt =====
-- src/captp/object/bootstrap.rs: the calls on the peer's bootstrap object, and how a peer that runs
-- this crate takes them (`bootstrap_deliver` and `bootstrap_deliver_only` of
-- src/captp/session/internal.rs).
use rexa.Common.{
  ℕ, ◌≡◌, refl, Option, none, some, Bytes, List, [], ◌∷◌, Result, ok, err, codes, arith, bytes_eq,
  ◌∙◌,
}
use rexa.Msg.{DescImport, DescHandoffReceive, export_at}
use rexa.Wire.{SyrupLaws}
use rexa.Session.{
  Node, Session, SendResult, GenericResolver, panics, event, fetch, bootstrap, Panic,
}
use rexa.Session.Receive.{bootstrap_deliver, bootstrap_deliver_only}
use rexa.Objects.{
  RemoteObject, DeliverError, object_deliver, object_deliver_only, object_deliver_and,
}

module _ (node : Node) where
  open node use {
    Tree, Args, DecodeError, Obj, World, VerifyingKey, byte_string, integer, symbol, call_sequence,
    import_tokens, require_export, sequence,
  }

  pub record RemoteBootstrap : Type 0 where
    pub base : RemoteObject

  -- `RemoteBootstrap::new`
  abbrev pub bootstrap_object : RemoteBootstrap
  bootstrap_object = record { base = record { position = export_at 0 } }

  abbrev pub fetch_args : Bytes → Args
  fetch_args swiss_number = call_sequence (codes "fetch") (byte_string swiss_number ∷ [])

  -- `fetch` up to its wait.
  pub fetch_start :
      Obj → RemoteBootstrap → Bytes → Session node → World → SendResult node × Session node × World
  fetch_start resolver b swiss_number s w =
      object_deliver_and node resolver b.base (fetch_args swiss_number) s w

  pub data FetchError (RecvError : Type 0) : Type 0 where
    deliver : DeliverError node RecvError → FetchError RecvError
    syrup : DecodeError → FetchError RecvError

  -- The rest of `fetch`: the descriptor in the answer.
  pub fetch_finish :
      {RecvError : Type 0}
      → Result (DeliverError node RecvError) Args
      → Result (FetchError RecvError) RemoteObject
  fetch_finish (err e) = err (FetchError.deliver e)
  fetch_finish (ok args) = elim (require_export args) [
    | err e ↦ err (FetchError.syrup e)
    | ok position ↦ ok (record { position = position })
  ]

  pub fetch_to :
      RemoteBootstrap
      → Bytes
      → Option ℕ
      → DescImport
      → Session node
      → SendResult node × Session node
  fetch_to b swiss_number answer_pos resolve_me_desc s =
      object_deliver node b.base (fetch_args swiss_number) answer_pos resolve_me_desc s

  abbrev pub deposit_args : ℕ → DescImport → Args
  deposit_args gift_id desc =
      call_sequence (codes "deposit_gift") (integer gift_id ∷ import_tokens desc ∷ [])

  pub deposit_gift :
      RemoteBootstrap → ℕ → DescImport → Session node → SendResult node × Session node
  deposit_gift b gift_id desc s = object_deliver_only node b.base (deposit_args gift_id desc) s

  abbrev pub withdraw_args :
      (DescHandoffReceive VerifyingKey → Tree) → DescHandoffReceive VerifyingKey → Args
  withdraw_args tokens handoff_receive =
      call_sequence (codes "withdraw_gift") (tokens handoff_receive ∷ [])

  pub withdraw_gift :
      (DescHandoffReceive VerifyingKey → Tree)
      → RemoteBootstrap
      → DescHandoffReceive VerifyingKey
      → Option ℕ
      → DescImport
      → Session node
      → SendResult node × Session node
  withdraw_gift tokens b handoff_receive answer_pos resolve_me_desc s =
      object_deliver node b.base (withdraw_args tokens handoff_receive) answer_pos resolve_me_desc s

  call_fetch :
      (t : Tree) (rest : List Tree) (r : GenericResolver)
      → SyrupLaws node.syrup
      → bootstrap_deliver node (call_sequence (codes "fetch") (t ∷ rest)) r
        ≡ elim (node.as_symbol t) [
          | none ↦ panics Panic.malformed_swiss
          | some swiss ↦ event (bootstrap (fetch swiss (record { base = r })))
        ]
  unfolding bootstrap_deliver
  call_fetch t rest r laws = ground (
    arith,
    laws.call-sequence (codes "fetch") (t ∷ rest),
    laws.pop-cons (symbol (codes "fetch")) (t ∷ rest),
    laws.symbol_lem (codes "fetch"),
    laws.pop-cons t rest,
  )

  -- A `fetch` of this crate is not understood by a peer that runs this crate. The swiss number goes
  -- out as a byte string, and the peer, which wants a symbol, panics at it whatever the number and
  -- the resolver are. The same call with the number as a symbol is the event that hands the peer's
  -- application this number and the resolver.
  pub fetch_is_malformed :
      (swiss : Bytes) (r : GenericResolver)
      → SyrupLaws node.syrup
      → (bootstrap_deliver node (fetch_args swiss) r ≡ panics Panic.malformed_swiss)
        × (bootstrap_deliver node (call_sequence (codes "fetch") (symbol swiss ∷ [])) r
            ≡ event (bootstrap (fetch swiss (record { base = r }))))
  fetch_is_malformed swiss r laws = (
    call_fetch (byte_string swiss) [] r laws ∙ rw (laws.byte_string_not_symbol swiss) refl,
    call_fetch (symbol swiss) [] r laws ∙ rw (laws.symbol_lem swiss) refl,
  )

  -- The peer does not know the names under which `deposit_gift` and `withdraw_gift` call it: both
  -- end at the panic for an unrecognized function, and not at the one for the gift of that name.
  gift_is_unrecognized :
      (gift_id : ℕ) (desc : DescImport) (tokens : DescHandoffReceive VerifyingKey → Tree)
      (handoff : DescHandoffReceive VerifyingKey) (r : GenericResolver)
      → SyrupLaws node.syrup
      → (bootstrap_deliver_only node (deposit_args gift_id desc)
          ≡ panics Panic.unrecognized_function)
        × (bootstrap_deliver node (withdraw_args tokens handoff) r
            ≡ panics Panic.unrecognized_function)
  unfolding bootstrap_deliver bootstrap_deliver_only
  gift_is_unrecognized gift_id desc tokens handoff r laws = (
    rw (
      laws.call-sequence (codes "deposit_gift"),
      laws.pop-cons,
      laws.symbol_lem,
      bootstrap_deliver_only,
    ),
    rw (
      laws.call-sequence (codes "withdraw_gift"),
      laws.pop-cons,
      laws.symbol_lem,
      bootstrap_deliver,
    ),
  )
