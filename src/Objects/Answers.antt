-- ===== src/Objects/Answers.antt =====
-- Promises across the wire: where the answer to a `deliver_and` goes.
use rexa.Common.{
  ℕ, ◌+◌, ◌<◌, ◌≡◌, ◌≢◌, false, Option, none, some, List, [], ◌∷◌, arith, codes, nat_beq, nat_eq,
  ap, sym, ◌∙◌, ok, ok_inj, map_err,
}
use rexa.DashMap.{MapLaws}
use rexa.KeyMap.{get, u64_mod, reserve, finalize}
use rexa.KeyMap.Interleaving.{Reach, next_key_fresh}
use rexa.Msg.{DescExport, DescImport, export_at, OpDeliver, OpDeliverOnly, Operation}
use rexa.Wire.{SyrupLaws}
use rexa.Session.{Node, Session, GenericResolver, SendError, export_object, deliver, send_msg}
use rexa.Session.Receive.{
  handle, handle_deliver, handle_deliver_only, after_object, react, resolver_of,
}
use rexa.Objects.{deliver_and, request, fulfillment, breaking}

deliver_inj : {A : Type 0} {a b : OpDeliver A} → Operation.deliver a ≡ Operation.deliver b → a ≡ b
deliver_inj e = cc

module _ (node : Node) (laws : MapLaws node.objects) where
  open node use {
    Tree, Args, Obj, World, objects, on_deliver, on_deliver_only, on_exported, sequence, symbol,
    encode, deliver_tokens, deliver_only_tokens, decode_operation, write_all,
  }

  -- The session's export table after `n` positions were handed out, by tasks in any order, and none
  -- of them is still reserved.
  abbrev pub Exported : ℕ → Session node → Type 0
  Exported n s = Reach objects 1 n (record { keys = s.exports.exports; pending = λ _. false })

  -- After `n` positions were handed out by exports in any order, none of them still reserved, and
  -- without a wrap of the counter, the next export gets the position `1 + n`: not the bootstrap
  -- object's, and free. The object hears it, is found there afterwards, and what is found at any
  -- other position stays.
  export_object_at :
      (n j : ℕ) (obj : Obj) (s : Session node) (w : World)
      → Exported n s
      → 1 + n < u64_mod
      → 1 + n ≢ j
      → let (desc, t, w') = export_object node obj s w in
        (desc.position ≡ 1 + n)
        × (get objects s.exports.exports (1 + n) ≡ none)
        × (get objects t.exports.exports (1 + n) ≡ some obj)
        × (get objects t.exports.exports j ≡ get objects s.exports.exports j)
        × (w' ≡ on_exported obj s.exports.remote_vkey (export_at (1 + n)) w)
  unfolding export_object reserve finalize get
  export_object_at n j obj s w r fits h =
      let (key, pushed, free, unreserved) = next_key_fresh objects laws 1 obj r fits in
      let exports = s.exports.exports in
      (
        key,
        free,
        ground (arith, key, laws.get-insert exports.map exports.current_key (1 + n) obj),
        ground (arith, key, laws.get-insert exports.map exports.current_key j obj),
        ap (λ (k : ℕ). on_exported obj s.exports.remote_vkey (export_at k) w) key,
      )

  handle_deliver_at :
      (del : OpDeliver Args) (obj : Obj) (t : Session node) (w : World)
      → nat_beq del.to_desc.position 0 ≡ false
      → get objects t.exports.exports del.to_desc.position ≡ some obj
      → handle_deliver node del t w
        ≡ after_object node (react node (on_deliver obj del.args (resolver_of node del)) t w)
  unfolding handle_deliver
  handle_deliver_at del obj t w other found = rw (other, found)

  handle_deliver_only_at :
      (del : OpDeliverOnly Args) (obj : Obj) (t : Session node) (w : World)
      → nat_beq del.to_desc.position 0 ≡ false
      → get objects t.exports.exports del.to_desc.position ≡ some obj
      → handle_deliver_only node del t w
        ≡ after_object node (react node (on_deliver_only obj del.args) t w)
  unfolding handle_deliver_only
  handle_deliver_only_at del obj t w other found = rw (other, found)

  -- On a live session `deliver_and` exports its resolver and then writes the request.
  deliver_and-live :
      (resolver : Obj) (to_desc : DescExport) (args : Args) (s : Session node) (w : World)
      → s.aborted_locally ≡ false
      → s.aborted_by_remote ≡ none
      → let (pos, t, w') = export_object node resolver s w in
        let sent = write_all s.writer (encode (deliver_tokens (request node to_desc args pos))) in
        deliver_and node resolver to_desc args s w
        ≡ (map_err SendError.io_failed sent.0, record t { writer = sent.1 }, w')
  unfolding deliver_and deliver send_msg export_object
  deliver_and-live resolver to_desc args s w live heard = ground arith

  -- The request for the resolver at a position.
  abbrev pub asks_at : ℕ → DescExport → Args → OpDeliver Args
  asks_at pos to_desc args = request node to_desc args (record { position = pos })

  -- The way back of an answer, on a live session as `export_object_at` takes it, if the codecs meet
  -- their laws. `deliver_and` exports its resolver and writes a request that names its position
  -- `1 + n`. When the peer fulfills the promise of the request that it has decoded, the message that
  -- the asker decodes goes to `deliver` of this resolver, with the answer behind the symbol
  -- `fulfill`. When the peer breaks it, the message goes to the resolver's `deliver_only`, with the
  -- symbol `break` and the error.
  pub answer_reaches_resolver :
      (n : ℕ) (resolver : Obj) (to_desc : DescExport) (args : Args) (ts : List Tree) (error : Tree)
      (ans : Option ℕ) (desc : DescImport) (asked : OpDeliver Args)
      (fulfilled broken : Operation Args) (s : Session node) (w : World)
      → SyrupLaws node.syrup
      → Exported n s
      → 1 + n < u64_mod
      → s.aborted_locally ≡ false
      → s.aborted_by_remote ≡ none
      → decode_operation (deliver_tokens (asks_at (1 + n) to_desc args))
        ≡ ok (Operation.deliver asked)
      → decode_operation
          (deliver_tokens (fulfillment node (resolver_of node asked) (sequence ts) ans desc))
        ≡ ok fulfilled
      → decode_operation (deliver_only_tokens (breaking node (resolver_of node asked) error))
        ≡ ok broken
      → let (res, t, w') = deliver_and node resolver to_desc args s w in
        (t.writer ≡ (write_all s.writer (encode (deliver_tokens (asks_at (1 + n) to_desc args)))).1)
        × (handle node fulfilled t w'
            ≡ after_object node (
                react node
                  (on_deliver resolver
                    (sequence (symbol (codes "fulfill") ∷ ts))
                    (record { answer_pos = ans; resolve_me_desc = desc }))
                  t
                  w'))
        × (handle node broken t w'
            ≡ after_object node (
                react node
                  (on_deliver_only resolver (sequence (symbol (codes "break") ∷ error ∷ [])))
                  t
                  w'))
  unfolding handle
  answer_reaches_resolver n resolver to_desc args ts error ans desc asked fulfilled broken s w syr r
        fits live heard at_peer back back' =
      let (pos, t, w') = export_object node resolver s w in
      let (at, free, found, rest, told) = export_object_at n 0 resolver s w r fits (omega arith) in
      let q : GenericResolver = resolver_of node (asks_at (1 + n) to_desc args) in
      let bytes = encode (deliver_tokens (request node to_desc args pos)) in
      let u : Session node = record t { writer = (write_all s.writer bytes).1 } in
      let same : asked ≡ asks_at (1 + n) to_desc args =
        deliver_inj (ok_inj (sym at_peer ∙ syr.decode-deliver (asks_at (1 + n) to_desc args))) in
      let is : fulfilled ≡ Operation.deliver (fulfillment node q (sequence ts) ans desc) = ok_inj (
        sym back
        ∙ syr.decode-deliver _
        ∙ ap
            (λ a.
              ok (Operation.deliver (fulfillment node (resolver_of node a) (sequence ts) ans desc)))
            same) in
      let is' : broken ≡ Operation.deliver_only (breaking node q error) = ok_inj (
        sym back'
        ∙ syr.decode-deliver_only _
        ∙ ap (λ a. ok (Operation.deliver_only (breaking node (resolver_of node a) error))) same) in
      rw (deliver_and-live resolver to_desc args s w live heard) (
        ap (λ (k : ℕ). (write_all s.writer (encode (deliver_tokens (asks_at k to_desc args)))).1)
            at,
        rw (is, ← syr.insert_front-sequence (symbol (codes "fulfill")) ts)
            (handle_deliver_at (fulfillment node q (sequence ts) ans desc) resolver u w'
              (ground arith) found),
        rw is' (handle_deliver_only_at (breaking node q error) resolver u w' (ground arith) found),
      )
