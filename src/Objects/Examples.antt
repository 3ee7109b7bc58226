-- ===== src/Objects/Examples.antt =====
-- Promises and bootstrap calls on a concrete node.
use rexa.Common.{◌≡◌, refl, none, [], ◌∷◌, Result, err, arith, codes, nat_eq}
use rexa.DashMap.Assoc.{assoc_laws}
use rexa.KeyMap.Interleaving.{begin}
use rexa.Msg.{export_at, default_import, object, Operation}
use rexa.TestNode.{node_of, fresh}
use rexa.TestNode.Trees.{trees, trees_laws, leaf}
use rexa.Session.{Node, Session, GenericResolver, new_session, new_exports, panics, Panic}
use rexa.Session.Receive.{handle, after_object, react, bootstrap_deliver}
use rexa.Objects.{deliver_and, breaking, fulfillment, PromiseResult}
use rexa.Objects.Answers.{Exported, asks_at, answer_reaches_resolver}
use rexa.Objects.Bootstrap.{fetch_args, fetch_is_malformed}

abbrev node : Node
node = node_of trees

abbrev session : Session node
session = fresh trees ([], [])

session_Exported : Exported node assoc_laws 0 session
unfolding new_session new_exports
session_Exported = begin

abbrev r : GenericResolver
r = record { answer_pos = none; resolve_me_desc = default_import }

abbrev answer : Operation trees.Args
answer = Operation.deliver (
    fulfillment node
      (record { answer_pos = none; resolve_me_desc = object (record { position = 1 }) })
      (trees.sequence (leaf 9 [] ∷ [])) none default_import)

abbrev refusal : Operation trees.Args
refusal = Operation.deliver_only (
    breaking node (record { answer_pos = none; resolve_me_desc = object (record { position = 1 }) })
      (leaf 8 []))

answer_reaches_resolver_example :
    let (res, t, w') = deliver_and node 7 (export_at 4) (trees.sequence []) session [] in
    (t.writer
      ≡ (node.write_all session.writer (
          node.encode
            (node.deliver_tokens (asks_at node assoc_laws 1 (export_at 4) (trees.sequence []))))).1)
    × (handle node answer t w'
        ≡ after_object node (
            react node
              (node.on_deliver 7 (trees.sequence (leaf 0 (codes "fulfill") ∷ leaf 9 [] ∷ [])) r)
              t
              w'))
    × (handle node refusal t w'
        ≡ after_object node (
            react node
              (node.on_deliver_only 7 (trees.sequence (leaf 0 (codes "break") ∷ leaf 8 [] ∷ [])))
              t
              w'))
unfolding new_session
answer_reaches_resolver_example =
    answer_reaches_resolver node assoc_laws 0 7 (export_at 4) (trees.sequence []) (leaf 9 [] ∷ [])
      (leaf 8 []) none default_import (asks_at node assoc_laws 1 (export_at 4) (trees.sequence []))
      answer refusal session [] trees_laws session_Exported (omega arith) refl refl
      (trees_laws.decode-deliver _) (trees_laws.decode-deliver _) (trees_laws.decode-deliver_only _)

abbrev gone : Unit {0} → PromiseResult node → Result (PromiseResult node) (Unit {0})
gone sender res = err res

fetch_is_malformed_example :
    bootstrap_deliver node (fetch_args node (1 ∷ 2 ∷ [])) r ≡ panics Panic.malformed_swiss
fetch_is_malformed_example = (fetch_is_malformed node (1 ∷ 2 ∷ []) r trees_laws).0
