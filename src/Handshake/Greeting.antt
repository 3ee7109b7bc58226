-- ===== src/Handshake/Greeting.antt =====
-- src/captp/session/builder.rs: the start messages of two sides that run this code, whose writes do
-- not fail, as a session's first bytes.
use rexa.Common.{ℕ, ◌≡◌, ap, ◌∙◌, some, Bytes, [], ◌++◌, ok, arith}
use rexa.Reader.{consume_syrup}
use rexa.Locator.{NodeLocator}
use rexa.Session.{Node}
use rexa.Session.Fifo.{Sink}
use rexa.Handshake.{
  Keys, CapTpSessionBuilder, Started, and_accept, and_connect, recv_start_session, send_start,
  start_bytes, generate_start_msg, finish, next, await,
}
use rexa.Handshake.Honest.{KeysLaws, check_own}

module _ (node : Node) (keys : Keys node) where
  open node use {Tree, Writer}

  abbrev pub Start : node.SigningKey → NodeLocator → Tree
  Start k loc = keys.start_tokens (generate_start_msg node keys k loc)

  abbrev pub paired : node.VerifyingKey × NodeLocator → CapTpSessionBuilder node → Started node keys
  paired remote b' = some (finish node keys remote b')

  -- The writer after a start message.
  abbrev pub greets : Writer → Bytes → Writer
  greets w msg = (node.flush (node.write_all w msg).1).1

  module _ (sink : Sink node) where
    -- A sink whose writes and flushes do not fail.
    pub record Reliable : Type 0 where
      pub write_ok : (w : Writer) (bytes : Bytes) → (node.write_all w bytes).0 ≡ ok tt
      pub flush_ok : (w : Writer) → (node.flush w).0 ≡ ok tt
      pub written-flush : (w : Writer) → sink.written (node.flush w).1 ≡ sink.written w

    module _ (laws : KeysLaws node keys) (reliable : Reliable) where
      open reliable use {write_ok, flush_ok, written-flush}

      greets_lem :
          (msg : Bytes) (x : CapTpSessionBuilder node)
          → send_start node keys msg x ≡ (ok tt, record x { writer = greets x.writer msg })
      unfolding send_start
      greets_lem msg x =
          ground (arith, write_ok x.writer msg, flush_ok (node.write_all x.writer msg).1)

      pub written-greets :
          (w : Writer) (msg : Bytes) → sink.written w ≡ [] → sink.written (greets w msg) ≡ msg
      written-greets w msg e =
          written-flush (node.write_all w msg).1 ∙ sink.writes w msg ∙ ap (λ bs. bs ++ msg) e

      recv_start :
          (fuel : ℕ) (x : CapTpSessionBuilder node) (k : node.SigningKey) (loc : NodeLocator)
          (r : node.Reader)
          → consume_syrup node.tok node.str fuel x.reader ≡ some (ok (Start k loc), r)
          → recv_start_session node keys fuel x
            ≡ some (ok (keys.verifying_key k, loc), record x { reader = r })
      unfolding recv_start_session
      recv_start fuel x k loc r e = ground (
        arith,
        e,
        laws.decode_start-tokens (generate_start_msg node keys k loc),
        check_own node keys laws k loc,
      )

      module _ (fuel : ℕ) (x : CapTpSessionBuilder node) (own : NodeLocator) (k : node.SigningKey)
          (peer : NodeLocator) (r : node.Reader)
          (first : consume_syrup node.tok node.str fuel x.reader
            ≡ some (ok (Start k peer), r)) where
        abbrev greeting : Bytes
        greeting = start_bytes node keys x.signing_key own

        abbrev settled : CapTpSessionBuilder node
        settled = record x { reader = r; writer = greets x.writer greeting }

        pub connected :
            and_connect node keys fuel x own ≡ paired (keys.verifying_key k, peer) settled
        unfolding and_connect
        connected =
            ap
              (λ y.
                next node keys y
                  (λ _ b'. await node keys (recv_start_session node keys fuel b') paired))
              (greets_lem greeting x)
            ∙ ap (λ y. await node keys y paired)
                (recv_start fuel (record x { writer = greets x.writer greeting }) k peer r first)

        pub accepted : and_accept node keys fuel x own ≡ paired (keys.verifying_key k, peer) settled
        unfolding and_accept
        accepted =
            ap
              (λ y. await node keys y (λ remote b'.
                next node keys (send_start node keys greeting b') (λ _. paired remote)))
              (recv_start fuel x k peer r first)
            ∙ ap (λ y. next node keys y (λ _. paired (keys.verifying_key k, peer)))
                (greets_lem greeting (record x { reader = r }))
