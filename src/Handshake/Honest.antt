-- ===== src/Handshake/Honest.antt =====
-- src/captp/session/builder.rs: the handshake of two sides that both run this code.
use rexa.Common.{
  ℕ, suc, ◌-◌, ◌≡◌, refl, sym, subst, ap, ◌∙◌, false, Option, some, Bytes, ◌++◌, Result, ok, arith,
  length, length-append, bytes_eq, same_refl,
}
use rexa.Reader.{consume_syrup, try_consume_syrup}
use rexa.Locator.{NodeLocator}
use rexa.Msg.{start_session}
use rexa.Session.{Node, Session, new_session, is_aborted}
use rexa.Handshake.{
  Keys, CapTpSessionBuilder, Start, InitError, finalize_session, and_accept, and_connect,
  check_start, recv_start_session, send_start, verify_location, finish, start_bytes,
  generate_start_msg, next, await, Started, get,
}

module _ (node : Node) (keys : Keys node) where
  open keys use {verifying_key, verify_strict, sign, start_tokens, decode_start}

  -- What the code relies on: a value's bytes are read back in front of any others, a start
  -- message's value is decoded to it, and what a key signed is verified by its public half.
  pub record KeysLaws : Type 0 where
    pub tokenize-encode :
        (t : node.Tree) (rest : Bytes) → node.tokenize (node.encode t ++ rest) ≡ ok (t, rest)
    pub decode_start-tokens : (msg : Start node keys) → decode_start (start_tokens msg) ≡ ok msg
    pub verify-sign :
        (k : node.SigningKey) (bytes : Bytes)
        → verify_strict (verifying_key k) bytes (sign k bytes) ≡ ok tt

  module _ (laws : KeysLaws) where
    open laws use {tokenize-encode, decode_start-tokens, verify-sign}

    rest_length : (xs ys : Bytes) → length (xs ++ ys) - length ys ≡ length xs
    rest_length xs ys = omega (arith, length-append {0} xs ys)

    read_tree :
        (fuel : ℕ) (r r' : node.Reader) (t : node.Tree) (rest : Bytes)
        → node.fill_buf r ≡ (ok (node.encode t ++ rest), r')
        → consume_syrup node.tok node.str (suc fuel) r
          ≡ some (ok t, node.consume r' (length (node.encode t)))
    unfolding consume_syrup try_consume_syrup
    read_tree fuel r r' t rest e =
        ground (arith, tokenize-encode t rest, rest_length (node.encode t) rest)

    pub check_own :
        (k : node.SigningKey) (loc : NodeLocator)
        → check_start node keys (ok (generate_start_msg node keys k loc))
          ≡ ok (verifying_key k, loc)
    unfolding check_start generate_start_msg start_session verify_location
    check_own k loc = ground (arith, verify-sign k (node.encode (keys.locator_tokens loc)))

    -- The peer's start message, first in what the stream holds, is received as its key and
    -- location.
    recv_own :
        (fuel : ℕ) (b : CapTpSessionBuilder node) (r' : node.Reader) (k : node.SigningKey)
        (loc : NodeLocator) (rest : Bytes)
        → node.fill_buf b.reader ≡ (ok (start_bytes node keys k loc ++ rest), r')
        → recv_start_session node keys (suc fuel) b
          ≡ some (
            ok (verifying_key k, loc),
            record b { reader = node.consume r' (length (start_bytes node keys k loc)) },
          )
    unfolding recv_start_session start_bytes
    recv_own fuel b r' k loc rest e =
        let msg = generate_start_msg node keys k loc in
        ground (
          arith,
          read_tree fuel b.reader r' (start_tokens msg) rest e,
          decode_start-tokens msg,
          check_own k loc,
        )

    -- The stream of a side: its own message goes out without an error, and the peer's comes in
    -- first.
    pub record Link (b : CapTpSessionBuilder node) (own : NodeLocator) (peer_key : node.SigningKey)
        (peer : NodeLocator) : Type 0 where
      pub written : node.Writer
      pub flushed : node.Writer
      pub filled : node.Reader
      pub rest : Bytes
      pub write_done :
          node.write_all b.writer (start_bytes node keys b.signing_key own) ≡ (ok tt, written)
      pub flush_done : node.flush written ≡ (ok tt, flushed)
      pub fill_done :
          node.fill_buf b.reader ≡ (ok (start_bytes node keys peer_key peer ++ rest), filled)

    -- A side that has started a session with the peer, which its manager finds.
    pub record Pairs
        (started : Option (Result (InitError node keys) (Session node) × CapTpSessionBuilder node))
        (peer_key : node.SigningKey) (peer : NodeLocator) : Type 0 where
      pub session : Session node
      pub after : CapTpSessionBuilder node
      pub succeeds : started ≡ some (ok session, after)
      pub knows_key : session.remote_vkey ≡ verifying_key peer_key
      pub knows_location : session.remote_locator ≡ peer
      pub is_found : get node after.manager peer.designator ≡ some session
      pub is_open : is_aborted node session ≡ false

    finished :
        (k : node.SigningKey) (loc : NodeLocator) (b : CapTpSessionBuilder node)
        → Pairs (some (finish node keys (verifying_key k, loc) b)) k loc
    unfolding finish finalize_session new_session is_aborted get
    finished k loc b = record {
      session = _;
      after = _;
      succeeds = refl;
      knows_key = refl;
      knows_location = refl;
      is_found = rw (same_refl {K = Bytes} loc.designator) refl;
      is_open = refl;
    }

    module _ (fuel : ℕ) (b : CapTpSessionBuilder node) (own : NodeLocator) (k : node.SigningKey)
        (peer : NodeLocator) (link : Link b own k peer) where
      abbrev taken : node.Reader
      taken = node.consume link.filled (length (start_bytes node keys k peer))

      abbrev pair_up :
          node.VerifyingKey × NodeLocator → CapTpSessionBuilder node → Started node keys
      pair_up remote b' = some (finish node keys remote b')

      sent :
          (r : node.Reader)
          → send_start node keys (start_bytes node keys b.signing_key own) (record b { reader = r })
            ≡ (ok tt, record b { reader = r; writer = link.flushed })
      unfolding send_start
      sent r = ground (arith, link.write_done, link.flush_done)

      received :
          (w : node.Writer)
          → recv_start_session node keys (suc fuel) (record b { writer = w })
            ≡ some (ok (verifying_key k, peer), record b { reader = taken; writer = w })
      received w =
          recv_own fuel (record b { writer = w }) link.filled k peer link.rest link.fill_done

      connected :
          and_connect node keys (suc fuel) b own
          ≡ pair_up (verifying_key k, peer) (record b { reader = taken; writer = link.flushed })
      unfolding and_connect
      connected =
          ap
            (λ x.
              next node keys x
                (λ _ b'. await node keys (recv_start_session node keys (suc fuel) b') pair_up))
            (sent b.reader)
          ∙ ap (λ x. await node keys x pair_up) (received link.flushed)

      accepted :
          and_accept node keys (suc fuel) b own
          ≡ pair_up (verifying_key k, peer) (record b { reader = taken; writer = link.flushed })
      unfolding and_accept
      accepted =
          let msg = start_bytes node keys b.signing_key own in
          ap
            (λ x.
              await node keys x
                (λ remote b'. next node keys (send_start node keys msg b') (λ _. pair_up remote)))
            (received b.writer)
          ∙ ap (λ x. next node keys x (λ _. pair_up (verifying_key k, peer))) (sent taken)

    -- When a side that connects and a side that accepts each have the other's message first in
    -- their stream, and writing fails for neither, both start a session: it has the other's public
    -- key and location, it is open, and the manager finds it under the other's designator.
    handshake :
        (fuel : ℕ) (c a : CapTpSessionBuilder node) (at_c at_a : NodeLocator)
        → Link c at_c a.signing_key at_a
        → Link a at_a c.signing_key at_c
        → Pairs (and_connect node keys (suc fuel) c at_c) a.signing_key at_a
          × Pairs (and_accept node keys (suc fuel) a at_a) c.signing_key at_c
    handshake fuel c a at_c at_a lc la = (
      subst (λ x. Pairs x a.signing_key at_a) (sym (connected fuel c at_c _ at_a lc))
          (finished a.signing_key at_a _),
      subst (λ x. Pairs x c.signing_key at_c) (sym (accepted fuel a at_a _ at_c la))
          (finished c.signing_key at_c _),
    )

    -- Two sides that both connect, as those of the mock netlayer do, start a session all the same
    -- when each has the other's message first in its stream and writing fails for neither: each has
    -- the other's public key and location, is open, and is found by its manager.
    pub both_connect :
        (fuel : ℕ) (a b : CapTpSessionBuilder node) (at_a at_b : NodeLocator)
        → Link a at_a b.signing_key at_b
        → Link b at_b a.signing_key at_a
        → Pairs (and_connect node keys (suc fuel) a at_a) b.signing_key at_b
          × Pairs (and_connect node keys (suc fuel) b at_b) a.signing_key at_a
    both_connect fuel a b at_a at_b la lb = (
      subst (λ x. Pairs x b.signing_key at_b) (sym (connected fuel a at_a _ at_b la))
          (finished b.signing_key at_b _),
      subst (λ x. Pairs x a.signing_key at_a) (sym (connected fuel b at_b _ at_a lb))
          (finished a.signing_key at_a _),
    )
