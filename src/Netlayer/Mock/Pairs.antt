-- ===== src/Netlayer/Mock/Pairs.antt =====
-- lib/rexa-netlayer-mock/src/lib.rs and src/captp/session/builder.rs together: `connect` of one
-- mock netlayer and `accept` of another.
use rexa.Common.{
  sym, subst, ◌≡◌, ap, ℕ, suc, true, none, some, Bytes, List, [], ◌∷◌, ok, nat_eq, bytes_eq, arith,
  same_refl,
}
use rexa.DashMap.Assoc.{lookup, without}
use rexa.Locator.{NodeLocator, new}
use rexa.Session.{Node, Session}
use rexa.Handshake.{Keys, get, and_connect}
use rexa.Handshake.Honest.{KeysLaws, Link, Pairs, both_connect}
use rexa.Netlayer.Contract.{connected}
use rexa.Netlayer.Mock.{MockNetlayer, Process, request_stream}
use rexa.Netlayer.Mock.Start.{
  Halves, MockEnd, Answer, connect, accept, accept_next, start, builder, own_locator, of_started,
  requested, answered,
}

module _ (node : Node) (keys : Keys node) (laws : KeysLaws node keys) where
  open keys use {verifying_key}

  -- A call that has returned a session with the peer, which the manager finds.
  pub record Meets (answer : Answer node keys) (p : Process) (peer_key : node.SigningKey)
      (peer : NodeLocator) : Type 0 where
    pub session : Session node
    pub end : MockEnd node keys
    pub succeeds : answer ≡ some (connected session, (end, p))
    pub knows_key : session.remote_vkey ≡ verifying_key peer_key
    pub knows_location : session.remote_locator ≡ peer
    pub is_found : get node end.manager peer.designator ≡ some session

  start-Meets :
      (fuel : ℕ) (key peer_key : node.SigningKey) (e : MockEnd node keys) (p : Process)
      (halves : Halves node keys) (peer : NodeLocator)
      → Pairs node keys laws
          (and_connect node keys fuel (builder node keys key e halves) (own_locator node keys e))
          peer_key
          peer
      → Meets (start node keys fuel key e p halves) p peer_key peer
  unfolding start
  start-Meets fuel key peer_key e p halves peer pairs = record {
    session = pairs.session;
    end = record e { manager = pairs.after.manager };
    succeeds = ap (of_started node keys e p) pairs.succeeds;
    knows_key = pairs.knows_key;
    knows_location = pairs.knows_location;
    is_found = pairs.is_found;
  }

  -- The process when one request waits for the netlayer, and when it has been taken.
  abbrev waiting : List ℕ → ℕ → MockNetlayer → Process → Process
  waiting requests id net p = record p {
    alive = (id, record net { requests = requests }) ∷ without id p.alive;
  }

  request_taken :
      (channel id : ℕ) (name : Bytes) (net : MockNetlayer) (p : Process)
      → lookup name p.registry ≡ some id
      → lookup id p.alive ≡ some net
      → net.requests ≡ []
      → request_stream channel name p ≡ (ok tt, waiting (channel ∷ []) id net p)
  unfolding request_stream
  request_taken channel id name net p registered alive idle = ground (arith, idle)

  connect-start :
      (fuel channel id : ℕ) (key : node.SigningKey) (c a : MockEnd node keys)
      (halves : Halves node keys) (net : MockNetlayer) (p : Process)
      → get node c.manager a.name ≡ none
      → lookup a.name p.registry ≡ some id
      → lookup id p.alive ≡ some net
      → net.requests ≡ []
      → connect node keys fuel key channel (some halves) (c, p) (own_locator node keys a)
        ≡ start node keys fuel key c (waiting (channel ∷ []) id net p) halves
  unfolding connect requested answered own_locator new
  connect-start fuel channel id key c a halves net p unknown registered alive idle =
      ground (arith, unknown, request_taken channel id a.name net p registered alive idle)

  accept-start :
      (fuel channel id : ℕ) (key : node.SigningKey) (a : MockEnd node keys)
      (halves : Halves node keys) (net : MockNetlayer) (p : Process)
      → accept node keys fuel key halves true id (a, waiting (channel ∷ []) id net p)
        ≡ start node keys fuel key a (waiting [] id net (waiting (channel ∷ []) id net p)) halves
  unfolding accept accept_next
  accept-start fuel channel id key a halves net p = ground (arith, same_refl {K = ℕ} id)

  -- A mock netlayer that connects to the name of another one, which is alive and has no request
  -- waiting, and the `accept` that takes this request both return a session, if neither has trouble
  -- with writing and each finds the other's start message first in its pipe: each session has the
  -- other's public key and locator, and its netlayer's manager finds it.
  mock_sides_meet :
      (fuel channel id : ℕ) (key_c key_a : node.SigningKey) (c a : MockEnd node keys)
      (halves_c halves_a : Halves node keys) (net : MockNetlayer) (p : Process)
      → get node c.manager a.name ≡ none
      → lookup a.name p.registry ≡ some id
      → lookup id p.alive ≡ some net
      → net.requests ≡ []
      → Link node keys laws
          (builder node keys key_c c halves_c)
          (own_locator node keys c)
          key_a
          (own_locator node keys a)
      → Link node keys laws
          (builder node keys key_a a halves_a)
          (own_locator node keys a)
          key_c
          (own_locator node keys c)
      → (requested : Process) × (after : Process) × Meets
          (connect node keys
            (suc fuel)
            key_c
            channel
            (some halves_c)
            (c, p)
            (own_locator node keys a))
          requested
          key_a
          (own_locator node keys a)
        × Meets
            (accept node keys (suc fuel) key_a halves_a true id (a, requested))
            after
            key_c
            (own_locator node keys c)
  unfolding builder
  mock_sides_meet fuel channel id key_c key_a c a halves_c halves_a net p unknown registered alive
        idle lc la =
      let asked = waiting (channel ∷ []) id net p in
      let taken = waiting [] id net asked in
      let (pair_c, pair_a) =
        both_connect node keys laws fuel (builder node keys key_c c halves_c)
          (builder node keys key_a a halves_a) (own_locator node keys c) (own_locator node keys a)
          lc la in
      (
        asked,
        taken,
        subst (λ x. Meets x asked key_a (own_locator node keys a))
            (sym (
              connect-start (suc fuel) channel id key_c c a halves_c net p unknown registered alive
                idle))
            (start-Meets (suc fuel) key_c key_a c asked halves_c (own_locator node keys a) pair_c),
        subst (λ x. Meets x taken key_c (own_locator node keys c))
            (sym (accept-start (suc fuel) channel id key_a a halves_a net p))
            (start-Meets (suc fuel) key_a key_c a taken halves_a (own_locator node keys c) pair_a),
      )
