-- ===== src/Netlayer/Mock/Examples.antt =====
-- A mock netlayer `c` that connects to the name of another one, `a`.
use rexa.Common.{◌≡◌, refl, ℕ, true, none, Bytes, [], ◌∷◌, ◌++◌, codes}
use rexa.Locator.{new}
use rexa.Msg.{start_session}
use rexa.TestNode.Starts.{node, keys, keys_laws}
use rexa.Handshake.{new_manager, start_bytes, generate_start_msg, init_session}
use rexa.Handshake.Honest.{Link}
use rexa.Netlayer.Mock.{Process}
use rexa.Netlayer.Mock.Start.{Halves, MockEnd, own_locator, builder, accept, accept_next}

abbrev named : Bytes → MockEnd node keys
named name = record { name = name; manager = new_manager node }

abbrev hello : ℕ → Bytes → Bytes
unfolding start_bytes generate_start_msg start_session own_locator new
hello k name = start_bytes node keys k (own_locator node keys (named name)) ++ 5 ∷ []

-- The pipe's end in which the peer's message stands.
abbrev pipe : ℕ → Bytes → Halves node keys
pipe k name = ((hello k name, []), [])

abbrev process : Process
process = record {
  registry = (codes "a", 0) ∷ [];
  alive = (0, record { name = codes "a"; requests = [] }) ∷ [];
  bound = 1;
}

abbrev linked :
    (k peer_key : ℕ) (own peer : Bytes)
    → Link node keys keys_laws
        (builder node keys k (named own) (pipe peer_key peer))
        (own_locator node keys (named own))
        peer_key
        (own_locator node keys (named peer))
unfolding start_bytes generate_start_msg start_session hello builder init_session own_locator new
linked k peer_key own peer = record {
  written = start_bytes node keys k (own_locator node keys (named own));
  flushed = start_bytes node keys k (own_locator node keys (named own));
  filled = (hello peer_key peer, []);
  rest = 5 ∷ [];
  write_done = refl;
  flush_done = refl;
  fill_done = refl;
}

-- Without a request `accept` waits.
accept_waits_test :
    accept node keys 1 9 (pipe 7 (codes "c")) true 0 (named (codes "a"), process) ≡ none
unfolding accept accept_next
accept_waits_test = refl
