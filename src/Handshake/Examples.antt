-- ===== src/Handshake/Examples.antt =====
-- Two nodes that shake hands, and a peer whose signature is wrong.
use rexa.Common.{ℕ, ◌≡◌, refl, some, Bytes, List, [], ◌∷◌, ◌++◌, ok, codes}
use rexa.Locator.{NodeLocator}
use rexa.Session.{Session, new_session}
use rexa.Reader.{consume_syrup, try_consume_syrup}
use rexa.TestNode.Starts.{node, keys, keys_laws}
use rexa.Msg.{start_session, export_at}
use rexa.Handshake.{
  CapTpSessionBuilder, new_manager, finalize_session, and_accept, and_connect, start_bytes,
  generate_start_msg, recv_start_session, check_start, verify_location, send_start, finish,
  init_session,
}
use rexa.Handshake.Signed.{Authentic, accept-Authentic}
use rexa.Handshake.Honest.{Link}
use rexa.Handshake.Greeting.{Reliable}
use rexa.Handshake.Conversation.{Incoming, Carries, conversation}
use rexa.Session.Fifo.{Sink, Message, only}
use rexa.Reader.Chunks.{chunks, chunks_Buffered}
use rexa.TestNode.Frames.{framing, tokenizer}

abbrev at_c : NodeLocator
at_c = record {
  designator = codes "c";
  transport = codes "tcp";
  hints = (codes "port", codes "1") ∷ [];
}

abbrev at_a : NodeLocator
at_a = record { designator = codes "a"; transport = codes "tcp"; hints = [] }

-- What the peer with the key and location sends, with a byte behind it.
abbrev hello : ℕ → NodeLocator → Bytes
unfolding start_bytes generate_start_msg start_session
hello k loc = start_bytes node keys k loc ++ 5 ∷ []

-- A start message that another key than its own has signed.
abbrev forged : Bytes
unfolding generate_start_msg start_session
forged =
    let msg = generate_start_msg node keys 7 at_c in
    node.encode (keys.start_tokens (record msg { session_pubkey = record { ecc = 8 } }))

-- The builder of the key `k` whose reader has the bytes.
abbrev builder : ℕ → Bytes → CapTpSessionBuilder node
unfolding init_session
builder k bytes = init_session node k (new_manager node) (bytes, []) []

abbrev linked :
    (k peer_key : ℕ) (own peer : NodeLocator)
    → Link node keys keys_laws (builder k (hello peer_key peer)) own peer_key peer
unfolding start_bytes generate_start_msg start_session hello builder init_session
linked k peer_key own peer = record {
  written = start_bytes node keys k own;
  flushed = start_bytes node keys k own;
  filled = (hello peer_key peer, []);
  rest = 5 ∷ [];
  write_done = refl;
  flush_done = refl;
  fill_done = refl;
}

abbrev session : Session node
unfolding new_session
session = new_session node ([], []) [] 1 2 at_c

-- Both sides as they are when the handshake is over.
abbrev paired : (k peer_key : ℕ) (own peer : NodeLocator) → Session node × CapTpSessionBuilder node
unfolding finish finalize_session new_session start_bytes generate_start_msg start_session builder
    init_session
paired k peer_key own peer =
    let b : CapTpSessionBuilder node = builder k (hello peer_key peer) in
    let s = new_session node (5 ∷ [], []) (start_bytes node keys k own) k peer_key peer in
    (
      s,
      record {
        manager = record { sessions = (peer.designator, s) ∷ []; outgoing = [] };
        reader = (5 ∷ [], []);
        writer = start_bytes node keys k own;
        signing_key = k;
      },
    )

accept-Authentic_example : Authentic node keys 1 (hello 7 at_c, []) (paired 9 7 at_a at_c).0
unfolding and_accept builder init_session paired hello start_bytes generate_start_msg start_session
    recv_start_session check_start verify_location consume_syrup try_consume_syrup send_start finish
    finalize_session new_session
accept-Authentic_example =
    accept-Authentic node keys 1 (builder 9 (hello 7 at_c)) (paired 9 7 at_a at_c).1 at_a
      (paired 9 7 at_a at_c).0 refl

abbrev turned_away : CapTpSessionBuilder node
unfolding builder init_session forged
turned_away = record (builder 9 forged) { reader = ([], []) }

abbrev sink : Sink node
sink = record { written = λ w. w; writes = λ w bytes. refl }

abbrev reliable : Reliable node keys sink
reliable = record { write_ok = λ w bytes. refl; flush_ok = λ w. refl; written-flush = λ w. refl }

-- A delivery to the position 3 comes with the start message, and one to 4 after it.
abbrev questions : List (Message node)
questions =
    only (record { to_desc = export_at 3; args = [] })
    ∷ only (record { to_desc = export_at 4; args = [] })
    ∷ []

abbrev replies : List (Message node)
replies = only (record { to_desc = export_at 5; args = [] }) ∷ []

-- The builder of the key `k` to which come the start message with the bytes behind it, and the
-- chunks.
abbrev waiting : (k peer_key : ℕ) → NodeLocator → Bytes → List Bytes → CapTpSessionBuilder node
unfolding init_session start_bytes generate_start_msg start_session
waiting k peer_key peer bytes chunks =
    init_session node k (new_manager node)
      ([], (start_bytes node keys peer_key peer ++ bytes) ∷ chunks) []

abbrev connector : CapTpSessionBuilder node
connector = waiting 7 9 at_a [] ((2 ∷ 0 ∷ 5 ∷ []) ∷ [])

abbrev acceptor : CapTpSessionBuilder node
acceptor = waiting 9 7 at_c (2 ∷ 0 ∷ 3 ∷ []) ((2 ∷ 0 ∷ 4 ∷ []) ∷ [])

abbrev Comes : (CapTpSessionBuilder node) → ℕ → NodeLocator → List (Message node) → Type 0
Comes x k loc ms =
    Incoming node keys keys_laws sink reliable (chunks_Buffered tokenizer) (framing chunks)
      (λ t. refl) x.reader k loc ms

to_acceptor : Comes acceptor 7 at_c questions
unfolding waiting init_session start_bytes generate_start_msg start_session
to_acceptor = record {
  now = [];
  later =
      (keys.start_tokens (generate_start_msg node keys 7 at_c) ∷ (0 ∷ 3 ∷ []) ∷ [])
      ∷ ((0 ∷ 4 ∷ []) ∷ [])
      ∷ [];
  holds = record { in_buffer = refl; to_come = refl };
  whole = (tt, (tt, tt));
  in_order = refl;
}

to_connector : Comes connector 9 at_a replies
unfolding waiting init_session start_bytes generate_start_msg start_session
to_connector = record {
  now = [];
  later = (keys.start_tokens (generate_start_msg node keys 9 at_a) ∷ []) ∷ ((0 ∷ 5 ∷ []) ∷ []) ∷ [];
  holds = record { in_buffer = refl; to_come = refl };
  whole = (tt, (tt, tt));
  in_order = refl;
}

conversation_example :
    (s : Session node) × (t : Session node) × (c' : CapTpSessionBuilder node)
    × (a' : CapTpSessionBuilder node) × (and_connect node keys 1 connector at_c ≡ some (ok s, c'))
    × (and_accept node keys 1 acceptor at_a ≡ some (ok t, a'))
    × Carries node keys keys_laws sink reliable
        (chunks_Buffered tokenizer)
        (framing chunks)
        (λ t. refl)
        1
        questions
        s
        t
        acceptor.reader
    × Carries node keys keys_laws sink reliable
        (chunks_Buffered tokenizer)
        (framing chunks)
        (λ t. refl)
        1
        replies
        t
        s
        connector.reader
unfolding waiting init_session
conversation_example =
    conversation node keys keys_laws sink reliable (chunks_Buffered tokenizer) (framing chunks)
      (λ t. refl) 0 connector acceptor at_c at_a questions replies refl refl to_acceptor
      to_connector (refl, (refl, tt)) (refl, tt)
