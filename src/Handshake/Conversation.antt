-- ===== src/Handshake/Conversation.antt =====
-- src/captp/session/builder.rs, internal.rs and io.rs of both sides: sessions from the first byte
-- on. The start messages go over the same streams as the deliveries after them.
use rexa.Common.{
  ℕ, suc, ◌≡◌, refl, sym, subst, ap, ◌∙◌, false, some, Bytes, List, [], ◌∷◌, ◌++◌, length, map, ok,
  err, arith, All, Option-cases, inl, inr,
}
use rexa.Reader.{consume_syrup}
use rexa.Reader.Frames.{Buffered, Encoding}
use rexa.Reader.Frames
use rexa.Locator.{NodeLocator}
use rexa.Session.{Node, Session, is_aborted, new_session}
use rexa.Session.Fifo.{Sink, Message, tokens, operation, send_all, recv_all}
use rexa.Session.Fifo
use rexa.Handshake.{
  Keys, CapTpSessionBuilder, Started, and_accept, and_connect, start_bytes, finish,
  finalize_session,
}
use rexa.Handshake.Greeting.{Start, paired, Reliable, greets, written-greets, connected, accepted}
use rexa.Handshake.Honest.{KeysLaws}

module _ (node : Node) (keys : Keys node) (laws : KeysLaws node keys) (sink : Sink node)
    (reliable : Reliable node keys sink) (b : Buffered node.tok node.str)
    (enc : Encoding node.tok node.str) (same : (t : node.Tree) → enc.encode t ≡ node.encode t) where
  open node use {Tree}

  abbrev hello : node.SigningKey → NodeLocator → Tree
  hello = Start node keys

  -- The values that come to a side are the peer's start message and then those of the messages.
  pub record Incoming (r : node.Reader) (k : node.SigningKey) (loc : NodeLocator)
      (ms : List (Message node)) : Type 0 where
    pub now : List Tree
    pub later : List (List Tree)
    pub holds : Frames.Holds node.tok node.str b enc now later r
    pub whole : All (Frames.NonEmpty node.tok node.str b enc) later
    pub in_order :
        now ++ Frames.joined node.tok node.str b enc later ≡ hello k loc ∷ map (tokens node) ms

  -- A side that has a session, and can read the values that follow the peer's start message.
  record Opened (started : Started node keys) (msg : Bytes) (fuel : ℕ) (ts : List Tree)
      : Type 0 where
    session : Session node
    after : CapTpSessionBuilder node
    succeeds : started ≡ some (ok session, after)
    live : is_aborted node session ≡ false
    greeted : sink.written session.writer ≡ msg
    last : node.Reader
    run :
        Frames.read_values node.tok node.str b enc fuel (length ts) session.reader ≡ some (ts, last)
    emptied : b.buffer last ≡ []
    over : b.arriving last ≡ []

  -- Several values that are read are the first one and the others.
  read_first :
      (fuel n : ℕ) (r last : node.Reader) (t : Tree) (ts : List Tree)
      → Frames.read_values node.tok node.str b enc fuel (suc n) r ≡ some (t ∷ ts, last)
      → (r' : node.Reader) × (consume_syrup node.tok node.str fuel r ≡ some (ok t, r'))
        × (Frames.read_values node.tok node.str b enc fuel n r' ≡ some (ts, last))
  read_first fuel n r last t ts h = elim (Option-cases (consume_syrup node.tok node.str fuel r)) [
    | inl e ↦ ground arith
    | inr ((err x, r1), e) ↦ ground arith
    | inr ((ok u, r1), e) ↦
        elim (Option-cases (Frames.read_values node.tok node.str b enc fuel n r1)) [
          | inl e' ↦ ground arith
          | inr ((us, r2), e') ↦
              let is_first : u ≡ t = ground arith in
              let is_rest : us ≡ ts = ground arith in
              let is_last : r2 ≡ last = ground arith in
              (r1, e ∙ (λ i. some (ok (is_first i), r1)), e' ∙ (λ i. some (is_rest i, is_last i)))
        ]
  ]

  all_read :
      (fuel : ℕ) (r : node.Reader) (k : node.SigningKey) (loc : NodeLocator)
      (ms : List (Message node))
      → Incoming r k loc ms
      → Frames.Reads node.tok node.str b enc
          (suc fuel)
          (suc (length (map (tokens node) ms)))
          r
          (hello k loc ∷ map (tokens node) ms)
  all_read fuel r k loc ms inc =
      subst (λ ts. Frames.Reads node.tok node.str b enc (suc fuel) (length ts) r ts) inc.in_order
        (Frames.read_values_in_order node.tok node.str b enc fuel inc.now inc.later r inc.holds
          inc.whole)

  opened :
      (fuel : ℕ) (x : CapTpSessionBuilder node) (own : NodeLocator) (k : node.SigningKey)
      (peer : NodeLocator) (ms : List (Message node)) (started : Started node keys)
      → sink.written x.writer ≡ []
      → Incoming x.reader k peer ms
      → ((r : node.Reader)
          → consume_syrup node.tok node.str (suc fuel) x.reader ≡ some (ok (hello k peer), r)
          → started
            ≡ paired node keys
                (keys.verifying_key k, peer)
                (record x {
                  reader = r;
                  writer = greets node keys x.writer (start_bytes node keys x.signing_key own);
                }))
      → Opened started (start_bytes node keys x.signing_key own) (suc fuel) (map (tokens node) ms)
  unfolding finish finalize_session new_session is_aborted
  opened fuel x own k peer ms started fresh inc starts =
      let (last, run, emptied, over) = all_read fuel x.reader k peer ms inc in
      let (r, first, rest) =
        read_first (suc fuel) (length (map (tokens node) ms)) x.reader last (hello k peer)
          (map (tokens node) ms) run in
      record {
        session = _;
        after = _;
        succeeds = starts r first;
        live = refl;
        greeted =
            written-greets node keys sink laws reliable x.writer
              (start_bytes node keys x.signing_key own) fresh;
        last = last;
        run = rest;
        emptied = emptied;
        over = over;
      }

  -- All that the session `s` writes with the messages is what comes in at the start `r`, and `t`
  -- receives the messages from it.
  pub record Carries (fuel : ℕ) (ms : List (Message node)) (s t : Session node) (r : node.Reader)
      : Type 0 where
    pub last : node.Reader
    pub written :
        sink.written (send_all node ms s).writer
        ≡ b.buffer r ++ Fifo.flat node sink b enc same (b.arriving r)
    pub received :
        recv_all node fuel (length ms) t
        ≡ some (map (operation node) ms, record t { reader = last })
    pub emptied : b.buffer last ≡ []
    pub over : b.arriving last ≡ []

  abbrev Decodes : List (Message node) → Type 0
  Decodes ms = All (Fifo.Decodes node sink b enc same) ms

  -- The sender's session `s` has greeted with what is first in what comes in at the receiver.
  carried :
      (fuel : ℕ) (k : node.SigningKey) (loc : NodeLocator) (ms ns : List (Message node))
      (at_s at_t : Started node keys) (msg : Bytes) (r : node.Reader)
      (s : Opened at_s (start_bytes node keys k loc) (suc fuel) (map (tokens node) ns))
      (t : Opened at_t msg (suc fuel) (map (tokens node) ms))
      → Incoming r k loc ms
      → Decodes ms
      → Carries (suc fuel) ms s.session t.session r
  unfolding start_bytes
  carried fuel k loc ms ns at_s at_t msg r s t inc ds = record {
    last = t.last;
    written =
        Fifo.sent node sink b enc same ms s.session s.live
        ∙ ap (λ bs. bs ++ Fifo.bytes_of node sink b enc same ms)
            (s.greeted ∙ sym (same (hello k loc)))
        ∙ ap (Frames.encode_all node.tok node.str b enc) (sym inc.in_order)
        ∙ sym (Fifo.arrived node sink b enc same inc.now inc.later r inc.holds);
    received = Fifo.received node sink b enc same (suc fuel) ms t.session t.last t.live ds (
        subst
          (λ n.
            Frames.read_values node.tok node.str b enc (suc fuel) n t.session.reader
            ≡ some (map (tokens node) ms, t.last))
          (Fifo.length-tokens node sink b enc same ms) t.run);
    emptied = t.emptied;
    over = t.over;
  }

  -- A side that connects and a side that accepts, of which neither has written anything and no
  -- write fails, both start a session, when what comes to each are the other's start message and
  -- then the values of messages that decode to themselves, in chunks of whole values. Once each has
  -- sent its messages over its session, the bytes that came to the other are all that it has
  -- written, start message included, and each session's receives return exactly the other's
  -- messages, in order, with nothing left over: the handshake takes no byte of what follows it.
  pub conversation :
      (fuel : ℕ) (c a : CapTpSessionBuilder node) (at_c at_a : NodeLocator)
      (ms ns : List (Message node))
      → sink.written c.writer ≡ []
      → sink.written a.writer ≡ []
      → Incoming a.reader c.signing_key at_c ms
      → Incoming c.reader a.signing_key at_a ns
      → Decodes ms
      → Decodes ns
      → (s : Session node) × (t : Session node) × (c' : CapTpSessionBuilder node)
        × (a' : CapTpSessionBuilder node) × (and_connect node keys (suc fuel) c at_c
            ≡ some (ok s, c'))
        × (and_accept node keys (suc fuel) a at_a ≡ some (ok t, a'))
        × Carries (suc fuel) ms s t a.reader
        × Carries (suc fuel) ns t s c.reader
  conversation fuel c a at_c at_a ms ns fresh_c fresh_a to_a to_c ds es =
      let s =
        opened fuel c at_c a.signing_key at_a ns (and_connect node keys (suc fuel) c at_c) fresh_c
          to_c (connected node keys sink laws reliable (suc fuel) c at_c a.signing_key at_a) in
      let t =
        opened fuel a at_a c.signing_key at_c ms (and_accept node keys (suc fuel) a at_a) fresh_a
          to_a (accepted node keys sink laws reliable (suc fuel) a at_a c.signing_key at_c) in
      (
        s.session,
        t.session,
        s.after,
        t.after,
        s.succeeds,
        t.succeeds,
        carried fuel c.signing_key at_c ms ns _ _ _ a.reader s t to_a ds,
        carried fuel a.signing_key at_a ns ms _ _ _ c.reader t s to_c es,
      )
