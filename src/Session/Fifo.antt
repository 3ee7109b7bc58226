-- ===== src/Session/Fifo.antt =====
-- src/captp/session/internal.rs and src/captp/io.rs of both sides: the messages that one session
-- sends and the other receives.
use mathlib.Core.List.{append_assoc, append-nil}
use rexa.Common.{
  ℕ, zero, suc, ◌≡◌, refl, ap, subst, sym, ◌∙◌, false, Option, none, some, Bytes, List, [], ◌∷◌,
  ◌++◌, length, map, ok, err, arith, All, Option-cases, inl, inr,
}
use rexa.Msg.{OpDeliverOnly, OpDeliver, Operation}
use rexa.Reader.{consume_syrup}
use rexa.Reader.Frames.{Buffered, Encoding}
use rexa.Reader.Frames
use rexa.Session.{Node, Session, is_aborted, send_msg, recv_msg, deliver, deliver_only}

module _ (node : Node) where
  open node use {Tree, Args, Writer, deliver_only_tokens, deliver_tokens, write_all}

  pub data Message : Type 0 where
    only : OpDeliverOnly Args → Message
    full : OpDeliver Args → Message

  abbrev pub tokens : Message → Tree
  tokens (only op) = deliver_only_tokens op
  tokens (full op) = deliver_tokens op

  abbrev pub operation : Message → Operation Args
  operation (only op) = Operation.deliver_only op
  operation (full op) = Operation.deliver op

  abbrev pub send : Message → Session node → Session node
  send (only op) s = (deliver_only node s op).1
  send (full op) s = (deliver node s op).1

  abbrev pub send_all : List Message → Session node → Session node
  send_all [] s = s
  send_all (m ∷ ms) s = send_all ms (send m s)

  -- A sink that takes every byte.
  pub record Sink : Type 0 where
    pub written : Writer → Bytes
    pub writes : (w : Writer) (bytes : Bytes) → written (write_all w bytes).1 ≡ written w ++ bytes

  -- The next `n` messages, each in at most `rounds` rounds of the reading loop.
  abbrev pub recv_all : ℕ → ℕ → Session node → Option (List (Operation Args) × Session node)
  recv_all rounds zero s = some ([], s)
  recv_all rounds (suc n) s = elim (recv_msg node rounds s) [
    | some (ok op, s') ↦ elim (recv_all rounds n s') [
      | some (ops, s'') ↦ some (op ∷ ops, s'')
      | none ↦ none
    ]
    | _ ↦ none
  ]

  send-live :
      (m : Message) (s : Session node)
      → is_aborted node s ≡ false
      → send m s ≡ record s { writer = (write_all s.writer (node.encode (tokens m))).1 }
  unfolding is_aborted deliver_only deliver send_msg
  send-live (only op) s live = ground arith
  send-live (full op) s live = ground arith

  module _ (sink : Sink) (b : Buffered node.tok node.str) (enc : Encoding node.tok node.str)
      (same : (t : Tree) → enc.encode t ≡ node.encode t) where
    open sink use {written, writes}

    abbrev pub encode_all : List Tree → Bytes
    encode_all = Frames.encode_all node.tok node.str b enc

    abbrev pub joined : List (List Tree) → List Tree
    joined = Frames.joined node.tok node.str b enc

    abbrev pub bytes_of : List Message → Bytes
    bytes_of ms = encode_all (map tokens ms)

    abbrev pub flat : List Bytes → Bytes
    flat [] = []
    flat (chunk ∷ chunks) = chunk ++ flat chunks

    encode_all-append : (ts us : List Tree) → encode_all (ts ++ us) ≡ encode_all ts ++ encode_all us
    encode_all-append [] us = refl
    encode_all-append (t ∷ ts) us =
        ap (λ bs. enc.encode t ++ bs) (encode_all-append ts us)
        ∙ sym (append_assoc (enc.encode t) (encode_all ts) (encode_all us))

    encode_all-joined :
        (later : List (List Tree)) → encode_all (joined later) ≡ flat (map encode_all later)
    encode_all-joined [] = refl
    encode_all-joined (ts ∷ later) =
        encode_all-append ts (joined later)
        ∙ ap (λ bs. encode_all ts ++ bs) (encode_all-joined later)

    -- What a reader holds and what comes to it, as the values that they are.
    pub arrived :
        (now : List Tree) (later : List (List Tree)) (r : node.Reader)
        → Frames.Holds node.tok node.str b enc now later r
        → b.buffer r ++ flat (b.arriving r) ≡ encode_all (now ++ joined later)
    arrived now later r h =
        (λ i. h.in_buffer i ++ flat (h.to_come i))
        ∙ ap (λ bs. encode_all now ++ bs) (sym (encode_all-joined later))
        ∙ sym (encode_all-append now (joined later))

    pub length-tokens : (ms : List Message) → length (map tokens ms) ≡ length ms
    length-tokens [] = refl
    length-tokens (m ∷ ms) = ap suc (length-tokens ms)

    pub sent :
        (ms : List Message) (s : Session node)
        → is_aborted node s ≡ false
        → written (send_all ms s).writer ≡ written s.writer ++ bytes_of ms
    unfolding is_aborted
    sent [] s live = sym (append-nil (written s.writer))
    sent (m ∷ ms) s live =
        let w = (write_all s.writer (node.encode (tokens m))).1 in
        let after : Session node = record s { writer = w } in
        ap (λ x. written (send_all ms x).writer) (send-live m s live)
        ∙ sent ms after live
        ∙ ap (λ bs. bs ++ bytes_of ms)
            (writes s.writer (node.encode (tokens m))
              ∙ ap (λ bs. written s.writer ++ bs) (sym (same (tokens m))))
        ∙ append_assoc (written s.writer) (enc.encode (tokens m)) (bytes_of ms)

    -- What the receiver decodes is what was sent.
    abbrev pub Decodes : Message → Type 0
    Decodes m = node.decode_operation (tokens m) ≡ ok (operation m)

    pub received :
        (rounds : ℕ) (ms : List Message) (s : Session node) (r : node.Reader)
        → is_aborted node s ≡ false
        → All Decodes ms
        → Frames.read_values node.tok node.str b enc rounds (length ms) s.reader
          ≡ some (map tokens ms, r)
        → recv_all rounds (length ms) s ≡ some (map operation ms, record s { reader = r })
    unfolding recv_msg is_aborted
    received rounds [] s r live d h = ground arith
    received rounds (m ∷ ms) s r live (d, ds) h =
        elim (Option-cases (consume_syrup node.tok node.str rounds s.reader)) [
          | inl e ↦ ground arith
          | inr ((err x, r1), e) ↦ ground arith
          | inr ((ok t, r1), e) ↦
              elim (Option-cases
                (Frames.read_values node.tok node.str b enc rounds (length ms) r1)) [
                  | inl e' ↦ ground arith
                  | inr ((ts, r2), e') ↦
                      let is_first : t ≡ tokens m = ground arith in
                      let is_rest : ts ≡ map tokens ms = ground arith in
                      let is_last : r2 ≡ r = ground arith in
                      let rest =
                        received rounds ms (record s { reader = r1 }) r live ds
                          (e' ∙ (λ i. some (is_rest i, is_last i))) in
                      ground (arith, rest, d, is_first, e, live)
                ]
        ]

    -- What arrives at a receiver, in chunks of whole values, when the messages are sent.
    pub record Arrives (ms : List Message) (t : Session node) : Type 0 where
      pub now : List Tree
      pub later : List (List Tree)
      pub holds : Frames.Holds node.tok node.str b enc now later t.reader
      pub whole : All (Frames.NonEmpty node.tok node.str b enc) later
      pub in_order : now ++ joined later ≡ map tokens ms

    -- What one session sends the other receives, when neither is aborted, nothing was sent before,
    -- each message is one that decodes to itself, and the bytes arrive in chunks of whole values:
    -- the bytes that arrive are those that were written, as many receives as there were messages
    -- return these messages, each once and in order, and nothing is left over.
    pub received_in_order :
        (rounds : ℕ) (ms : List Message) (s t : Session node)
        → is_aborted node s ≡ false
        → is_aborted node t ≡ false
        → written s.writer ≡ []
        → All Decodes ms
        → Arrives ms t
        → (r : node.Reader) × (written (send_all ms s).writer
            ≡ b.buffer t.reader ++ flat (b.arriving t.reader))
          × (recv_all (suc rounds) (length ms) t ≡ some (map operation ms, record t { reader = r }))
          × (b.buffer r ≡ [])
          × (b.arriving r ≡ [])
    received_in_order rounds ms s t live live' fresh ds a =
        let (r, run, empty, over) =
          Frames.read_values_in_order node.tok node.str b enc rounds a.now a.later t.reader a.holds
            a.whole in
        let run_tokens =
          subst
            (λ ts.
              Frames.read_values node.tok node.str b enc (suc rounds) (length ts) t.reader
              ≡ some (ts, r))
            a.in_order run in
        let whole_run =
          subst
            (λ n.
              Frames.read_values node.tok node.str b enc (suc rounds) n t.reader
              ≡ some (map tokens ms, r))
            (length-tokens ms) run_tokens in
        (
          r,
          sent ms s live
              ∙ ap (λ w. w ++ bytes_of ms) fresh
              ∙ ap encode_all (sym a.in_order)
              ∙ sym (arrived a.now a.later t.reader a.holds),
          received (suc rounds) ms t r live' ds whole_run,
          empty,
          over,
        )
