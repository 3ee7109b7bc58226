-- ===== src/Handshake/Signed.antt =====
-- src/captp/session/builder.rs: what a handshake that ends leaves behind, whoever the peer is.
use rexa.Common.{
  ℕ, ◌≡◌, refl, subst, some, Bytes, Result, ok, err, arith, bytes_beq, bytes_beq_iff, bytes_eq, inl,
  inr, if◌then◌else◌, Option-cases, Result-cases, Bool-cases,
}
use rexa.Reader.{consume_syrup}
use rexa.DashMap.Assoc.{lookup-without}
use rexa.Locator.{NodeLocator}
use rexa.Msg.{captp_version}
use rexa.Session.{Node, Session, new_session}
use rexa.Handshake.{
  Keys, CapTpSessionManager, CapTpSessionBuilder, Start, InitError, get, finalize_session,
  and_accept, and_connect, check_start, recv_start_session, send_start, verify_location, finish,
  start_bytes, next,
}

module _ (node : Node) where
  abbrev SessionOf : Type 0
  SessionOf = Session node

  -- After a session is finalized, its designator finds it, and every other designator finds what it
  -- found before: a session of the same designator is replaced.
  pub get-finalize_session :
      (m : CapTpSessionManager node) (r : node.Reader) (w : node.Writer) (k : node.SigningKey)
      (vk : node.VerifyingKey) (loc : NodeLocator) (d : Bytes)
      → get node (finalize_session node m r w k vk loc).1 d ≡ (
          if bytes_beq loc.designator d
          then some (finalize_session node m r w k vk loc).0
          else get node m d)
  unfolding get finalize_session
  get-finalize_session m r w k vk loc d =
      rw (lookup-without {K = Bytes} loc.designator d m.sessions) (ground arith)

  module _ (keys : Keys node) where
    -- What a handshake that succeeds has seen.
    pub record Authentic (fuel : ℕ) (r : node.Reader) (s : Session node) : Type 0 where
      pub tree : node.Tree
      pub rest : node.Reader
      pub msg : Start node keys
      pub was_read : consume_syrup node.tok node.str fuel r ≡ some (ok tree, rest)
      pub was_start : keys.decode_start tree ≡ ok msg
      pub same_version : msg.version ≡ captp_version
      pub was_signed : verify_location node keys msg ≡ ok tt
      pub key_kept : s.remote_vkey ≡ msg.session_pubkey.ecc
      pub location_kept : s.remote_locator ≡ msg.acceptable_location

    check_start_ok :
        (msg : Start node keys) (remote : node.VerifyingKey × NodeLocator)
        → check_start node keys (ok msg) ≡ ok remote
        → (msg.version ≡ captp_version)
          × (verify_location node keys msg ≡ ok tt)
          × (remote ≡ (msg.session_pubkey.ecc, msg.acceptable_location))
    unfolding check_start verify_location
    check_start_ok msg remote h = elim (Bool-cases (bytes_beq msg.version captp_version)) [
      | inl e ↦ elim (Result-cases (verify_location node keys msg)) [
        | inl (u, v) ↦ ((bytes_beq_iff msg.version captp_version).0 e, v, cc)
        | inr (x, v) ↦ cc
      ]
      | inr e ↦ cc
    ]

    -- What a receive that succeeds has read.
    recv_ok :
        (fuel : ℕ) (b b' : CapTpSessionBuilder node) (remote : node.VerifyingKey × NodeLocator)
        → recv_start_session node keys fuel b ≡ some (ok remote, b')
        → (s : Session node) → s.remote_vkey ≡ remote.0
        → s.remote_locator ≡ remote.1
        → Authentic fuel b.reader s
    unfolding recv_start_session check_start
    recv_ok fuel b b' remote h s hk hl =
        elim (Option-cases (consume_syrup node.tok node.str fuel b.reader)) [
          | inl e ↦ cc
          | inr ((ok tree, r), e) ↦ elim (Result-cases (keys.decode_start tree)) [
            | inl (msg, d) ↦
                let (v, sig, same) = check_start_ok msg remote (ground arith) in
                record {
                  tree = tree;
                  rest = r;
                  msg = msg;
                  was_read = e;
                  was_start = d;
                  same_version = v;
                  was_signed = sig;
                  key_kept = cc;
                  location_kept = cc;
                }
            | inr (x, d) ↦ ground arith
          ]
          | inr ((err x, r), e) ↦ ground arith
        ]

    finish_keeps :
        (remote : node.VerifyingKey × NodeLocator) (b b' : CapTpSessionBuilder node)
        (s : Session node)
        → some (finish node keys remote b) ≡ some (ok s, b')
        → (s.remote_vkey ≡ remote.0) × (s.remote_locator ≡ remote.1)
    unfolding finish finalize_session new_session
    finish_keeps remote b b' s h = ground arith

    send_start_reader :
        (msg : Bytes) (b : CapTpSessionBuilder node)
        → (send_start node keys msg b).1.reader ≡ b.reader
    unfolding send_start
    send_start_reader msg b = elim (Result-cases (node.write_all b.writer msg).0) [
      | inl (u, e) ↦ rw (send_start, e) refl
      | inr (x, e) ↦ rw (send_start, e) refl
    ]

    after_send :
        (sent : Result (InitError node keys) (Unit {0}) × CapTpSessionBuilder node)
        (remote : node.VerifyingKey × NodeLocator) (b' : CapTpSessionBuilder node)
        (s : Session node)
        → next node keys sent (λ _ b. some (finish node keys remote b)) ≡ some (ok s, b')
        → (s.remote_vkey ≡ remote.0) × (s.remote_locator ≡ remote.1)
    after_send (ok u, b) remote b' s h = finish_keeps remote b b' s h
    after_send (err e, b) remote b' s h = cc

    -- An acceptor that returns a session has read a start message of this version from the peer,
    -- whose location is signed by the key in it, and the session has that key and that location.
    pub accept-Authentic :
        (fuel : ℕ) (b b' : CapTpSessionBuilder node) (loc : NodeLocator) (s : Session node)
        → and_accept node keys fuel b loc ≡ some (ok s, b')
        → Authentic fuel b.reader s
    unfolding and_accept
    accept-Authentic fuel b b' loc s h = elim (Option-cases (recv_start_session node keys fuel b)) [
      | inl e ↦ ground arith
      | inr ((err x, b1), e) ↦ ground arith
      | inr ((ok remote, b1), e) ↦
          let (k, l) =
            after_send (send_start node keys (start_bytes node keys b.signing_key loc) b1) remote b'
              s (ground arith) in
          recv_ok fuel b b1 remote e s k l
    ]

    -- A connecting side that returns a session has read a start message of this version from the
    -- peer, whose location is signed by the key in it, and the session has that key and that
    -- location.
    pub connect-Authentic :
        (fuel : ℕ) (b b' : CapTpSessionBuilder node) (loc : NodeLocator) (s : Session node)
        → and_connect node keys fuel b loc ≡ some (ok s, b')
        → Authentic fuel b.reader s
    unfolding and_connect
    connect-Authentic fuel b b' loc s h =
        let sent = send_start node keys (start_bytes node keys b.signing_key loc) b in
        elim (Result-cases sent.0) [
          | inl (u, e) ↦ elim (Option-cases (recv_start_session node keys fuel sent.1)) [
            | inl e' ↦ ground arith
            | inr ((err x, b2), e') ↦ ground arith
            | inr ((ok remote, b2), e') ↦
                let (k, l) = finish_keeps remote b2 b' s (ground arith) in
                subst (λ r. Authentic fuel r s)
                  (send_start_reader (start_bytes node keys b.signing_key loc) b)
                  (recv_ok fuel sent.1 b2 remote e' s k l)
          ]
          | inr (x, e) ↦ ground arith
        ]

    -- When the peer's message is refused, the acceptor returns that error, has written nothing and
    -- registers no session.
    accept_refuses :
        (fuel : ℕ) (b b' : CapTpSessionBuilder node) (loc : NodeLocator) (e : InitError node keys)
        → recv_start_session node keys fuel b ≡ some (err e, b')
        → (and_accept node keys fuel b loc ≡ some (err e, b'))
          × (b'.writer ≡ b.writer)
          × (b'.manager ≡ b.manager)
    unfolding and_accept recv_start_session
    accept_refuses fuel b b' loc e h = ground arith
