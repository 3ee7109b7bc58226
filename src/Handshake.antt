-- ===== src/Handshake.antt =====
-- src/captp/session/builder.rs, manager.rs and start_session.rs of src/captp/msg: how a session
-- starts. The keys and signatures of ed25519_dalek and the codecs derived by syrup are the
-- parameter `Keys`. A builder mutably borrows its manager: it holds it here, and each call returns
-- the builder after it. A session in the manager is shared (`Arc`): the manager's entry is the
-- session as it starts.
pub mod Signed
pub mod Registered
pub mod Honest
pub mod Greeting
pub mod Conversation
pub mod Examples
use rexa.Common.{
  ℕ, Bool, true, false, Option, none, some, Bytes, List, [], ◌∷◌, Result, ok, err, map_err,
  bytes_beq, bytes_eq, if◌then◌else◌,
}
use rexa.Reader.{ReadSyrupError, io, lex, consume_syrup}
use rexa.DashMap.Assoc.{lookup, without}
use rexa.Locator.{NodeLocator}
use rexa.Msg.{OpStartSession, PublicKey, Signature, start_session, captp_version}
use rexa.Session.{Node, Session, new_session}

pub data SessionInitError (IoError LexError DecodeError SignatureError : Type 0) : Type 0 where
  io_failed : IoError → SessionInitError IoError LexError DecodeError SignatureError
  lex_failed : LexError → SessionInitError IoError LexError DecodeError SignatureError
  decode_failed : DecodeError → SessionInitError IoError LexError DecodeError SignatureError
  version : Bytes → SessionInitError IoError LexError DecodeError SignatureError
  signature : SignatureError → SessionInitError IoError LexError DecodeError SignatureError

module _ (node : Node) where
  pub record Keys : Type 1 where
    pub Sig : Type 0
    pub SignatureError : Type 0
    pub sign : node.SigningKey → Bytes → Sig
    pub verifying_key : node.SigningKey → node.VerifyingKey
    pub verify_strict : node.VerifyingKey → Bytes → Sig → Result SignatureError (Unit {0})
    pub locator_tokens : NodeLocator → node.Tree
    pub start_tokens : OpStartSession node.VerifyingKey Sig → node.Tree
    pub decode_start : node.Tree → Result node.DecodeError (OpStartSession node.VerifyingKey Sig)

  pub record CapTpSessionManager : Type 0 where
    pub sessions : List (Bytes × Session node)
    pub outgoing : List (Bytes × node.SigningKey × node.VerifyingKey)

  abbrev pub new_manager : CapTpSessionManager
  new_manager = record { sessions = []; outgoing = [] }

  unfoldable pub get : CapTpSessionManager → Bytes → Option (Session node)
  get m designator = lookup designator m.sessions

  pub record CapTpSessionBuilder : Type 0 where
    pub manager : CapTpSessionManager
    pub reader : node.Reader
    pub writer : node.Writer
    pub signing_key : node.SigningKey

  -- `CapTpSessionBuilder::new`; the key is the one that the system's randomness gives.
  unfoldable pub init_session :
      node.SigningKey → CapTpSessionManager → node.Reader → node.Writer → CapTpSessionBuilder
  init_session signing_key manager reader writer = record {
    manager = manager;
    reader = reader;
    writer = writer;
    signing_key = signing_key;
  }

  -- The session replaces any that was started with the same designator.
  unfoldable pub finalize_session :
      CapTpSessionManager
      → node.Reader
      → node.Writer
      → node.SigningKey
      → node.VerifyingKey
      → NodeLocator
      → Session node × CapTpSessionManager
  finalize_session m reader writer signing_key remote_vkey remote_loc =
      let res = new_session node reader writer signing_key remote_vkey remote_loc in
      let d = remote_loc.designator in
      (res, record m { sessions = (d, res) ∷ without d m.sessions })

  module _ (keys : Keys) where
    open keys use {Sig, SignatureError, sign, verifying_key, verify_strict, locator_tokens}

    abbrev pub Start : Type 0
    Start = OpStartSession node.VerifyingKey Sig

    abbrev pub InitError : Type 0
    InitError = SessionInitError node.IoError node.LexError node.DecodeError SignatureError

    unfoldable pub generate_start_msg : node.SigningKey → NodeLocator → Start
    generate_start_msg k local_locator =
        start_session (record { ecc = verifying_key k }) local_locator
          (record { eddsa = sign k (node.encode (locator_tokens local_locator)) })

    unfoldable pub start_bytes : node.SigningKey → NodeLocator → Bytes
    unfolding generate_start_msg
    start_bytes k local_locator =
        node.encode (keys.start_tokens (generate_start_msg k local_locator))

    unfoldable pub verify_location : Start → Result SignatureError (Unit {0})
    verify_location msg =
        verify_strict msg.session_pubkey.ecc (node.encode (locator_tokens msg.acceptable_location))
          msg.acceptable_location_sig.eddsa

    abbrev pub verified :
        Start
        → Result SignatureError (Unit {0})
        → Result InitError (node.VerifyingKey × NodeLocator)
    verified msg (err e) = err (signature e)
    verified msg (ok _) = ok (msg.session_pubkey.ecc, msg.acceptable_location)

    unfoldable pub check_start :
        Result node.DecodeError Start → Result InitError (node.VerifyingKey × NodeLocator)
    unfolding verify_location
    check_start (err e) = err (decode_failed e)
    check_start (ok msg) =
        if bytes_beq msg.version captp_version
        then verified msg (verify_location msg)
        else err (version msg.version)

    abbrev received :
        Result (ReadSyrupError node.IoError node.LexError) node.Tree
        → Result InitError (node.VerifyingKey × NodeLocator)
    received (err (io e)) = err (io_failed e)
    received (err (lex e)) = err (lex_failed e)
    received (ok tree) = check_start (keys.decode_start tree)

    -- With at most `fuel` rounds of the reading loop.
    unfoldable pub recv_start_session :
        ℕ
        → CapTpSessionBuilder
        → Option (Result InitError (node.VerifyingKey × NodeLocator) × CapTpSessionBuilder)
    unfolding check_start
    recv_start_session fuel b = elim (consume_syrup node.tok node.str fuel b.reader) [
      | none ↦ none
      | some (res, reader) ↦ some (received res, record b { reader = reader })
    ]

    -- `write_all` and `flush`, with their errors returned.
    unfoldable pub send_start :
        Bytes → CapTpSessionBuilder → Result InitError (Unit {0}) × CapTpSessionBuilder
    send_start msg b =
        let (res, w) = node.write_all b.writer msg in
        elim res [
          | err e ↦ (err (io_failed e), record b { writer = w })
          | ok _ ↦
              let (res', w') = node.flush w in (map_err io_failed res', record b { writer = w' })
        ]

    unfoldable pub finish :
        node.VerifyingKey × NodeLocator
        → CapTpSessionBuilder
        → Result InitError (Session node) × CapTpSessionBuilder
    unfolding finalize_session
    finish (remote_vkey, remote_loc) b =
        let (s, m) =
          finalize_session b.manager b.reader b.writer b.signing_key remote_vkey remote_loc in
        (ok s, record b { manager = m })

    abbrev pub Started : Type 0
    Started = Option (Result InitError (Session node) × CapTpSessionBuilder)

    -- Where the result is an error, that error; else the next step.
    abbrev pub next :
        {A : Type 0}
        → Result InitError A × CapTpSessionBuilder
        → (A → CapTpSessionBuilder → Started)
        → Started
    next (err e, b) f = some (err e, b)
    next (ok a, b) f = f a b

    abbrev pub await :
        {A : Type 0}
        → Option (Result InitError A × CapTpSessionBuilder)
        → (A → CapTpSessionBuilder → Started)
        → Started
    await none f = none
    await (some got) f = next got f

    -- The acceptor answers only once the peer's message is found good.
    unfoldable pub and_accept : ℕ → CapTpSessionBuilder → NodeLocator → Started
    unfolding start_bytes recv_start_session send_start finish
    and_accept fuel b local_locator =
        let start_msg = start_bytes b.signing_key local_locator in
        await (recv_start_session fuel b)
          (λ remote b'. next (send_start start_msg b') (λ _ b''. some (finish remote b'')))

    unfoldable pub and_connect : ℕ → CapTpSessionBuilder → NodeLocator → Started
    unfolding start_bytes recv_start_session send_start finish
    and_connect fuel b local_locator =
        let start_msg = start_bytes b.signing_key local_locator in
        next (send_start start_msg b)
          (λ _ b'. await (recv_start_session fuel b') (λ remote b''. some (finish remote b'')))
