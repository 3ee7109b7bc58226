-- ===== src/Session/Handle.antt =====
-- src/captp/session.rs: the handle `CapTpSession`, whose clones share one session, and
-- src/captp/session/ traits.rs: the same methods behind `AbstractCapTpSession`. Each takes the
-- session and returns it after.
use rexa.Common.{ℕ, Bool, ◌&&◌, Option, Key, ◌==◌}
use rexa.Msg.{DescExport, DescImportObject, OpAbort}
use rexa.Session.{
  Node, Session, SendResult, send_msg, local_abort, export_object, is_aborted, into_remote_object,
}
use rexa.Session.Receive.{Received, recv_event}

module _ (node : Node) where
  open node use {Obj, World, SigningKey, VerifyingKey, abort_tokens}

  pub record CapTpSession : Type 0 where
    pub base : Session node

  abbrev pub from_base : Session node → CapTpSession
  from_base s = record { base = s }

  abbrev pub handle_signing_key : CapTpSession → SigningKey
  handle_signing_key h = h.base.signing_key

  abbrev pub handle_remote_vkey : CapTpSession → VerifyingKey
  handle_remote_vkey h = h.base.remote_vkey

  -- `PartialEq for CapTpSession`
  unfoldable pub session_eq :
      ⦃v : Key VerifyingKey⦄ ⦃k : Key SigningKey⦄ → (h other : CapTpSession) → Bool
  session_eq h other =
      h.base.remote_vkey == other.base.remote_vkey && h.base.signing_key == other.base.signing_key

  abbrev pub handle_export_object :
      CapTpSession → Obj → World → DescImportObject × CapTpSession × World
  handle_export_object h obj w =
      let (desc, s, w') = export_object node obj h.base w in (desc, from_base s, w')

  abbrev pub handle_is_aborted : CapTpSession → Bool
  handle_is_aborted h = is_aborted node h.base

  unfoldable pub handle_abort : CapTpSession → OpAbort → SendResult node × CapTpSession
  unfolding send_msg local_abort
  handle_abort h reason =
      let (res, s) = send_msg node h.base (abort_tokens reason) in
      (res, from_base (local_abort node s))

  abbrev pub handle_into_remote_object : CapTpSession → DescExport → Option DescExport
  handle_into_remote_object h position = into_remote_object node h.base position

  -- No check of the position.
  abbrev pub into_remote_object_unchecked : Session node → DescExport → DescExport
  into_remote_object_unchecked s position = position

  abbrev pub handle_recv_event : ℕ → ℕ → CapTpSession → World → Received node
  handle_recv_event fuel rounds h w = recv_event node fuel rounds h.base w
