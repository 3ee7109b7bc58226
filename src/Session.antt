-- ===== src/Session.antt =====
-- src/captp/session/internal.rs and traits.rs: one side of a CapTP session.
-- A session is a record that each call takes and returns; its locks and atomics are fields. Calls
-- that wait for the network return when the answer is there, or run out of `fuel`.
mod Types
pub use Types.*
pub mod Receive
pub mod Calls
pub mod Frame
pub mod Abort
pub mod Loop
pub mod Stream
pub mod Handle
pub mod Fifo
pub mod Tasks
pub mod Readers
pub mod Registry
pub mod Examples
use rexa.Common.{
  ℕ, zero, suc, ◌≡◌, Bool, true, false, ◌||◌, Option, none, some, Bytes, Result, ok, err, map_err,
  if◌then◌else◌, nat_beq, not, ◌&&◌,
}
use rexa.Reader.{ReadSyrupError, consume_syrup}
use rexa.DashMap.{MapOps}
use rexa.KeyMap.{KeyMap, with_initial, reserve, finalize, get}
use rexa.KeyMap
use rexa.Locator.{NodeLocator}
use rexa.Msg.{
  DescExport, DescImport, DescImportObject, OpDeliverOnly, OpDeliver, OpAbort, Operation, export_at,
}
use rexa.Wire.{Syrup, Connection}

-- The node that the session runs in. `Obj` is `Arc<dyn Object>`; `on_*` are its methods.
pub record Node : Type 1 where
  pub syrup : Syrup
  pub open syrup use *
  pub con : Connection
  pub open con use *
  pub SigningKey : Type 0
  pub VerifyingKey : Type 0
  pub Obj : Type 0
  pub World : Type 0
  -- `DashMap`, and `DashSet` as a map to the unit type.
  pub objects : MapOps ℕ Obj
  pub positions : MapOps ℕ (Unit {0})
  pub on_exported : Obj → VerifyingKey → DescExport → World → World
  pub on_deliver_only : Obj → Args → Reaction Args Obj World IoError LexError
  pub on_deliver : Obj → Args → GenericResolver → Reaction Args Obj World IoError LexError

module _ (node : Node) where
  open node use {
    Tree, LexError, DecodeError, Args, encode, deliver_only_tokens, deliver_tokens, abort_tokens,
    decode_operation, Reader, IoError, Writer, write_all, SigningKey, VerifyingKey, Obj, World,
    objects, positions, on_exported,
  }

  abbrev pub SendResult : Type 0
  SendResult = Result (SendError IoError) (Unit {0})

  abbrev pub Error : Type 0
  Error = RecvError IoError LexError DecodeError Args

  pub record ExportManager : Type 0 where
    pub remote_vkey : VerifyingKey
    pub exports : KeyMap objects
    pub answers : positions.Map

  pub record Session : Type 0 where
    pub reader : Reader
    pub writer : Writer
    pub signing_key : SigningKey
    pub remote_vkey : VerifyingKey
    pub remote_locator : NodeLocator
    pub imports : positions.Map
    pub exports : ExportManager
    pub aborted_by_remote : Option Bytes
    pub aborted_locally : Bool

  unfoldable pub new_exports : VerifyingKey → ExportManager
  new_exports remote_vkey = record {
    remote_vkey = remote_vkey;
    exports = with_initial objects 1;
    answers = positions.empty;
  }

  unfoldable pub new_session : Reader → Writer → SigningKey → VerifyingKey → NodeLocator → Session
  new_session reader writer signing_key remote_vkey remote_locator = record {
    reader = reader;
    writer = writer;
    signing_key = signing_key;
    remote_vkey = remote_vkey;
    remote_locator = remote_locator;
    imports = positions.empty;
    exports = new_exports remote_vkey;
    aborted_by_remote = none;
    aborted_locally = false;
  }

  -- `ExportManager::export_object`: the object hears its position before it is stored there.
  unfoldable pub export_object : Obj → Session → World → DescImportObject × Session × World
  export_object obj s w =
      let (r, reserved) = reserve objects s.exports.exports in
      let (position, filled) = finalize objects r obj reserved in
      (
        record { position = position },
        record s { exports = record s.exports { exports = filled } },
        on_exported obj s.exports.remote_vkey (export_at r.key) w,
      )

  unfoldable pub is_aborted : Session → Bool
  is_aborted s = s.aborted_locally || elim s.aborted_by_remote [ none ↦ false | some _ ↦ true ]

  unfoldable pub local_abort : Session → Session
  local_abort s = record s { aborted_locally = true }

  unfoldable pub set_remote_abort : Bytes → Session → Session
  set_remote_abort reason s = record s { aborted_by_remote = some reason }

  unfoldable pub send_msg : Session → Tree → SendResult × Session
  send_msg s msg =
      if s.aborted_locally
      then (err SendError.session_aborted_locally, s)
      else elim s.aborted_by_remote [
        | some reason ↦ (err (SendError.session_aborted reason), s)
        | none ↦
            let (res, writer) = write_all s.writer (encode msg) in
            (map_err SendError.io_failed res, record s { writer = writer })
      ]

  unfoldable pub deliver_only : Session → OpDeliverOnly Args → SendResult × Session
  unfolding send_msg
  deliver_only s delivery = send_msg s (deliver_only_tokens delivery)

  unfoldable pub deliver : Session → OpDeliver Args → SendResult × Session
  unfolding send_msg
  deliver s delivery = send_msg s (deliver_tokens delivery)

  -- The message is sent first, and the session is shut whatever came of that.
  unfoldable pub abort : Session → OpAbort → SendResult × Session
  unfolding send_msg local_abort
  abort s reason = let (res, s') = send_msg s (abort_tokens reason) in (res, local_abort s')

  -- `some` for `Some(RemoteObject::new(session, position))`.
  unfoldable pub into_remote_object : Session → DescExport → Option DescExport
  into_remote_object s position =
      if not (nat_beq position.position 0)
        && elim (positions.get s.imports position.position) [ none ↦ true | some _ ↦ false ]
      then none
      else some position

  abbrev decoded : Result (ReadSyrupError IoError LexError) Tree → Result Error (Operation Args)
  decoded (err e) = err (recv_of_read e)
  decoded (ok tree) = map_err RecvError.decode_failed (decode_operation tree)

  -- `recv_msg::<Operation>`, with at most `fuel` rounds of the reading loop.
  unfoldable pub recv_msg : ℕ → Session → Option (Result Error (Operation Args) × Session)
  recv_msg fuel s =
      if s.aborted_locally
      then some (err RecvError.session_aborted_locally, s)
      else elim s.aborted_by_remote [
        | some reason ↦ some (err (RecvError.session_aborted reason), s)
        | none ↦ elim (consume_syrup node.tok node.str fuel s.reader) [
          | none ↦ none
          | some (res, reader) ↦ some (decoded res, record s { reader = reader })
        ]
      ]
