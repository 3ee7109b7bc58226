-- ===== src/Session/Types.antt =====
-- The values that a session hands out: src/captp/session/error.rs, event.rs, the data of
-- resolver.rs, and `ObjectError` of src/captp/object.rs. A resolver's `session` is the session that
-- made it.
use rexa.Common.{ℕ, Option, Bytes, Result, Bool}
use rexa.Reader.{ReadSyrupError, io, lex}
use rexa.Msg.{DescExport, DescImport, DescImportObject, OpDeliverOnly, OpDeliver, OpAbort}

pub data SendError (IoError : Type 0) : Type 0 where
  io_failed : IoError → SendError IoError
  session_aborted : Bytes → SendError IoError
  session_aborted_locally : SendError IoError

pub data RecvError (IoError LexError DecodeError Args : Type 0) : Type 0 where
  io_failed : IoError → RecvError IoError LexError DecodeError Args
  lex_failed : LexError → RecvError IoError LexError DecodeError Args
  decode_failed : DecodeError → RecvError IoError LexError DecodeError Args
  session_aborted : Bytes → RecvError IoError LexError DecodeError Args
  session_aborted_locally : RecvError IoError LexError DecodeError Args
  unknown_target : ℕ → Args → RecvError IoError LexError DecodeError Args

abbrev pub recv_of_read :
    {IoError LexError DecodeError Args : Type 0}
    → ReadSyrupError IoError LexError
    → RecvError IoError LexError DecodeError Args
recv_of_read (io e) = RecvError.io_failed e
recv_of_read (lex e) = RecvError.lex_failed e

pub data ObjectError (IoError LexError : Type 0) : Type 0 where
  deliver_failed : SendError IoError → ObjectError IoError LexError
  lex_failed : LexError → ObjectError IoError LexError

pub record GenericResolver : Type 0 where
  pub answer_pos : Option ℕ
  pub resolve_me_desc : DescImport

pub record FetchResolver : Type 0 where
  pub base : GenericResolver

pub data BootstrapEvent : Type 0 where
  fetch : Bytes → FetchResolver → BootstrapEvent

pub data Event : Type 0 where
  bootstrap : BootstrapEvent → Event
  abort : Bytes → Event

pub data Delivery (Args : Type 0) : Type 0 where
  deliver_only : DescExport → Args → Delivery Args
  deliver : DescExport → Args → GenericResolver → Delivery Args

pub delivery_position : {Args : Type 0} → Delivery Args → ℕ
delivery_position (deliver_only to_desc args) = to_desc.position
delivery_position (deliver to_desc args resolver) = to_desc.position

-- Where the code says `todo!`, and the panics of an exported object.
pub data Panic : Type 0 where
  deposit_gift withdraw_gift unrecognized_function not_a_function : Panic
  malformed_swiss missing_swiss in_object : Panic

pub data Outcome (Error : Type 0) : Type 0 where
  event : Event → Outcome Error
  error : Error → Outcome Error
  panics : Panic → Outcome Error

-- What an exported object does when a delivery reaches it: it may read and write the state `World`
-- of the node's objects, and call the session, going on from each answer.
pub data Reaction (Args Obj World IoError LexError : Type 0) : Type 0 where
  finish :
      Result (ObjectError IoError LexError) (Unit {0}) → Reaction Args Obj World IoError LexError
  give_up : Reaction Args Obj World IoError LexError
  -- It awaits what does not come: a future that no call ends, or a lock that is not released.
  waits : Reaction Args Obj World IoError LexError
  read :
      (World → Reaction Args Obj World IoError LexError) → Reaction Args Obj World IoError LexError
  write :
      World → Reaction Args Obj World IoError LexError → Reaction Args Obj World IoError LexError
  ask_aborted :
      (Bool → Reaction Args Obj World IoError LexError) → Reaction Args Obj World IoError LexError
  exports :
      Obj
      → (DescImportObject → Reaction Args Obj World IoError LexError)
      → Reaction Args Obj World IoError LexError
  sends_only :
      OpDeliverOnly Args
      → (Result (SendError IoError) (Unit {0}) → Reaction Args Obj World IoError LexError)
      → Reaction Args Obj World IoError LexError
  sends :
      OpDeliver Args
      → (Result (SendError IoError) (Unit {0}) → Reaction Args Obj World IoError LexError)
      → Reaction Args Obj World IoError LexError
  aborts :
      OpAbort
      → (Result (SendError IoError) (Unit {0}) → Reaction Args Obj World IoError LexError)
      → Reaction Args Obj World IoError LexError
