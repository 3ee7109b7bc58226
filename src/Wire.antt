-- ===== src/Wire.antt =====
-- What the sessions take from other crates: the values, sequences and derived codecs of syrup, the
-- stream and sink of bytes, and the laws of these that the code relies on.
use rexa.Common.{ℕ, ◌≡◌, Option, none, some, Bytes, List, [], ◌∷◌, Result, ok}
use rexa.Reader.{Tokenizer, Stream}
use rexa.Msg.{DescExport, DescImport, OpDeliverOnly, OpDeliver, OpAbort, Operation}

pub record Syrup : Type 1 where
  pub tok : Tokenizer
  pub open tok use *
  -- `Sequence`, with the operations of its `stream`.
  pub Args : Type 0
  pub pop : Args → Option (Tree × Args)
  pub insert_front : Tree → Args → Args
  pub sequence : List Tree → Args
  pub call_sequence : Bytes → List Tree → Args
  -- The literals, and the match on `LiteralValue::Symbol`.
  pub symbol : Bytes → Tree
  pub string : Bytes → Tree
  pub byte_string : Bytes → Tree
  pub integer : ℕ → Tree
  pub as_symbol : Tree → Option Bytes
  -- `to_tokens` and `decode` of the derived codecs, and the bytes of a value.
  pub encode : Tree → Bytes
  pub export_tokens : DescExport → Tree
  pub import_tokens : DescImport → Tree
  pub deliver_only_tokens : OpDeliverOnly Args → Tree
  pub deliver_tokens : OpDeliver Args → Tree
  pub abort_tokens : OpAbort → Tree
  pub DecodeError : Type 0
  pub decode_operation : Tree → Result DecodeError (Operation Args)
  -- `stream.require("desc:export").and_then(DescExport::decode)`
  pub require_export : Args → Result DecodeError DescExport

pub record SyrupLaws (s : Syrup) : Type 0 where
  pub pop-nil : s.pop (s.sequence []) ≡ none
  pub pop-cons :
      (t : s.Tree) (ts : List s.Tree) → s.pop (s.sequence (t ∷ ts)) ≡ some (t, s.sequence ts)
  pub insert_front-sequence :
      (t : s.Tree) (ts : List s.Tree) → s.insert_front t (s.sequence ts) ≡ s.sequence (t ∷ ts)
  pub call-sequence :
      (f : Bytes) (ts : List s.Tree) → s.call_sequence f ts ≡ s.sequence (s.symbol f ∷ ts)
  pub symbol_lem : (b : Bytes) → s.as_symbol (s.symbol b) ≡ some b
  pub byte_string_not_symbol : (b : Bytes) → s.as_symbol (s.byte_string b) ≡ none
  pub decode-deliver_only :
      (op : OpDeliverOnly s.Args)
      → s.decode_operation (s.deliver_only_tokens op) ≡ ok (Operation.deliver_only op)
  pub decode-deliver :
      (op : OpDeliver s.Args) → s.decode_operation (s.deliver_tokens op) ≡ ok (Operation.deliver op)
  pub decode-abort :
      (op : OpAbort) → s.decode_operation (s.abort_tokens op) ≡ ok (Operation.abort op)

-- The connection: the reader, and an `AsyncWrite` with the errors of both.
pub record Connection : Type 1 where
  pub str : Stream
  pub open str use *
  pub Writer : Type 0
  pub write_all : Writer → Bytes → Result IoError (Unit {0}) × Writer
  pub flush : Writer → Result IoError (Unit {0}) × Writer
