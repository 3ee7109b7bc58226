-- ===== src/Reader.antt =====
-- src/captp/io.rs: reading syrup values from a buffered byte stream.
-- The stream (tokio's or futures' `AsyncBufRead`) and the tokenizer of the syrup crate are
-- parameters. An `await` is a call that returns when its future is ready; `FillBuf::poll` hands on
-- what `poll_fill_buf` answers and keeps its reader while the answer is `Pending`.
pub mod Frames
pub mod Bounds
pub mod Livelock
pub mod Chunks
pub mod Examples
use rexa.Common.{
  ℕ, zero, suc, ◌-◌, Bool, true, false, Option, none, some, Bytes, length, Result, ok, err, map_ok,
  map_err,
}

-- The tokenizer `TokenTree::tokenize`: a value and the rest of the input, or an error. The error of
-- kind `LexErrorKind::Incomplete` is told apart by `is_incomplete`.
pub record Tokenizer : Type 1 where
  pub Tree : Type 0
  pub LexError : Type 0
  pub tokenize : Bytes → Result LexError (Tree × Bytes)
  pub is_incomplete : LexError → Bool

-- The trait `CapTpRead`, with `poll_fill_buf` awaited.
pub record Stream : Type 1 where
  pub Reader : Type 0
  pub IoError : Type 0
  pub fill_buf : Reader → Result IoError Bytes × Reader
  pub consume : Reader → ℕ → Reader

pub data Poll (A : Type 0) : Type 0 where
  ready : A → Poll A
  pending : Poll A

pub data ReadSyrupError (IoError LexError : Type 0) : Type 0 where
  io : IoError → ReadSyrupError IoError LexError
  lex : LexError → ReadSyrupError IoError LexError

-- The future `FillBuf`: it gives its reader back only when the stream is not ready. `none` in the
-- place of a result is the panic "Polled FillBuf after completion".
pub record FillBuf (Reader : Type 0) : Type 0 where
  pub reader : Option Reader

module _ {Reader IoError : Type 0}
    (poll_fill_buf : Reader → Poll (Result IoError Bytes) × Reader) where
  abbrev hand_on :
      Poll (Result IoError Bytes) × Reader
      → Option (Poll (Result IoError Bytes) × Reader × FillBuf Reader)
  hand_on (ready r, reader) = some (ready r, reader, record { reader = none })
  hand_on (pending, reader) = some (pending, reader, record { reader = some reader })

  pub poll : FillBuf Reader → Option (Poll (Result IoError Bytes) × Reader × FillBuf Reader)
  poll f = elim f.reader [ none ↦ none | some reader ↦ hand_on (poll_fill_buf reader) ]

module _ (tok : Tokenizer) (str : Stream) where
  open tok use {Tree, LexError, tokenize, is_incomplete}
  open str use {Reader, IoError, fill_buf, consume}

  abbrev pub ReadError : Type 0
  ReadError = ReadSyrupError IoError LexError

  abbrev tokenized : Bytes → Result ReadError (Tree × Bytes)
  tokenized buf = map_err lex (tokenize buf)

  abbrev measured : Bytes → Tree × Bytes → Tree × ℕ
  measured buf (tree, rem) = (tree, length buf - length rem)

  abbrev try_read : Result IoError Bytes → Result ReadError (Tree × ℕ)
  try_read (err e) = err (io e)
  try_read (ok buf) = map_ok (measured buf) (tokenized buf)

  -- The value and the number of bytes that it takes up. Nothing is consumed.
  unfoldable pub try_read_syrup : Reader → Result ReadError (Tree × ℕ) × Reader
  try_read_syrup r = let (filled, r') = fill_buf r in (try_read filled, r')

  abbrev finish_consume :
      Bytes → Reader → Result LexError (Tree × Bytes) → Result ReadError Tree × Reader
  finish_consume buf r (ok (tree, rem)) = (ok tree, consume r (length buf - length rem))
  finish_consume buf r (err e) = (err (lex e), r)

  abbrev try_consume : Result IoError Bytes × Reader → Result ReadError Tree × Reader
  try_consume (err e, r) = (err (io e), r)
  try_consume (ok buf, r) = finish_consume buf r (tokenize buf)

  unfoldable pub try_consume_syrup : Reader → Result ReadError Tree × Reader
  try_consume_syrup r = try_consume (fill_buf r)

  -- Whether the loop goes round again.
  abbrev retries : Result ReadError Tree → Bool
  retries (ok tree) = false
  retries (err (io e)) = false
  retries (err (lex e)) = is_incomplete e

  -- The loop of `consume_syrup`, for at most `fuel` rounds: `none` if it is still running then.
  unfoldable pub consume_syrup : ℕ → Reader → Option (Result ReadError Tree × Reader)
  consume_syrup zero r = none
  consume_syrup (suc fuel) r =
      let (res, r') = try_consume_syrup r in
      elim (retries res) [ true ↦ consume_syrup fuel r' | false ↦ some (res, r') ]
