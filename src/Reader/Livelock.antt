-- ===== src/Reader/Livelock.antt =====
-- When `consume_syrup` does not return.
use mathlib.Core.List.{append-nil}
use rexa.Common.{
  ℕ, zero, suc, ◌≡◌, refl, true, false, some, none, Bytes, ok, err, ◌∷◌, [], ◌++◌, List, arith,
}
use rexa.Reader.{Tokenizer, Stream, lex, try_consume_syrup, consume_syrup}
use rexa.Reader.Frames.{Buffered, Encoding}

module _ (tok : Tokenizer) (str : Stream) where
  open tok use {Tree, LexError, tokenize, is_incomplete}
  open str use {Reader, fill_buf}

  -- The loop goes round for ever on a buffer that is no whole value and that stays as it is.
  spins :
      (r : Reader) (buf : Bytes) (e : LexError)
      → fill_buf r ≡ (ok buf, r)
      → tokenize buf ≡ err e
      → is_incomplete e ≡ true
      → (fuel : ℕ) → consume_syrup tok str fuel r ≡ none
  unfolding consume_syrup try_consume_syrup
  spins r buf e filled bad inc zero = refl
  spins r buf e filled bad inc (suc fuel) = ground (arith, spins r buf e filled bad inc fuel)

  -- Once the buffer holds a part of a value, at least one byte, at which the tokenizer reports
  -- `Incomplete`, `consume_syrup` runs for ever, whatever bytes are still to arrive.
  pub consume_syrup_livelock :
      (b : Buffered tok str) (r : Reader) (x : ℕ) (part : Bytes) (e : LexError)
      → b.buffer r ≡ x ∷ part
      → tokenize (x ∷ part) ≡ err e
      → is_incomplete e ≡ true
      → (fuel : ℕ) → consume_syrup tok str fuel r ≡ none
  consume_syrup_livelock b r x part e held bad inc =
      spins r (x ∷ part) e (b.fill_full r x part held) bad inc

  -- At any other tokenizer error `consume_syrup` returns that error in its first round, and so does
  -- every later call on the reader that it leaves: the bytes are never consumed.
  consume_syrup_error_sticks :
      (b : Buffered tok str) (r : Reader) (x : ℕ) (part : Bytes) (e : LexError)
      → b.buffer r ≡ x ∷ part
      → tokenize (x ∷ part) ≡ err e
      → is_incomplete e ≡ false
      → (fuel : ℕ) → consume_syrup tok str (suc fuel) r ≡ some (err (lex e), r)
  unfolding consume_syrup try_consume_syrup
  consume_syrup_error_sticks b r x part e held bad other fuel =
      ground (arith, b.fill_full r x part held)

  -- A value whose bytes arrive in two reads is not read: with a first part in the buffer, at which
  -- the tokenizer reports `Incomplete`, and the rest of its bytes next to arrive, every number of
  -- rounds of `consume_syrup` is too few, although the tokenizer would read the whole.
  pub split_value_livelock :
      (b : Buffered tok str) (enc : Encoding tok str) (r : Reader) (t : Tree) (x : ℕ)
      (part rest : Bytes) (later : List Bytes) (e : LexError) (fuel : ℕ)
      → enc.encode t ≡ (x ∷ part) ++ rest
      → b.buffer r ≡ x ∷ part
      → b.arriving r ≡ rest ∷ later
      → tokenize (x ∷ part) ≡ err e
      → is_incomplete e ≡ true
      → (tokenize ((x ∷ part) ++ rest) ≡ ok (t, [])) × (consume_syrup tok str fuel r ≡ none)
  split_value_livelock b enc r t x part rest later e fuel whole held next bad inc = (
    rw (← whole) (rw (append-nil (enc.encode t)) at (enc.tokenize-encode t [])),
    consume_syrup_livelock b r x part e held bad inc fuel,
  )
