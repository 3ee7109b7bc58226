-- ===== src/Reader/Bounds.antt =====
-- src/captp/io.rs: how many bytes of the buffer a value takes up.
use rexa.Common.{
  ℕ, suc, ◌+◌, ◌-◌, ◌≤◌, ◌≡◌, ◌∙◌, ap, Bytes, ◌++◌, length, drop, length-append, drop-append, ok,
  arith, some,
}
use rexa.Reader.{Tokenizer, Stream, try_read_syrup, try_consume_syrup, consume_syrup}

module _ (tok : Tokenizer) (str : Stream) where
  open tok use {Tree, tokenize}
  open str use {Reader, fill_buf, consume}

  -- What the tokenizer leaves over is the end of what it was given.
  pub record Remainder : Type 0 where
    pub front-append :
        (buf rem : Bytes) (t : Tree)
        → tokenize buf ≡ ok (t, rem)
        → (front : Bytes) × (buf ≡ front ++ rem)

  -- When the tokenizer reads a value from the buffer, and what it leaves over is the buffer's end,
  -- the number of bytes that `try_read_syrup` answers is the one that `try_consume_syrup` and the
  -- first round of `consume_syrup` consume. With the bytes left over it makes up the buffer: the
  -- subtraction does not underflow, the reader is not asked to consume more than there is, and
  -- exactly what was left over stays.
  pub consumed_in_bounds :
      (left : Remainder) (fuel : ℕ) (r r' : Reader) (buf rem : Bytes) (t : Tree)
      → fill_buf r ≡ (ok buf, r')
      → tokenize buf ≡ ok (t, rem)
      → (n : ℕ) × (try_read_syrup tok str r ≡ (ok (t, n), r'))
        × (try_consume_syrup tok str r ≡ (ok t, consume r' n))
        × (consume_syrup tok str (suc fuel) r ≡ some (ok t, consume r' n))
        × (n + length rem ≡ length buf)
        × (n ≤ length buf)
        × (drop n buf ≡ rem)
  unfolding try_read_syrup try_consume_syrup consume_syrup
  consumed_in_bounds left fuel r r' buf rem t filled read =
      let (front, split) = left.front-append buf rem t read in
      let whole : length buf ≡ length front + length rem =
        ap length split ∙ length-append front rem in
      let taken : length buf - length rem ≡ length front = omega (arith, whole) in
      (
        length buf - length rem,
        ground (arith, filled, read),
        ground (arith, filled, read),
        ground (arith, filled, read),
        omega (arith, whole),
        omega arith,
        ap (λ k. drop k buf) taken ∙ ap (drop (length front)) split ∙ drop-append front rem,
      )
