-- ===== src/Reader/Frames.antt =====
-- Reading whole values: what the buffer holds is decoded in order, byte for byte.
use rexa.Common.{
  ℕ, zero, suc, ◌-◌, ◌≡◌, refl, ap, ◌∙◌, Option, none, some, Bytes, List, [], ◌∷◌, ◌++◌, length,
  drop, length-append, drop-append, ok, arith, map, All,
}
use rexa.Reader.{Tokenizer, Stream, try_consume_syrup, consume_syrup}

module _ (tok : Tokenizer) (str : Stream) where
  open tok use {Tree, LexError, tokenize, is_incomplete}
  open str use {Reader, fill_buf, consume}

  -- What the code relies on of a buffered reader: a buffer that `fill_buf` refills, by the next
  -- bytes to arrive, only when it is empty, and whose front `consume` drops.
  pub record Buffered : Type 0 where
    pub buffer : Reader → Bytes
    pub arriving : Reader → List Bytes
    pub fill_full :
        (r : Reader) (b : ℕ) (bs : Bytes) → buffer r ≡ b ∷ bs → fill_buf r ≡ (ok (b ∷ bs), r)
    pub fill_empty :
        (r : Reader) (chunk : Bytes) (rest : List Bytes)
        → buffer r ≡ []
        → arriving r ≡ chunk ∷ rest
        → ((fill_buf r).0 ≡ ok chunk)
          × (buffer (fill_buf r).1 ≡ chunk)
          × (arriving (fill_buf r).1 ≡ rest)
    pub buffer-consume : (r : Reader) (n : ℕ) → buffer (consume r n) ≡ drop n (buffer r)
    pub arriving-consume : (r : Reader) (n : ℕ) → arriving (consume r n) ≡ arriving r

  -- What the code relies on of the tokenizer: the bytes of a value, at least one, are read back
  -- with whatever follows them left over.
  pub record Encoding : Type 0 where
    pub encode : Tree → Bytes
    pub nonempty : (t : Tree) → (b : ℕ) × (bs : Bytes) × (encode t ≡ b ∷ bs)
    pub tokenize-encode : (t : Tree) (rest : Bytes) → tokenize (encode t ++ rest) ≡ ok (t, rest)

  module _ (b : Buffered) (enc : Encoding) where
    open b use {buffer, arriving, fill_full, fill_empty, buffer-consume, arriving-consume}
    open enc use {encode, nonempty, tokenize-encode}

    abbrev pub encode_all : List Tree → Bytes
    encode_all [] = []
    encode_all (t ∷ ts) = encode t ++ encode_all ts

    -- The buffer holds the values `now`, and each chunk to come holds those of a list of `later`.
    pub record Holds (now : List Tree) (later : List (List Tree)) (r : Reader) : Type 0 where
      pub in_buffer : buffer r ≡ encode_all now
      pub to_come : arriving r ≡ map encode_all later

    length-front : (xs ys : Bytes) → length (xs ++ ys) - length ys ≡ length xs
    length-front xs ys = omega (arith, length-append {0} xs ys)

    -- One call takes the first value off, when the stream answers with whole values.
    pub take_value :
        (fuel : ℕ) (r r' : Reader) (t : Tree) (rest : Bytes)
        → fill_buf r ≡ (ok (encode t ++ rest), r')
        → consume_syrup tok str (suc fuel) r ≡ some (ok t, consume r' (length (encode t)))
    unfolding consume_syrup try_consume_syrup
    take_value fuel r r' t rest e =
        ground (arith, tokenize-encode t rest, length-front (encode t) rest)

    pub filled :
        (r : Reader) (t : Tree) (rest : Bytes)
        → buffer r ≡ encode t ++ rest
        → fill_buf r ≡ (ok (encode t ++ rest), r)
    filled r t rest e =
        let (x, xs, p) = nonempty t in
        rw p (fill_full r x (xs ++ rest) (e ∙ ap (λ (l : Bytes). l ++ rest) p))

    after_value :
        (r : Reader) (t : Tree) (ts : List Tree) (later : List (List Tree))
        → Holds (t ∷ ts) later r
        → Holds ts later (consume r (length (encode t)))
    after_value r t ts later h = record {
      in_buffer =
          buffer-consume r (length (encode t))
          ∙ ap (drop (length (encode t))) h.in_buffer
          ∙ drop-append (encode t) (encode_all ts);
      to_come = arriving-consume r (length (encode t)) ∙ h.to_come;
    }

    abbrev pub read_values : ℕ → ℕ → Reader → Option (List Tree × Reader)
    read_values fuel zero r = some ([], r)
    read_values fuel (suc n) r = elim (consume_syrup tok str fuel r) [
      | some (ok t, r') ↦ elim (read_values fuel n r') [
        | some (ts, r'') ↦ some (t ∷ ts, r'')
        | none ↦ none
      ]
      | _ ↦ none
    ]

    abbrev pub joined : List (List Tree) → List Tree
    joined [] = []
    joined (ts ∷ later) = ts ++ joined later

    abbrev pub NonEmpty : List Tree → Type 0
    NonEmpty [] = ⊥
    NonEmpty (t ∷ ts) = Unit

    -- What a run that returns the values `ts` leaves behind.
    abbrev pub Reads : ℕ → ℕ → Reader → List Tree → Type 0
    Reads fuel n r ts =
        (r' : Reader) × (read_values fuel n r ≡ some (ts, r'))
        × (buffer r' ≡ [])
        × (arriving r' ≡ [])

    Reads-cons :
        (fuel n : ℕ) (r r' : Reader) (t : Tree) (ts : List Tree)
        → consume_syrup tok str fuel r ≡ some (ok t, r')
        → Reads fuel n r' ts
        → Reads fuel (suc n) r (t ∷ ts)
    Reads-cons fuel n r r' t ts e (r'', run, b0, a0) = (r'', ground arith, b0, a0)

    -- When every chunk that arrives holds one or more whole values, and the buffer holds whole
    -- values, repeated calls return exactly these values in their order, one round each, and leave
    -- nothing.
    pub read_values_in_order :
        (fuel : ℕ) (now : List Tree) (later : List (List Tree)) (r : Reader)
        → Holds now later r
        → All NonEmpty later
        → Reads (suc fuel) (length (now ++ joined later)) r (now ++ joined later)
    read_values_in_order fuel [] [] r h all = (r, refl, h.in_buffer, h.to_come)
    read_values_in_order fuel (t ∷ ts) later r h all =
        Reads-cons (suc fuel) (length (ts ++ joined later)) r (consume r (length (encode t))) t
          (ts ++ joined later) (take_value fuel r r t (encode_all ts) (filled r t _ h.in_buffer))
          (read_values_in_order fuel ts later _ (after_value r t ts later h) all)
    read_values_in_order fuel [] ([] ∷ later) r h all = absurd all.0
    read_values_in_order fuel [] ((t ∷ ts) ∷ later) r h all =
        let (got, full, rest) = fill_empty r _ _ h.in_buffer h.to_come in
        let r' : Reader = (fill_buf r).1 in
        Reads-cons (suc fuel) (length (ts ++ joined later)) r (consume r' (length (encode t))) t
          (ts ++ joined later) (take_value fuel r r' t (encode_all ts) (λ i. (got i, r')))
          (read_values_in_order fuel ts later _
            (after_value r' t ts later (record { in_buffer = full; to_come = rest })) all.1)
