-- ===== src/Reader/Examples.antt =====
-- Reading from a concrete stream, whose values are a number in one byte and the byte `;`.
use rexa.Common.{
  ℕ, ◌≡◌, refl, Bool, true, false, none, some, Bytes, List, [], ◌∷◌, Result, ok, err, if◌then◌else◌,
  ◌==◌, nat_eq, ◌++◌, ◌+◌, ◌≤◌, drop, ap, arith,
}
use rexa.Reader.{Tokenizer, try_read_syrup, try_consume_syrup, consume_syrup}
use rexa.Reader.Bounds.{consumed_in_bounds}
use rexa.Reader.Chunks.{chunks, chunks_Buffered}
use rexa.Reader.Frames.{Encoding, read_values, read_values_in_order}
use rexa.Reader.Livelock.{split_value_livelock}

-- A value that does not end in `;` is an error of another kind.
abbrev toy_tokenize : Bytes → Result Bool (ℕ × Bytes)
toy_tokenize [] = err true
toy_tokenize (x ∷ []) = err true
toy_tokenize (x ∷ y ∷ rest) = if y == b';' then ok (x, rest) else err false

abbrev toy : Tokenizer
toy = record { Tree = ℕ; LexError = Bool; tokenize = toy_tokenize; is_incomplete = λ e. e }

abbrev toy_Encoding : Encoding toy chunks
toy_Encoding = record {
  encode = λ t. t ∷ b';' ∷ [];
  nonempty = λ t. (t, b';' ∷ [], refl);
  tokenize-encode = λ t rest. refl;
}

abbrev two_chunks : Bytes × List Bytes
two_chunks = (7 ∷ b';' ∷ [], (8 ∷ b';' ∷ 9 ∷ b';' ∷ []) ∷ [])

read_values_in_order_example :
    (r' : Bytes × List Bytes) × (read_values toy chunks
        (chunks_Buffered toy)
        toy_Encoding
        1
        3
        two_chunks
      ≡ some (7 ∷ 8 ∷ 9 ∷ [], r'))
    × (r'.0 ≡ [])
    × (r'.1 ≡ [])
read_values_in_order_example =
    read_values_in_order toy chunks (chunks_Buffered toy) toy_Encoding 0 (7 ∷ [])
      ((8 ∷ 9 ∷ []) ∷ []) two_chunks (record { in_buffer = refl; to_come = refl }) (tt, tt)

split_value_livelock_example :
    (toy_tokenize (7 ∷ b';' ∷ []) ≡ ok (7, []))
    × (consume_syrup toy chunks 99 (7 ∷ [], (b';' ∷ []) ∷ []) ≡ none)
split_value_livelock_example =
    split_value_livelock toy chunks (chunks_Buffered toy) toy_Encoding (7 ∷ [], (b';' ∷ []) ∷ []) 7
      7 [] (b';' ∷ []) [] true 99 refl refl refl refl refl

-- `try_read_syrup` measures a value and leaves it in the buffer.
try_read_keeps : try_read_syrup toy chunks two_chunks ≡ (ok (7, 2), two_chunks)
unfolding try_read_syrup
try_read_keeps = refl

toy_front :
    (buf rem : Bytes) (t : ℕ)
    → toy_tokenize buf ≡ ok (t, rem)
    → (front : Bytes) × (buf ≡ front ++ rem)
toy_front [] rem t e = cc
toy_front (x ∷ []) rem t e = cc
toy_front (x ∷ y ∷ rest) rem t e =
    let same : rest ≡ rem = ground arith in (x ∷ y ∷ [], ap (λ (l : Bytes). x ∷ y ∷ l) same)

consumed_in_bounds_example :
    (n : ℕ) × (try_read_syrup toy chunks two_chunks ≡ (ok (7, n), two_chunks))
    × (try_consume_syrup toy chunks two_chunks ≡ (ok 7, (drop n two_chunks.0, two_chunks.1)))
    × (consume_syrup toy chunks 1 two_chunks ≡ some (ok 7, (drop n two_chunks.0, two_chunks.1)))
    × (n + 0 ≡ 2)
    × (n ≤ 2)
    × (drop {A = ℕ} n (7 ∷ b';' ∷ []) ≡ [])
consumed_in_bounds_example =
    consumed_in_bounds toy chunks (record { front-append = toy_front }) 0 two_chunks two_chunks
      (7 ∷ b';' ∷ []) [] 7 refl refl
