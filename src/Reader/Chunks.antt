-- ===== src/Reader/Chunks.antt =====
-- A stream that arrives in chunks, with the buffer of src/captp/io.rs in front, for the tests.
use rexa.Common.{ℕ, ◌≡◌, refl, Bool, Bytes, List, [], ◌∷◌, drop, Result, ok, arith}
use rexa.Reader.{Tokenizer, Stream}
use rexa.Reader.Frames.{Buffered}

abbrev pub fill_chunk : Bytes × List Bytes → Result Bool Bytes × (Bytes × List Bytes)
fill_chunk ([], []) = (ok [], ([], []))
fill_chunk ([], c ∷ cs) = (ok c, (c, cs))
fill_chunk (b ∷ bs, cs) = (ok (b ∷ bs), (b ∷ bs, cs))

abbrev pub chunks : Stream
chunks = record {
  Reader = Bytes × List Bytes;
  IoError = Bool;
  fill_buf = fill_chunk;
  consume = λ r n. (drop n r.0, r.1);
}

pub fill_full :
    (r : Bytes × List Bytes) (b : ℕ) (bs : Bytes) → r.0 ≡ b ∷ bs → fill_chunk r ≡ (ok (b ∷ bs), r)
fill_full ([], cs) b bs e = cc
fill_full (x ∷ xs, cs) b bs e = cc

pub fill_empty :
    (r : Bytes × List Bytes) (chunk : Bytes) (rest : List Bytes)
    → r.0 ≡ []
    → r.1 ≡ chunk ∷ rest
    → ((fill_chunk r).0 ≡ ok chunk) × ((fill_chunk r).1.0 ≡ chunk) × ((fill_chunk r).1.1 ≡ rest)
fill_empty ([], []) chunk rest e p = ground arith
fill_empty ([], c ∷ cs) chunk rest e p = ground arith
fill_empty (x ∷ xs, cs) chunk rest e p = ground arith

abbrev pub chunks_Buffered : (tok : Tokenizer) → Buffered tok chunks
chunks_Buffered tok = record {
  buffer = λ r. r.0;
  arriving = λ r. r.1;
  fill_full = fill_full;
  fill_empty = fill_empty;
  buffer-consume = λ r n. refl;
  arriving-consume = λ r n. refl;
}
