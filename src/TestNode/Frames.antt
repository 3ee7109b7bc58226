-- ===== src/TestNode/Frames.antt =====
-- Values as byte strings behind their length: a message is a tag, a position and no arguments.
use rexa.Common.{
  ℕ, zero, suc, ◌≡◌, refl, Bool, true, false, Option, none, some, Bytes, List, [], ◌∷◌, ◌++◌,
  length, Result, ok, err, arith,
}
use rexa.Reader.{Tokenizer, Stream}
use rexa.Reader.Frames.{Encoding}
use rexa.Msg.{Operation, export_at}
use rexa.Wire.{Syrup}

-- The first `n` bytes and the rest, if there are as many.
abbrev pub split : ℕ → Bytes → Option (Bytes × Bytes)
split zero bytes = some ([], bytes)
split (suc n) [] = none
split (suc n) (b ∷ bytes) = elim (split n bytes) [
  | none ↦ none
  | some (front, rest) ↦ some (b ∷ front, rest)
]

abbrev pub unframe : Bytes → Result Bool (Bytes × Bytes)
unframe [] = err true
unframe (n ∷ bytes) = elim (split n bytes) [ none ↦ err true | some whole ↦ ok whole ]

abbrev pub tokenizer : Tokenizer
tokenizer = record { Tree = Bytes; LexError = Bool; tokenize = unframe; is_incomplete = λ e. e }

split-append : (t rest : Bytes) → split (length t) (t ++ rest) ≡ some (t, rest)
split-append [] rest = refl
split-append (b ∷ t) rest = ground (arith, split-append t rest)

pub unframe-frame : (t rest : Bytes) → unframe (length t ∷ (t ++ rest)) ≡ ok (t, rest)
unframe-frame t rest = ground (arith, split-append t rest)

abbrev pub framing : (str : Stream) → Encoding tokenizer str
framing str = record {
  encode = λ t. length t ∷ t;
  nonempty = λ t. (length t, t, refl);
  tokenize-encode = unframe-frame;
}

abbrev decode : Bytes → Result Bool (Operation (List Bytes))
decode (zero ∷ n ∷ []) = ok (Operation.deliver_only (record { to_desc = export_at n; args = [] }))
decode (suc zero ∷ reason) = ok (Operation.abort (record { reason = reason }))
decode _ = err false

abbrev pub frames : Syrup
frames = record {
  tok = tokenizer;
  Args = List Bytes;
  pop = elim [ [] ↦ none | t ∷ ts ↦ some (t, ts) ];
  insert_front = λ t ts. t ∷ ts;
  sequence = λ ts. ts;
  call_sequence = λ f ts. (0 ∷ f) ∷ ts;
  symbol = λ b. 0 ∷ b;
  string = λ b. 1 ∷ b;
  byte_string = λ b. 2 ∷ b;
  integer = λ n. n ∷ [];
  as_symbol = λ t. none;
  encode = λ t. length t ∷ t;
  export_tokens = λ d. d.position ∷ [];
  import_tokens = λ d. [];
  deliver_only_tokens = λ op. 0 ∷ op.to_desc.position ∷ [];
  deliver_tokens = λ op. 2 ∷ op.to_desc.position ∷ [];
  abort_tokens = λ op. 1 ∷ op.reason;
  DecodeError = Bool;
  decode_operation = decode;
  require_export = λ args. err false;
}
