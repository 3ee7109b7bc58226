-- ===== src/Proc/Metadata/Examples.antt =====
-- Attributes as lists of tokens: a flag, and the properties of `impl_object` in
-- src/captp/object.rs.
use rexa.Common.{
  ◌≡◌, refl, Bool, true, false, Bytes, List, [], ◌∷◌, Result, ok, err, codes, ◌⊎◌, ◌>>=◌,
}
use rexa.Proc.Attr.{Stream, StreamLaws, AttrProperty, parse_property}
use rexa.Proc.Metadata.{Metadata, parse_metadata}
use rexa.Proc.Metadata.Last.{all_known, LastNamed, parse_metadata-last}

data Token : Type 0 where
  word : Bytes → Token
  equals : Token
  truth : Bool → Token
  comma : Token

abbrev take_word : List Token → Result Bytes (Bytes × List Token)
take_word (word w ∷ ts) = ok (w, ts)
take_word _ = err (codes "word")

abbrev take_equals : List Token → Result Bytes (List Token)
take_equals (equals ∷ ts) = ok ts
take_equals _ = err (codes "=")

abbrev take_truth : List Token → Result Bytes (Bool × List Token)
take_truth (truth b ∷ ts) = ok (b, ts)
take_truth _ = err (codes "bool")

abbrev stream : Stream
stream = record {
  Token = Token;
  Error = Bytes;
  parse_ident = take_word;
  parse_eq = take_equals;
  parse_bool = take_truth;
  ident_token = word;
  eq_token = equals;
  bool_token = truth;
  new_error = λ message. message;
}

laws : StreamLaws stream (λ ident. Unit {0})
laws = record {
  parse_ident-token = λ ident rest i. refl;
  parse_eq-token = λ rest. refl;
  parse_bool-token = λ b rest. refl;
}

abbrev Property : Type 0
Property = AttrProperty stream Bytes

-- `rexa = crate, rexa = other`, with the second one for the last.
abbrev args : List Property
args =
    record { ident = codes "rexa"; right = codes "crate" }
    ∷ record { ident = codes "rexa"; right = codes "other" }
    ∷ []

-- At most two properties with a comma between them.
abbrev two :
    (List Token → Result Bytes (Property × List Token)) → List Token → Result Bytes (List Property)
two parse tokens = parse tokens >>= λ (p, rest). elim rest [
  | [] ↦ ok (p ∷ [])
  | t ∷ rest' ↦ parse rest' >>= λ (q, rest''). ok (p ∷ q ∷ [])
]

abbrev tokens : List Token
tokens =
    word (codes "rexa")
    ∷ equals
    ∷ word (codes "crate")
    ∷ comma
    ∷ word (codes "rexa")
    ∷ equals
    ∷ word (codes "other")
    ∷ []

parse_metadata-last_example :
    ((all_known stream Bytes args ≡ false)
      × (parse_metadata stream Bytes two take_word tokens
          ≡ err (codes "unrecognized impl_object property")))
    ⊎ ((all_known stream Bytes args ≡ true)
        × (m : Metadata stream Bytes) × (parse_metadata stream Bytes two take_word tokens ≡ ok m)
        × LastNamed stream Bytes args m)
unfolding parse_property
parse_metadata-last_example = parse_metadata-last stream Bytes two take_word tokens args refl
