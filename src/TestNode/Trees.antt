-- ===== src/TestNode/Trees.antt =====
-- Values as trees, for which the laws of the codecs hold. Nothing is ever read from bytes.
use rexa.Common.{
  ℕ, zero, refl, Bool, true, false, Option, none, some, Bytes, List, [], ◌∷◌, Result, ok, err,
}
use rexa.Reader.{Tokenizer}
use rexa.Msg.{DescExport, DescImport, object, promise, Operation, export_at}
use rexa.Wire.{Syrup, SyrupLaws}

mutual
  pub data Tree : Type 0 where
    leaf : ℕ → Bytes → Tree
    only : ℕ → Items → Tree
    call : ℕ → Items → Option ℕ → DescImport → Tree

  pub data Items : Type 0 where
    nil : Items
    cons : Tree → Items → Items

abbrev items : List Tree → Items
items [] = nil
items (t ∷ ts) = cons t (items ts)

abbrev pop : Items → Option (Tree × Items)
pop nil = none
pop (cons t ts) = some (t, ts)

abbrev as_symbol : Tree → Option Bytes
as_symbol (leaf zero b) = some b
as_symbol _ = none

abbrev decode : Tree → Result Bool (Operation Items)
decode (leaf n b) = ok (Operation.abort (record { reason = b }))
decode (only n args) = ok (Operation.deliver_only (record { to_desc = export_at n; args = args }))
decode (call n args ans desc) = ok (
    Operation.deliver
      (record { to_desc = export_at n; args = args; answer_pos = ans; resolve_me_desc = desc }))

abbrev tokenizer : Tokenizer
tokenizer = record {
  Tree = Tree;
  LexError = Bool;
  tokenize = λ bytes. err true;
  is_incomplete = λ e. e;
}

abbrev import_leaf : DescImport → Tree
import_leaf (object d) = leaf 5 (d.position ∷ [])
import_leaf (promise d) = leaf 6 (d.position ∷ [])

abbrev export_of : Items → Result Bool DescExport
export_of (cons (leaf n (p ∷ [])) rest) = ok (export_at p)
export_of _ = err false

abbrev pub trees : Syrup
trees = record {
  tok = tokenizer;
  Args = Items;
  pop = pop;
  insert_front = cons;
  sequence = items;
  call_sequence = λ f ts. cons (leaf 0 f) (items ts);
  symbol = leaf 0;
  string = leaf 1;
  byte_string = leaf 2;
  integer = λ n. leaf 3 (n ∷ []);
  as_symbol = as_symbol;
  encode = λ t. [];
  export_tokens = λ d. leaf 4 (d.position ∷ []);
  import_tokens = import_leaf;
  deliver_only_tokens = λ op. only op.to_desc.position op.args;
  deliver_tokens = λ op. call op.to_desc.position op.args op.answer_pos op.resolve_me_desc;
  abort_tokens = λ op. leaf 7 op.reason;
  DecodeError = Bool;
  decode_operation = decode;
  require_export = export_of;
}

pub trees_laws : SyrupLaws trees
trees_laws = record {
  pop-nil = refl;
  pop-cons = λ t ts. refl;
  insert_front-sequence = λ t ts. refl;
  call-sequence = λ f ts. refl;
  symbol_lem = λ b. refl;
  byte_string_not_symbol = λ b. refl;
  decode-deliver_only = λ op. refl;
  decode-deliver = λ op. refl;
  decode-abort = λ op. refl;
}
