-- ===== src/Session/Readers.antt =====
-- `recv_msg` of src/captp/session/internal.rs, called by several tasks that share a session: a task
-- can be interrupted at each `await`, and between its reads of the two flags. The reader's mutex is
-- held while a value is read: the call has the reader as it finds it when it locks, and leaves it
-- at the end of its read as the read leaves it. An abort message is handled as in `recv_event`.
pub mod Once
pub mod Late
pub mod Examples
use rexa.Common.{
  ◌≡◌, Bool, true, false, Option, none, some, Bytes, List, [], ◌∷◌, ◌++◌, Result, ok, err, ℕ,
}
use rexa.Msg.{Operation, OpAbort}
use rexa.Reader.{ReadSyrupError, consume_syrup}
use rexa.Session.{Node}

module _ (node : Node) where
  open node use {Tree, LexError, IoError, Args, Reader, decode_operation}

  -- The fields that the calls share.
  pub record Shared : Type 0 where
    pub reader : Reader
    pub locked : Bool
    pub aborted_locally : Bool
    pub aborted_by_remote : Option Bytes

  -- What `consume_syrup` returns, with the rounds of its loop that are enough for it.
  abbrev pub Value : Type 0
  Value = Result (ReadSyrupError IoError LexError) Tree

  abbrev pub Read : Type 0
  Read = ℕ × Value

  -- Where a call stands. `reading` has the mutex and the reader; `received` has its value, and
  -- decodes it; `heard` has found an abort message.
  pub data Pc : Type 0 where
    called : Pc
    checked_locally : Pc
    waiting : Pc
    reading : Reader → Pc
    received : Tree → Pc
    heard : Tree → Pc
    refused_locally : Pc
    refused : Bytes → Pc
    failed : ReadSyrupError IoError LexError → Pc

  abbrev pub after_read : Value → Pc
  after_read (ok t) = received t
  after_read (err e) = failed e

  -- One step of one call, with its read, if one ends.
  pub data Move (s : Shared) : Pc → Option Read → Shared → Pc → Type 0 where
    stops_locally : s.aborted_locally ≡ true → Move s called none s refused_locally
    checks_locally : s.aborted_locally ≡ false → Move s called none s checked_locally
    stops :
        (reason : Bytes)
        → s.aborted_by_remote ≡ some reason
        → Move s checked_locally none s (refused reason)
    checks : s.aborted_by_remote ≡ none → Move s checked_locally none s waiting
    locks : s.locked ≡ false → Move s waiting none (record s { locked = true }) (reading s.reader)
    reads :
        (r r' : Reader) (fuel : ℕ) (res : Value)
        → consume_syrup node.tok node.str fuel r ≡ some (res, r')
        → Move s
            (reading r)
            (some (fuel, res))
            (record s { reader = r'; locked = false })
            (after_read res)
    hears :
        (t : Tree) (op : OpAbort)
        → decode_operation t ≡ ok (Operation.abort op)
        → Move s (received t) none (record s { aborted_by_remote = some op.reason }) (heard t)

  -- A step of one of the calls.
  pub data Turn (s : Shared) : List Pc → Option Read → Shared → List Pc → Type 0 where
    here :
        {pc pc' : Pc} {pcs : List Pc} {got : Option Read} {s' : Shared}
        → Move s pc got s' pc'
        → Turn s (pc ∷ pcs) got s' (pc' ∷ pcs)
    there :
        {pc : Pc} {pcs pcs' : List Pc} {got : Option Read} {s' : Shared}
        → Turn s pcs got s' pcs'
        → Turn s (pc ∷ pcs) got s' (pc ∷ pcs')

  abbrev pub with_read : List Read → Option Read → List Read
  with_read read none = read
  with_read read (some got) = read ++ got ∷ []

  -- What calls lead to, in whatever order, with the reads that end on the way, in order.
  pub data Reach (s : Shared) (pcs : List Pc) : List Read → Shared → List Pc → Type 0 where
    now : Reach s pcs [] s pcs
    turns :
        {read : List Read} {got : Option Read} {s' s'' : Shared} {pcs' pcs'' : List Pc}
        → Reach s pcs read s' pcs'
        → Turn s' pcs' got s'' pcs''
        → Reach s pcs (with_read read got) s'' pcs''
    calls :
        {read : List Read} {s' : Shared} {pcs' : List Pc}
        → Reach s pcs read s' pcs'
        → Reach s pcs read s' (called ∷ pcs')
    -- Some task calls `local_abort`.
    shuts :
        {read : List Read} {s' : Shared} {pcs' : List Pc}
        → Reach s pcs read s' pcs'
        → Reach s pcs read (record s' { aborted_locally = true }) pcs'
