-- ===== src/Session/Tasks.antt =====
-- `send_msg` of src/captp/session/internal.rs and `abort` of src/captp/session/traits.rs, called by
-- several tasks that share a session: a task can be interrupted at each `await`, and between its
-- reads of the two flags. The writer's mutex is held from the lock to the end of `write_all`.
pub mod Whole
pub mod Late
pub mod Alone
pub mod Lone
pub mod Examples
use rexa.Common.{
  ℕ, ◌≡◌, Bool, true, false, Option, none, some, Bytes, List, [], ◌∷◌, ◌++◌, Result, ok, err,
}
use rexa.Session.{SendError, session_aborted, session_aborted_locally}
use rexa.Session

-- The fields that the calls share, with the bytes that the writer has taken.
pub record Shared : Type 0 where
  pub written : Bytes
  pub locked : Bool
  pub aborted_locally : Bool
  pub aborted_by_remote : Option Bytes

module _ (IoError : Type 0) where
  abbrev pub Sent : Type 0
  Sent = Result (SendError IoError) (Unit {0})

  -- Where a task stands in `send_msg`, and in `abort`, which goes on from it to `local_abort`. Of
  -- the message, `sent` is written and `rest` is not.
  pub data Pc : Type 0 where
    called : Pc
    checked_locally : Pc
    waiting : Pc
    writing : (sent rest : Bytes) → Pc
    returned : (sent : Bytes) → Sent → Pc
    closed : (sent : Bytes) → Sent → Pc

  -- A call with the message that it encodes; `aborts` is whether it is a call of `abort`.
  pub record Task : Type 0 where
    pub msg : Bytes
    pub aborts : Bool
    pub pc : Pc

  abbrev pub call : Bytes → Task
  call msg = record { msg = msg; aborts = false; pc = called }

  abbrev pub call_abort : Bytes → Task
  call_abort msg = record { msg = msg; aborts = true; pc = called }

  -- One step of one task. The writer may take any part of what it is given, but not nothing.
  pub data Move (msg : Bytes) (aborts : Bool) (s : Shared) : Pc → Shared → Pc → Type 0 where
    refused_locally :
        s.aborted_locally ≡ true
        → Move msg aborts s called s (returned [] (err session_aborted_locally))
    checks_locally : s.aborted_locally ≡ false → Move msg aborts s called s checked_locally
    refused :
        (reason : Bytes)
        → s.aborted_by_remote ≡ some reason
        → Move msg aborts s checked_locally s (returned [] (err (session_aborted reason)))
    checks : s.aborted_by_remote ≡ none → Move msg aborts s checked_locally s waiting
    locks :
        s.locked ≡ false → Move msg aborts s waiting (record s { locked = true }) (writing [] msg)
    writes :
        (b : ℕ) (front : Bytes) {sent rest rest' : Bytes}
        → rest ≡ b ∷ (front ++ rest')
        → Move msg aborts s
            (writing sent rest)
            (record s { written = s.written ++ b ∷ front })
            (writing (sent ++ b ∷ front) rest')
    unlocks :
        {sent : Bytes}
        → Move msg aborts s (writing sent []) (record s { locked = false }) (returned sent (ok tt))
    fails :
        (e : IoError) {sent rest : Bytes}
        → Move msg aborts s
            (writing sent rest)
            (record s { locked = false })
            (returned sent (err (SendError.io_failed e)))
    shuts :
        {sent : Bytes} {res : Sent}
        → aborts ≡ true
        → Move msg aborts s
            (returned sent res)
            (record s { aborted_locally = true })
            (closed sent res)

  -- A step of one of the tasks.
  pub data Turn (s : Shared) : List Task → Shared → List Task → Type 0 where
    here :
        {t : Task} {ts : List Task} {s' : Shared} {pc : Pc}
        → Move t.msg t.aborts s t.pc s' pc
        → Turn s (t ∷ ts) s' (record t { pc = pc } ∷ ts)
    there :
        {t : Task} {ts ts' : List Task} {s' : Shared}
        → Turn s ts s' ts'
        → Turn s (t ∷ ts) s' (t ∷ ts')

  -- A step of the system: of a task, a new call, or the loop of `recv_event` at an abort message.
  pub data Step (s : Shared) (ts : List Task) : Shared → List Task → Type 0 where
    turns : {s' : Shared} {ts' : List Task} → Turn s ts s' ts' → Step s ts s' ts'
    calls :
        (msg : Bytes) (aborts : Bool)
        → Step s ts s (record { msg = msg; aborts = aborts; pc = called } ∷ ts)
    hears : (reason : Bytes) → Step s ts (record s { aborted_by_remote = some reason }) ts

  pub data Reach (s : Shared) (ts : List Task) : Shared → List Task → Type 0 where
    now : Reach s ts s ts
    next :
        {s' s'' : Shared} {ts' ts'' : List Task}
        → Reach s ts s' ts'
        → Step s' ts' s'' ts''
        → Reach s ts s'' ts''

-- A session that nothing was written to, which no side has aborted.
abbrev pub fresh : Shared
fresh = record { written = []; locked = false; aborted_locally = false; aborted_by_remote = none }
