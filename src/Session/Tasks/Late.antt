-- ===== src/Session/Tasks/Late.antt =====
-- `send_msg` and `abort` of a session that several tasks share: what is still written after an
-- abort.
use mathlib.Core.List.{append_assoc, append-nil}
use rexa.Common.{
  ℕ, ◌+◌, ◌≤◌, ◌≡◌, refl, sym, ap, ◌∙◌, Bool, true, false, none, Bytes, List, [], ◌∷◌, ◌++◌, length,
  length-append, ok, arith,
}
use rexa.Session.Tasks.{
  Shared, fresh, Pc, Task, Move, Turn, Step, Reach, call, call_abort, checked_locally, waiting,
  writing, returned, closed, refused_locally, checks_locally, refused, checks, locks, writes,
  unlocks, fails, shuts, here, there, turns, calls, hears, now, next,
}

-- A session that one task has aborted, with the abort message first and another message behind it.
abbrev pub passed_by : Bytes → Bytes → Shared
passed_by abort_msg msg = record {
  written = abort_msg ++ msg;
  locked = false;
  aborted_locally = true;
  aborted_by_remote = none;
}

-- A session that one task has aborted, and that nothing was written to but the abort message.
abbrev pub shut_with : Bytes → Shared
shut_with abort_msg = record {
  written = abort_msg;
  locked = false;
  aborted_locally = true;
  aborted_by_remote = none;
}

module _ (IoError : Type 0) where
  -- How many bytes a task that has passed the look at `aborted_locally` has still to write.
  abbrev pub owed : Bytes → Pc IoError → ℕ
  owed msg checked_locally = length msg
  owed msg waiting = length msg
  owed msg (writing sent rest) = length rest
  owed msg _ = 0

  abbrev pub all_owed : List (Task IoError) → ℕ
  all_owed [] = 0
  all_owed (t ∷ ts) = owed t.msg t.pc + all_owed ts

  -- What is written from one state of a session to another, of which no more than `bound` bytes are
  -- left to be written.
  pub record Follows (s : Shared) (bound : ℕ) (s' : Shared) (left : ℕ) : Type 0 where
    pub more : Bytes
    pub content : s'.written ≡ s.written ++ more
    pub bounded : length more + left ≤ bound
    pub still_aborted : s'.aborted_locally ≡ true

  idle :
      (s s' : Shared) (bound left : ℕ)
      → s'.written ≡ s.written
      → s'.aborted_locally ≡ true
      → left ≤ bound
      → Follows s bound s' left
  idle s s' bound left e aborted le = record {
    more = [];
    content = e ∙ sym (append-nil s.written);
    bounded = omega (arith, le);
    still_aborted = aborted;
  }

  Move-Follows :
      {msg : Bytes} {aborts : Bool} {s s' : Shared} {p p' : Pc IoError}
      → Move IoError msg aborts s p s' p'
      → s.aborted_locally ≡ true
      → Follows s (owed msg p) s' (owed msg p')
  Move-Follows (refused_locally h) a = idle _ _ 0 0 refl a (omega arith)
  Move-Follows (checks_locally h) a = cc
  Move-Follows {msg} (refused r h) a = idle _ _ (length msg) 0 refl a (omega arith)
  Move-Follows {msg} (checks h) a = idle _ _ (length msg) (length msg) refl a (omega arith)
  Move-Follows {msg} (locks h) a = idle _ _ (length msg) (length msg) refl a (omega arith)
  Move-Follows (writes b front {sent} {rest} {rest'} h) a = record {
    more = b ∷ front;
    content = refl;
    bounded = omega (arith, ap length h, length-append {0} front rest');
    still_aborted = a;
  }
  Move-Follows (unlocks) a = idle _ _ 0 0 refl a (omega arith)
  Move-Follows (fails e {sent} {rest}) a = idle _ _ (length rest) 0 refl a (omega arith)
  Move-Follows (shuts h) a = idle _ _ 0 0 refl refl (omega arith)

  beside :
      (s s' : Shared) (n bound left : ℕ)
      → Follows s bound s' left
      → Follows s (n + bound) s' (n + left)
  beside s s' n bound left w = record {
    more = w.more;
    content = w.content;
    bounded = omega (arith, w.bounded);
    still_aborted = w.still_aborted;
  }

  Turn-Follows :
      {s s' : Shared} {ts ts' : List (Task IoError)}
      → Turn IoError s ts s' ts'
      → s.aborted_locally ≡ true
      → Follows s (all_owed ts) s' (all_owed ts')
  Turn-Follows (here {t} {ts} m) a =
      let w = Move-Follows m a in
      record {
        more = w.more;
        content = w.content;
        bounded = omega (arith, w.bounded);
        still_aborted = w.still_aborted;
      }
  Turn-Follows (there {t} {ts} {ts'} turn) a =
      beside _ _ (owed t.msg t.pc) (all_owed ts) (all_owed ts') (Turn-Follows turn a)

  Step-Follows :
      {s s' : Shared} {ts ts' : List (Task IoError)}
      → Step IoError s ts s' ts'
      → s.aborted_locally ≡ true
      → Follows s (all_owed ts) s' (all_owed ts')
  Step-Follows (turns turn) a = Turn-Follows turn a
  Step-Follows {s} {ts = ts} (calls msg aborts) a =
      idle s s (all_owed ts) (0 + all_owed ts) refl a (omega arith)
  Step-Follows {ts = ts} (hears reason) a =
      idle _ _ (all_owed ts) (all_owed ts) refl a (omega arith)

  -- Once a session is aborted locally it stays so, whatever its tasks then do in whatever order,
  -- and no more bytes are written than those tasks had left of their messages that were past their
  -- look at the flag when it was set: a call that was made later writes none, and if no task was
  -- past it, nothing is written any more.
  pub written_after_abort :
      {s : Shared} {ts : List (Task IoError)} {s' : Shared} {ts' : List (Task IoError)}
      → s.aborted_locally ≡ true
      → Reach IoError s ts s' ts'
      → Follows s (all_owed ts) s' (all_owed ts')
  written_after_abort {s} {ts} a now = idle s s (all_owed ts) (all_owed ts) refl a (omega arith)
  written_after_abort {s} a (next run step) =
      let before = written_after_abort a run in
      let w = Step-Follows step before.still_aborted in
      record {
        more = before.more ++ w.more;
        content =
            w.content
            ∙ ap (λ bs. bs ++ w.more) before.content
            ∙ append_assoc s.written before.more w.more;
        bounded = omega (arith, before.bounded, w.bounded, length-append {0} before.more w.more);
        still_aborted = w.still_aborted;
      }

  -- A message can go out behind the abort, and its sender is told that all is well. In a session that
  -- is open, one task is past its look at both flags and waits for the writer when another one has
  -- aborted the session and returned; and from there the first one can take the writer, write its
  -- whole message behind the abort, and return without an error. This is so of any two messages that
  -- are not empty.
  pub message_behind_abort :
      (b c : ℕ) (msg abort_msg : Bytes)
      → let aborter : Task IoError = record (call_abort IoError (c ∷ abort_msg)) {
        pc = closed (c ∷ abort_msg) (ok tt);
      } in
        let sender : Pc IoError → Task IoError =
          λ pc. record (call IoError (b ∷ msg)) { pc = pc } in
        Reach IoError fresh [] (shut_with (c ∷ abort_msg)) (sender waiting ∷ aborter ∷ [])
        × Reach IoError
            (shut_with (c ∷ abort_msg))
            (sender waiting ∷ aborter ∷ [])
            (passed_by (c ∷ abort_msg) (b ∷ msg))
            (sender (returned (b ∷ msg) (ok tt)) ∷ aborter ∷ [])
  message_behind_abort b c msg abort_msg =
      let called_both = next (next now (calls (c ∷ abort_msg) true)) (calls (b ∷ msg) false) in
      let passed =
        next (next called_both (turns (here (checks_locally refl)))) (turns (here (checks refl))) in
      let abort_waits =
        next (next passed (turns (there (here (checks_locally refl)))))
          (turns (there (here (checks refl)))) in
      let abort_sent =
        next
          (next (next abort_waits (turns (there (here (locks refl))))) (
            turns
              (there (here (writes c abort_msg (ap (λ bs. c ∷ bs) (sym (append-nil abort_msg))))))))
          (turns (there (here unlocks))) in
      let aborted = next abort_sent (turns (there (here (shuts refl)))) in
      (
        aborted,
        next
            (next (next now (turns (here (locks refl))))
              (turns (here (writes b msg (ap (λ bs. b ∷ bs) (sym (append-nil msg)))))))
            (turns (here unlocks)),
      )

  -- One run behind another.
  pub onward :
      {s : Shared} {ts : List (Task IoError)} {s' : Shared} {ts' : List (Task IoError)}
      {s'' : Shared} {ts'' : List (Task IoError)}
      → Reach IoError s ts s' ts'
      → Reach IoError s' ts' s'' ts''
      → Reach IoError s ts s'' ts''
  onward run now = run
  onward run (next later step) = next (onward run later) step
