-- ===== src/Session/Tasks/Alone.antt =====
-- A call of `send_msg` or `abort` that no other task interrupts, and the functions of the same
-- names.
use mathlib.Core.List.{append-nil}
use rexa.Common.{
  ◌≡◌, refl, sym, ap, subst, ◌∙◌, Bool, true, false, none, Bytes, List, [], ◌∷◌, ◌++◌, Result, ok,
  err, map_err, arith, Bool-cases, Option-cases, inl, inr, ℕ,
}
use rexa.Msg.{OpAbort}
use rexa.Session.{
  Node, Session, SendResult, SendError, session_aborted, session_aborted_locally, send_msg, abort,
  local_abort,
}
use rexa.Session.Fifo.{Sink}
use rexa.Session.Tasks.{
  Shared, Pc, Task, Reach, returned, closed, called, refused_locally, checks_locally, refused,
  checks, locks, writing, writes, unlocks, fails, shuts, here, turns, now, next,
}

module _ (node : Node) (sink : Sink node) where
  open node use {Tree, IoError}

  -- What the tasks share of a session, while no task holds its writer.
  abbrev pub view : Session node → Shared
  view s = record {
    written = sink.written s.writer;
    locked = false;
    aborted_locally = s.aborted_locally;
    aborted_by_remote = s.aborted_by_remote;
  }

  abbrev pub at : Bytes → Bool → Pc IoError → List (Task IoError)
  at msg aborts pc = record { msg = msg; aborts = aborts; pc = pc } ∷ []

  -- A single task goes from the session to the session after it and returns the result.
  abbrev pub Runs : Bytes → Bool → Session node → SendResult node × Session node → Type 0
  Runs msg aborts s (res, s') =
      (sent : Bytes) × Reach IoError (view s) (at msg aborts called) (view s')
        (at msg aborts (returned sent res))

  module _ (msg : Bytes) (aborts : Bool) (s : Session node) where
    -- After a message of the bytes `b ∷ bs`.
    abbrev after : ℕ → Bytes → Bool → Shared
    after b bs locked = record (view s) {
      written = sink.written s.writer ++ b ∷ bs;
      locked = locked;
    }

    writes_all :
        (b : ℕ) (bs : Bytes)
        → msg ≡ b ∷ bs
        → s.aborted_locally ≡ false
        → s.aborted_by_remote ≡ none
        → Reach IoError
            (view s)
            (at msg aborts called)
            (after b bs true)
            (at msg aborts (writing (b ∷ bs) []))
    writes_all b bs e live heard =
        next
          (next (next (next now (turns (here (checks_locally live)))) (turns (here (checks heard))))
            (turns (here (locks refl))))
          (turns (here (writes b bs (e ∙ ap (λ xs. b ∷ xs) (sym (append-nil bs))))))

    ends_with :
        (b : ℕ) (bs : Bytes) (res : Result IoError (Unit {0}))
        → Reach IoError
            (view s)
            (at msg aborts called)
            (after b bs true)
            (at msg aborts (writing (b ∷ bs) []))
        → Reach IoError
            (view s)
            (at msg aborts called)
            (after b bs false)
            (at msg aborts (returned (b ∷ bs) (map_err SendError.io_failed res)))
    ends_with b bs (ok done) run = next run (turns (here unlocks))
    ends_with b bs (err e) run = next run (turns (here (fails e)))

    after_writing :
        (bytes : Bytes) (b : ℕ) (bs : Bytes)
        → bytes ≡ b ∷ bs
        → after b bs false ≡ view (record s { writer = (node.write_all s.writer bytes).1 })
    after_writing bytes b bs e = λ i. record (view s) {
      written = sym (sink.writes s.writer bytes ∙ ap (λ xs. sink.written s.writer ++ xs) e) i;
    }

    runs :
        (m : Tree) (b : ℕ) (bs : Bytes)
        → msg ≡ node.encode m
        → msg ≡ b ∷ bs
        → Runs msg aborts s (send_msg node s m)
    unfolding send_msg
    runs m b bs f e = elim (Bool-cases s.aborted_locally) [
      | inl h ↦
          let is : send_msg node s m ≡ (err session_aborted_locally, s) = ground arith in
          subst (Runs msg aborts s) (sym is) ([], next now (turns (here (refused_locally h))))
      | inr h ↦ elim (Option-cases s.aborted_by_remote) [
        | inr (reason, h') ↦
            let is : send_msg node s m ≡ (err (session_aborted reason), s) = ground arith in
            subst (Runs msg aborts s) (sym is) (
              [],
              next (next now (turns (here (checks_locally h)))) (turns (here (refused reason h'))),
            )
        | inl h' ↦
            let res = (node.write_all s.writer (node.encode m)).0 in
            let s' : Session node = record s {
              writer = (node.write_all s.writer (node.encode m)).1;
            } in
            let is : send_msg node s m ≡ (map_err SendError.io_failed res, s') = ground arith in
            subst (Runs msg aborts s) (sym is) (
              b ∷ bs,
              subst
                  (λ t.
                    Reach IoError (view s) (at msg aborts called) t
                      (at msg aborts (returned (b ∷ bs) (map_err SendError.io_failed res))))
                  (after_writing (node.encode m) b bs (sym f ∙ e))
                  (ends_with b bs res (writes_all b bs e h h')),
            )
      ]
    ]

  -- Of a call of `send_msg` that no other task interrupts, the steps lead to the result and the
  -- session that the function gives; and those of a call of `abort` to its result, and to its
  -- session, which is shut.
  uninterrupted :
      (s : Session node) (m : Tree) (op : OpAbort) (b c : ℕ) (bs cs : Bytes)
      → node.encode m ≡ b ∷ bs
      → node.encode (node.abort_tokens op) ≡ c ∷ cs
      → Runs (node.encode m) false s (send_msg node s m)
        × ((sent : Bytes) × Reach IoError
              (view s)
              (at (node.encode (node.abort_tokens op)) true called)
              (view (abort node s op).1)
              (at (node.encode (node.abort_tokens op)) true (closed sent (abort node s op).0)))
  unfolding abort local_abort
  uninterrupted s m op b c bs cs e f =
      let (sent, run) =
        runs (node.encode (node.abort_tokens op)) true s (node.abort_tokens op) c cs refl f in
      (runs (node.encode m) false s m b bs refl e, (sent, next run (turns (here (shuts refl)))))
