-- ===== src/Session/Tasks/Lone.antt =====
-- A call of `send_msg` that no other task interrupts, whatever its writer does, and the function of
-- the same name.
use mathlib.Core.List.{append-nil, append_assoc}
use rexa.Common.{
  ◌≡◌, refl, sym, ap, ◌∙◌, Bool, true, false, some, none, Bytes, [], ◌∷◌, ◌++◌, ok, err, arith, ◌⊎◌,
  inl, inr, Option-cases, Bool-cases,
}
use rexa.Session.{Node, Session, SendError, SendResult, is_aborted, send_msg}
use rexa.Session.Fifo.{Sink}
use rexa.Session.Tasks.{
  Shared, Pc, Move, called, checked_locally, waiting, writing, returned, closed, refused_locally,
  checks_locally, refused, checks, locks, writes, unlocks, fails, shuts,
}
use rexa.Session.Tasks.Alone.{view}

-- The steps of one call, with no step of another task between them.
pub data Uninterrupted (IoError : Type 0) (msg : Bytes) (s : Shared) (pc : Pc IoError)
    : Shared → Pc IoError → Type 0 where
  stands : Uninterrupted IoError msg s pc s pc
  steps :
      {s' s'' : Shared} {pc' pc'' : Pc IoError}
      → Uninterrupted IoError msg s pc s' pc'
      → Move IoError msg false s' pc' s'' pc''
      → Uninterrupted IoError msg s pc s'' pc''

module _ (node : Node) (sink : Sink node) where
  open node use {Tree, IoError}

  -- What the tasks share after `sent` was written.
  abbrev pub after : Session node → Bytes → Bool → Shared
  after s sent locked = record (view node sink s) {
    written = sink.written s.writer ++ sent;
    locked = locked;
  }

  -- What a call has returned and left. An aborted session refuses it as the function does, and
  -- nothing is written; a live one has a front of the message: all of it if the call succeeds.
  abbrev pub Sends : Session node → Tree → Bytes → SendResult node → Shared → Type 0
  Sends s m sent res t =
      ((is_aborted node s ≡ true)
        × (send_msg node s m ≡ (res, s))
        × (sent ≡ [])
        × (t ≡ view node sink s))
      ⊎ ((is_aborted node s ≡ false)
          × (t ≡ after s sent false)
          × ((rest : Bytes) × (node.encode m ≡ sent ++ rest)
              × (((res ≡ ok tt) × (rest ≡ []))
                  ⊎ ((e : IoError) × (res ≡ err (SendError.io_failed e))))))

  module _ (s : Session node) (m : Tree) where
    -- What holds when the call stands at a point.
    abbrev At : Pc IoError → Shared → Type 0
    At called t = t ≡ view node sink s
    At checked_locally t = (s.aborted_locally ≡ false) × (t ≡ view node sink s)
    At waiting t = (is_aborted node s ≡ false) × (t ≡ view node sink s)
    At (writing sent rest) t =
        (is_aborted node s ≡ false) × (node.encode m ≡ sent ++ rest) × (t ≡ after s sent true)
    At (returned sent res) t = Sends s m sent res t
    At (closed sent res) t = ⊥

    locked_at_start :
        (t : Shared) → t ≡ view node sink s → record t { locked = true } ≡ after s [] true
    locked_at_start t e =
        ap (λ (x : Shared). record x { locked = true }) e
        ∙ ap (λ (xs : Bytes). record (view node sink s) { written = xs; locked = true })
            (sym (append-nil (sink.written s.writer)))

    more_written :
        (t : Shared) (sent more : Bytes)
        → t ≡ after s sent true
        → record t { written = t.written ++ more } ≡ after s (sent ++ more) true
    more_written t sent more e =
        ap (λ (x : Shared). record x { written = x.written ++ more }) e
        ∙ ap (λ (xs : Bytes). record (view node sink s) { written = xs; locked = true })
            (append_assoc (sink.written s.writer) sent more)

    Move-At :
        {t t' : Shared} {pc pc' : Pc IoError}
        → Move IoError (node.encode m) false t pc t' pc'
        → At pc t
        → At pc' t'
    unfolding is_aborted send_msg
    Move-At (refused_locally h) at =
        let local : s.aborted_locally ≡ true =
          sym (ap (λ (x : Shared). x.aborted_locally) at) ∙ h in
        inl (ground arith, ground arith, refl, at)
    Move-At (checks_locally h) at = (sym (ap (λ (x : Shared). x.aborted_locally) at) ∙ h, at)
    Move-At (refused reason h) (live, at) =
        let remote : s.aborted_by_remote ≡ some reason =
          sym (ap (λ (x : Shared). x.aborted_by_remote) at) ∙ h in
        inl (ground arith, ground arith, refl, at)
    Move-At (checks h) (live, at) =
        let remote : s.aborted_by_remote ≡ none =
          sym (ap (λ (x : Shared). x.aborted_by_remote) at) ∙ h in
        (ground arith, at)
    Move-At {t} (locks h) (live, at) = (live, refl, locked_at_start t at)
    Move-At {t} (writes b front {sent} {rest} {rest'} h) (live, whole, at) = (
      live,
      whole ∙ ap (λ xs. sent ++ xs) h ∙ sym (append_assoc sent (b ∷ front) rest'),
      more_written t sent (b ∷ front) at,
    )
    Move-At (unlocks {sent}) (live, whole, at) =
        inr
          (live, ap (λ (x : Shared). record x { locked = false }) at, ([], whole, inl (refl, refl)))
    Move-At (fails e {sent} {rest}) (live, whole, at) =
        inr
          (live, ap (λ (x : Shared). record x { locked = false }) at, (rest, whole, inr (e, refl)))
    Move-At (shuts h) at = cc

    Uninterrupted-At :
        {t : Shared} {pc : Pc IoError}
        → Uninterrupted IoError (node.encode m) (view node sink s) called t pc
        → At pc t
    Uninterrupted-At stands = refl
    Uninterrupted-At (steps run move) = Move-At move (Uninterrupted-At run)

  -- The call has come to its end, or it has a next step.
  abbrev pub Stands : Session node → Tree → Shared → Pc IoError → Type 0
  Stands s m t pc =
      ((sent : Bytes) × (res : SendResult node) × (pc ≡ returned sent res) × Sends s m sent res t)
      ⊎ ((t' : Shared) × (pc' : Pc IoError) × Move IoError (node.encode m) false t pc t' pc')

  module _ (s : Session node) (m : Tree) where
    At-Stands : (t : Shared) (pc : Pc IoError) → At s m pc t → Stands s m t pc
    At-Stands t called at = elim (Bool-cases t.aborted_locally) [
      | inl h ↦ inr (_, _, refused_locally h)
      | inr h ↦ inr (_, _, checks_locally h)
    ]
    At-Stands t checked_locally at = elim (Option-cases t.aborted_by_remote) [
      | inl h ↦ inr (_, _, checks h)
      | inr (reason, h) ↦ inr (_, _, refused reason h)
    ]
    At-Stands t waiting (live, at) = inr (_, _, locks (ap (λ (x : Shared). x.locked) at))
    At-Stands t (writing sent []) at = inr (_, _, unlocks)
    At-Stands t (writing sent (b ∷ bs)) at =
        inr (_, _, writes b bs (ap (λ xs. b ∷ xs) (sym (append-nil bs))))
    At-Stands t (returned sent res) at = inl (sent, res, refl, at)
    At-Stands t (closed sent res) at = absurd at

  -- A call of `send_msg` that no other task interrupts, on a session whose writer is not locked, has
  -- a next step until it returns. However it returns: on an aborted session it has the error of the
  -- function, and nothing is written; on a live one it has no such error, what it has written is a
  -- front of the message and is the whole message if it succeeds, and the writer's lock and the flags
  -- are left as they were.
  pub lone_call :
      {s : Session node} {m : Tree} {t : Shared} {pc : Pc IoError}
      → Uninterrupted IoError (node.encode m) (view node sink s) called t pc
      → Stands s m t pc
  lone_call {s} {m} {t} {pc} run = At-Stands s m t pc (Uninterrupted-At s m run)
