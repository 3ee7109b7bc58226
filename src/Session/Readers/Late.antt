-- ===== src/Session/Readers/Late.antt =====
-- `recv_msg` of src/captp/session/internal.rs, called by several tasks: what is still received after an
-- abort.
use rexa.Common.{
  Bool, ℕ, ◌+◌, ◌≤◌, ◌≡◌, refl, true, false, none, some, Option, List, [], ◌∷◌, length,
  length-append, arith, ok, err,
}
use rexa.Reader.{consume_syrup}
use rexa.Session.{Node}
use rexa.Session.Readers.{
  Shared, Pc, Move, Turn, Reach, Read, Value, with_read, after_read, checked_locally, waiting,
  reading, received, stops_locally, checks_locally, stops, checks, locks, reads, hears, here, there,
  now, turns, calls, shuts,
}

module _ (node : Node) where
  open node use {Tree, Reader}

  abbrev is_past : Pc node → ℕ
  is_past checked_locally = 1
  is_past waiting = 1
  is_past (reading r) = 1
  is_past _ = 0

  -- How many calls are past their look at `aborted_locally` and have not got a value.
  abbrev pub passed : List (Pc node) → ℕ
  passed [] = 0
  passed (pc ∷ pcs) = is_past pc + passed pcs

  abbrev count : Option (Read node) → ℕ
  count none = 0
  count (some got) = 1

  is_past-after_read : (res : Value node) → is_past (after_read node res) ≡ 0
  is_past-after_read (ok t) = refl
  is_past-after_read (err e) = refl

  Move-passed :
      {s s' : Shared node} {r : Option (Read node)} {pc pc' : Pc node}
      → Move node s pc r s' pc'
      → s.aborted_locally ≡ true
      → (count r + is_past pc' ≤ is_past pc) × (s'.aborted_locally ≡ true)
  Move-passed (stops_locally h) a = (omega arith, a)
  Move-passed (checks_locally h) a = cc
  Move-passed (stops reason h) a = (omega arith, a)
  Move-passed (checks h) a = (omega arith, a)
  Move-passed (locks h) a = (omega arith, a)
  Move-passed (reads r r' fuel res h) a = (omega (arith, is_past-after_read res), a)
  Move-passed (hears t op h) a = (omega arith, a)

  Turn-passed :
      {s s' : Shared node} {r : Option (Read node)} {pcs pcs' : List (Pc node)}
      → Turn node s pcs r s' pcs'
      → s.aborted_locally ≡ true
      → (count r + passed pcs' ≤ passed pcs) × (s'.aborted_locally ≡ true)
  Turn-passed (here move) a = let (le, a') = Move-passed move a in (omega (arith, le), a')
  Turn-passed (there turn) a = let (le, a') = Turn-passed turn a in (omega (arith, le), a')

  length-with_read :
      (read : List (Read node)) (r : Option (Read node))
      → length (with_read node read r) ≡ length read + count r
  length-with_read read none = omega arith
  length-with_read read (some got) = omega (arith, length-append {0} read (got ∷ []))

  -- Once a session is aborted locally it stays so, and its calls of `recv_msg`, whatever they do in
  -- whatever order, get no more values and errors from the reader than there were calls past their look at the flag when it was
  -- set: a call that is made later gets none.
  pub received_after_abort :
      {s : Shared node} {pcs : List (Pc node)} {read : List (Read node)} {s' : Shared node}
      {pcs' : List (Pc node)}
      → s.aborted_locally ≡ true
      → Reach node s pcs read s' pcs'
      → (length read + passed pcs' ≤ passed pcs) × (s'.aborted_locally ≡ true)
  received_after_abort a now = (omega arith, a)
  received_after_abort a (turns {read} {got = r} run turn) =
      let (le, a') = received_after_abort a run in
      let (le', a'') = Turn-passed turn a' in (omega (arith, le, le', length-with_read read r), a'')
  received_after_abort a (calls run) =
      let (le, a') = received_after_abort a run in (omega (arith, le), a')
  received_after_abort a (shuts run) = let (le, a') = received_after_abort a run in (le, refl)

  -- A session that is opened, and one that is aborted locally, with their reader.
  abbrev pub open_with : Reader → Shared node
  open_with reader = record {
    reader = reader;
    locked = false;
    aborted_locally = false;
    aborted_by_remote = none;
  }

  abbrev pub shut : Reader → Bool → Shared node
  shut reader locked = record {
    reader = reader;
    locked = locked;
    aborted_locally = true;
    aborted_by_remote = none;
  }

  -- A call that waits for a value when its session is aborted locally goes on waiting, and still gets
  -- the next value that the peer sends.
  pub received_behind_abort :
      (r r' : Reader) (fuel : ℕ) (t : Tree)
      → consume_syrup node.tok node.str fuel r ≡ some (ok t, r')
      → Reach node (open_with r) [] [] (shut r true) (reading r ∷ [])
        × Reach node
            (shut r true)
            (reading r ∷ [])
            ((fuel, ok t) ∷ [])
            (shut r' false)
            (received t ∷ [])
  received_behind_abort r r' fuel t h = (
    shuts (
        turns (turns (turns (calls now) (here (checks_locally refl))) (here (checks refl)))
          (here (locks refl))),
    turns now (here (reads r r' fuel (ok t) h)),
  )
