-- ===== src/Session/Readers/Examples.antt =====
-- Two calls, one of which is in the middle of a read when their session is aborted.
use rexa.Common.{Bytes, ◌+◌, ◌≤◌, ◌≡◌, refl, true, false, some, List, [], ◌∷◌, ok}
use rexa.Reader.{consume_syrup, try_consume_syrup}
use rexa.Session.Examples.{node}
use rexa.Session.Readers.{
  Read, Reach, called, reading, received, refused_locally, locks, reads, checks, checks_locally,
  stops_locally, here, there, now, turns, calls, shuts,
}
use rexa.Session.Readers.Once.{Shares, each_value_once}
use rexa.Session.Readers.Late.{open_with, shut, received_after_abort}

-- The peer sends the values 4 and 5, of one byte each.
abbrev at_first : Bytes × List Bytes
at_first = (1 ∷ 4 ∷ 1 ∷ 5 ∷ [], [])

abbrev behind_it : Bytes × List Bytes
behind_it = (1 ∷ 5 ∷ [], [])

abbrev first : Read node
first = (1, ok (4 ∷ []))

read_first : consume_syrup node.tok node.str 1 at_first ≡ some (ok (4 ∷ []), behind_it)
unfolding consume_syrup try_consume_syrup
read_first = refl

both_run :
    Reach node
      (open_with node at_first)
      []
      (first ∷ [])
      (shut node behind_it false)
      (refused_locally ∷ received (4 ∷ []) ∷ [])
both_run =
    let waits =
      turns (turns (turns (calls now) (here (checks_locally refl))) (here (checks refl)))
        (here (locks refl)) in
    turns
      (turns (shuts (calls waits))
        (there (here (reads at_first behind_it 1 (ok (4 ∷ [])) read_first))))
      (here (stops_locally refl))

each_value_once_example :
    Shares node
      (open_with node at_first)
      (first ∷ [])
      (shut node behind_it false)
      (refused_locally ∷ received (4 ∷ []) ∷ [])
each_value_once_example = each_value_once node refl both_run

late_run :
    Reach node
      (shut node at_first true)
      (called ∷ reading at_first ∷ [])
      (first ∷ [])
      (shut node behind_it false)
      (called ∷ received (4 ∷ []) ∷ [])
late_run = turns now (there (here (reads at_first behind_it 1 (ok (4 ∷ [])) read_first)))

received_after_abort_example : (1 + 0 ≤ 1) × (true ≡ true)
received_after_abort_example = received_after_abort node refl late_run
