-- ===== src/Netlayer/Tasks/Serial.antt =====
-- `connect` and `accept` of lib/rexa-netlayer-datastream/src/lib.rs, called by several tasks, and
-- the calls one after the other.
use rexa.Common.{◌++◌, ◌≡◌, refl, sym, ap, ◌∙◌, Option, none, some, List, [], ◌∷◌, All}
use rexa.Session.{Node}
use rexa.Handshake.{Keys, CapTpSessionManager, CapTpSessionBuilder, init_session}
use rexa.Netlayer.{Answer, start_with}
use rexa.Netlayer.Tasks.{
  Net, Shared, Role, Pc, Task, Ending, ended, cut_off, Move, Turn, Reach, at_rest, start,
  with_ending, finds, misses, opens, open_fails, arrives, arrive_fails, locks, no_locator, ends,
  drops, drops_start, here, there, now, turns, calls,
}
use rexa.Netlayer.Tasks.Turns.{Borrows, one_start_at_a_time}

module _ (node : Node) (keys : Keys node) (Listener Stream : Type 0) where
  abbrev pub Answers : Type 0
  Answers = List (Answer node keys Listener Stream)

  abbrev pub Replayed : Type 0
  Replayed = Option (Answers × Net node keys Listener Stream)

  abbrev pub answer_alone :
      Option (Answer node keys Listener Stream × Net node keys Listener Stream) → Replayed
  answer_alone none = none
  answer_alone (some (answer, net)) = some (answer ∷ [], net)

  -- What a start answers, and makes of a netlayer on which nothing else goes on.
  abbrev pub after :
      Option (Ending node keys Listener Stream) → Net node keys Listener Stream → Replayed
  unfolding start_with
  after none net = some ([], net)
  after (some cut_off) net = some ([], net)
  after (some (ended role fuel key halves answer)) net = answer_alone (
      start_with node keys Listener Stream (start node keys Listener Stream role fuel) key net
        halves)

  abbrev pub with_answers : Answers → Replayed → Replayed
  with_answers before none = none
  with_answers before (some (answers, net)) = some (answers ++ before, net)

  abbrev pub and_then : Replayed → (Net node keys Listener Stream → Replayed) → Replayed
  and_then none f = none
  and_then (some (answers, net)) f = with_answers answers (f net)

  -- What starts answer and make of it one after the other, of which the first is the last in the
  -- list.
  abbrev pub replay :
      List (Ending node keys Listener Stream) → Net node keys Listener Stream → Replayed
  replay [] net = some ([], net)
  replay (e ∷ es) net = and_then (replay es net) (after (some e))

  -- What they have answered to the tasks.
  abbrev pub answer_of : Option (Ending node keys Listener Stream) → Answers
  answer_of none = []
  answer_of (some cut_off) = []
  answer_of (some (ended role fuel key halves answer)) = answer ∷ []

  abbrev pub answers_of : List (Ending node keys Listener Stream) → Answers
  answers_of [] = []
  answers_of (e ∷ es) = answer_of (some e) ++ answers_of es

  builder_of :
      (m : CapTpSessionManager node) (b : CapTpSessionBuilder node)
      → b.manager ≡ m
      → init_session node b.signing_key m b.reader b.writer ≡ b
  unfolding init_session
  builder_of m b h = ap (λ x. record b { manager = x }) (sym h)

  Move-after :
      {s s' : Shared node keys Listener Stream} {role : Role}
      {e : Option (Ending node keys Listener Stream)} {pc pc' : Pc node keys Listener Stream}
      → Move node keys Listener Stream s role pc e s' pc'
      → Borrows node keys Listener Stream s.net pc
      → after e s.net ≡ some (answer_of e, s'.net)
  unfolding start_with
  Move-after (finds loc x l h) b = refl
  Move-after (misses loc l h) b = refl
  Move-after (opens loc halves) b = refl
  Move-after (open_fails loc e) b = refl
  Move-after (arrives halves) b = refl
  Move-after (arrive_fails e) b = refl
  Move-after (locks role key r w own l h) b = refl
  Move-after (no_locator role halves l h) b = refl
  Move-after {s} (ends role fuel own b answer net h) (same, at) =
      rw (at, builder_of s.net.manager b same, h) refl
  Move-after (drops role pc h) b = refl
  Move-after (drops_start role own b) x = refl

  Turn-after :
      {s s' : Shared node keys Listener Stream} {ts ts' : List (Task node keys Listener Stream)}
      {e : Option (Ending node keys Listener Stream)}
      → Turn node keys Listener Stream s ts e s' ts'
      → All (λ t. Borrows node keys Listener Stream s.net t.pc) ts
      → after e s.net ≡ some (answer_of e, s'.net)
  Turn-after (here move) (one, all) = Move-after move one
  Turn-after (there turn) (one, all) = Turn-after turn all

  replay-with :
      (e : Option (Ending node keys Listener Stream)) (es : List (Ending node keys Listener Stream))
      (net net' net'' : Net node keys Listener Stream)
      → replay es net ≡ some (answers_of es, net')
      → after e net' ≡ some (answer_of e, net'')
      → replay (with_ending node keys Listener Stream e es) net
        ≡ some (answers_of (with_ending node keys Listener Stream e es), net'')
  unfolding after
  replay-with none es net net' net'' h step = h ∙ ap (λ r. with_answers (answers_of es) r) step
  replay-with (some e) es net net' net'' h step =
      ap (λ x. and_then x (after (some e))) h ∙ ap (with_answers (answers_of es)) step

  -- The calls of several tasks are serializable: what the starts that have ended have answered to
  -- the tasks, and what all the calls leave of the netlayer, in whatever order they go on and are
  -- dropped, is what these starts answer and leave of it when each is made alone, one after the
  -- other in the order in which they ended.
  pub serializable :
      (net : Net node keys Listener Stream) {es : List (Ending node keys Listener Stream)}
      {s : Shared node keys Listener Stream} {ts : List (Task node keys Listener Stream)}
      → Reach node keys Listener Stream (at_rest node keys Listener Stream net) [] es s ts
      → replay es net ≡ some (answers_of es, s.net)
  serializable net now = refl
  serializable net (turns {es} {e} run turn) =
      replay-with e es net _ _ (serializable net run)
        (Turn-after turn (one_start_at_a_time node keys Listener Stream net run).borrowed)
  serializable net (calls run role) = serializable net run
