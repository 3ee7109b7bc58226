-- ===== src/Netlayer/Tasks/Blocked.antt =====
-- `connect` and `accept` of lib/rexa-netlayer-datastream/src/lib.rs, called by several tasks: what
-- the others can do while one of them is in the start of a session.
use rexa.Common.{
  ◌≡◌, refl, sym, ap, ◌∙◌, Bool, true, false, Option, none, some, List, [], ◌∷◌, ◌++◌, arith,
}
use rexa.Session.{Node, Session}
use rexa.Handshake.{Keys}
use rexa.Netlayer.{connected}
use rexa.Netlayer.Tasks.Turns.{starters, held, one_start_at_a_time}
use rexa.Netlayer.Tasks.{
  Net, Shared, Role, Pc, Task, Ending, Move, Turn, Reach, at_rest, with_ending, called, opening,
  waiting, starting, returned, dropped, finds, misses, opens, open_fails, arrives, arrive_fails,
  locks, no_locator, ends, drops, drops_start, here, there, now, turns, calls, waits,
}

module _ (node : Node) (keys : Keys node) (Listener Stream : Type 0) where
  abbrev pub given : Pc node keys Listener Stream → List (Session node)
  given (returned (connected session)) = session ∷ []
  given _ = []

  -- The sessions that calls have returned.
  abbrev pub handed_out : List (Task node keys Listener Stream) → List (Session node)
  handed_out [] = []
  handed_out (t ∷ ts) = given t.pc ++ handed_out ts

  waits-given :
      (pc : Pc node keys Listener Stream)
      → waits node keys Listener Stream pc ≡ true
      → given pc ≡ []
  waits-given called h = refl
  waits-given opening h = refl
  waits-given (waiting halves) h = refl
  waits-given (starting own b) h = refl
  waits-given (returned a) h = cc
  waits-given dropped h = refl

  Move-blocked :
      {s s' : Shared node keys Listener Stream} {role : Role}
      {e : Option (Ending node keys Listener Stream)} {pc pc' : Pc node keys Listener Stream}
      → Move node keys Listener Stream s role pc e s' pc'
      → s.locked ≡ true
      → e ≡ none
      → (s' ≡ s) × (given pc' ≡ given pc)
  Move-blocked (finds loc x l h) k q = cc
  Move-blocked (misses loc l h) k q = (refl, refl)
  Move-blocked (opens loc halves) k q = (refl, refl)
  Move-blocked (open_fails loc e) k q = (refl, refl)
  Move-blocked (arrives halves) k q = (refl, refl)
  Move-blocked (arrive_fails e) k q = (refl, refl)
  Move-blocked (locks role key r w own l h) k q = cc
  Move-blocked (no_locator role halves l h) k q = (refl, refl)
  Move-blocked (ends role fuel own b answer net h) k q = cc
  Move-blocked (drops role pc h) k q = (refl, sym (waits-given pc h))
  Move-blocked (drops_start role own b) k q = cc

  Turn-blocked :
      {s s' : Shared node keys Listener Stream} {ts ts' : List (Task node keys Listener Stream)}
      {e : Option (Ending node keys Listener Stream)}
      → Turn node keys Listener Stream s ts e s' ts'
      → s.locked ≡ true
      → e ≡ none
      → (s' ≡ s) × (handed_out ts' ≡ handed_out ts)
  Turn-blocked (here {t} {ts} move) k q =
      let (same, kept) = Move-blocked move k q in (same, ap (λ xs. xs ++ handed_out ts) kept)
  Turn-blocked (there {t} turn) k q =
      let (same, kept) = Turn-blocked turn k q in (same, ap (λ xs. given t.pc ++ xs) kept)

  no_ending :
      (e : Option (Ending node keys Listener Stream)) (es : List (Ending node keys Listener Stream))
      → with_ending node keys Listener Stream e es ≡ []
      → (e ≡ none) × (es ≡ [])
  no_ending none es h = (refl, h)
  no_ending (some e) es h = cc

  locked_run :
      {s : Shared node keys Listener Stream} {ts : List (Task node keys Listener Stream)}
      {es : List (Ending node keys Listener Stream)} {s' : Shared node keys Listener Stream}
      {ts' : List (Task node keys Listener Stream)}
      → s.locked ≡ true
      → Reach node keys Listener Stream s ts es s' ts'
      → es ≡ []
      → (s' ≡ s) × (handed_out ts' ≡ handed_out ts)
  locked_run k now q = (refl, refl)
  locked_run k (turns {es} {e} run turn) q =
      let (quiet, none_before) = no_ending e es q in
      let (same, kept) = locked_run k run none_before in
      let (same', kept') = Turn-blocked turn (ap (λ x. x.locked) same ∙ k) quiet in
      (same' ∙ same, kept' ∙ kept)
  locked_run k (calls run role) q = locked_run k run q

  held_by_one : (b : Bool) → held node keys Listener Stream b ≡ 1 → b ≡ true
  held_by_one true h = refl
  held_by_one false h = ground arith

  -- While one call is in the start of a session, all other calls of the netlayer wait for its peer:
  -- until that start ends or its call is dropped, whatever other calls are made and go on in
  -- whatever order, none of them returns a session, not even one that the manager has, and the
  -- manager stays as it is.
  pub silent_peer_blocks :
      (net : Net node keys Listener Stream) {before es : List (Ending node keys Listener Stream)}
      {s s' : Shared node keys Listener Stream} {ts ts' : List (Task node keys Listener Stream)}
      → Reach node keys Listener Stream (at_rest node keys Listener Stream net) [] before s ts
      → starters node keys Listener Stream ts ≡ 1
      → Reach node keys Listener Stream s ts es s' ts'
      → es ≡ []
      → (s' ≡ s) × (handed_out ts' ≡ handed_out ts)
  silent_peer_blocks net {s} run one later quiet =
      let holder = (one_start_at_a_time node keys Listener Stream net run).one_holder in
      locked_run (held_by_one s.locked (sym holder ∙ one)) later quiet
