-- ===== src/Netlayer/Tasks/Turns.antt =====
-- `connect` and `accept` of lib/rexa-netlayer-datastream/src/lib.rs, called by several tasks: who
-- holds the manager's lock, and what the builder of a start borrows.
use rexa.Common.{
  ℕ, ◌+◌, ◌≡◌, refl, subst, sym, ap, ◌∙◌, Bool, true, false, Option, some, List, [], ◌∷◌, All,
  arith, ◌⊎◌, inl, inr,
}
use rexa.Session.{Node}
use rexa.Handshake.{Keys, init_session}
use rexa.Netlayer.{locators, pop}
use rexa.Netlayer.Tasks.{
  Net, Shared, Role, Pc, Task, Ending, Move, Turn, Reach, at_rest, called, opening, waiting,
  starting, returned, dropped, finds, misses, opens, open_fails, arrives, arrive_fails, locks,
  no_locator, ends, drops, drops_start, here, there, now, turns, calls, waits,
}

module _ (node : Node) (keys : Keys node) (Listener Stream : Type 0) where
  abbrev starter : Pc node keys Listener Stream → ℕ
  starter (starting own b) = 1
  starter _ = 0

  -- How many calls are in the start of a session.
  abbrev pub starters : List (Task node keys Listener Stream) → ℕ
  starters [] = 0
  starters (t ∷ ts) = starter t.pc + starters ts

  abbrev pub held : Bool → ℕ
  held true = 1
  held false = 0

  -- The builder of a start has the manager as it is, and the netlayer's last locator.
  abbrev pub Borrows : Net node keys Listener Stream → Pc node keys Listener Stream → Type 0
  Borrows net (starting own b) =
      (b.manager ≡ net.manager)
      × (pop node keys Listener Stream (locators node keys Listener Stream net) ≡ some own)
  Borrows net _ = Unit

  -- The lock is held by the one call that is in the start of a session, if one is.
  pub record Exclusive (s : Shared node keys Listener Stream)
      (ts : List (Task node keys Listener Stream)) : Type 0 where
    pub one_holder : starters ts ≡ held s.locked
    pub borrowed : All (λ t. Borrows s.net t.pc) ts

  -- What a step of a call leaves of it and, of a netlayer on which `others` other calls start.
  record MoveKeeps (s : Shared node keys Listener Stream) (others : ℕ)
      (s' : Shared node keys Listener Stream) (pc' : Pc node keys Listener Stream) : Type 0 where
    count : starter pc' + others ≡ held s'.locked
    own : Borrows s'.net pc'
    rest : (s'.net ≡ s.net) ⊎ (others ≡ 0)

  waits-starter :
      (pc : Pc node keys Listener Stream)
      → waits node keys Listener Stream pc ≡ true
      → starter pc ≡ 0
  waits-starter called h = refl
  waits-starter opening h = refl
  waits-starter (waiting halves) h = refl
  waits-starter (starting own b) h = cc
  waits-starter (returned a) h = refl
  waits-starter dropped h = refl

  alone_at : (b : Bool) (n : ℕ) → 1 + n ≡ held b → n ≡ 0
  alone_at true n h = omega (arith, h)
  alone_at false n h = omega (arith, h)

  idle_borrow_one :
      (net net' : Net node keys Listener Stream) (pc : Pc node keys Listener Stream)
      → starter pc ≡ 0
      → Borrows net pc
      → Borrows net' pc
  idle_borrow_one net net' called h b = tt
  idle_borrow_one net net' opening h b = tt
  idle_borrow_one net net' (waiting halves) h b = tt
  idle_borrow_one net net' (starting own b) h x = cc
  idle_borrow_one net net' (returned a) h b = tt
  idle_borrow_one net net' dropped h b = tt

  Move-Keeps :
      {s s' : Shared node keys Listener Stream} {role : Role}
      {e : Option (Ending node keys Listener Stream)} {pc pc' : Pc node keys Listener Stream}
      (others : ℕ)
      → Move node keys Listener Stream s role pc e s' pc'
      → starter pc + others ≡ held s.locked
      → MoveKeeps s others s' pc'
  unfolding init_session
  Move-Keeps others (finds loc x l h) c = record { count = c; own = tt; rest = inl refl }
  Move-Keeps others (misses loc l h) c = record { count = c; own = tt; rest = inl refl }
  Move-Keeps others (opens loc halves) c = record { count = c; own = tt; rest = inl refl }
  Move-Keeps others (open_fails loc e) c = record { count = c; own = tt; rest = inl refl }
  Move-Keeps others (arrives halves) c = record { count = c; own = tt; rest = inl refl }
  Move-Keeps others (arrive_fails e) c = record { count = c; own = tt; rest = inl refl }
  Move-Keeps others (locks role key r w own l h) c = record {
    count = let none_before : 0 + others ≡ 0 = c ∙ ap held l in omega (arith, none_before);
    own = (refl, h);
    rest = inl refl;
  }
  Move-Keeps others (no_locator role halves l h) c = record { count = c; own = tt; rest = inl refl }
  Move-Keeps {s} others (ends role fuel own b answer net h) c =
      let alone : others ≡ 0 = alone_at s.locked others c in
      record { count = omega (arith, alone); own = tt; rest = inr alone }
  Move-Keeps {s} others (drops role pc h) c = record {
    count = omega (arith, c, waits-starter pc h);
    own = tt;
    rest = inl refl;
  }
  Move-Keeps {s} others (drops_start role own b) c =
      let alone : others ≡ 0 = alone_at s.locked others c in
      record { count = omega (arith, alone); own = tt; rest = inl refl }

  -- Calls that do not start borrow nothing.
  idle_borrow :
      (net net' : Net node keys Listener Stream) (ts : List (Task node keys Listener Stream))
      → starters ts ≡ 0
      → All (λ t. Borrows net t.pc) ts
      → All (λ t. Borrows net' t.pc) ts
  idle_borrow net net' [] h all = tt
  idle_borrow net net' (t ∷ ts) h (one, all) =
      let none_here : starter t.pc ≡ 0 = omega (arith, h) in
      let none_there : starters ts ≡ 0 = omega (arith, h) in
      (idle_borrow_one net net' t.pc none_here one, idle_borrow net net' ts none_there all)

  -- A turn keeps it, with `others` calls that start beside these.
  Turn-Keeps :
      {s s' : Shared node keys Listener Stream} {ts ts' : List (Task node keys Listener Stream)}
      {e : Option (Ending node keys Listener Stream)} (others : ℕ)
      → Turn node keys Listener Stream s ts e s' ts'
      → others + starters ts ≡ held s.locked
      → All (λ t. Borrows s.net t.pc) ts
      → (others + starters ts' ≡ held s'.locked)
        × ((s'.net ≡ s.net) ⊎ (others ≡ 0))
        × All (λ t. Borrows s'.net t.pc) ts'
  Turn-Keeps {s} others (here {t} {ts} move) c (one, all) =
      let kept = Move-Keeps (others + starters ts) move (omega (arith, c)) in
      (
        omega (arith, kept.count),
        elim kept.rest [ inl e ↦ inl e | inr e ↦ inr (omega (arith, e)) ],
        (
          kept.own,
          elim kept.rest [
            | inl e ↦ subst (λ net. All (λ t. Borrows net t.pc) ts) (sym e) all
            | inr e ↦ idle_borrow s.net _ ts (omega (arith, e)) all
          ],
        ),
      )
  Turn-Keeps {s} others (there {t} {ts} turn) c (one, all) =
      let (count, rest, kept) = Turn-Keeps (others + starter t.pc) turn (omega (arith, c)) all in
      (
        omega (arith, count),
        elim rest [ inl e ↦ inl e | inr e ↦ inr (omega (arith, e)) ],
        (
          elim rest [
            | inl e ↦ subst (λ net. Borrows net t.pc) (sym e) one
            | inr e ↦ idle_borrow_one s.net _ t.pc (omega (arith, e)) one
          ],
          kept,
        ),
      )

  -- No two calls are in the start of a session at once, whatever calls are made and in whatever
  -- order they go on and are dropped: the lock is held by the one call that is, if one is. The
  -- builder of that start has the manager as it is then, with every session that was put into it
  -- before, so it overwrites none.
  pub one_start_at_a_time :
      (net : Net node keys Listener Stream) {es : List (Ending node keys Listener Stream)}
      {s : Shared node keys Listener Stream} {ts : List (Task node keys Listener Stream)}
      → Reach node keys Listener Stream (at_rest node keys Listener Stream net) [] es s ts
      → Exclusive s ts
  one_start_at_a_time net now = record { one_holder = refl; borrowed = tt }
  one_start_at_a_time net (turns run turn) =
      let before = one_start_at_a_time net run in
      let (count, _, kept) = Turn-Keeps 0 turn (omega (arith, before.one_holder)) before.borrowed in
      record { one_holder = omega (arith, count); borrowed = kept }
  one_start_at_a_time net (calls run role) =
      let before = one_start_at_a_time net run in
      record { one_holder = omega (arith, before.one_holder); borrowed = (tt, before.borrowed) }
