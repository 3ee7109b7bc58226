-- ===== src/Netlayer/Locks/Crossed.antt =====
-- `connect` and `accept` of lib/rexa-netlayer-datastream/src/lib.rs: two nodes that connect to each
-- other.
use rexa.Common.{
  ℕ, ◌≡◌, ◌≢◌, refl, sym, ap, ◌∙◌, true, false, Bool-cases, List, [], ◌∷◌, ◌++◌, arith, inl, inr,
  ◌⊎◌, nat_beq, nat_beq_iff,
}
use rexa.Netlayer.Locks.{
  waiting, holding, Link, opened, holder, holders, Move, Step, Reach, connect_locks, accept_locks,
  Heard, refuses_call, refuses_answer, has_replied, answers, finishes, returns, step, now, next,
}

-- A stream whose `connect` has the lock of its node, and whose `accept` waits for the other's.
abbrev pub half_open : ℕ → ℕ → Heard → Heard → Link
half_open caller callee of_call of_answer = record {
  caller = caller;
  callee = callee;
  of_call = of_call;
  of_answer = of_answer;
  connect = holding;
  accept = waiting;
}

abbrev pub crossed : ℕ → ℕ → Heard → Heard → Heard → Heard → List Link
crossed a b h k h' k' = half_open a b h k ∷ half_open b a h' k' ∷ []

other : (a b : ℕ) → a ≢ b → nat_beq b a ≡ false
other a b apart = elim (Bool-cases (nat_beq b a)) [
  | inl e ↦ absurd (apart (sym ((nat_beq_iff b a).0 e)))
  | inr e ↦ e
]

itself : (a : ℕ) → nat_beq a a ≡ true
itself a = (nat_beq_iff a a).1 refl

-- No call on a half open stream can go on while its callee's lock is held.
no_move :
    (a b : ℕ) (h k : Heard) {ls : List Link} {l l' : Link}
    → Move ls l l'
    → l ≡ half_open a b h k
    → holders b ls ≢ 0
    → ⊥
no_move a b h k (connect_locks l p free) e taken = cc
no_move a b h k {ls} (accept_locks l p free) e taken =
    taken (ap (λ x. holders x.callee ls) (sym e) ∙ free)
no_move a b h k (answers l p p' g) e taken = cc
no_move a b h k (refuses_call l p p' g) e taken = cc
no_move a b h k (returns l p) e taken = cc
no_move a b h k (finishes l p p' g) e taken = let sent = ap (λ x. has_replied x.accept) e in cc
no_move a b h k (refuses_answer l p p' g) e taken =
    let sent = ap (λ x. has_replied x.accept) e in cc

-- One of the two links is that of the step.
which :
    (before : List Link) (l : Link) (behind : List Link) (x y : Link)
    → before ++ l ∷ behind ≡ x ∷ y ∷ []
    → (l ≡ x) ⊎ (l ≡ y)
which [] l behind x y e = inl (ground arith)
which (k ∷ []) l behind x y e = inr (ground arith)
which (k ∷ k' ∷ []) l behind x y e = absurd (ground arith)
which (k ∷ k' ∷ k'' ∷ before) l behind x y e = absurd (ground arith)

module _ (a b : ℕ) (h k h' k' : Heard) where
  abbrev ends : List Link
  ends = crossed a b h k h' k'

  taken_first : holders a ends ≢ 0
  taken_first e = let own : holder a a holding ≡ 1 = rw (itself a) refl in omega (arith, e, own)

  taken_second : holders b ends ≢ 0
  taken_second e = let own : holder b b holding ≡ 1 = rw (itself b) refl in omega (arith, e, own)

  stuck : {ls ls' : List Link} → Step ls ls' → ls ≡ ends → ⊥
  stuck (step before l l' behind move) e =
      elim (which before l behind (half_open a b h k) (half_open b a h' k') e) [
        | inl first ↦ no_move a b h k move first (λ z. taken_second (sym (ap (holders b) e) ∙ z))
        | inr second ↦ no_move b a h' k' move second (λ z. taken_first (sym (ap (holders a) e) ∙ z))
      ]

  -- Two nodes that connect to each other at once can wait for each other for ever, whatever would come
  -- of their start messages: from two streams, one opened by each node, on which nothing has happened,
  -- it can come to a state in which no call can go on unless one is dropped, and none has ended. Each
  -- `connect` has its own node's lock, and each `accept` waits for it.
  pub crossed_calls_deadlock :
      a ≢ b
      → Reach (opened a b h k ∷ opened b a h' k' ∷ []) ends × (¬ ((ls : List Link) × Step ends ls))
  crossed_calls_deadlock apart = (
    next (next now (step [] _ _ (opened b a h' k' ∷ []) (connect_locks (opened a b h k) refl refl)))
        (step (half_open a b h k ∷ []) _ _ []
          (connect_locks (opened b a h' k') refl (rw (other a b apart) refl))),
    λ (ls, one). stuck one refl,
  )
