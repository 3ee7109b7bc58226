-- ===== src/Netlayer/Locks/Examples.antt =====
-- Nodes that connect to each other, to themselves, and to others.
use rexa.Common.{ℕ, ◌+◌, ◌≤◌, ◌≡◌, refl, List, [], ◌∷◌, All, ◌⊎◌, arith}
use rexa.Netlayer.Locks.{
  Link, Step, Reach, accepts, refuses, stays, opened, connect_locks, step, now, next,
}
use rexa.Netlayer.Locks.Crossed.{half_open, crossed, crossed_calls_deadlock}
use rexa.Netlayer.Locks.Apart.{Ended, left, ends_at, apart_streams_end}

crossed_calls_deadlock_example :
    Reach
      (opened 1 2 accepts accepts ∷ opened 2 1 refuses stays ∷ [])
      (crossed 1 2 accepts accepts refuses stays)
    × (¬ ((ls : List Link) × Step (crossed 1 2 accepts accepts refuses stays) ls))
crossed_calls_deadlock_example =
    crossed_calls_deadlock 1 2 accepts accepts refuses stays (omega arith)

-- The stream from 3 to 4 goes its way beside the one from 1 to itself.
abbrev beside_own : List Link
beside_own = half_open 1 1 accepts accepts ∷ half_open 3 4 accepts accepts ∷ []

apart_run :
    Reach
      (opened 1 2 accepts accepts ∷ opened 3 4 accepts accepts ∷ [])
      (half_open 1 2 accepts accepts ∷ half_open 3 4 accepts accepts ∷ [])
apart_run = next (next now (step [] _ _ _ (connect_locks (opened 1 2 accepts accepts) refl refl))) (
    step (half_open 1 2 accepts accepts ∷ []) _ _ []
      (connect_locks (opened 3 4 accepts accepts) refl refl))

one_end : (x : ℕ) → ends_at x ((1, 2, accepts, accepts) ∷ (3, 4, accepts, accepts) ∷ []) ≤ 1
one_end x = ground arith

abbrev apart : List Link
apart = half_open 1 2 accepts accepts ∷ half_open 3 4 accepts accepts ∷ []

apart_streams_end_example :
    (All Ended apart ⊎ ((ls : List Link) × Step apart ls))
    × ((ls : List Link) → Step apart ls → left apart ≡ 1 + left ls)
apart_streams_end_example =
    apart_streams_end ((1, 2, accepts, accepts) ∷ (3, 4, accepts, accepts) ∷ []) one_end
      ((refl, refl), ((refl, refl), tt)) apart_run
