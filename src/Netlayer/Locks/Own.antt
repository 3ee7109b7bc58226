-- ===== src/Netlayer/Locks/Own.antt =====
-- `connect` and `accept` of lib/rexa-netlayer-datastream/src/lib.rs: a node that connects to
-- itself.
use rexa.Common.{false, ℕ, ◌+◌, ◌≤◌, ◌≡◌, ◌≢◌, List, [], ◌∷◌, ◌++◌, All, arith}
use rexa.Netlayer.Locks.{ended, Link, opened, holders, Heard, has_replied}

pub holders-append :
    (x : ℕ) (before behind : List Link)
    → holders x (before ++ behind) ≡ holders x before + holders x behind
holders-append x [] behind = omega arith
holders-append x (l ∷ before) behind =
    let rest = holders-append x before behind in omega (arith, rest)

-- Nothing has come back on a link of a node to itself.
abbrev Unanswered : Link → Type 0
Unanswered l = l.caller ≡ l.callee → (l.connect ≢ ended) × (has_replied l.accept ≡ false)

pub at :
    (P : Link → Type 0) (before : List Link) (l : Link) (behind : List Link)
    → All P (before ++ l ∷ behind)
    → P l
at P [] l behind (one, all) = one
at P (k ∷ before) l behind (one, all) = at P before l behind all

pub put :
    (P : Link → Type 0) (before : List Link) (l l' : Link) (behind : List Link)
    → All P (before ++ l ∷ behind)
    → P l'
    → All P (before ++ l' ∷ behind)
put P [] l l' behind (one, all) p = (p, all)
put P (k ∷ before) l l' behind (one, all) p = (one, put P before l l' behind all p)

record Sound (ls : List Link) : Type 0 where
  exclusive : (x : ℕ) → holders x ls ≤ 1
  unanswered : All Unanswered ls

-- Links on which nothing has happened.
abbrev pub all_opened : List (ℕ × ℕ × Heard × Heard) → List Link
all_opened [] = []
all_opened ((caller, callee, h, k) ∷ pairs) = opened caller callee h k ∷ all_opened pairs
