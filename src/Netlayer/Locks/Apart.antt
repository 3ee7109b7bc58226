-- ===== src/Netlayer/Locks/Apart.antt =====
-- `connect` and `accept` of lib/rexa-netlayer-datastream/src/lib.rs: streams between nodes of which
-- no two share a stream's end.
use mathlib.Core.List.{append_assoc}
use rexa.Common.{
  Bool, ◌≢◌, true, ℕ, ◌+◌, ◌≤◌, ◌≡◌, refl, ap, subst, false, Bool-cases, List, [], ◌∷◌, ◌++◌, All,
  arith, inl, inr, ◌⊎◌, nat_beq, nat_beq_iff, if◌then◌else◌,
}
use rexa.Netlayer.Locks.{
  Pc, waiting, holding, ended, Link, holder, link_holders, holders, Move, Step, Reach,
  connect_locks, accept_locks, answers, finishes, returns, Heard, accepts, failed, refuses_call,
  refuses_answer, replied, has_replied, step, now, next,
}
use rexa.Netlayer.Locks.Own.{all_opened, holders-append, at, put}

abbrev is : ℕ → ℕ → ℕ
is x y = if nat_beq x y then 1 else 0

-- How many ends of the streams a node is at.
abbrev pub ends_at : ℕ → List (ℕ × ℕ × Heard × Heard) → ℕ
ends_at x [] = 0
ends_at x ((caller, callee, h, k) ∷ pairs) = is x caller + is x callee + ends_at x pairs

abbrev pub uses : ℕ → List Link → ℕ
uses x [] = 0
uses x (l ∷ ls) = is x l.caller + is x l.callee + uses x ls

-- How many steps are left.
abbrev left_to_connect : Pc → ℕ
left_to_connect waiting = 2
left_to_connect holding = 1
left_to_connect _ = 0

abbrev left_to_accept : Pc → ℕ
left_to_accept waiting = 3
left_to_accept holding = 2
left_to_accept replied = 1
left_to_accept _ = 0

abbrev pub left : List Link → ℕ
left [] = 0
left (l ∷ ls) = left_to_connect l.connect + left_to_accept l.accept + left ls

abbrev pub Ended : Link → Type 0
Ended l = (l.connect ≡ ended) × (l.accept ≡ ended)

uses-append :
    (x : ℕ) (before behind : List Link) → uses x (before ++ behind) ≡ uses x before + uses x behind
uses-append x [] behind = omega arith
uses-append x (l ∷ before) behind = let rest = uses-append x before behind in omega (arith, rest)

left-append : (before behind : List Link) → left (before ++ behind) ≡ left before + left behind
left-append [] behind = omega arith
left-append (l ∷ before) behind = let rest = left-append before behind in omega (arith, rest)

holder_is : (x own : ℕ) (pc : Pc) → holder x own pc ≤ is x own
holder_is x own waiting = omega arith
holder_is x own holding = omega arith
holder_is x own replied = omega arith
holder_is x own ended = omega arith
holder_is x own failed = omega arith

holders-uses : (x : ℕ) (ls : List Link) → holders x ls ≤ uses x ls
holders-uses x [] = omega arith
holders-uses x (l ∷ ls) =
    let rest = holders-uses x ls in
    omega (arith, rest, holder_is x l.caller l.connect, holder_is x l.callee l.accept)

itself : (x : ℕ) → is x x ≡ 1
itself x = rw ((nat_beq_iff x x).1 refl) refl

-- Both start messages of a link are given whole, and accepted.
abbrev pub Accepted : Link → Type 0
Accepted l = (l.of_call ≡ accepts) × (l.of_answer ≡ accepts)

Move-Accepted : {ls : List Link} {l l' : Link} → Move ls l l' → Accepted l → Accepted l'
Move-Accepted (connect_locks l h free) a = a
Move-Accepted (accept_locks l h free) a = a
Move-Accepted (answers l h h' g) a = a
Move-Accepted (refuses_call l h h' g) a = a
Move-Accepted (returns l h) a = a
Move-Accepted (finishes l h h' g) a = a
Move-Accepted (refuses_answer l h h' g) a = a

Move-left :
    {ls : List Link} {l l' : Link}
    → Move ls l l'
    → Accepted l
    → left_to_connect l.connect + left_to_accept l.accept
      ≡ 1 + (left_to_connect l'.connect + left_to_accept l'.accept)
Move-left (connect_locks l h free) a = let n = ap left_to_connect h in omega (arith, n)
Move-left (accept_locks l h free) a = let n = ap left_to_accept h in omega (arith, n)
Move-left (answers l h h' g) a = let n = ap left_to_accept h' in omega (arith, n)
Move-left (refuses_call l h h' g) (a, b) = cc
Move-left (returns l h) a = let n = ap left_to_accept h in omega (arith, n)
Move-left (finishes l h h' g) a = let n = ap left_to_connect h in omega (arith, n)
Move-left (refuses_answer l h h' g) (a, b) = cc

Step-left : {ls ls' : List Link} → Step ls ls' → All Accepted ls → left ls ≡ 1 + left ls'
Step-left (step before l l' behind move) all = omega (
  arith,
  Move-left move (at Accepted before l behind all),
  left-append before (l ∷ behind),
  left-append before (l' ∷ behind),
)

Move-uses :
    {ls : List Link} {l l' : Link} (x : ℕ)
    → Move ls l l'
    → is x l.caller + is x l.callee ≡ is x l'.caller + is x l'.callee
Move-uses x (connect_locks l h free) = refl
Move-uses x (accept_locks l h free) = refl
Move-uses x (answers l h h' g) = refl
Move-uses x (refuses_call l h h' g) = refl
Move-uses x (refuses_answer l h h' g) = refl
Move-uses x (returns l h) = refl
Move-uses x (finishes l h h' g) = refl

-- Where `connect` can stand when nothing fails.
abbrev is_caller : Pc → Bool
is_caller replied = false
is_caller failed = false
is_caller _ = true

-- Nothing has failed, and `connect` returns behind the answer of `accept`.
record Ordered (l : Link) : Type 0 where
  accepted : Accepted l
  caller_goes_on : is_caller l.connect ≡ true
  callee_goes_on : l.accept ≢ failed
  in_turn : l.connect ≡ ended → has_replied l.accept ≡ true

Move-Ordered : {ls : List Link} {l l' : Link} → Move ls l l' → Ordered l → Ordered l'
Move-Ordered (connect_locks l h free) o = record {
  accepted = o.accepted;
  caller_goes_on = refl;
  callee_goes_on = o.callee_goes_on;
  in_turn = λ e. cc;
}
Move-Ordered (accept_locks l h free) o = record {
  accepted = o.accepted;
  caller_goes_on = o.caller_goes_on;
  callee_goes_on = λ e. cc;
  in_turn = λ e. let sent = o.in_turn e in let none_yet = ap has_replied h in cc;
}
Move-Ordered (answers l h h' g) o = record {
  accepted = o.accepted;
  caller_goes_on = o.caller_goes_on;
  callee_goes_on = λ e. cc;
  in_turn = λ e. refl;
}
Move-Ordered (refuses_call l h h' g) o = let fine = o.accepted.0 in cc
Move-Ordered (returns l h) o = record {
  accepted = o.accepted;
  caller_goes_on = o.caller_goes_on;
  callee_goes_on = λ e. cc;
  in_turn = λ e. refl;
}
Move-Ordered (finishes l h h' g) o = record {
  accepted = o.accepted;
  caller_goes_on = refl;
  callee_goes_on = o.callee_goes_on;
  in_turn = λ e. h';
}
Move-Ordered (refuses_answer l h h' g) o = let fine = o.accepted.1 in cc

-- A link's nodes, of which no other link has one.
record Apart (ls : List Link) (l : Link) : Type 0 where
  two_nodes : nat_beq l.caller l.callee ≡ false
  caller_here : holders l.caller ls ≡ link_holders l.caller l
  callee_here : holders l.callee ls ≡ link_holders l.callee l

Pc-cases :
    (pc : Pc)
    → (pc ≡ waiting) ⊎ ((pc ≡ holding) ⊎ ((pc ≡ replied) ⊎ ((pc ≡ ended) ⊎ (pc ≡ failed))))
Pc-cases waiting = inl refl
Pc-cases holding = inr (inl refl)
Pc-cases replied = inr (inr (inl refl))
Pc-cases ended = inr (inr (inr (inl refl)))
Pc-cases failed = inr (inr (inr (inr refl)))

flip : (x y : ℕ) → nat_beq x y ≡ false → nat_beq y x ≡ false
flip x y e = ground arith

no_holder : (x own : ℕ) (pc : Pc) → nat_beq x own ≡ false → holder x own pc ≡ 0
no_holder x own waiting e = refl
no_holder x own holding e = rw (e) refl
no_holder x own replied e = rw (e) refl
no_holder x own ended e = refl
no_holder x own failed e = refl

can_move :
    (ls : List Link) (l : Link) → Apart ls l → Ordered l → Ended l ⊎ ((l' : Link) × Move ls l l')
can_move ls l apart o =
    let free_callee = no_holder l.callee l.caller l.connect (flip _ _ apart.two_nodes) in
    let free_caller = no_holder l.caller l.callee l.accept apart.two_nodes in
    elim (Pc-cases l.connect) [
      | inl e ↦
          let z : holder l.caller l.caller l.connect ≡ 0 = rw (e) refl in
          inr (_, connect_locks l e (omega (arith, apart.caller_here, free_caller, z)))
      | inr (inl e) ↦ elim (Pc-cases l.accept) [
        | inl e' ↦
            let z : holder l.callee l.callee l.accept ≡ 0 = rw (e') refl in
            inr (_, accept_locks l e' (omega (arith, apart.callee_here, free_callee, z)))
        | inr (inl e') ↦ inr (_, answers l e e' o.accepted.0)
        | inr (inr (inl e')) ↦ inr (_, finishes l e (ap has_replied e') o.accepted.1)
        | inr (inr (inr (inl e'))) ↦ inr (_, finishes l e (ap has_replied e') o.accepted.1)
        | inr (inr (inr (inr e'))) ↦ absurd (o.callee_goes_on e')
      ]
      | inr (inr (inl e)) ↦ let fine = o.caller_goes_on in let not_fine = ap is_caller e in cc
      | inr (inr (inr (inr e))) ↦ let fine = o.caller_goes_on in let not_fine = ap is_caller e in cc
      | inr (inr (inr (inl e))) ↦ elim (Pc-cases l.accept) [
        | inl e' ↦ let sent = o.in_turn e in let none_yet = ap has_replied e' in cc
        | inr (inl e') ↦ let sent = o.in_turn e in let none_yet = ap has_replied e' in cc
        | inr (inr (inl e')) ↦ inr (_, returns l e')
        | inr (inr (inr (inl e'))) ↦ inl (e, e')
        | inr (inr (inr (inr e'))) ↦ absurd (o.callee_goes_on e')
      ]
    ]

Link-Apart :
    (before : List Link) (l : Link) (behind : List Link)
    → ((x : ℕ) → uses x (before ++ l ∷ behind) ≤ 1)
    → Apart (before ++ l ∷ behind) l
Link-Apart before l behind alone = record {
  two_nodes = elim (Bool-cases (nat_beq l.caller l.callee)) [
    | inl e ↦
        let same : is l.caller l.callee ≡ 1 = rw (e) refl in
        absurd (
          omega (
            arith,
            same,
            alone l.caller,
            itself l.caller,
            uses-append l.caller before (l ∷ behind),
          ))
    | inr e ↦ e
  ];
  caller_here = omega (
    arith,
    alone l.caller,
    itself l.caller,
    uses-append l.caller before (l ∷ behind),
    holders-append l.caller before (l ∷ behind),
    holders-uses l.caller before,
    holders-uses l.caller behind,
  );
  callee_here = omega (
    arith,
    alone l.callee,
    itself l.callee,
    uses-append l.callee before (l ∷ behind),
    holders-append l.callee before (l ∷ behind),
    holders-uses l.callee before,
    holders-uses l.callee behind,
  );
}

-- Between these nodes all start messages are given whole, and accepted.
abbrev pub AllAccepted : List (ℕ × ℕ × Heard × Heard) → Type 0
AllAccepted pairs = All (λ (caller, callee, h, k). (h ≡ accepts) × (k ≡ accepts)) pairs

record Good (pairs : List (ℕ × ℕ × Heard × Heard)) (ls : List Link) : Type 0 where
  same_uses : (x : ℕ) → uses x ls ≡ ends_at x pairs
  ordered : All Ordered ls

Step-Good :
    (pairs : List (ℕ × ℕ × Heard × Heard)) {ls ls' : List Link}
    → Step ls ls'
    → Good pairs ls
    → Good pairs ls'
Step-Good pairs (step before l l' behind move) good = record {
  same_uses = λ x. omega (
    arith,
    good.same_uses x,
    Move-uses x move,
    uses-append x before (l ∷ behind),
    uses-append x before (l' ∷ behind),
  );
  ordered =
      put Ordered before l l' behind good.ordered
        (Move-Ordered move (at Ordered before l behind good.ordered));
}

opened-Good :
    (pairs : List (ℕ × ℕ × Heard × Heard)) → AllAccepted pairs → Good pairs (all_opened pairs)
opened-Good [] a = record { same_uses = λ x. refl; ordered = tt }
opened-Good ((caller, callee, h, k) ∷ pairs) (a, all) =
    let rest = opened-Good pairs all in
    record {
      same_uses = λ x. ap (λ n. is x caller + is x callee + n) (rest.same_uses x);
      ordered = (
        record { accepted = a; caller_goes_on = refl; callee_goes_on = λ e. cc; in_turn = λ e. cc },
        rest.ordered,
      );
    }

Reach-Good :
    (pairs : List (ℕ × ℕ × Heard × Heard)) {ls : List Link}
    → AllAccepted pairs
    → Reach (all_opened pairs) ls
    → Good pairs ls
Reach-Good pairs a now = opened-Good pairs a
Reach-Good pairs a (next run one) = Step-Good pairs one (Reach-Good pairs a run)

all_Accepted : (ls : List Link) → All Ordered ls → All Accepted ls
all_Accepted [] o = tt
all_Accepted (l ∷ ls) (one, o) = (one.accepted, all_Accepted ls o)

-- The links in front of `rest` have ended.
find_move :
    (before rest : List Link)
    → ((x : ℕ) → uses x (before ++ rest) ≤ 1)
    → All Ordered rest
    → All Ended rest ⊎ ((ls : List Link) × Step (before ++ rest) ls)
find_move before [] alone o = inl tt
find_move before (l ∷ rest) alone (one, o) =
    elim (can_move (before ++ l ∷ rest) l (Link-Apart before l rest alone) one) [
      | inr (l', move) ↦ inr (_, step before l l' rest move)
      | inl over ↦
          let again : (before ++ l ∷ []) ++ rest ≡ before ++ l ∷ rest =
            append_assoc before (l ∷ []) rest in
          elim (find_move (before ++ l ∷ []) rest (λ x. rw (again) (alone x)) o) [
            | inl all ↦ inl (over, all)
            | inr (ls, one_step) ↦ inr (ls, subst (λ from. Step from ls) again one_step)
          ]
    ]

-- The locks stop no call at streams between nodes of which none is at two ends, when every start
-- message on them is given whole by `consume_syrup` and accepted, and no call is dropped: in whatever
-- order the calls go on, each step leaves one step less to be made, and until all calls have returned
-- their sessions one of them can go on.
pub apart_streams_end :
    (pairs : List (ℕ × ℕ × Heard × Heard)) {ls : List Link}
    → ((x : ℕ) → ends_at x pairs ≤ 1)
    → AllAccepted pairs
    → Reach (all_opened pairs) ls
    → (All Ended ls ⊎ ((ls' : List Link) × Step ls ls'))
      × ((ls' : List Link) → Step ls ls' → left ls ≡ 1 + left ls')
apart_streams_end pairs {ls} alone a run =
    let good = Reach-Good pairs a run in
    (
      find_move [] ls (λ x. let le = alone x in omega (arith, le, good.same_uses x)) good.ordered,
      λ ls' one. Step-left one (all_Accepted ls good.ordered),
    )
