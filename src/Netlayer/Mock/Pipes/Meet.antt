-- ===== src/Netlayer/Mock/Pipes/Meet.antt =====
-- lib/rexa-netlayer-mock/src/lib.rs: two sides whose start messages fit the pipes meet.
use rexa.Common.{
  ℕ, ◌+◌, ◌≤◌, ◌≡◌, refl, ap, Bytes, [], ◌∷◌, length, length-append, ok, arith, ◌⊎◌, inl, inr,
}
use rexa.Reader.{Tokenizer}
use rexa.Netlayer.Mock.Pipes.{
  Pipes, PipesLaws, PipesTakeAll, Pc, Link, Move, Step, Runs, opened, sending, receiving, ended,
  writes, flushes, fills, takes, fails, spins, left_moves, right_moves, start, next,
}
use rexa.Netlayer.Mock.Pipes.Fit.{
  Fits, Way, unsent, in_transit, buffered, arrived, sends-Way, receives-Way, Turn, turn, has_it,
  goes_on, waits_for,
}

module _ (tok : Tokenizer) where
  open tok use {Tree}

  -- A bound on the steps that a side has still to make.
  abbrev cost : Pc tok → Bytes → ℕ
  cost (sending rest) buffer = 3 + length rest
  cost receiving [] = 2
  cost receiving (b ∷ bytes) = 1
  cost (ended res) buffer = 0

  cost-receiving : (buffer : Bytes) → cost receiving buffer ≤ 2
  cost-receiving [] = omega arith
  cost-receiving (b ∷ bytes) = omega arith

  cost_first : (b : ℕ) (bytes buffer : Bytes) → buffer ≡ b ∷ bytes → cost receiving buffer ≡ 1
  cost_first b bytes buffer e = ap (cost receiving) e

  module _ (pipes : Pipes) (laws : PipesLaws pipes) (greedy : PipesTakeAll pipes) where
    module _ (msg : Bytes) (t : Tree) (fits : Fits tok msg t) where
      Move-cost :
          {incoming outgoing buffer incoming' outgoing' buffer' : Bytes} {p q q' : Pc tok}
          → Move tok pipes incoming outgoing buffer q incoming' outgoing' buffer' q'
          → Way tok msg t p incoming q buffer
          → 1 + cost q' buffer' ≤ cost q buffer
      Move-cost (writes b front {rest} {rest'} e taken) way =
          omega (arith, ap length e, length-append {0} front rest')
      Move-cost {buffer = buffer} flushes way = omega (arith, cost-receiving buffer)
      Move-cost {buffer = buffer} (fills b got left e i) way = omega (arith, ap (cost receiving) e)
      Move-cost {buffer = buffer} (takes b bytes u rest e k) way =
          omega (arith, cost_first b bytes buffer e)
      Move-cost {buffer = buffer} (fails b bytes x e k n) way =
          omega (arith, cost_first b bytes buffer e)
      Move-cost (spins b bytes x e k n) (unsent s o h w) = cc
      Move-cost (spins b bytes x e k n) (in_transit s o h w) = cc
      Move-cost (spins b bytes x e k n) (buffered s o h w) = cc fits.whole
      Move-cost (spins b bytes x e k n) (arrived s o h w) = cc

    module _ (from_left from_right : Bytes) (of_left of_right : Tree)
        (l_fits : Fits tok from_left of_left) (r_fits : Fits tok from_right of_right) where
      record Inv (l : Link tok) : Type 0 where
        rightwards : Way tok from_left of_left l.left.pc l.to_right l.right.pc l.right.buffer
        leftwards : Way tok from_right of_right l.right.pc l.to_left l.left.pc l.left.buffer

      Step-Inv : {l l' : Link tok} → Step tok pipes l l' → Inv l → Inv l'
      Step-Inv (left_moves mv) v = record {
        rightwards = sends-Way tok pipes laws greedy from_left of_left l_fits mv v.rightwards;
        leftwards = receives-Way tok pipes laws greedy from_right of_right r_fits mv v.leftwards;
      }
      Step-Inv (right_moves mv) v = record {
        rightwards = receives-Way tok pipes laws greedy from_left of_left l_fits mv v.rightwards;
        leftwards = sends-Way tok pipes laws greedy from_right of_right r_fits mv v.leftwards;
      }

      -- Both sides have ended, each with the other's message.
      abbrev pub Met : Link tok → Type 0
      Met l = (l.left.pc ≡ ended (ok of_right)) × (l.right.pc ≡ ended (ok of_left))

      progress : (l : Link tok) → Inv l → Met l ⊎ ((l' : Link tok) × Step tok pipes l l')
      progress l v =
          both
            (turn tok pipes laws greedy from_right of_right r_fits l.left.pc l_fits v.leftwards
              v.rightwards)
            (turn tok pipes laws greedy from_left of_left l_fits l.right.pc r_fits v.rightwards
              v.leftwards)
        where
          both :
              Turn tok pipes laws greedy from_right of_right r_fits l.right.pc l.left.pc l.to_left
                l.to_right l.left.buffer
              → Turn tok pipes laws greedy from_left of_left l_fits l.left.pc l.right.pc l.to_right
                  l.to_left l.right.buffer
              → Met l ⊎ ((l' : Link tok) × Step tok pipes l l')
          both (goes_on mv) other = inr (_, left_moves mv)
          both (has_it e) (goes_on mv) = inr (_, right_moves mv)
          both (waits_for s r) (goes_on mv) = inr (_, right_moves mv)
          both (has_it e) (has_it e') = inl (e, e')
          both (has_it e) (waits_for s r) = cc
          both (waits_for s r) (has_it e) = cc
          both (waits_for s r) (waits_for s' r') = cc

      opened-Inv : Inv (opened tok from_left from_right)
      opened-Inv = record {
        rightwards = unsent refl refl refl tt;
        leftwards = unsent refl refl refl tt;
      }

      abbrev total : Link tok → ℕ
      total l = cost l.left.pc l.left.buffer + cost l.right.pc l.right.buffer

      Step-total : {l l' : Link tok} → Step tok pipes l l' → Inv l → 1 + total l' ≤ total l
      Step-total (left_moves mv) v =
          omega (arith, Move-cost from_right of_right r_fits mv v.leftwards)
      Step-total (right_moves mv) v =
          omega (arith, Move-cost from_left of_left l_fits mv v.rightwards)

      Runs-Inv :
          {n : ℕ} {l : Link tok} → Runs tok pipes (opened tok from_left from_right) n l → Inv l
      Runs-Inv start = opened-Inv
      Runs-Inv (next run step) = Step-Inv step (Runs-Inv run)

      Runs-total :
          {n : ℕ} {l : Link tok}
          → Runs tok pipes (opened tok from_left from_right) n l
          → n + total l ≤ 6 + length from_left + length from_right
      Runs-total start = omega arith
      Runs-total (next run step) = omega (arith, Runs-total run, Step-total step (Runs-Inv run))

      -- When the start messages of both sides are values that fit the pipes, of which a write takes
      -- what there is room for and a read gets all, the two sides meet, however their steps are
      -- interleaved: after any number of steps, either each side has the other's value, or one of
      -- them can make a step, and there are never more steps than six and the bytes of the two
      -- messages.
      pub sides_meet :
          {n : ℕ} {l : Link tok}
          → Runs tok pipes (opened tok from_left from_right) n l
          → (n ≤ 6 + length from_left + length from_right)
            × (Met l ⊎ ((l' : Link tok) × Step tok pipes l l'))
      sides_meet {n} {l} run = (omega (arith, Runs-total run), progress l (Runs-Inv run))
