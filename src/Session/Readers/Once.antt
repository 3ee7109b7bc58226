-- ===== src/Session/Readers/Once.antt =====
-- `recv_msg` of src/captp/session/internal.rs, called by several tasks: which call gets what.
use mathlib.Core.List.{append_assoc, Perm, perm_middle, perm_append_singleton}
use mathlib.Core.List.Perm
use rexa.Common.{
  ◌≡◌, refl, sym, ap, subst, ◌∙◌, Option, none, some, List, [], ◌∷◌, ◌++◌, ok, err, Bool, true,
  false, ℕ, ◌+◌, ◌≤◌, All, ◌⊎◌, inl, inr, arith, map,
}
use rexa.Reader.{consume_syrup}
use rexa.Session.{Node}
use rexa.Session.Readers.{
  Shared, Pc, Move, Turn, Reach, Value, Read, with_read, after_read, received, heard, failed,
  reading, stops_locally, checks_locally, stops, checks, locks, reads, hears, here, there, now,
  turns, calls, shuts,
}

module _ (node : Node) where
  open node use {Tree, Reader}

  -- The reads one after the other, each on the reader that the one before it has left.
  abbrev pub Serial : Reader → List (Read node) → Reader → Type 0
  Serial r [] r' = r ≡ r'
  Serial r ((fuel, res) ∷ rest) r' =
      (between : Reader) × (consume_syrup node.tok node.str fuel r ≡ some (res, between))
      × Serial between rest r'

  abbrev of_read : Option (Read node) → List (Read node)
  of_read none = []
  of_read (some got) = got ∷ []

  abbrev pub value_of : Read node → Value node
  value_of (fuel, res) = res

  abbrev result : Option (Read node) → List (Value node)
  result got = map value_of (of_read got)

  abbrev got : Pc node → List (Value node)
  got (received t) = ok t ∷ []
  got (heard t) = ok t ∷ []
  got (failed e) = err e ∷ []
  got _ = []

  -- What the calls have got.
  abbrev pub all_got : List (Pc node) → List (Value node)
  all_got [] = []
  all_got (pc ∷ pcs) = got pc ++ all_got pcs

  -- How many calls have the reader.
  abbrev holds : Pc node → ℕ
  holds (reading r) = 1
  holds _ = 0

  abbrev holders : List (Pc node) → ℕ
  holders [] = 0
  holders (pc ∷ pcs) = holds pc + holders pcs

  abbrev bit : Bool → ℕ
  bit true = 1
  bit false = 0

  -- The reader that a call has is the session's.
  abbrev Has : Reader → Pc node → Type 0
  Has r (reading r') = r' ≡ r
  Has r _ = Unit

  bit_bound : (b : Bool) → bit b ≤ 1
  bit_bound true = omega arith
  bit_bound false = omega arith

  got-after_read : (res : Value node) → got (after_read node res) ≡ res ∷ []
  got-after_read (ok t) = refl
  got-after_read (err e) = refl

  holds-after_read : (res : Value node) → holds (after_read node res) ≡ 0
  holds-after_read (ok t) = refl
  holds-after_read (err e) = refl

  Has-after_read : (r : Reader) (res : Value node) → Has r (after_read node res)
  Has-after_read r (ok t) = tt
  Has-after_read r (err e) = tt

  holds_bound : (pc : Pc node) (n : ℕ) → holds pc + n ≤ 1 → (holds pc ≡ 0) ⊎ (n ≡ 0)
  holds_bound (reading r) n le = inr (omega (arith, le))
  holds_bound Pc.called n le = inl refl
  holds_bound Pc.checked_locally n le = inl refl
  holds_bound Pc.waiting n le = inl refl
  holds_bound (received t) n le = inl refl
  holds_bound (heard t) n le = inl refl
  holds_bound Pc.refused_locally n le = inl refl
  holds_bound (Pc.refused reason) n le = inl refl
  holds_bound (failed e) n le = inl refl

  idle_Has : (r : Reader) (pc : Pc node) → holds pc ≡ 0 → Has r pc
  idle_Has r (reading r') e = cc
  idle_Has r Pc.called e = tt
  idle_Has r Pc.checked_locally e = tt
  idle_Has r Pc.waiting e = tt
  idle_Has r (received t) e = tt
  idle_Has r (heard t) e = tt
  idle_Has r Pc.refused_locally e = tt
  idle_Has r (Pc.refused reason) e = tt
  idle_Has r (failed e') e = tt

  all_idle : (r : Reader) (pcs : List (Pc node)) → holders pcs ≡ 0 → All (Has r) pcs
  all_idle r [] e = tt
  all_idle r (pc ∷ pcs) e = (idle_Has r pc (omega (arith, e)), all_idle r pcs (omega (arith, e)))

  -- What a move does to the lock, to the reader and to what the call has.
  Move-holds :
      {s s' : Shared node} {r : Option (Read node)} {pc pc' : Pc node}
      → Move node s pc r s' pc'
      → holds pc ≤ bit s.locked
      → holds pc' + bit s.locked ≡ holds pc + bit s'.locked
  Move-holds (stops_locally h) le = omega arith
  Move-holds (checks_locally h) le = omega arith
  Move-holds (stops reason h) le = omega arith
  Move-holds (checks h) le = omega arith
  Move-holds {s} (locks h) le = ground (arith, h)
  Move-holds {s} (reads r r' fuel res h) le =
      omega (arith, le, bit_bound s.locked, holds-after_read res)
  Move-holds (hears t op h) le = omega arith

  Turn-holders :
      {s s' : Shared node} {r : Option (Read node)} {pcs pcs' : List (Pc node)}
      → Turn node s pcs r s' pcs'
      → holders pcs ≤ bit s.locked
      → holders pcs' + bit s.locked ≡ holders pcs + bit s'.locked
  Turn-holders (here move) le = omega (arith, le, Move-holds move (omega (arith, le)))
  Turn-holders (there turn) le = omega (arith, le, Turn-holders turn (omega (arith, le)))

  Move-reader :
      {s s' : Shared node} {r : Option (Read node)} {pc pc' : Pc node}
      → Move node s pc r s' pc'
      → Has s.reader pc
      → Serial s.reader (of_read r) s'.reader
        × Has s'.reader pc'
        × ((s'.reader ≡ s.reader) ⊎ (holds pc ≡ 1))
  Move-reader (stops_locally h) has = (refl, tt, inl refl)
  Move-reader (checks_locally h) has = (refl, tt, inl refl)
  Move-reader (stops reason h) has = (refl, tt, inl refl)
  Move-reader (checks h) has = (refl, tt, inl refl)
  Move-reader (locks h) has = (refl, refl, inl refl)
  Move-reader (reads r r' fuel res h) has = (
    (r', ap (λ x. consume_syrup node.tok node.str fuel x) (sym has) ∙ h, refl),
    Has-after_read r' res,
    inr refl,
  )
  Move-reader (hears t op h) has = (refl, tt, inl refl)

  same_Has : (r r' : Reader) (pc : Pc node) → (r' ≡ r) ⊎ (holds pc ≡ 0) → Has r pc → Has r' pc
  same_Has r r' pc (inl e) has = subst (λ x. Has x pc) (sym e) has
  same_Has r r' pc (inr e) has = idle_Has r' pc e

  all_Has :
      (r r' : Reader) (pcs : List (Pc node))
      → (r' ≡ r) ⊎ (holders pcs ≡ 0)
      → All (Has r) pcs
      → All (Has r') pcs
  all_Has r r' pcs (inl e) all = subst (λ x. All (Has x) pcs) (sym e) all
  all_Has r r' pcs (inr e) all = all_idle r' pcs e

  Turn-reader :
      {s s' : Shared node} {r : Option (Read node)} {pcs pcs' : List (Pc node)}
      → Turn node s pcs r s' pcs'
      → holders pcs ≤ 1
      → All (Has s.reader) pcs
      → Serial s.reader (of_read r) s'.reader
        × All (Has s'.reader) pcs'
        × ((s'.reader ≡ s.reader) ⊎ (holders pcs ≡ 1))
  Turn-reader {s} {s'} (here {pcs} move) le (has, all) =
      let (serial, has', moved) = Move-reader move has in
      elim moved [
        | inl e ↦ (serial, (has', all_Has s.reader s'.reader pcs (inl e) all), inl e)
        | inr e ↦ (
          serial,
          (has', all_Has s.reader s'.reader pcs (inr (omega (arith, le, e))) all),
          inr (omega (arith, le, e)),
        )
      ]
  Turn-reader {s} {s'} (there {pc} {pcs} turn) le (has, all) =
      let (serial, all', moved) = Turn-reader turn (omega (arith, le)) all in
      elim moved [
        | inl e ↦ (serial, (same_Has s.reader s'.reader pc (inl e) has, all'), inl e)
        | inr e ↦ (
          serial,
          (same_Has s.reader s'.reader pc (inr (omega (arith, le, e))) has, all'),
          inr (omega (arith, le, e)),
        )
      ]

  Move-got :
      {s s' : Shared node} {r : Option (Read node)} {pc pc' : Pc node}
      → Move node s pc r s' pc'
      → got pc' ≡ result r ++ got pc
  Move-got (stops_locally h) = refl
  Move-got (checks_locally h) = refl
  Move-got (stops reason h) = refl
  Move-got (checks h) = refl
  Move-got (locks h) = refl
  Move-got (reads r r' fuel res h) = got-after_read res
  Move-got (hears t op h) = refl

  past :
      (xs ys : List (Value node)) (r : Option (Read node))
      → Perm (xs ++ (result r ++ ys)) (result r ++ (xs ++ ys))
  past xs ys none = Perm.refl _
  past xs ys (some (fuel, res)) = perm_middle xs ys

  Turn-got :
      {s s' : Shared node} {r : Option (Read node)} {pcs pcs' : List (Pc node)}
      → Turn node s pcs r s' pcs'
      → Perm (all_got pcs') (result r ++ all_got pcs)
  Turn-got (here {pc} {pcs = pcs} {got = r} move) =
      subst (λ xs. Perm xs (result r ++ (got pc ++ all_got pcs)))
        (sym (
          ap (λ xs. xs ++ all_got pcs) (Move-got move)
          ∙ append_assoc (result r) (got pc) (all_got pcs)))
        (Perm.refl _)
  Turn-got (there {pc} {pcs} {got = r} turn) =
      Perm.trans (Perm.append_left (got pc) (Turn-got turn)) (past (got pc) (all_got pcs) r)

  -- The reads are those of one call at a time, and what each of them has given is with one call.
  pub record Shares (s : Shared node) (read : List (Read node)) (s' : Shared node)
      (pcs : List (Pc node)) : Type 0 where
    pub serial : Serial s.reader read s'.reader
    pub each_once : Perm (all_got pcs) (map value_of read)

  record Owned (s : Shared node) (read : List (Read node)) (s' : Shared node) (pcs : List (Pc node))
      : Type 0 where
    shares : Shares s read s' pcs
    one : holders pcs ≡ bit s'.locked
    has : All (Has s'.reader) pcs

  Serial-with_read :
      (read : List (Read node)) (got : Option (Read node)) (r r' r'' : Reader)
      → Serial r read r'
      → Serial r' (of_read got) r''
      → Serial r (with_read node read got) r''
  Serial-with_read [] none r r' r'' first e = first ∙ e
  Serial-with_read [] (some got) r r' r'' first more =
      subst (λ x. Serial x (got ∷ []) r'') (sym first) more
  Serial-with_read ((fuel, res) ∷ read) none r r' r'' (between, h, first) e =
      (between, h, Serial-with_read read none between r' r'' first e)
  Serial-with_read ((fuel, res) ∷ read) (some got) r r' r'' (between, h, first) more =
      (between, h, Serial-with_read read (some got) between r' r'' first more)

  map-snoc :
      (read : List (Read node)) (got : Read node)
      → map value_of (read ++ got ∷ []) ≡ map value_of read ++ value_of got ∷ []
  map-snoc [] got = refl
  map-snoc (x ∷ read) got = ap (λ xs. value_of x ∷ xs) (map-snoc read got)

  read_each :
      (read : List (Read node)) (xs : List (Value node)) (r : Option (Read node))
      → Perm xs (map value_of read)
      → Perm (result r ++ xs) (map value_of (with_read node read r))
  read_each read xs none p = p
  read_each read xs (some got) p =
      subst (λ ys. Perm (value_of got ∷ xs) ys) (sym (map-snoc read got))
        (Perm.trans (Perm.append_left (value_of got ∷ []) p)
          (Perm.symm (perm_append_singleton (value_of got) (map value_of read))))

  owned :
      {s s' : Shared node} {read : List (Read node)} {pcs : List (Pc node)}
      → s.locked ≡ false
      → Reach node s [] read s' pcs
      → Owned s read s' pcs
  owned {s} free now = record {
    shares = record { serial = refl; each_once = Perm.refl _ };
    one = ap bit (sym free);
    has = tt;
  }
  owned {s} free (turns {read} {got} {s'} {s''} run turn) =
      let before = owned free run in
      let le = bit_bound s'.locked in
      let (more, has', moved) = Turn-reader turn (omega (arith, before.one, le)) before.has in
      record {
        shares = record {
          serial = Serial-with_read read got _ _ _ before.shares.serial more;
          each_once = Perm.trans (Turn-got turn) (read_each read _ got before.shares.each_once);
        };
        one = omega (arith, before.one, Turn-holders turn (omega (arith, before.one)));
        has = has';
      }
  owned free (calls run) =
      let before = owned free run in
      record {
        shares = record { serial = before.shares.serial; each_once = before.shares.each_once };
        one = omega (arith, before.one);
        has = (tt, before.has);
      }
  owned free (shuts run) =
      let before = owned free run in
      record {
        shares = record { serial = before.shares.serial; each_once = before.shares.each_once };
        one = before.one;
        has = before.has;
      }

  -- Whatever calls of `recv_msg` are made on a session whose reader is not locked, and in whatever
  -- order they go on and the session is aborted, `consume_syrup` runs for one of them after the
  -- other, each time on the reader as the read before has left it; and what each read returns, a
  -- value or an error, is with one call and with no other.
  pub each_value_once :
      {s s' : Shared node} {read : List (Read node)} {pcs : List (Pc node)}
      → s.locked ≡ false
      → Reach node s [] read s' pcs
      → Shares s read s' pcs
  each_value_once free run = (owned free run).shares
