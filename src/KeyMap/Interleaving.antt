-- ===== src/KeyMap/Interleaving.antt =====
-- The map under concurrent use: `reserve` and `finalize` are two steps, and the steps of any number
-- of tasks come in any order between them.
use rexa.Common.{
  ℕ, suc, ◌+◌, ◌≤◌, ◌<◌, ◌≡◌, refl, Bool, true, false, none, some, arith, nat_eq, nat_beq,
  if◌then◌else◌, Bool-cases, Option-cases, inl, inr, ◌≢◌, ◌∙◌,
}
use rexa.DashMap.{MapOps, MapLaws}
use rexa.KeyMap.{KeyMap, u64_mod, with_initial, reserve, finalize, push, remove, get, get_mut}

module _ {V : Type 0} (ops : MapOps ℕ V) where
  -- The map, and which reserved keys are not yet filled.
  pub record Shared : Type 0 where
    pub keys : KeyMap ops
    pub pending : ℕ → Bool

  abbrev pub mark : (ℕ → Bool) → ℕ → Bool → ℕ → Bool
  mark pending k b j = if nat_beq k j then b else pending j

  abbrev pub start : ℕ → Shared
  start initial = record { keys = with_initial ops initial; pending = λ _. false }

  abbrev pub after_reserve : Shared → Shared
  after_reserve s =
      let (r, m) = reserve ops s.keys in record { keys = m; pending = mark s.pending r.key true }

  abbrev pub after_finalize : Shared → ℕ → V → Shared
  after_finalize s k v = record {
    keys = (finalize ops (record { key = k }) v s.keys).1;
    pending = mark s.pending k false;
  }

  -- One step of one task. The number counts the keys handed out so far.
  pub data Step : ℕ → Shared → ℕ → Shared → Type 0 where
    reserves : (n : ℕ) (s : Shared) → Step n s (suc n) (after_reserve s)
    finalizes :
        (n k : ℕ) (v : V) (s : Shared) → s.pending k ≡ true → Step n s n (after_finalize s k v)
    pushes :
        (n : ℕ) (v : V) (s : Shared) → Step n s (suc n) (record s { keys = (push ops s.keys v).1 })
    removes : (n k : ℕ) (s : Shared) → Step n s n (record s { keys = (remove ops s.keys k).1 })
    writes :
        (n k : ℕ) (f : V → V) (s : Shared) → Step n s n (record s { keys = get_mut ops s.keys k f })

  -- `Reach i n s`: from the empty map with first key `i`, `n` keys were handed out on the way to
  -- `s`.
  pub data Reach (initial : ℕ) : ℕ → Shared → Type 0 where
    begin : Reach initial 0 (start initial)
    next : {n m : ℕ} {s t : Shared} → Reach initial n s → Step n s m t → Reach initial m t

  pub record Inv (initial n : ℕ) (s : Shared) : Type 0 where
    pub counter : s.keys.current_key ≡ initial + n
    pub stored : (k : ℕ) (v : V) → get ops s.keys k ≡ some v → (initial ≤ k) × (k < initial + n)
    pub awaited :
        (k : ℕ) → s.pending k ≡ true → (initial ≤ k) × (k < initial + n) × (get ops s.keys k ≡ none)

  module _ (laws : MapLaws ops) where
    start-Inv : (i : ℕ) → Inv i 0 (start i)
    unfolding with_initial get
    start-Inv i = record {
      counter = omega arith;
      stored = λ k v e. cc (laws.get-empty k);
      awaited = λ k e. cc;
    }

    -- Nothing is stored under the next key.
    pub counter_unstored :
        (i n : ℕ) (s : Shared) → Inv i n s → get ops s.keys s.keys.current_key ≡ none
    counter_unstored i n s v = elim (Option-cases (get ops s.keys s.keys.current_key)) [
      | inl e ↦ e
      | inr (x, e) ↦ absurd (omega (arith, v.counter, v.stored s.keys.current_key x e))
    ]

    reserves-Inv :
        (i n : ℕ) (s : Shared) → i + suc n < u64_mod → Inv i n s → Inv i (suc n) (after_reserve s)
    unfolding reserve get
    reserves-Inv i n s fits v = record {
      counter = omega (arith, v.counter);
      stored = λ k x e. omega (arith, v.stored k x e);
      awaited = λ k e. ground (arith, v.counter, v.awaited k, counter_unstored i n s v);
    }

    finalizes-Inv :
        (i n k : ℕ) (x : V) (s : Shared)
        → s.pending k ≡ true
        → Inv i n s
        → Inv i n (after_finalize s k x)
    unfolding finalize get
    finalizes-Inv i n k x s p v = record {
      counter = v.counter;
      stored = λ j y e. ground (arith, v.awaited k, v.stored j y, laws.get-insert s.keys.map k j x);
      awaited = λ j e. ground (arith, v.awaited j, laws.get-insert s.keys.map k j x);
    }

    pushes-Inv :
        (i n : ℕ) (x : V) (s : Shared)
        → i + suc n < u64_mod
        → Inv i n s
        → Inv i (suc n) (record s { keys = (push ops s.keys x).1 })
    unfolding push get
    pushes-Inv i n x s fits v = record {
      counter = omega (arith, v.counter);
      stored = λ j y e.
          ground
            (arith, v.counter, v.stored j y, laws.get-insert s.keys.map s.keys.current_key j x);
      awaited = λ j e.
          ground (arith, v.counter, v.awaited j, laws.get-insert s.keys.map s.keys.current_key j x);
    }

    removes-Inv :
        (i n k : ℕ) (s : Shared) → Inv i n s → Inv i n (record s { keys = (remove ops s.keys k).1 })
    unfolding remove get
    removes-Inv i n k s v = record {
      counter = v.counter;
      stored = λ j y e. ground (arith, v.stored j y, laws.get-remove s.keys.map k j);
      awaited = λ j e. ground (arith, v.awaited j, laws.get-remove s.keys.map k j);
    }

    writes-Inv :
        (i n k : ℕ) (f : V → V) (s : Shared)
        → Inv i n s
        → Inv i n (record s { keys = get_mut ops s.keys k f })
    unfolding get_mut get
    writes-Inv i n k f s v = elim (Option-cases (ops.get s.keys.map k)) [
      | inl e ↦ rw (e, get_mut) v
      | inr (x, e) ↦
          rw (e, get_mut)
            (record {
              counter = v.counter;
              stored = λ j y p.
                  ground (arith, v.stored j y, v.stored k x, laws.get-insert s.keys.map k j (f x));
              awaited = λ j p.
                  ground (arith, v.awaited j, v.awaited k, laws.get-insert s.keys.map k j (f x));
            })
    ]

    grows : {n m : ℕ} {s t : Shared} → Step n s m t → n ≤ m
    grows (reserves n s) = omega arith
    grows (finalizes n k v s p) = omega arith
    grows (pushes n v s) = omega arith
    grows (removes n k s) = omega arith
    grows (writes n k f s) = omega arith

    Step-Inv :
        (i : ℕ) {n m : ℕ} {s t : Shared} → Step n s m t → i + m < u64_mod → Inv i n s → Inv i m t
    Step-Inv i (reserves n s) fits v = reserves-Inv i n s fits v
    Step-Inv i (finalizes n k x s p) fits v = finalizes-Inv i n k x s p v
    Step-Inv i (pushes n x s) fits v = pushes-Inv i n x s fits v
    Step-Inv i (removes n k s) fits v = removes-Inv i n k s v
    Step-Inv i (writes n k f s) fits v = writes-Inv i n k f s v

    -- Whatever the order of the steps, as long as the counter has not wrapped: it stands at the
    -- first key plus the number of keys handed out, every stored or awaited key was handed out, and
    -- nothing is stored under an awaited key.
    pub reach-Inv : (i : ℕ) {n : ℕ} {s : Shared} → Reach i n s → i + n < u64_mod → Inv i n s
    reach-Inv i begin fits = start-Inv i
    reach-Inv i (next r st) fits = Step-Inv i st fits (reach-Inv i r (omega (arith, grows st)))

    -- After any interleaving of tasks that handed out `n` keys without a wrap of the counter,
    -- `reserve` and `push` both return the key `initial + n`, under which nothing is stored and
    -- which no other task holds reserved.
    pub next_key_fresh :
        (i : ℕ) {n : ℕ} {s : Shared} (v : V)
        → Reach i n s
        → i + n < u64_mod
        → ((reserve ops s.keys).0.key ≡ i + n)
          × ((push ops s.keys v).0 ≡ i + n)
          × (get ops s.keys (i + n) ≡ none)
          × (s.pending (i + n) ≡ false)
    unfolding reserve push get
    next_key_fresh i {n} {s} v r fits = (
      inv.counter,
      inv.counter,
      rw inv.counter at (counter_unstored i n s inv),
      elim (Bool-cases (s.pending (i + n))) [
        | inl e ↦ absurd (omega (arith, inv.awaited (i + n) e))
        | inr e ↦ e
      ],
    )
      where
        inv : Inv i n s
        inv = reach-Inv i r fits

    -- In the same states, filling a reserved key replaces nothing, makes the value readable under
    -- that key, and leaves what is read under every other key as it was.
    pub finalize_fills :
        (i k j : ℕ) {n : ℕ} {s : Shared} (v : V)
        → Reach i n s
        → i + n < u64_mod
        → s.pending k ≡ true
        → k ≢ j
        → let done = finalize ops (record { key = k }) v s.keys in
          (done.0 ≡ k)
          × ((ops.insert s.keys.map k v).0 ≡ none)
          × (get ops done.1 k ≡ some v)
          × (get ops done.1 j ≡ get ops s.keys j)
    unfolding finalize get
    finalize_fills i k j {n} {s} v r fits p h = (
      refl,
      laws.insert_old s.keys.map k v ∙ ((reach-Inv i r fits).awaited k p).2,
      ground (arith, laws.get-insert s.keys.map k k v),
      ground (arith, laws.get-insert s.keys.map k j v),
    )
