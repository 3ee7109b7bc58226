-- ===== src/Session/Tasks/Whole.antt =====
-- `send_msg` of src/captp/session/internal.rs, called by several tasks: the messages in what is
-- written.
use mathlib.Core.List.{append_assoc, append-nil, Perm, perm_middle, perm_append_singleton}
use mathlib.Core.List.Perm
use rexa.Common.{
  ℕ, ◌+◌, ◌≤◌, ◌≡◌, refl, sym, ap, subst, ◌∙◌, Bool, true, false, Bytes, List, [], ◌∷◌, ◌++◌, ok,
  err, arith, All, inl, inr, ◌⊎◌,
}
use rexa.Session.{SendError}
use rexa.Session.Tasks.{
  Shared, fresh, Pc, Task, Move, Turn, Step, Reach, Sent, called, checked_locally, waiting, writing,
  returned, closed, refused_locally, checks_locally, refused, checks, locks, writes, unlocks, fails,
  shuts, here, there, turns, calls, hears, now, next,
}

abbrev pub flat : List Bytes → Bytes
flat [] = []
flat (piece ∷ pieces) = piece ++ flat pieces

flat-append : (ps qs : List Bytes) → flat (ps ++ qs) ≡ flat ps ++ flat qs
flat-append [] qs = refl
flat-append (p ∷ ps) qs =
    ap (λ bs. p ++ bs) (flat-append ps qs) ∙ sym (append_assoc p (flat ps) (flat qs))

module _ (IoError : Type 0) where
  abbrev is_writing : Pc IoError → ℕ
  is_writing (writing sent rest) = 1
  is_writing _ = 0

  abbrev held : Bool → ℕ
  held true = 1
  held false = 0

  -- How many tasks hold the writer.
  abbrev pub writers : List (Task IoError) → ℕ
  writers [] = 0
  writers (t ∷ ts) = is_writing t.pc + writers ts

  abbrev part : Pc IoError → Bytes
  part (writing sent rest) = sent
  part _ = []

  -- What the task that holds the writer has written of its message.
  abbrev pub begun : List (Task IoError) → Bytes
  begun [] = []
  begun (t ∷ ts) = part t.pc ++ begun ts

  abbrev piece : Pc IoError → List Bytes
  piece (returned sent res) = sent ∷ []
  piece (closed sent res) = sent ∷ []
  piece _ = []

  -- What each call that has returned has written.
  abbrev pub ended : List (Task IoError) → List Bytes
  ended [] = []
  ended (t ∷ ts) = piece t.pc ++ ended ts

  -- What a call with this result has written: all of its message if it returned `Ok`, a front of it
  -- if the writer has failed, and nothing if it was refused.
  abbrev pub Wrote : Bytes → Bytes → Sent IoError → Type 0
  Wrote msg sent (ok done) = sent ≡ msg
  Wrote msg sent (err (SendError.io_failed e)) = (rest : Bytes) × (sent ++ rest ≡ msg)
  Wrote msg sent (err e) = sent ≡ []

  abbrev Sound : Bytes → Pc IoError → Type 0
  Sound msg (writing sent rest) = sent ++ rest ≡ msg
  Sound msg (returned sent res) = Wrote msg sent res
  Sound msg (closed sent res) = Wrote msg sent res
  Sound msg _ = Unit

  abbrev pub IsSound : Task IoError → Type 0
  IsSound t = Sound t.msg t.pc

  Move-Sound :
      {msg : Bytes} {aborts : Bool} {s s' : Shared} {p p' : Pc IoError}
      → Move IoError msg aborts s p s' p'
      → Sound msg p
      → Sound msg p'
  Move-Sound (refused_locally h) w = refl
  Move-Sound (checks_locally h) w = tt
  Move-Sound (refused r h) w = refl
  Move-Sound (checks h) w = tt
  Move-Sound (locks h) w = refl
  Move-Sound (writes b front {sent} {rest} {rest'} h) w =
      append_assoc sent (b ∷ front) rest' ∙ ap (λ bs. sent ++ bs) (sym h) ∙ w
  Move-Sound (unlocks {sent}) w = sym (append-nil sent) ∙ w
  Move-Sound (fails e {sent} {rest}) w = (rest, w)
  Move-Sound (shuts h) w = w

  Turn-IsSound :
      {s s' : Shared} {ts ts' : List (Task IoError)}
      → Turn IoError s ts s' ts'
      → All IsSound ts
      → All IsSound ts'
  Turn-IsSound (here m) (w, ws) = (Move-Sound m w, ws)
  Turn-IsSound (there turn) (w, ws) = (w, Turn-IsSound turn ws)

  no_part : (p : Pc IoError) → is_writing p ≡ 0 → part p ≡ []
  no_part (writing sent rest) h = absurd (omega arith)
  no_part called h = refl
  no_part checked_locally h = refl
  no_part waiting h = refl
  no_part (returned sent res) h = refl
  no_part (closed sent res) h = refl

  none_begun : (ts : List (Task IoError)) → writers ts ≡ 0 → begun ts ≡ []
  none_begun [] h = refl
  none_begun (t ∷ ts) h = (λ i. no_part t.pc (omega arith) i ++ none_begun ts (omega arith) i)

  -- What a turn does: it writes more of the message that is begun, or ends a call.
  data Effect (s : Shared) (ts : List (Task IoError)) (s' : Shared) (ts' : List (Task IoError))
      : Type 0 where
    keeps :
        s'.written ≡ s.written → begun ts' ≡ begun ts → ended ts' ≡ ended ts → Effect s ts s' ts'
    grows :
        (front : Bytes)
        → s'.written ≡ s.written ++ front
        → begun ts' ≡ begun ts ++ front
        → ended ts' ≡ ended ts
        → Effect s ts s' ts'
    ends :
        (p : Bytes)
        → s'.written ≡ s.written
        → begun ts ≡ p ++ begun ts'
        → (p ≡ []) ⊎ (writers ts ≡ 1)
        → Perm (ended ts') (p ∷ ended ts)
        → Effect s ts s' ts'

  abbrev at : Bytes → Bool → Pc IoError → Task IoError
  at msg aborts pc = record { msg = msg; aborts = aborts; pc = pc }

  held-locked : (b : Bool) → b ≡ false → held b ≡ 0
  held-locked b h = ap held h

  held-le : (b : Bool) → held b ≤ 1
  held-le true = omega arith
  held-le false = omega arith

  -- While one task writes, the others have nothing begun.
  alone : (others n : ℕ) (b : Bool) → others + (1 + n) ≡ held b → (others ≡ 0) × (n ≡ 0)
  alone others n b h = (omega (arith, held-le b), omega (arith, held-le b))

  Move-Effect :
      {msg : Bytes} {aborts : Bool} {s s' : Shared} {p p' : Pc IoError} (others : ℕ)
      (ts : List (Task IoError))
      → Move IoError msg aborts s p s' p'
      → others + (is_writing p + writers ts) ≡ held s.locked
      → (others + (is_writing p' + writers ts) ≡ held s'.locked)
        × Effect s (at msg aborts p ∷ ts) s' (at msg aborts p' ∷ ts)
  Move-Effect others ts (refused_locally e) h = (h, ends [] refl refl (inl refl) (Perm.refl _))
  Move-Effect others ts (checks_locally e) h = (h, keeps refl refl refl)
  Move-Effect others ts (refused r e) h = (h, ends [] refl refl (inl refl) (Perm.refl _))
  Move-Effect others ts (checks e) h = (h, keeps refl refl refl)
  Move-Effect {s} others ts (locks e) h =
      (omega (arith, held-locked s.locked e), keeps refl refl refl)
  Move-Effect {s} others ts (writes b front {sent} {rest} {rest'} e) h =
      let nothing = none_begun ts (alone others (writers ts) s.locked h).1 in
      (
        h,
        grows (b ∷ front) refl
            (ap (λ bs. (sent ++ b ∷ front) ++ bs) nothing
              ∙ append-nil (sent ++ b ∷ front)
              ∙ ap (λ bs. bs ++ b ∷ front)
                  (sym (append-nil sent) ∙ ap (λ bs. sent ++ bs) (sym nothing)))
            refl,
      )
  Move-Effect {s} others ts (unlocks {sent}) h =
      let (first, last) = alone others (writers ts) s.locked h in
      (omega arith, ends sent refl refl (inr (omega arith)) (Perm.refl _))
  Move-Effect {s} others ts (fails e {sent} {rest}) h =
      let (first, last) = alone others (writers ts) s.locked h in
      (omega arith, ends sent refl refl (inr (omega arith)) (Perm.refl _))
  Move-Effect others ts (shuts e) h = (h, keeps refl refl refl)

  swap : (a p x : Bytes) → (p ≡ []) ⊎ (a ≡ []) → a ++ (p ++ x) ≡ p ++ (a ++ x)
  swap a p x (inl e) = rw e refl
  swap a p x (inr e) = rw e refl

  Turn-Effect :
      {s s' : Shared} {ts ts' : List (Task IoError)} (others : ℕ)
      → Turn IoError s ts s' ts'
      → others + writers ts ≡ held s.locked
      → (others + writers ts' ≡ held s'.locked) × Effect s ts s' ts'
  Turn-Effect others (here {t} {ts} m) h =
      Move-Effect {msg = t.msg} {aborts = t.aborts} others ts m h
  Turn-Effect {s} {s'} others (there {t} {ts} {ts'} turn) h =
      let (h', effect) = Turn-Effect (others + is_writing t.pc) turn (omega arith) in
      (omega arith, beside effect)
    where
      apart : (p : Bytes) → (p ≡ []) ⊎ (writers ts ≡ 1) → (p ≡ []) ⊎ (part t.pc ≡ [])
      apart p (inl e) = inl e
      apart p (inr e) = inr (no_part t.pc (omega (arith, held-le s.locked)))

      writer :
          {p : Bytes} → (p ≡ []) ⊎ (writers ts ≡ 1) → (p ≡ []) ⊎ (is_writing t.pc + writers ts ≡ 1)
      writer (inl e) = inl e
      writer (inr e) = inr (omega (arith, held-le s.locked))

      beside : Effect s ts s' ts' → Effect s (t ∷ ts) s' (t ∷ ts')
      beside (keeps w p q) = keeps w (ap (λ bs. part t.pc ++ bs) p) (ap (λ ps. piece t.pc ++ ps) q)
      beside (grows front w p q) =
          grows front w
            (ap (λ bs. part t.pc ++ bs) p ∙ sym (append_assoc (part t.pc) (begun ts) front))
            (ap (λ ps. piece t.pc ++ ps) q)
      beside (ends p w e c perm) =
          ends p w (ap (λ bs. part t.pc ++ bs) e ∙ swap (part t.pc) p (begun ts') (apart p c))
            (writer c)
            (Perm.trans (Perm.append_left (piece t.pc) perm) (perm_middle (piece t.pc) (ended ts)))

  -- What is written, as the pieces of the calls that have returned and the one that is begun.
  pub record Pieces (s : Shared) (ts : List (Task IoError)) : Type 0 where
    pub pieces : List Bytes
    pub content : s.written ≡ flat pieces ++ begun ts
    pub from_calls : Perm pieces (ended ts)
    pub one_writer : writers ts ≡ held s.locked
    pub sound : All IsSound ts

  Effect-Pieces :
      {s s' : Shared} {ts ts' : List (Task IoError)} (v : Pieces s ts)
      → Effect s ts s' ts'
      → writers ts' ≡ held s'.locked
      → All IsSound ts'
      → Pieces s' ts'
  Effect-Pieces v (keeps w p q) one sound = record {
    pieces = v.pieces;
    content = w ∙ v.content ∙ ap (λ bs. flat v.pieces ++ bs) (sym p);
    from_calls = subst (λ ps. Perm v.pieces ps) (sym q) v.from_calls;
    one_writer = one;
    sound = sound;
  }
  Effect-Pieces {ts = ts} v (grows front w p q) one sound = record {
    pieces = v.pieces;
    content =
        w
        ∙ ap (λ bs. bs ++ front) v.content
        ∙ append_assoc (flat v.pieces) (begun ts) front
        ∙ ap (λ bs. flat v.pieces ++ bs) (sym p);
    from_calls = subst (λ ps. Perm v.pieces ps) (sym q) v.from_calls;
    one_writer = one;
    sound = sound;
  }
  Effect-Pieces {ts' = ts'} v (ends p w e c perm) one sound = record {
    pieces = v.pieces ++ p ∷ [];
    content =
        w
        ∙ v.content
        ∙ ap (λ bs. flat v.pieces ++ bs) (e ∙ ap (λ bs. bs ++ begun ts') (sym (append-nil p)))
        ∙ sym (append_assoc (flat v.pieces) (p ++ []) (begun ts'))
        ∙ ap (λ bs. bs ++ begun ts') (sym (flat-append v.pieces (p ∷ [])));
    from_calls =
        Perm.trans (perm_append_singleton p v.pieces)
          (Perm.trans (Perm.cons p v.from_calls) (Perm.symm perm));
    one_writer = one;
    sound = sound;
  }

  Step-Pieces :
      {s s' : Shared} {ts ts' : List (Task IoError)}
      → Step IoError s ts s' ts'
      → Pieces s ts
      → Pieces s' ts'
  Step-Pieces (turns turn) v =
      let (one, effect) = Turn-Effect 0 turn (omega (arith, v.one_writer)) in
      Effect-Pieces v effect (omega (arith, one)) (Turn-IsSound turn v.sound)
  Step-Pieces (calls msg aborts) v = record {
    pieces = v.pieces;
    content = v.content;
    from_calls = v.from_calls;
    one_writer = omega (arith, v.one_writer);
    sound = (tt, v.sound);
  }
  Step-Pieces (hears reason) v = record {
    pieces = v.pieces;
    content = v.content;
    from_calls = v.from_calls;
    one_writer = v.one_writer;
    sound = v.sound;
  }

  -- However the tasks that call `send_msg` and `abort` on a new session are interleaved, and
  -- however little the writer takes at a time, what is written are the pieces of the calls that
  -- have returned, each in one stretch and in some order, and behind them the front of the message
  -- that the one task with the writer's lock has begun. A call that has returned `Ok` has written
  -- its message whole, one that was refused nothing, and one whose writer has failed a front of its
  -- message.
  pub messages_whole :
      {s : Shared} {ts : List (Task IoError)} → Reach IoError fresh [] s ts → Pieces s ts
  messages_whole now = record {
    pieces = [];
    content = refl;
    from_calls = Perm.refl [];
    one_writer = refl;
    sound = tt;
  }
  messages_whole (next run step) = Step-Pieces step (messages_whole run)
