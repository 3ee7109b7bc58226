-- ===== src/Netlayer/Mock/Pipes/Fit.antt =====
-- lib/rexa-netlayer-mock/src/lib.rs: start messages that fit the pipes.
use mathlib.Core.List.{append-nil}
use rexa.Common.{
  ℕ, ◌≤◌, ◌≡◌, refl, sym, ap, subst, ◌∙◌, Bytes, [], ◌∷◌, ◌++◌, length, length-append, ok, arith,
  inl, inr,
}
use rexa.Reader.{Tokenizer}
use rexa.Netlayer.Mock.Pipes.{
  capacity, Pipes, PipesLaws, PipesTakeAll, Pc, Move, sending, receiving, ended, writes, flushes,
  fills, takes, fails, spins,
}

module _ (tok : Tokenizer) where
  open tok use {Tree, tokenize, is_incomplete}

  -- The bytes of a value, at least one, that the pipe has room for.
  pub record Fits (msg : Bytes) (t : Tree) : Type 0 where
    pub first : ℕ
    pub others : Bytes
    pub nonempty : msg ≡ first ∷ others
    pub room : length msg ≤ capacity
    pub whole : tokenize msg ≡ ok (t, [])

  abbrev pub Sent : Pc tok → Type 0
  Sent (sending rest) = rest ≡ []
  Sent _ = Unit

  abbrev pub Waits : Pc tok → Type 0
  Waits (ended res) = ⊥
  Waits _ = Unit

  -- How far a message is on its way from a side at `p` through the pipe to a side at `q`.
  pub data Way (msg : Bytes) (t : Tree) (p : Pc tok) (pipe : Bytes) (q : Pc tok) (buffer : Bytes)
      : Type 0 where
    unsent : p ≡ sending msg → pipe ≡ [] → buffer ≡ [] → Waits q → Way msg t p pipe q buffer
    in_transit : Sent p → pipe ≡ msg → buffer ≡ [] → Waits q → Way msg t p pipe q buffer
    buffered : Sent p → pipe ≡ [] → buffer ≡ msg → q ≡ receiving → Way msg t p pipe q buffer
    arrived : Sent p → pipe ≡ [] → buffer ≡ [] → q ≡ ended (ok t) → Way msg t p pipe q buffer

  module _ (pipes : Pipes) (laws : PipesLaws pipes) (greedy : PipesTakeAll pipes) where
    -- Once its message is written a side writes no more.
    sent_stays :
        {incoming outgoing buffer incoming' outgoing' buffer' : Bytes} {p p' : Pc tok}
        → Move tok pipes incoming outgoing buffer p incoming' outgoing' buffer' p'
        → Sent p
        → Sent p' × (outgoing' ≡ outgoing)
    sent_stays (writes b front e taken) s = cc
    sent_stays flushes s = (tt, refl)
    sent_stays (fills b got left e i) s = (tt, refl)
    sent_stays (takes b bytes u rest e k) s = (tt, refl)
    sent_stays (fails b bytes x e k n) s = (tt, refl)
    sent_stays (spins b bytes x e k n) s = (tt, refl)

    module _ (msg : Bytes) (t : Tree) (fits : Fits msg t) where
      sending_inj : (rest : Bytes) → ◌≡◌ {A = Pc tok} (sending rest) (sending msg) → rest ≡ msg
      sending_inj rest e = cc

      sending_own : {own rest : Bytes} → ◌≡◌ {A = Pc tok} (sending rest) (sending own) → rest ≡ own
      sending_own e = cc

      no_length : (xs : Bytes) → length xs ≡ 0 → xs ≡ []
      no_length [] h = refl
      no_length (x ∷ xs) h = absurd (omega arith)

      all_written :
          {rest : Bytes} (b : ℕ) (front rest' outgoing : Bytes)
          → rest ≡ b ∷ (front ++ rest')
          → rest ≡ msg
          → outgoing ≡ []
          → rest' ≡ []
          → outgoing ++ b ∷ front ≡ msg
      all_written b front rest' outgoing e m o done =
          (λ i. o i ++ b ∷ front)
          ∙ ap (λ bs. b ∷ bs) (sym (append-nil front))
          ∙ (λ i. b ∷ (front ++ sym done i))
          ∙ sym e
          ∙ m

      -- The first write takes the whole message.
      first_write :
          {incoming outgoing buffer incoming' outgoing' buffer' : Bytes} {p p' : Pc tok}
          → Move tok pipes incoming outgoing buffer p incoming' outgoing' buffer' p'
          → p ≡ sending msg
          → outgoing ≡ []
          → Sent p' × (outgoing' ≡ msg)
      first_write {outgoing = outgoing} (writes b front {rest} {rest'} e taken) p o =
          elim (greedy.greedy outgoing (b ∷ front) rest' taken) [
            | inl done ↦ (done, all_written b front rest' outgoing e (sending_inj rest p) o done)
            | inr full ↦
                let done = no_length rest' (
                  omega (
                    arith,
                    fits.room,
                    ap length e,
                    ap length (sending_inj rest p),
                    ap length o,
                    length-append {0} front rest',
                  )) in
                (done, all_written b front rest' outgoing e (sending_inj rest p) o done)
          ]
      first_write flushes p o = cc (fits.nonempty)
      first_write (fills b got left e i) p o = cc
      first_write (takes b bytes u rest e k) p o = cc
      first_write (fails b bytes x e k n) p o = cc
      first_write (spins b bytes x e k n) p o = cc

      -- The sender's step.
      pub sends-Way :
          {incoming outgoing buffer incoming' outgoing' buffer' held : Bytes} {p p' q : Pc tok}
          → Move tok pipes incoming outgoing buffer p incoming' outgoing' buffer' p'
          → Way msg t p outgoing q held
          → Way msg t p' outgoing' q held
      sends-Way mv (unsent p o h w) = let (s, all) = first_write mv p o in in_transit s all h w
      sends-Way mv (in_transit s o h w) =
          let (s', same) = sent_stays mv s in in_transit s' (same ∙ o) h w
      sends-Way mv (buffered s o h w) =
          let (s', same) = sent_stays mv s in buffered s' (same ∙ o) h w
      sends-Way mv (arrived s o h w) = let (s', same) = sent_stays mv s in arrived s' (same ∙ o) h w

      -- The receiver's step.
      pub receives-Way :
          {incoming outgoing buffer incoming' outgoing' buffer' : Bytes} {p q q' : Pc tok}
          → Move tok pipes incoming outgoing buffer q incoming' outgoing' buffer' q'
          → Way msg t p incoming q buffer
          → Way msg t p incoming' q' buffer'
      receives-Way (writes b front e taken) (unsent s o h w) = unsent s o h tt
      receives-Way (writes b front e taken) (in_transit s o h w) = in_transit s o h tt
      receives-Way (writes b front e taken) (buffered s o h w) = cc
      receives-Way (writes b front e taken) (arrived s o h w) = cc
      receives-Way flushes (unsent s o h w) = unsent s o h tt
      receives-Way flushes (in_transit s o h w) = in_transit s o h tt
      receives-Way flushes (buffered s o h w) = cc
      receives-Way flushes (arrived s o h w) = cc
      receives-Way (fills b got left e i) (unsent s o h w) = cc (laws.in_order _ _ _ i)
      receives-Way {incoming = incoming} (fills b got left e i) (in_transit s o h w) =
          let none_left = greedy.empties incoming (b ∷ got) left i in
          buffered s none_left
            (sym (append-nil (b ∷ got))
              ∙ ap (λ bs. (b ∷ got) ++ bs) (sym none_left)
              ∙ laws.in_order incoming (b ∷ got) left i
              ∙ o)
            refl
      receives-Way (fills b got left e i) (buffered s o h w) = cc
      receives-Way (fills b got left e i) (arrived s o h w) = cc
      receives-Way (takes b bytes u rest e k) (unsent s o h w) = cc
      receives-Way (takes b bytes u rest e k) (in_transit s o h w) = cc
      receives-Way (takes b bytes u rest e k) (buffered s o h w) =
          arrived s o (cc fits.whole) (cc fits.whole)
      receives-Way (takes b bytes u rest e k) (arrived s o h w) = cc
      receives-Way (fails b bytes x e k n) (unsent s o h w) = cc
      receives-Way (fails b bytes x e k n) (in_transit s o h w) = cc
      receives-Way (fails b bytes x e k n) (buffered s o h w) = cc (fits.whole)
      receives-Way (fails b bytes x e k n) (arrived s o h w) = cc
      receives-Way (spins b bytes x e k n) way = way

      -- A side that has the message has ended with it, can go on, or waits for a message that the
      -- other has not begun to send.
      pub data Turn (p q : Pc tok) (incoming outgoing buffer : Bytes) : Type 0 where
        has_it : q ≡ ended (ok t) → Turn p q incoming outgoing buffer
        goes_on :
            {incoming' outgoing' buffer' : Bytes} {q' : Pc tok}
            → Move tok pipes incoming outgoing buffer q incoming' outgoing' buffer' q'
            → Turn p q incoming outgoing buffer
        waits_for : p ≡ sending msg → q ≡ receiving → Turn p q incoming outgoing buffer

      -- `own` is the message of the side itself, on its way to the other.
      pub turn :
          {p : Pc tok} {incoming outgoing buffer held own : Bytes} {u : Tree} (q : Pc tok)
          → Fits own u
          → Way msg t p incoming q buffer
          → Way own u q outgoing p held
          → Turn p q incoming outgoing buffer
      turn (sending []) f way out = goes_on flushes
      turn (sending (b ∷ bs)) f way (unsent p o h w) = goes_on (
          writes b bs (ap (λ xs. b ∷ xs) (sym (append-nil bs))) (
            subst (λ held. pipes.Accepts held (b ∷ bs) []) (sym o)
              (greedy.accepts (b ∷ bs) (omega (arith, f.room, ap length (sending_own p))))))
      turn (sending (b ∷ bs)) f way (in_transit p o h w) = cc
      turn (sending (b ∷ bs)) f way (buffered p o h w) = cc
      turn (sending (b ∷ bs)) f way (arrived p o h w) = cc
      turn receiving f (unsent p o h w) out = waits_for p refl
      turn receiving f (in_transit p o h w) out = goes_on (
          fills fits.first fits.others [] h (
            subst (λ held. pipes.Yields held (fits.first ∷ fits.others) [])
              (sym (o ∙ fits.nonempty))
              (greedy.yields fits.first fits.others
                (omega (arith, fits.room, ap length fits.nonempty)))))
      turn receiving f (buffered p o h w) out =
          goes_on
            (takes fits.first fits.others t [] (h ∙ fits.nonempty) (ap tokenize h ∙ fits.whole))
      turn receiving f (arrived p o h w) out = cc
      turn (ended r) f (unsent p o h w) out = absurd w
      turn (ended r) f (in_transit p o h w) out = absurd w
      turn (ended r) f (buffered p o h w) out = cc
      turn (ended r) f (arrived p o h w) out = has_it w
