-- ===== src/Netlayer/Mock/Pipes/Long.antt =====
-- lib/rexa-netlayer-mock/src/lib.rs: a start message that is longer than the pipe.
use mathlib.Core.List.{append_assoc}
use rexa.Common.{
  ℕ, ◌≤◌, ◌<◌, ◌≡◌, ◌≢◌, refl, sym, ap, subst, ◌∙◌, true, Bytes, [], ◌∷◌, ◌++◌, length,
  length-append, Result, ok, err, arith,
}
use rexa.Reader.{Tokenizer}
use rexa.Netlayer.Mock.Pipes.{
  capacity, Pipes, PipesLaws, Pc, Link, Move, Step, Runs, opened, sending, receiving, ended, writes,
  flushes, fills, takes, fails, spins, left_moves, right_moves, start, next,
}
use rexa.Netlayer.Mock.Pipes.Fit.{Waits}

module _ (tok : Tokenizer) where
  open tok use {LexError, tokenize, is_incomplete}

  -- The bytes of a message of which the tokenizer reports each front but the whole as incomplete.
  pub record IsLong (msg : Bytes) : Type 0 where
    pub long : capacity < length msg
    pub fronts :
        (b : ℕ) (front : Bytes) (c : ℕ) (more : Bytes)
        → (b ∷ front) ++ c ∷ more ≡ msg
        → (e : LexError) × (tokenize (b ∷ front) ≡ err e) × (is_incomplete e ≡ true)

  module _ (pipes : Pipes) (laws : PipesLaws pipes) (msg : Bytes) (is : IsLong msg) where
    open is use {long, fronts}

    -- The message is in the pipe, as far as it is sent, or a front of it is in the buffer.
    data Stuck (p : Pc tok) (pipe : Bytes) (q : Pc tok) (buffer : Bytes) : Type 0 where
      begun :
          (rest : Bytes)
          → p ≡ sending rest
          → pipe ++ rest ≡ msg
          → length pipe ≤ capacity
          → buffer ≡ []
          → Waits tok q
          → Stuck p pipe q buffer
      split :
          (b : ℕ) (front : Bytes) (c : ℕ) (more : Bytes)
          → buffer ≡ b ∷ front
          → (b ∷ front) ++ c ∷ more ≡ msg
          → q ≡ receiving
          → Stuck p pipe q buffer

    sending_inj : {a c : Bytes} → ◌≡◌ {A = Pc tok} (sending a) (sending c) → a ≡ c
    sending_inj e = cc

    sends-Stuck :
        {incoming outgoing buffer incoming' outgoing' buffer' held : Bytes} {p p' q : Pc tok}
        → Move tok pipes incoming outgoing buffer p incoming' outgoing' buffer' p'
        → Stuck p outgoing q held
        → Stuck p' outgoing' q held
    sends-Stuck mv (split b front c more h e r) = split b front c more h e r
    sends-Stuck {outgoing = outgoing} (writes b front {rest} {rest'} e taken)
          (begun left p all le h w) =
        begun rest' refl
          (append_assoc outgoing (b ∷ front) rest'
            ∙ ap (λ bs. outgoing ++ bs) (sym e ∙ sending_inj p)
            ∙ all)
          (omega (
            arith,
            laws.room outgoing (b ∷ front) rest' taken,
            length-append {0} outgoing (b ∷ front),
          ))
          h w
    sends-Stuck {outgoing = outgoing} flushes (begun left p all le h w) = absurd (
        omega
          (arith, long, ap length all, ap length (sending_inj p), length-append {0} outgoing left))
    sends-Stuck (fills b got kept e i) (begun left p all le h w) = cc
    sends-Stuck (takes b bytes u rest e k) (begun left p all le h w) = cc
    sends-Stuck (fails b bytes x e k n) (begun left p all le h w) = cc
    sends-Stuck (spins b bytes x e k n) (begun left p all le h w) = cc

    -- The pipe holds a front of the message that is not the whole.
    front_of :
        (b : ℕ) (pipe rest : Bytes)
        → (b ∷ pipe) ++ rest ≡ msg
        → length (b ∷ pipe) ≤ capacity
        → (c : ℕ) × (more : Bytes) × ((b ∷ pipe) ++ c ∷ more ≡ msg)
    front_of b pipe [] all le =
        absurd (omega (arith, long, ap length all, length-append {0} pipe []))
    front_of b pipe (c ∷ more) all le = (c, more, all)

    receives-Stuck :
        {incoming outgoing buffer incoming' outgoing' buffer' : Bytes} {p q q' : Pc tok}
        → Move tok pipes incoming outgoing buffer q incoming' outgoing' buffer' q'
        → Stuck p incoming q buffer
        → Stuck p incoming' q' buffer'
    receives-Stuck (writes b front e taken) (begun rest p all le h w) = begun rest p all le h tt
    receives-Stuck flushes (begun rest p all le h w) = begun rest p all le h tt
    receives-Stuck {incoming = incoming} (fills b got left e i) (begun rest p all le h w) =
        let held = laws.in_order incoming (b ∷ got) left i in
        let (c, more, whole) =
          front_of b got (left ++ rest)
            (sym (append_assoc (b ∷ got) left rest) ∙ ap (λ bs. bs ++ rest) held ∙ all)
            (omega (arith, le, ap length held, length-append {0} got left)) in
        split b got c more refl whole refl
    receives-Stuck (takes b bytes u rest e k) (begun left p all le h w) = cc
    receives-Stuck (fails b bytes x e k n) (begun left p all le h w) = cc
    receives-Stuck (spins b bytes x e k n) (begun left p all le h w) = cc
    receives-Stuck (writes b front e taken) (split d ds c more h all r) = cc
    receives-Stuck flushes (split d ds c more h all r) = cc
    receives-Stuck (fills b got left e i) (split d ds c more h all r) = cc
    receives-Stuck (takes b bytes u rest e k) (split d ds c more h all r) =
        let (x, is_err, inc) = fronts d ds c more all in
        absurd (not_ok (sym k ∙ ap tokenize h ∙ is_err))
      where
        not_ok :
            {x : LexError} {v : tok.Tree × Bytes}
            → ◌≡◌ {A = Result LexError (tok.Tree × Bytes)} (ok v) (err x)
            → ⊥
        not_ok e = cc
    receives-Stuck (fails b bytes x e k n) (split d ds c more h all r) =
        let (y, is_err, inc) = fronts d ds c more all in cc
    receives-Stuck (spins b bytes x e k n) (split d ds c more h all r) =
        split d ds c more h all refl

    Step-Stuck :
        {l l' : Link tok}
        → Step tok pipes l l'
        → Stuck l.left.pc l.to_right l.right.pc l.right.buffer
        → Stuck l'.left.pc l'.to_right l'.right.pc l'.right.buffer
    Step-Stuck (left_moves mv) s = sends-Stuck mv s
    Step-Stuck (right_moves mv) s = receives-Stuck mv s

    Runs-Stuck :
        (other : Bytes) {n : ℕ} {l : Link tok}
        → Runs tok pipes (opened tok msg other) n l
        → Stuck l.left.pc l.to_right l.right.pc l.right.buffer
    Runs-Stuck other start = begun msg refl refl (omega arith) refl tt
    Runs-Stuck other (next run step) = Step-Stuck step (Runs-Stuck other run)

    Stuck-ended :
        {p q : Pc tok} {pipe buffer : Bytes} (res : Result LexError tok.Tree)
        → Stuck p pipe q buffer
        → q ≢ ended res
    Stuck-ended res (begun rest p all le h w) e = absurd (subst (Waits tok) e w)
    Stuck-ended res (split b front c more h all r) e = cc

    -- When a start message has more bytes than the pipe's capacity, and the tokenizer reports each
    -- front of it, but the empty and the whole, as incomplete, the other side never gets past its
    -- read: however the steps are interleaved, its `consume_syrup` returns neither a value nor an
    -- error.
    pub long_never_arrives :
        {n : ℕ} {l : Link tok} (other : Bytes) (res : Result LexError tok.Tree)
        → Runs tok pipes (opened tok msg other) n l
        → l.right.pc ≢ ended res
    long_never_arrives other res run = Stuck-ended res (Runs-Stuck other run)
