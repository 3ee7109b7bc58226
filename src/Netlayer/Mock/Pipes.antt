-- ===== src/Netlayer/Mock/Pipes.antt =====
-- lib/rexa-netlayer-mock/src/lib.rs: the two sides of a session that starts over the pipes of
-- `accept`. Both sides call `and_connect`: each writes its start message and then reads the
-- other's. The pipes of tokio, behind its `BufReader`, are a parameter.
pub mod Fit
pub mod Meet
pub mod Long
pub mod Examples
use rexa.Common.{
  ℕ, ◌+◌, ◌≤◌, ◌≡◌, true, false, Bytes, List, [], ◌∷◌, ◌++◌, length, Result, ok, err, ◌⊎◌,
}
use rexa.Reader.{Tokenizer}

-- The argument of `tokio::io::duplex`.
abbrev pub capacity : ℕ
capacity = 1024

-- What a pipe can do: of a write it takes `front` and not `rest`, when it holds `held`; and to an
-- empty buffer it gives `got`, of what it holds, and keeps `left`.
pub record Pipes : Type 1 where
  pub Accepts : (held front rest : Bytes) → Type 0
  pub Yields : (held got left : Bytes) → Type 0

-- A pipe holds no more than its capacity, and what is read is the front of what it holds.
pub record PipesLaws (pipes : Pipes) : Type 0 where
  pub room :
      (held front rest : Bytes)
      → pipes.Accepts held front rest
      → length held + length front ≤ capacity
  pub in_order : (held got left : Bytes) → pipes.Yields held got left → got ++ left ≡ held

-- A write takes what there is room for, and the buffer of a reader has room for all of a pipe.
pub record PipesTakeAll (pipes : Pipes) : Type 0 where
  pub greedy :
      (held front rest : Bytes)
      → pipes.Accepts held front rest
      → (rest ≡ []) ⊎ (length held + length front ≡ capacity)
  pub accepts : (bytes : Bytes) → length bytes ≤ capacity → pipes.Accepts [] bytes []
  pub empties : (held got left : Bytes) → pipes.Yields held got left → left ≡ []
  pub yields :
      (b : ℕ) (bytes : Bytes)
      → length (b ∷ bytes) ≤ capacity
      → pipes.Yields (b ∷ bytes) (b ∷ bytes) []

module _ (tok : Tokenizer) where
  open tok use {Tree, LexError, tokenize, is_incomplete}

  -- Where a side stands in `and_connect`: in `write_all`, of which `rest` is left, in
  -- `consume_syrup`, or behind it.
  pub data Pc : Type 0 where
    sending : (rest : Bytes) → Pc
    receiving : Pc
    ended : Result LexError Tree → Pc

  -- A side, with what its `BufReader` holds.
  pub record Side : Type 0 where
    pub pc : Pc
    pub buffer : Bytes

  pub record Link : Type 0 where
    pub left : Side
    pub right : Side
    pub to_left : Bytes
    pub to_right : Bytes

  -- Both sides before their first write.
  abbrev pub opened : Bytes → Bytes → Link
  opened from_left from_right = record {
    left = record { pc = sending from_left; buffer = [] };
    right = record { pc = sending from_right; buffer = [] };
    to_left = [];
    to_right = [];
  }

  module _ (pipes : Pipes) where
    -- One step of one side, with the pipe that it reads and the pipe that it writes: from
    -- `incoming`, `outgoing`, `buffer` and its place to those after it.
    pub data Move (incoming outgoing buffer : Bytes)
        : Pc → Bytes → Bytes → Bytes → Pc → Type 0 where
      writes :
          (b : ℕ) (front : Bytes) {rest rest' : Bytes}
          → rest ≡ b ∷ (front ++ rest')
          → pipes.Accepts outgoing (b ∷ front) rest'
          → Move incoming outgoing buffer
              (sending rest)
              incoming
              (outgoing ++ b ∷ front)
              buffer
              (sending rest')
      flushes : Move incoming outgoing buffer (sending []) incoming outgoing buffer receiving
      -- An empty buffer takes what the pipe gives, which is not nothing.
      fills :
          (b : ℕ) (got left : Bytes)
          → buffer ≡ []
          → pipes.Yields incoming (b ∷ got) left
          → Move incoming outgoing buffer receiving left outgoing (b ∷ got) receiving
      takes :
          (b : ℕ) (bytes : Bytes) (t : Tree) (rest : Bytes)
          → buffer ≡ b ∷ bytes
          → tokenize buffer ≡ ok (t, rest)
          → Move incoming outgoing buffer receiving incoming outgoing rest (ended (ok t))
      fails :
          (b : ℕ) (bytes : Bytes) (e : LexError)
          → buffer ≡ b ∷ bytes
          → tokenize buffer ≡ err e
          → is_incomplete e ≡ false
          → Move incoming outgoing buffer receiving incoming outgoing buffer (ended (err e))
      -- The loop of `consume_syrup` goes round.
      spins :
          (b : ℕ) (bytes : Bytes) (e : LexError)
          → buffer ≡ b ∷ bytes
          → tokenize buffer ≡ err e
          → is_incomplete e ≡ true
          → Move incoming outgoing buffer receiving incoming outgoing buffer receiving

    pub data Step (l : Link) : Link → Type 0 where
      left_moves :
          {incoming outgoing buffer : Bytes} {pc : Pc}
          → Move l.to_left l.to_right l.left.buffer l.left.pc incoming outgoing buffer pc
          → Step l (record {
            left = record { pc = pc; buffer = buffer };
            right = l.right;
            to_left = incoming;
            to_right = outgoing;
          })
      right_moves :
          {incoming outgoing buffer : Bytes} {pc : Pc}
          → Move l.to_right l.to_left l.right.buffer l.right.pc incoming outgoing buffer pc
          → Step l (record {
            left = l.left;
            right = record { pc = pc; buffer = buffer };
            to_left = outgoing;
            to_right = incoming;
          })

    -- `Runs n l l'`: from `l` to `l'` in `n` steps.
    pub data Runs (l : Link) : ℕ → Link → Type 0 where
      start : Runs l 0 l
      next : {n : ℕ} {l' l'' : Link} → Runs l n l' → Step l' l'' → Runs l (1 + n) l''
