-- ===== src/Netlayer/Locks.antt =====
-- `connect` of one node and `accept` of another, of lib/rexa-netlayer-datastream/src/lib.rs, on the
-- two ends of a stream: each keeps its own manager's lock from before it sends its start message to
-- after it has received the other's. No call is dropped here, and nothing is lost on the streams.
pub mod Crossed
pub mod Own
pub mod Apart
pub mod Examples
use rexa.Common.{ℕ, ◌+◌, ◌≡◌, Bool, true, false, List, [], ◌∷◌, ◌++◌, nat_beq, if◌then◌else◌}

-- Where a call stands: before the lock, with it, with it behind its answer, or at its end. With the
-- lock, `connect` has sent its start message and waits for the other's; `accept` waits for one, and
-- then answers with its own. A call that has failed has given its lock back.
pub data Pc : Type 0 where
  waiting : Pc
  holding : Pc
  replied : Pc
  ended : Pc
  failed : Pc

-- What comes of a start message that is sent: `consume_syrup` gives it whole and it passes the checks,
-- it gives an error, or it goes round without an end, as on a part of a value.
pub data Heard : Type 0 where
  accepts : Heard
  refuses : Heard
  stays : Heard

-- A stream from the node whose `connect` opened it to the node whose `accept` took it. A node is
-- known by a number. `of_call` and `of_answer` are what comes of the start messages of `connect` and
-- of `accept`.
pub record Link : Type 0 where
  pub caller : ℕ
  pub callee : ℕ
  pub of_call : Heard
  pub of_answer : Heard
  pub connect : Pc
  pub accept : Pc

abbrev pub opened : ℕ → ℕ → Heard → Heard → Link
opened caller callee of_call of_answer = record {
  caller = caller;
  callee = callee;
  of_call = of_call;
  of_answer = of_answer;
  connect = waiting;
  accept = waiting;
}

abbrev pub holder : ℕ → ℕ → Pc → ℕ
holder node own holding = if nat_beq node own then 1 else 0
holder node own replied = if nat_beq node own then 1 else 0
holder node own _ = 0

abbrev pub link_holders : ℕ → Link → ℕ
link_holders node l = holder node l.caller l.connect + holder node l.callee l.accept

-- How many calls hold the lock of a node.
abbrev pub holders : ℕ → List Link → ℕ
holders node [] = 0
holders node (l ∷ ls) = link_holders node l + holders node ls

abbrev pub has_replied : Pc → Bool
has_replied replied = true
has_replied ended = true
has_replied _ = false

-- A step of a call on one of the links.
pub data Move (ls : List Link) : Link → Link → Type 0 where
  connect_locks :
      (l : Link)
      → l.connect ≡ waiting
      → holders l.caller ls ≡ 0
      → Move ls l (record l { connect = holding })
  accept_locks :
      (l : Link)
      → l.accept ≡ waiting
      → holders l.callee ls ≡ 0
      → Move ls l (record l { accept = holding })
  -- `and_accept` receives and sends, and later returns.
  answers :
      (l : Link)
      → l.connect ≡ holding
      → l.accept ≡ holding
      → l.of_call ≡ accepts
      → Move ls l (record l { accept = replied })
  -- It returns an error and closes the stream. `connect`, which then reads at the end of the stream,
  -- goes on with that.
  refuses_call :
      (l : Link)
      → l.connect ≡ holding
      → l.accept ≡ holding
      → l.of_call ≡ refuses
      → Move ls l (record l { accept = failed })
  returns : (l : Link) → l.accept ≡ replied → Move ls l (record l { accept = ended })
  -- `and_connect` receives and returns.
  finishes :
      (l : Link)
      → l.connect ≡ holding
      → has_replied l.accept ≡ true
      → l.of_answer ≡ accepts
      → Move ls l (record l { connect = ended })
  refuses_answer :
      (l : Link)
      → l.connect ≡ holding
      → has_replied l.accept ≡ true
      → l.of_answer ≡ refuses
      → Move ls l (record l { connect = failed })

pub data Step : List Link → List Link → Type 0 where
  step :
      (before : List Link) (l l' : Link) (behind : List Link)
      → Move (before ++ l ∷ behind) l l'
      → Step (before ++ l ∷ behind) (before ++ l' ∷ behind)

pub data Reach (ls : List Link) : List Link → Type 0 where
  now : Reach ls ls
  next : {ls' ls'' : List Link} → Reach ls ls' → Step ls' ls'' → Reach ls ls''
