-- ===== src/Netlayer/Tasks.antt =====
-- lib/rexa-netlayer-datastream/src/lib.rs: `connect` and `accept` of a netlayer that several tasks
-- share. A call can be interrupted at each `await`, and dropped there. The manager's lock is held
-- for reading only at the look for a session, and for writing from before `init_session` to the end
-- of the start: the builder borrows the manager, and its guard lives to the end of the statement.
pub mod Turns
pub mod Serial
pub mod Blocked
pub mod Twice
pub mod Introduced
use rexa.Common.{
  ℕ, ◌≡◌, Bool, true, false, Option, none, some, List, [], ◌∷◌, ◌++◌, Result, ok, err,
}
use rexa.Locator.{NodeLocator}
use rexa.Session.{Node, Session}
use rexa.Handshake.{Keys, CapTpSessionBuilder, Started, get, init_session, and_accept, and_connect}
use rexa.Netlayer.{
  DataStreamNetlayer, Answer, Error, connected, failed, panics, listener_failed, stream_failed,
  locators, pop, start_with, of_started,
}

-- Which of the two is called.
pub data Role : Type 0 where
  connects : NodeLocator → Role
  accepts : Role

module _ (node : Node) (keys : Keys node) (Listener Stream : Type 0) where
  abbrev pub Net : Type 0
  Net = DataStreamNetlayer node keys Listener Stream

  abbrev pub Halves : Type 0
  Halves = node.Reader × node.Writer

  pub record Shared : Type 0 where
    pub net : Net
    -- Whether a task holds the manager's lock for writing.
    pub locked : Bool

  -- Where a call stands: before its first `await`, in the stream's `connect`, before the lock, with
  -- the lock in the start of a session with its own locator, or at its end.
  pub data Pc : Type 0 where
    called : Pc
    opening : Pc
    waiting : Halves → Pc
    starting : NodeLocator → CapTpSessionBuilder node → Pc
    returned : Answer node keys Listener Stream → Pc
    dropped : Pc

  pub record Task : Type 0 where
    pub role : Role
    pub pc : Pc

  abbrev pub call : Role → Task
  call role = record { role = role; pc = called }

  abbrev pub start : Role → ℕ → CapTpSessionBuilder node → NodeLocator → Started node keys
  start (connects locator) = and_connect node keys
  start accepts = and_accept node keys

  -- A call that waits for something else than the end of a start.
  abbrev pub waits : Pc → Bool
  waits called = true
  waits opening = true
  waits (waiting halves) = true
  waits _ = false

  -- How the lock is given back: at the end of a start, with the call, the rounds of its reading
  -- loop, its key, its stream and its answer, or when the call is dropped.
  pub data Ending : Type 0 where
    ended : Role → ℕ → node.SigningKey → Halves → Answer node keys Listener Stream → Ending
    cut_off : Ending

  -- One step of one call, with the start whose end it is, if it is one.
  pub data Move (s : Shared) : Role → Pc → Option Ending → Shared → Pc → Type 0 where
    finds :
        (locator : NodeLocator) (session : Session node)
        → s.locked ≡ false
        → get node s.net.manager locator.designator ≡ some session
        → Move s (connects locator) called none s (returned (connected session))
    misses :
        (locator : NodeLocator)
        → s.locked ≡ false
        → get node s.net.manager locator.designator ≡ none
        → Move s (connects locator) called none s opening
    opens :
        (locator : NodeLocator) (halves : Halves)
        → Move s (connects locator) opening none s (waiting halves)
    open_fails :
        (locator : NodeLocator) (e : Stream)
        → Move s (connects locator) opening none s (returned (failed (stream_failed e)))
    arrives : (halves : Halves) → Move s accepts called none s (waiting halves)
    arrive_fails :
        (e : Listener) → Move s accepts called none s (returned (failed (listener_failed e)))
    locks :
        (role : Role) (key : node.SigningKey) (reader : node.Reader) (writer : node.Writer)
        (own : NodeLocator)
        → s.locked ≡ false
        → pop node keys Listener Stream (locators node keys Listener Stream s.net) ≡ some own
        → Move s role
            (waiting (reader, writer))
            none
            (record s { locked = true })
            (starting own (init_session node key s.net.manager reader writer))
    -- The lock is free again after the panic.
    no_locator :
        (role : Role) (halves : Halves)
        → s.locked ≡ false
        → pop node keys Listener Stream (locators node keys Listener Stream s.net) ≡ none
        → Move s role (waiting halves) none s (returned panics)
    ends :
        (role : Role) (fuel : ℕ) (own : NodeLocator) (b : CapTpSessionBuilder node)
        (answer : Answer node keys Listener Stream) (net : Net)
        → of_started node keys Listener Stream s.net (start role fuel b own) ≡ some (answer, net)
        → Move s role
            (starting own b)
            (some (ended role fuel b.signing_key (b.reader, b.writer) answer))
            (record { net = net; locked = false })
            (returned answer)
    -- The caller drops the future.
    drops : (role : Role) (pc : Pc) → waits pc ≡ true → Move s role pc none s dropped
    drops_start :
        (role : Role) (own : NodeLocator) (b : CapTpSessionBuilder node)
        → Move s role (starting own b) (some cut_off) (record s { locked = false }) dropped

  -- A step of one of the calls.
  pub data Turn (s : Shared) : List Task → Option Ending → Shared → List Task → Type 0 where
    here :
        {t : Task} {ts : List Task} {e : Option Ending} {s' : Shared} {pc : Pc}
        → Move s t.role t.pc e s' pc
        → Turn s (t ∷ ts) e s' (record t { pc = pc } ∷ ts)
    there :
        {t : Task} {ts ts' : List Task} {e : Option Ending} {s' : Shared}
        → Turn s ts e s' ts'
        → Turn s (t ∷ ts) e s' (t ∷ ts')

  abbrev pub with_ending : Option Ending → List Ending → List Ending
  with_ending none es = es
  with_ending (some e) es = e ∷ es

  -- The states that calls lead to, in whatever order, with the starts that have ended, the last one
  -- first.
  pub data Reach (s : Shared) (ts : List Task) : List Ending → Shared → List Task → Type 0 where
    now : Reach s ts [] s ts
    turns :
        {es : List Ending} {e : Option Ending} {s' s'' : Shared} {ts' ts'' : List Task}
        → Reach s ts es s' ts'
        → Turn s' ts' e s'' ts''
        → Reach s ts (with_ending e es) s'' ts''
    calls :
        {es : List Ending} {s' : Shared} {ts' : List Task}
        → Reach s ts es s' ts'
        → (role : Role) → Reach s ts es s' (call role ∷ ts')

  -- A netlayer that no task is using.
  abbrev pub at_rest : Net → Shared
  at_rest net = record { net = net; locked = false }
