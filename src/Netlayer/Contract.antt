-- ===== src/Netlayer/Contract.antt =====
-- src/netlayer.rs: the trait `Netlayer` as an interface, the stream that it provides, and what it
-- promises of the sessions that it hands out. What the network does in one call is an argument of
-- it.
use rexa.Common.{
  ℕ, refl, ◌⊎◌, inl, inr, Result, err, ◌≡◌, Option, none, some, List, [], ◌∷◌, All, ok,
}
use rexa.Locator.{NodeLocator}
use rexa.Session.{Node, Session}
use rexa.Handshake.Signed.{Authentic}
use rexa.Handshake.{Keys}

-- A call panics where the code unwraps what is not there.
pub data Reply (node : Node) (Error : Type 0) : Type 0 where
  connected : Session node → Reply node Error
  failed : Error → Reply node Error
  panics : Reply node Error

pub record Netlayer (node : Node) : Type 1 where
  pub State : Type 0
  pub Error : Type 0
  pub Dialled : Type 0
  pub Arrived : Type 0
  -- `none` while the call still waits.
  pub connect : Dialled → State → NodeLocator → Option (Reply node Error × State)
  pub accept : Arrived → State → Option (Reply node Error × State)
  -- The readers of the streams that the network gives in a call.
  pub dialled_readers : Dialled → NodeLocator → List node.Reader
  pub arrived_readers : Arrived → List node.Reader
  -- `none` where the code panics.
  pub locators : State → Option (List NodeLocator)

module _ {node : Node} (net : Netlayer node) where
  open net use {State, Error, Dialled, Arrived, connect, accept, dialled_readers, arrived_readers}

  pub data Call : Type 0 where
    connects : Dialled → NodeLocator → Call
    accepts : Arrived → Call

  abbrev pub call : Call → State → Option (Reply node Error × State)
  call (connects dialled locator) st = connect dialled st locator
  call (accepts arrived) st = accept arrived st

  abbrev pub call_readers : Call → List node.Reader
  call_readers (connects dialled locator) = dialled_readers dialled locator
  call_readers (accepts arrived) = arrived_readers arrived

  abbrev pub next_reply :
      Option (Reply node Error × State)
      → (State → List (Reply node Error))
      → List (Reply node Error)
  next_reply none rest = []
  next_reply (some (reply, st)) rest = reply ∷ rest st

  -- What a list of calls, one after the other, is answered; a call that still waits is the last
  -- one.
  unfoldable pub replies : List Call → State → List (Reply node Error)
  replies [] st = []
  replies (c ∷ calls) st = next_reply (call c st) (replies calls)

  -- `stream`: it accepts for each item, and does not end at an error.
  unfoldable pub stream : List Arrived → State → List (Reply node Error)
  stream [] st = []
  stream (a ∷ arrived) st = next_reply (accept a st) (stream arrived)

-- The reader of a stream, if it is opened.
abbrev pub readers_of : {E R W : Type 0} → Result E (R × W) → List R
readers_of (err e) = []
readers_of (ok halves) = halves.0 ∷ []

abbrev pub readers_if : {E R W : Type 0} → Option (Result E (R × W)) → List R
readers_if none = []
readers_if (some got) = readers_of got

-- One of a list.
abbrev pub OneOf : {A : Type 0} → A → List A → Type 0
OneOf a [] = ⊥
OneOf a (x ∷ xs) = (a ≡ x) ⊎ OneOf a xs

pub All-OneOf :
    {A : Type 0} (P : A → Type 0) (xs : List A) → ((a : A) → OneOf a xs → P a) → All P xs
All-OneOf P [] all = tt
All-OneOf P (x ∷ xs) all = (all x (inl refl), All-OneOf P xs (λ a m. all a (inr m)))

-- One of the lists that belong to the items of a list has it.
abbrev pub OneOfAll : {A B : Type 0} → (B → List A) → A → List B → Type 0
OneOfAll of a [] = ⊥
OneOfAll of a (x ∷ xs) = OneOf a (of x) ⊎ OneOfAll of a xs

pub All-OneOfAll :
    {A B : Type 0} (of : B → List A) (P : A → Type 0) (xs : List B)
    → ((a : A) → OneOfAll of a xs → P a)
    → All (λ x. All P (of x)) xs
All-OneOfAll of P [] all = tt
All-OneOfAll of P (x ∷ xs) all =
    (All-OneOf P (of x) (λ a m. all a (inl m)), All-OneOfAll of P xs (λ a m. all a (inr m)))

-- `Came` holds of the readers of the streams that the network has given.
module _ {node : Node} (keys : Keys node) (Came : node.Reader → Type 0) where
  -- From one of these readers a start message of this version was read, in which the session's key
  -- signs the session's locator.
  pub record Introduced (s : Session node) : Type 0 where
    pub fuel : ℕ
    pub reader : node.Reader
    pub came : Came reader
    pub seen : Authentic node keys fuel reader s

  abbrev pub Fair : {Error : Type 0} → Reply node Error → Type 0
  Fair (connected s) = Introduced s
  Fair (failed e) = Unit
  Fair panics = Unit

  -- An answer that is fair leaves a state that is valid.
  abbrev pub Keeps :
      {Error State : Type 0} → (State → Type 0) → Option (Reply node Error × State) → Type 0
  Keeps Valid none = Unit
  Keeps Valid (some (reply, st)) = Fair reply × Valid st

  -- What a netlayer promises, for an invariant of its state.
  pub record Contract (net : Netlayer node) (Valid : net.State → Type 0) : Type 0 where
    pub connect-Keeps :
        (dialled : net.Dialled) (st : net.State) (locator : NodeLocator)
        → All Came (net.dialled_readers dialled locator)
        → Valid st
        → Keeps Valid (net.connect dialled st locator)
    pub accept-Keeps :
        (arrived : net.Arrived) (st : net.State)
        → All Came (net.arrived_readers arrived)
        → Valid st
        → Keeps Valid (net.accept arrived st)

  module _ (net : Netlayer node) (Valid : net.State → Type 0) (contract : Contract net Valid) where
    open contract use {connect-Keeps, accept-Keeps}

    call-Keeps :
        (c : Call net) (st : net.State)
        → All Came (call_readers net c)
        → Valid st
        → Keeps Valid (call net c st)
    call-Keeps (connects dialled locator) st m v = connect-Keeps dialled st locator m v
    call-Keeps (accepts arrived) st m v = accept-Keeps arrived st m v

    next-Fair :
        (got : Option (Reply node net.Error × net.State))
        (rest : net.State → List (Reply node net.Error))
        → Keeps Valid got
        → ((st : net.State) → Valid st → All Fair (rest st))
        → All Fair (next_reply net got rest)
    next-Fair none rest k all = tt
    next-Fair (some (reply, st)) rest (fair, v) all = (fair, all st v)

    -- Every session that a netlayer which keeps the contract hands out, in whatever calls, is
    -- introduced.
    pub replies-Fair :
        (calls : List (Call net)) (st : net.State)
        → All (λ c. All Came (call_readers net c)) calls
        → Valid st
        → All Fair (replies net calls st)
    unfolding replies
    replies-Fair [] st m v = tt
    replies-Fair (c ∷ calls) st (m, ms) v =
        next-Fair (call net c st) (replies net calls) (call-Keeps c st m v)
          (λ st' v'. replies-Fair calls st' ms v')

    -- So is every session of its stream.
    pub stream-Fair :
        (arrived : List net.Arrived) (st : net.State)
        → All (λ a. All Came (net.arrived_readers a)) arrived
        → Valid st
        → All Fair (stream net arrived st)
    unfolding stream
    stream-Fair [] st m v = tt
    stream-Fair (a ∷ arrived) st (m, ms) v =
        next-Fair (net.accept a st) (stream net arrived) (accept-Keeps a st m v)
          (λ st' v'. stream-Fair arrived st' ms v')
