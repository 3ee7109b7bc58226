-- ===== src/Netlayer/Tasks/Introduced.antt =====
-- `connect` and `accept` of lib/rexa-netlayer-datastream/src/lib.rs, called by several tasks: the
-- sessions that the calls return.
use rexa.Common.{◌∷◌, none, some, sym, subst, Option, List, [], All}
use rexa.Locator.{NodeLocator}
use rexa.Session.{Node}
use rexa.Handshake.{Keys, CapTpSessionBuilder, get}
use rexa.Netlayer.{new}
use rexa.Netlayer.Contract.{Fair, Keeps, OneOfAll, All-OneOfAll}
use rexa.Netlayer.DataStream.{of_started-Keeps}
use rexa.Netlayer.Sessions.{Known, Sound, and_accept-Sound, and_connect-Sound, lookup-Introduced}
use rexa.Netlayer.Tasks.{
  Net, Shared, Role, connects, accepts, Pc, Task, Ending, Move, Turn, Reach, at_rest, start,
  returned, finds, misses, opens, open_fails, arrives, arrive_fails, locks, no_locator, ends, drops,
  drops_start, ended, cut_off, with_ending, here, there, now, turns, calls,
}
use rexa.Netlayer.Tasks.Turns.{Borrows, one_start_at_a_time}

module _ (node : Node) (keys : Keys node) (Listener Stream : Type 0) where
  -- The reader of the stream of a start that ends.
  abbrev pub ending_readers : Ending node keys Listener Stream → List node.Reader
  ending_readers (ended role fuel key halves answer) = halves.0 ∷ []
  ending_readers cut_off = []

  module _ (Came : node.Reader → Type 0) where
    -- A call that has returned has returned no session but one that is introduced.
    abbrev pub Answered : Pc node keys Listener Stream → Type 0
    Answered (returned answer) = Fair keys Came answer
    Answered _ = Unit

    abbrev Valid : Net node keys Listener Stream → Type 0
    Valid net = Known node keys Came net.manager

    abbrev Starts : Ending node keys Listener Stream → Type 0
    Starts e = All Came (ending_readers e)

    abbrev StartsIf : Option (Ending node keys Listener Stream) → Type 0
    StartsIf none = Unit
    StartsIf (some e) = Starts e

    split_endings :
        (e : Option (Ending node keys Listener Stream))
        (es : List (Ending node keys Listener Stream))
        → All Starts (with_ending node keys Listener Stream e es)
        → StartsIf e × All Starts es
    split_endings none es m = (tt, m)
    split_endings (some e) es m = m

    start-Sound :
        (role : Role) (fuel : _) (b : CapTpSessionBuilder node) (own : NodeLocator)
        → Came b.reader
        → Known node keys Came b.manager
        → Sound node keys Came (start node keys Listener Stream role fuel b own)
    start-Sound (connects locator) fuel b own m known =
        and_connect-Sound node keys Came fuel b own m known
    start-Sound accepts fuel b own m known = and_accept-Sound node keys Came fuel b own m known

    Move-Answered :
        {s s' : Shared node keys Listener Stream} {role : Role}
        {e : Option (Ending node keys Listener Stream)} {pc pc' : Pc node keys Listener Stream}
        → Move node keys Listener Stream s role pc e s' pc'
        → Borrows node keys Listener Stream s.net pc
        → Valid s.net
        → StartsIf e
        → Answered pc' × Valid s'.net
    unfolding get
    Move-Answered {s} (finds loc x l h) b v m =
        (lookup-Introduced node keys Came loc.designator s.net.manager.sessions x v h, v)
    Move-Answered (misses loc l h) b v m = (tt, v)
    Move-Answered (opens loc halves) b v m = (tt, v)
    Move-Answered (open_fails loc e) b v m = (tt, v)
    Move-Answered (arrives halves) b v m = (tt, v)
    Move-Answered (arrive_fails e) b v m = (tt, v)
    Move-Answered (locks role key r w own l h) b v m = (tt, v)
    Move-Answered (no_locator role halves l h) b v m = (tt, v)
    Move-Answered {s} (ends role fuel own b answer net h) (same, at) v m =
        subst (λ got. Keeps keys Came Valid got) h
          (of_started-Keeps node keys Listener Stream Came s.net
            (start node keys Listener Stream role fuel b own)
            (start-Sound role fuel b own m.0 (subst (λ m. Known node keys Came m) (sym same) v)))
    Move-Answered (drops role pc h) b v m = (tt, v)
    Move-Answered (drops_start role own b) x v m = (tt, v)

    Turn-Answered :
        {s s' : Shared node keys Listener Stream} {ts ts' : List (Task node keys Listener Stream)}
        {e : Option (Ending node keys Listener Stream)}
        → Turn node keys Listener Stream s ts e s' ts'
        → All (λ t. Borrows node keys Listener Stream s.net t.pc) ts
        → Valid s.net
        → StartsIf e
        → All (λ t. Answered t.pc) ts
        → All (λ t. Answered t.pc) ts' × Valid s'.net
    Turn-Answered (here move) (one, all) v m (_, answered) =
        let (a, v') = Move-Answered move one v m in ((a, answered), v')
    Turn-Answered (there turn) (one, all) v m (a, answered) =
        let (answered', v') = Turn-Answered turn all v m answered in ((a, answered'), v')

    reached :
        (listeners : List NodeLocator) {es : List (Ending node keys Listener Stream)}
        {s : Shared node keys Listener Stream} {ts : List (Task node keys Listener Stream)}
        → Reach node keys Listener Stream
            (at_rest node keys Listener Stream (new node keys Listener Stream listeners))
            []
            es
            s
            ts
        → All Starts es
        → All (λ t. Answered t.pc) ts × Valid s.net
    unfolding new
    reached listeners now m = (tt, tt)
    reached listeners (turns {es} {e} run turn) ms =
        let (m, rest) = split_endings e es ms in
        let (answered, v) = reached listeners run rest in
        Turn-Answered turn
          (one_start_at_a_time node keys Listener Stream (new node keys Listener Stream listeners)
            run).borrowed
          v m answered
    reached listeners (calls run role) ms =
        let (answered, v) = reached listeners run ms in ((tt, answered), v)

  -- Calls of several tasks on a new data stream netlayer, in whatever order they go on and are
  -- dropped, return no session but one that is introduced: from the stream of a start that has
  -- ended, a start message of this version was read, in which the session's key signs the session's
  -- locator.
  pub tasks_introduced :
      (listeners : List NodeLocator) {es : List (Ending node keys Listener Stream)}
      {s : Shared node keys Listener Stream} {ts : List (Task node keys Listener Stream)}
      → Reach node keys Listener Stream
          (at_rest node keys Listener Stream (new node keys Listener Stream listeners))
          []
          es
          s
          ts
      → All (λ t. Answered (λ r. OneOfAll ending_readers r es) t.pc) ts
  tasks_introduced listeners {es} run =
      (reached _ listeners run (All-OneOfAll ending_readers _ es (λ r m. m))).0
