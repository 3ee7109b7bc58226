-- ===== src/Netlayer/Cache.antt =====
-- lib/rexa-netlayer-datastream/src/lib.rs: a `connect` for a peer whose session the
-- manager has.
use rexa.Common.{
  ℕ, ◌≡◌, refl, sym, ◌∙◌, ap, subst, Option, none, some, arith, Result, ok, err, Option-cases,
  Result-cases, inl, inr,
}
use rexa.Locator.{NodeLocator}
use rexa.Session.{Node, Session}
use rexa.Handshake.{Keys, CapTpSessionBuilder, Started, get, init_session, and_connect, and_accept}
use rexa.Handshake.Registered.{Found, and_connect-Found, and_accept-Found}
use rexa.Netlayer.{
  DataStreamNetlayer, Answer, connected, failed, panics, connect, accept, of_started, start_with,
  start_at, pop, locators,
}

module _ (node : Node) (keys : Keys node) (Listener Stream : Type 0) where
  abbrev Net : Type 0
  Net = DataStreamNetlayer node keys Listener Stream

  -- When an answer is a session, the manager finds it under its peer's designator.
  abbrev pub Kept : Option (Answer node keys Listener Stream × Net) → Type 0
  Kept none = Unit
  Kept (some (failed e, net)) = Unit
  Kept (some (panics, net)) = Unit
  Kept (some (connected s, net)) = get node net.manager s.remote_locator.designator ≡ some s

  of_started-Kept :
      (net : Net) (started : Started node keys)
      → Found node keys started
      → Kept (of_started node keys Listener Stream net started)
  of_started-Kept net none found = tt
  of_started-Kept net (some (err e, b)) found = tt
  of_started-Kept net (some (ok s, b)) found = found

  start_at-Kept :
      (start : CapTpSessionBuilder node → NodeLocator → Started node keys) (key : node.SigningKey)
      (net : Net) (halves : node.Reader × node.Writer) (own : Option NodeLocator)
      → ((b : CapTpSessionBuilder node) (own : NodeLocator) → Found node keys (start b own))
      → Kept (start_at node keys Listener Stream start key net halves own)
  start_at-Kept start key net halves none all = tt
  start_at-Kept start key net (reader, writer) (some own) all =
      let b = init_session node key net.manager reader writer in
      of_started-Kept net (start b own) (all b own)

  accept-Kept :
      (fuel : ℕ) (key : node.SigningKey) (accepted : Result Listener (node.Reader × node.Writer))
      (net : Net)
      → Kept (accept node keys Listener Stream fuel key accepted net)
  unfolding accept start_with
  accept-Kept fuel key (err e) net = tt
  accept-Kept fuel key (ok halves) net =
      start_at-Kept (and_accept node keys fuel) key net halves
        (pop node keys Listener Stream (locators node keys Listener Stream net))
        (and_accept-Found node keys fuel)

  -- A session that was accepted is the one that the next `connect` to its peer's locator returns,
  -- with no stream opened.
  connect-accept :
      (fuel more : ℕ) (key other : node.SigningKey)
      (accepted : Result Listener (node.Reader × node.Writer))
      (open_stream : NodeLocator → Result Stream (node.Reader × node.Writer)) (net net' : Net)
      (s : Session node)
      → accept node keys Listener Stream fuel key accepted net ≡ some (connected s, net')
      → connect node keys Listener Stream more other open_stream net' s.remote_locator
        ≡ some (connected s, net')
  unfolding accept connect
  connect-accept fuel more key other accepted open_stream net net' s h =
      let found : get node net'.manager s.remote_locator.designator ≡ some s =
        subst Kept h (accept-Kept fuel key accepted net) in
      rw (connect, found) refl

  in_manager :
      (fuel : ℕ) (key : node.SigningKey)
      (open_stream : NodeLocator → Result Stream (node.Reader × node.Writer)) (net net' : Net)
      (loc : NodeLocator) (s : Session node)
      → s.remote_locator.designator ≡ loc.designator
      → connect node keys Listener Stream fuel key open_stream net loc ≡ some (connected s, net')
      → get node net'.manager loc.designator ≡ some s
  unfolding connect start_with
  in_manager fuel key open_stream net net' loc s same h =
      elim (Option-cases (get node net.manager loc.designator)) [
        | inr (s0, e) ↦ ground arith
        | inl e ↦ elim (Result-cases (open_stream loc)) [
          | inr (x, e') ↦ ground arith
          | inl (halves, e') ↦
              let own = pop node keys Listener Stream (locators node keys Listener Stream net) in
              let made : start_at node keys Listener Stream (and_connect node keys fuel) key net
                    halves own
                  ≡ some (connected s, net') =
                ground arith in
              let kept =
                start_at-Kept (and_connect node keys fuel) key net halves own
                  (and_connect-Found node keys fuel) in
              ap (λ d. get node net'.manager d) (sym same) ∙ subst Kept made kept
        ]
      ]

  -- When `connect` has returned a session whose peer has the designator that was asked for, and the
  -- next call of the netlayer is a `connect` to that locator, this one returns the same session, with
  -- no stream opened.
  pub connect_twice :
      (fuel more : ℕ) (key other : node.SigningKey)
      (open_stream open_later : NodeLocator → Result Stream (node.Reader × node.Writer))
      (net net' : Net) (loc : NodeLocator) (s : Session node)
      → s.remote_locator.designator ≡ loc.designator
      → connect node keys Listener Stream fuel key open_stream net loc ≡ some (connected s, net')
      → connect node keys Listener Stream more other open_later net' loc ≡ some (connected s, net')
  unfolding connect
  connect_twice fuel more key other open_stream open_later net net' loc s same h =
      let found = in_manager fuel key open_stream net net' loc s same h in rw (connect, found) refl
