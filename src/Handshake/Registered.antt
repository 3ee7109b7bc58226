-- ===== src/Handshake/Registered.antt =====
-- src/captp/session/builder.rs and manager.rs: a session that has started is in the manager.
use rexa.Common.{ℕ, ◌≡◌, refl, Option, none, some, Bytes, Result, ok, err, bytes_eq, same_refl}
use rexa.Locator.{NodeLocator}
use rexa.Session.{Node, new_session}
use rexa.Handshake.{
  Keys, CapTpSessionBuilder, InitError, Started, get, finalize_session, finish, next, send_start,
  start_bytes, recv_start_session, await, and_accept, and_connect,
}

module _ (node : Node) (keys : Keys node) where
  -- If a session has started, the manager finds it under the designator that the peer has signed.
  abbrev pub Found : Started node keys → Type 0
  Found none = Unit
  Found (some (err e, b)) = Unit
  Found (some (ok s, b)) = get node b.manager s.remote_locator.designator ≡ some s

  abbrev finished : node.VerifyingKey × NodeLocator → CapTpSessionBuilder node → Started node keys
  finished remote b = some (finish node keys remote b)

  finish-Found :
      (remote : node.VerifyingKey × NodeLocator) (b : CapTpSessionBuilder node)
      → Found (some (finish node keys remote b))
  unfolding finish finalize_session get new_session
  finish-Found (k, loc) b = rw (same_refl {K = Bytes} loc.designator) refl

  next-Found :
      {A : Type 0} (sent : Result (InitError node keys) A × CapTpSessionBuilder node)
      (f : A → CapTpSessionBuilder node → Started node keys)
      → ((a : A) (b : CapTpSessionBuilder node) → Found (f a b))
      → Found (next node keys sent f)
  next-Found (err e, b) f all = tt
  next-Found (ok a, b) f all = all a b

  await-Found :
      {A : Type 0} (got : Option (Result (InitError node keys) A × CapTpSessionBuilder node))
      (f : A → CapTpSessionBuilder node → Started node keys)
      → ((a : A) (b : CapTpSessionBuilder node) → Found (f a b))
      → Found (await node keys got f)
  await-Found none f all = tt
  await-Found (some got) f all = next-Found got f all

  pub and_connect-Found :
      (fuel : ℕ) (b : CapTpSessionBuilder node) (loc : NodeLocator)
      → Found (and_connect node keys fuel b loc)
  unfolding and_connect
  and_connect-Found fuel b loc =
      next-Found {A = Unit {0}} (send_start node keys (start_bytes node keys b.signing_key loc) b)
        (λ _ b'. await node keys (recv_start_session node keys fuel b') finished)
        (λ _ b'. await-Found (recv_start_session node keys fuel b') finished finish-Found)

  pub and_accept-Found :
      (fuel : ℕ) (b : CapTpSessionBuilder node) (loc : NodeLocator)
      → Found (and_accept node keys fuel b loc)
  unfolding and_accept
  and_accept-Found fuel b loc =
      let own = start_bytes node keys b.signing_key loc in
      await-Found (recv_start_session node keys fuel b)
        (λ remote b'. next node keys (send_start node keys own b') (λ _. finished remote))
        (λ remote b'.
          next-Found {A = Unit {0}} (send_start node keys own b') (λ _. finished remote)
            (λ _. finish-Found remote))
