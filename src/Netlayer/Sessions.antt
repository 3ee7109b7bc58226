-- ===== src/Netlayer/Sessions.antt =====
-- lib/rexa-netlayer-datastream/src/lib.rs: the data stream netlayer as a `Netlayer`, and the
-- sessions that its manager may hold. The lemmas on the manager serve the other netlayers too.
use rexa.Common.{
  Bool, true, false, Bool-cases, ℕ, ◌≡◌, refl, Option, none, some, Bytes, bytes_beq, bytes_eq, List,
  [], ◌∷◌, All, Result, ok, err, subst, sym, arith, if◌then◌else◌, Option-cases, Result-cases, inl,
  inr,
}
use rexa.Reader.{consume_syrup}
use rexa.DashMap.Assoc.{lookup, without}
use rexa.Locator.{NodeLocator}
use rexa.Session.{Node, Session}
use rexa.Handshake.{
  Keys, CapTpSessionManager, CapTpSessionBuilder, Started, InitError, finalize_session, finish,
  and_accept, and_connect, send_start, start_bytes, recv_start_session, next, await,
}
use rexa.Handshake.Signed.{Authentic, accept-Authentic, connect-Authentic}
use rexa.Netlayer.Contract.{Introduced}

module _ (node : Node) (keys : Keys node) (Came : node.Reader → Type 0) where
  -- Every session of a manager is introduced.
  abbrev pub Known : CapTpSessionManager node → Type 0
  Known m = All (λ entry. Introduced keys Came entry.1) m.sessions

  introduced :
      (fuel : ℕ) (r : node.Reader) (s : Session node)
      → Came r
      → Authentic node keys fuel r s
      → Introduced keys Came s
  introduced fuel r s came seen = record { fuel = fuel; reader = r; came = came; seen = seen }

  pub lookup-Introduced :
      (d : Bytes) (sessions : List (Bytes × Session node)) (s : Session node)
      → All (λ entry. Introduced keys Came entry.1) sessions
      → lookup d sessions ≡ some s
      → Introduced keys Came s
  lookup-Introduced d [] s all h = cc
  lookup-Introduced d ((k, t) ∷ sessions) s (one, all) h = elim (Bool-cases (bytes_beq k d)) [
    | inl e ↦ let same : t ≡ s = ground arith in subst (λ x. Introduced keys Came x) same one
    | inr e ↦ lookup-Introduced d sessions s all (ground arith)
  ]

  All-if :
      (b : Bool) (xs ys : List (Bytes × Session node))
      → All (λ entry. Introduced keys Came entry.1) xs
      → All (λ entry. Introduced keys Came entry.1) ys
      → All (λ entry. Introduced keys Came entry.1) (if b then xs else ys)
  All-if true xs ys x y = x
  All-if false xs ys x y = y

  without-Known :
      (d : Bytes) (sessions : List (Bytes × Session node))
      → All (λ entry. Introduced keys Came entry.1) sessions
      → All (λ entry. Introduced keys Came entry.1) (without d sessions)
  without-Known d [] all = tt
  without-Known d ((k, t) ∷ sessions) (one, all) =
      let rest = without-Known d sessions all in All-if (bytes_beq k d) _ _ rest (one, rest)

  -- A start keeps the sessions that the manager had, and adds the one that it returns.
  abbrev pub StartKeeps : Started node keys → Type 0
  StartKeeps none = Unit
  StartKeeps (some (err e, b)) = Known b.manager
  StartKeeps (some (ok s, b)) = Introduced keys Came s → Known b.manager

  finish-StartKeeps :
      (remote : node.VerifyingKey × NodeLocator) (b : CapTpSessionBuilder node)
      → Known b.manager
      → StartKeeps (some (finish node keys remote b))
  unfolding finish finalize_session
  finish-StartKeeps (vk, loc) b known one =
      (one, without-Known loc.designator b.manager.sessions known)

  -- What a step of a start leaves of the manager.
  abbrev StepKeeps :
      {A : Type 0} → Option (Result (InitError node keys) A × CapTpSessionBuilder node) → Type 0
  StepKeeps none = Unit
  StepKeeps (some (res, b)) = Known b.manager

  next-StartKeeps :
      {A : Type 0} (sent : Result (InitError node keys) A × CapTpSessionBuilder node)
      (f : A → CapTpSessionBuilder node → Started node keys)
      → Known sent.1.manager
      → ((a : A) (b : CapTpSessionBuilder node) → Known b.manager → StartKeeps (f a b))
      → StartKeeps (next node keys sent f)
  next-StartKeeps (err e, b) f known all = known
  next-StartKeeps (ok a, b) f known all = all a b known

  await-StartKeeps :
      {A : Type 0} (got : Option (Result (InitError node keys) A × CapTpSessionBuilder node))
      (f : A → CapTpSessionBuilder node → Started node keys)
      → StepKeeps got
      → ((a : A) (b : CapTpSessionBuilder node) → Known b.manager → StartKeeps (f a b))
      → StartKeeps (await node keys got f)
  await-StartKeeps none f known all = tt
  await-StartKeeps (some got) f known all = next-StartKeeps got f known all

  recv-StepKeeps :
      (fuel : ℕ) (b : CapTpSessionBuilder node)
      → Known b.manager
      → StepKeeps (recv_start_session node keys fuel b)
  unfolding recv_start_session
  recv-StepKeeps fuel b known =
      elim (Option-cases (consume_syrup node.tok node.str fuel b.reader)) [
        | inl e ↦ rw (StepKeeps, e) tt
        | inr (got, e) ↦ rw (StepKeeps, e) known
      ]

  send_start_manager :
      (msg : Bytes) (b : CapTpSessionBuilder node)
      → (send_start node keys msg b).1.manager ≡ b.manager
  unfolding send_start
  send_start_manager msg b = elim (Result-cases (node.write_all b.writer msg).0) [
    | inl (u, e) ↦ rw (send_start, e) refl
    | inr (x, e) ↦ rw (send_start, e) refl
  ]

  and_accept-StartKeeps :
      (fuel : ℕ) (b : CapTpSessionBuilder node) (loc : NodeLocator)
      → Known b.manager
      → StartKeeps (and_accept node keys fuel b loc)
  unfolding and_accept
  and_accept-StartKeeps fuel b loc known =
      let own = start_bytes node keys b.signing_key loc in
      await-StartKeeps (recv_start_session node keys fuel b) _ (recv-StepKeeps fuel b known)
        (λ remote b' k.
          next-StartKeeps {A = Unit {0}} (send_start node keys own b') _
            (subst Known (sym (send_start_manager own b')) k)
            (λ _ b''. finish-StartKeeps remote b''))

  and_connect-StartKeeps :
      (fuel : ℕ) (b : CapTpSessionBuilder node) (loc : NodeLocator)
      → Known b.manager
      → StartKeeps (and_connect node keys fuel b loc)
  unfolding and_connect
  and_connect-StartKeeps fuel b loc known =
      let own = start_bytes node keys b.signing_key loc in
      next-StartKeeps {A = Unit {0}} (send_start node keys own b) _
        (subst Known (sym (send_start_manager own b)) known)
        (λ _ b' k.
          await-StartKeeps (recv_start_session node keys fuel b') _ (recv-StepKeeps fuel b' k)
            finish-StartKeeps)

  -- A start whose session, if there is one, is introduced, and is with the others of its manager.
  abbrev pub Sound : Started node keys → Type 0
  Sound none = Unit
  Sound (some (err e, b)) = Known b.manager
  Sound (some (ok s, b)) = Introduced keys Came s × Known b.manager

  sound :
      (started : Started node keys)
      → StartKeeps started
      → ((s : Session node) (b : CapTpSessionBuilder node)
          → started ≡ some (ok s, b)
          → Introduced keys Came s)
      → Sound started
  sound none keeps all = tt
  sound (some (err e, b)) keeps all = keeps
  sound (some (ok s, b)) keeps all = let i = all s b refl in (i, keeps i)

  pub and_accept-Sound :
      (fuel : ℕ) (b : CapTpSessionBuilder node) (loc : NodeLocator)
      → Came b.reader
      → Known b.manager
      → Sound (and_accept node keys fuel b loc)
  and_accept-Sound fuel b loc came known =
      sound (and_accept node keys fuel b loc) (and_accept-StartKeeps fuel b loc known)
        (λ s b' e. introduced fuel b.reader s came (accept-Authentic node keys fuel b b' loc s e))

  pub and_connect-Sound :
      (fuel : ℕ) (b : CapTpSessionBuilder node) (loc : NodeLocator)
      → Came b.reader
      → Known b.manager
      → Sound (and_connect node keys fuel b loc)
  and_connect-Sound fuel b loc came known =
      sound (and_connect node keys fuel b loc) (and_connect-StartKeeps fuel b loc known)
        (λ s b' e. introduced fuel b.reader s came (connect-Authentic node keys fuel b b' loc s e))
