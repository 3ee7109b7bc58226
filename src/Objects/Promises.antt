-- ===== src/Objects/Promises.antt =====
-- `Resolver` of src/captp/object.rs: the local end of a promise. The oneshot channel is a
-- parameter: `send` gives the value back when the receiver is gone.
use rexa.Common.{◌≡◌, refl, Option, none, some, List, [], ◌∷◌, Result, ok, err, map_err, codes}
use rexa.Session.{Node, Session, ObjectError, deliver_failed, GenericResolver, deliver_only}
use rexa.Objects.{PromiseResult, break_promise, breaking}

module _ (node : Node) {Sender : Type 0}
    (send : Sender → PromiseResult node → Result (PromiseResult node) (Unit {0})) where
  open node use {Tree, Args, IoError, LexError, string}

  pub record Resolver : Type 0 where
    pub sender : Option Sender

  -- The sender is taken out, so that it serves once.
  pub resolve : Resolver → PromiseResult node → Result (PromiseResult node) (Unit {0}) × Resolver
  resolve r res = elim r.sender [
    | none ↦ (err res, r)
    | some sender ↦ (send sender res, record { sender = none })
  ]

  abbrev pub MethodResult : Type 0
  MethodResult = Result (ObjectError IoError LexError) (Unit {0})

  abbrev already_resolved : Tree
  already_resolved = string (codes "promise already resolved")

  -- The two methods differ in the result that they resolve with. When there is no one to tell, the
  -- caller's own promise is broken.
  abbrev tell :
      Result (PromiseResult node) (Unit {0}) × Resolver
      → GenericResolver
      → Session node
      → MethodResult × Resolver × Session node
  tell (ok done, r) resolver s = (ok tt, r, s)
  tell (err back, r) resolver s =
      let (res, s') = break_promise node resolver already_resolved s in
      (map_err deliver_failed res, r, s')

  pub resolver_fulfill :
      Resolver → Args → GenericResolver → Session node → MethodResult × Resolver × Session node
  resolver_fulfill r args resolver s = tell (resolve r (ok args)) resolver s

  pub resolver_break :
      Resolver → Tree → GenericResolver → Session node → MethodResult × Resolver × Session node
  resolver_break r reason resolver s = tell (resolve r (err reason)) resolver s

  abbrev pub new_resolver : Sender → Resolver
  new_resolver sender = record { sender = some sender }

  -- Resolving with each value of a list in turn.
  abbrev pub resolve_each :
      Resolver → List (PromiseResult node) → List (Result (PromiseResult node) (Unit {0}))
  resolve_each r [] = []
  resolve_each r (x ∷ xs) = let (res, r') = resolve r x in res ∷ resolve_each r' xs

  abbrev refused : List (PromiseResult node) → List (Result (PromiseResult node) (Unit {0}))
  refused [] = []
  refused (x ∷ xs) = err x ∷ refused xs

  resolved_refuses :
      (xs : List (PromiseResult node)) → resolve_each (record { sender = none }) xs ≡ refused xs
  unfolding resolve
  resolved_refuses [] = refl
  resolved_refuses (x ∷ xs) = rw (resolved_refuses xs)

  -- Of any list of results that a new resolver is resolved with, only the first goes to the
  -- channel, and each later one comes back unchanged, also when the channel refused the first.
  resolve_once :
      (sender : Sender) (x : PromiseResult node) (xs : List (PromiseResult node))
      → resolve_each (new_resolver sender) (x ∷ xs) ≡ send sender x ∷ refused xs
  unfolding resolve
  resolve_once sender x xs = rw (resolved_refuses xs)

  -- A resolver that has been resolved answers `fulfill` and `break` alike: it breaks the caller's
  -- promise with the string `promise already resolved`, and stays as it is.
  resolved_breaks_caller :
      (args : Args) (reason : Tree) (resolver : GenericResolver) (s : Session node)
      → let r : Resolver = record { sender = none } in
        let (res, s') =
          deliver_only node s
            (breaking node resolver (string (codes "promise already resolved"))) in
        (resolver_fulfill r args resolver s ≡ (map_err deliver_failed res, r, s'))
        × (resolver_break r reason resolver s ≡ (map_err deliver_failed res, r, s'))
  unfolding resolver_fulfill resolver_break resolve break_promise
  resolved_breaks_caller args reason resolver s = (refl, refl)
