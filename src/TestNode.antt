-- ===== src/TestNode.antt =====
-- Concrete nodes for the tests. Both keep their maps in association lists, read from a list of
-- chunks and write to a list of bytes; they differ in how values are written (Trees, Frames).
pub mod Trees
pub mod Frames
pub mod Starts
use rexa.Common.{
  ℕ, Bool, true, false, Option, none, some, Bytes, List, [], ◌∷◌, ◌++◌, drop, Result, ok, err,
  nat_eq, codes,
}
use rexa.DashMap.{MapOps}
use rexa.DashMap.Assoc.{assoc_ops}
use rexa.Reader.Chunks.{chunks}
use rexa.Msg.{
  DescExport, DescImportObject, OpDeliverOnly, OpDeliver, OpAbort, export_at, default_import,
  object,
}
use rexa.Wire.{Syrup, Connection}
use rexa.Session.{Node, Session, Reaction, GenericResolver, new_session}
use rexa.Locator.{NodeLocator}

abbrev pub connection : Connection
connection = record {
  str = chunks;
  Writer = Bytes;
  write_all = λ w bytes. (ok tt, w ++ bytes);
  flush = λ w. (ok tt, w);
}

abbrev pub numbers : {V : Type 0} → MapOps ℕ V
numbers = assoc_ops

module _ (syr : Syrup) where
  -- Object 0 answers a delivery by sending on, object 1 by aborting the session, and any other
  -- object writes its own number to the world. Each export is written to the world.
  abbrev pub reacts : ℕ → syr.Args → Reaction syr.Args ℕ (List ℕ) Bool syr.LexError
  reacts ℕ.zero args =
      Reaction.sends_only (record { to_desc = export_at 3; args = args })
        (λ res. Reaction.finish (ok tt))
  reacts (ℕ.suc ℕ.zero) args =
      Reaction.aborts (record { reason = codes "no" }) (λ res. Reaction.finish (ok tt))
  reacts n args = Reaction.read (λ w. Reaction.write (n ∷ w) (Reaction.finish (ok tt)))

  abbrev pub node_of : Node
  node_of = record {
    syrup = syr;
    con = connection;
    SigningKey = ℕ;
    VerifyingKey = ℕ;
    Obj = ℕ;
    World = List ℕ;
    objects = numbers;
    positions = numbers;
    on_exported = λ obj key desc w. desc.position ∷ w;
    on_deliver_only = reacts;
    on_deliver = λ obj args resolver. reacts obj args;
  }

  abbrev pub locator : NodeLocator
  locator = record { designator = codes "b"; transport = codes "test"; hints = [] }

  abbrev pub fresh : Bytes × List Bytes → Session node_of
  fresh reader = new_session node_of reader [] 1 2 locator
