-- ===== src/Session/Frame.antt =====
-- What no call on a session changes: its keys and its peer, and the set of imported positions.
use rexa.Common.{ℕ, ◌≡◌, ◌≢◌, refl, none, some, List, arith, nat_eq}
use rexa.DashMap.{MapLaws}
use rexa.Locator.{NodeLocator}
use rexa.Msg.{export_at}
use rexa.Session.{
  Node, Session, new_session, export_object, send_msg, set_remote_abort, local_abort,
  into_remote_object,
}
use rexa.Session.Calls.{Call, Kept, run, run-Kept}

module _ (node : Node) where
  open node use {Tree, Reader, Writer, SigningKey, VerifyingKey, Obj, World, positions}

  record Same (s t : Session node) : Type 0 where
    signing_key : t.signing_key ≡ s.signing_key
    remote_vkey : t.remote_vkey ≡ s.remote_vkey
    remote_locator : t.remote_locator ≡ s.remote_locator
    imports : t.imports ≡ s.imports

  send_msg-Same : (s t : Session node) (m : Tree) → Same s t → Same s (send_msg node t m).1
  unfolding send_msg
  send_msg-Same s t m h = ground arith

  Same-Kept : (s : Session node) → Kept node (Same s)
  unfolding export_object set_remote_abort local_abort
  Same-Kept s = record {
    handled = record {
      sending = λ t m h. send_msg-Same s t m h;
      exporting = λ obj t w h. record {
        signing_key = h.signing_key;
        remote_vkey = h.remote_vkey;
        remote_locator = h.remote_locator;
        imports = h.imports;
      };
      shutting = λ t h. record {
        signing_key = h.signing_key;
        remote_vkey = h.remote_vkey;
        remote_locator = h.remote_locator;
        imports = h.imports;
      };
      shut = λ reason t h. record {
        signing_key = h.signing_key;
        remote_vkey = h.remote_vkey;
        remote_locator = h.remote_locator;
        imports = h.imports;
      };
    };
    reading = λ reader t h. record {
      signing_key = h.signing_key;
      remote_vkey = h.remote_vkey;
      remote_locator = h.remote_locator;
      imports = h.imports;
    };
  }

  -- Whatever is called on a session, by its tasks and by its exported objects, it keeps its signing
  -- key, its peer's key and locator, and its set of imported positions.
  run-Same : (cs : List (Call node)) (s : Session node) (w : World) → Same s (run node cs (s, w)).0
  run-Same cs s w =
      run-Kept node (Same-Kept s) cs s w
        (record { signing_key = refl; remote_vkey = refl; remote_locator = refl; imports = refl })

  unknown_position :
      (laws : MapLaws positions) (s : Session node) (position : ℕ)
      → s.imports ≡ positions.empty
      → position ≢ 0
      → into_remote_object node s (export_at position) ≡ none
  unfolding into_remote_object
  unknown_position laws s position e h = ground (arith, laws.get-empty position)

  -- After any sequence of calls on a new session, `into_remote_object` answers with an object at
  -- the bootstrap position 0 and with `None` at every position but 0.
  into_remote_object-none :
      (laws : MapLaws positions) (cs : List (Call node)) (r : Reader) (wr : Writer)
      (key : SigningKey) (vkey : VerifyingKey) (loc : NodeLocator) (w : World) (position : ℕ)
      → position ≢ 0
      → let s = (run node cs (new_session node r wr key vkey loc, w)).0 in
        (into_remote_object node s (export_at 0) ≡ some (export_at 0))
        × (into_remote_object node s (export_at position) ≡ none)
  unfolding into_remote_object new_session
  into_remote_object-none laws cs r wr key vkey loc w position h = (
    refl,
    unknown_position laws (run node cs (new_session node r wr key vkey loc, w)).0 position
        (run-Same cs (new_session node r wr key vkey loc) w).imports h,
  )
