-- ===== src/Session/Registry.antt =====
-- src/captp/session/registry.rs: the table of swiss numbers, over the map of dashmap.
use rexa.Common.{same_refl, ◌≡◌, Option, none, some, Bytes, bytes_eq, ◌==◌, if◌then◌else◌, arith}
use rexa.DashMap.{MapOps, MapLaws}

module _ {Sender : Type 0} (ops : MapOps Bytes Sender) where
  pub record SwissRegistry : Type 0 where
    pub map : ops.Map

  unfoldable pub new_registry : SwissRegistry
  new_registry = record { map = ops.empty }

  unfoldable pub insert : Bytes → Sender → SwissRegistry → Option Sender × SwissRegistry
  insert key value r = let (old, map) = ops.insert r.map key value in (old, record { map = map })

  unfoldable pub get : Bytes → SwissRegistry → Option Sender
  get swiss r = ops.get r.map swiss

  abbrev pub without_key : Option (Bytes × Sender) → Option Sender
  without_key none = none
  without_key (some (k, v)) = some v

  unfoldable pub remove : Bytes → SwissRegistry → Option Sender × SwissRegistry
  remove swiss r =
      let (old, map) = ops.remove r.map swiss in (without_key old, record { map = map })

  -- What is inserted under a swiss number is found under it until it is removed, and every other
  -- swiss number finds what it found before; each call returns the sender that it replaces or
  -- removes.
  pub insert-get-remove :
      (laws : MapLaws ops) (swiss other : Bytes) (value : Sender) (r : SwissRegistry)
      → let (old, s) = insert swiss value r in
        let (removed, t) = remove swiss s in
        (old ≡ get swiss r)
        × (removed ≡ some value)
        × (get other s ≡ (if swiss == other then some value else get other r))
        × (get other t ≡ (if swiss == other then none else get other r))
  unfolding insert get remove
  insert-get-remove laws swiss other value r =
      let put = laws.get-insert r.map swiss other value in
      let own = laws.get-insert r.map swiss swiss value in
      let (_, map) = ops.insert r.map swiss value in
      (
        laws.insert_old r.map swiss value,
        ground (arith, own, same_refl {K = Bytes} swiss, laws.remove_old map swiss),
        put,
        ground (arith, put, laws.get-remove map swiss other),
      )
