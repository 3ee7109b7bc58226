-- ===== src/KeyMap.antt =====
-- src/captp/session/keymap.rs: values under 64-bit keys that an atomic counter hands out.
-- `DashMap` is the parameter `ops`. A `Reservation` borrows the map: it is its key here, and
-- `finalize` takes the map.
pub mod Interleaving
pub mod Examples
use rexa.Common.{ℕ, ◌+◌, ◌%◌, ◌^◌, Option, none, some}
use rexa.DashMap.{MapOps}

abbrev pub u64_mod : ℕ
u64_mod = 2 ^ 64

pub record KeyMap {V : Type 0} (ops : MapOps ℕ V) : Type 0 where
  pub map : ops.Map
  pub current_key : ℕ

pub record Reservation : Type 0 where
  pub key : ℕ

module _ {V : Type 0} (ops : MapOps ℕ V) where
  pub with_initial : ℕ → KeyMap ops
  with_initial initial = record { map = ops.empty; current_key = initial }

  -- `fetch_add` returns the old counter, and wraps.
  pub next_key : KeyMap ops → ℕ × KeyMap ops
  next_key m = (m.current_key, record m { current_key = (m.current_key + 1) % u64_mod })

  unfoldable pub reserve : KeyMap ops → Reservation × KeyMap ops
  unfolding next_key
  reserve m = let (key, m') = next_key m in (record { key = key }, m')

  unfoldable pub finalize : Reservation → V → KeyMap ops → ℕ × KeyMap ops
  finalize r value m = (r.key, record m { map = (ops.insert m.map r.key value).1 })

  pub push : KeyMap ops → V → ℕ × KeyMap ops
  unfolding next_key
  push m value =
      let (key, m') = next_key m in (key, record m' { map = (ops.insert m'.map key value).1 })

  abbrev value_of : Option (ℕ × V) → Option V
  value_of none = none
  value_of (some (_, v)) = some v

  pub remove : KeyMap ops → ℕ → Option V × KeyMap ops
  remove m key = let (old, map) = ops.remove m.map key in (value_of old, record m { map = map })

  unfoldable pub get : KeyMap ops → ℕ → Option V
  get m key = ops.get m.map key

  -- A write by `f` through the reference that `get_mut` returns.
  pub get_mut : KeyMap ops → ℕ → (V → V) → KeyMap ops
  get_mut m key f = elim (ops.get m.map key) [
    | none ↦ m
    | some v ↦ record m { map = (ops.insert m.map key (f v)).1 }
  ]
