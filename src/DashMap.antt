-- ===== src/DashMap.antt =====
-- The concurrent map of the dashmap crate, which the sessions take as a parameter: its operations,
-- the documented laws that the code relies on, and an association list that meets them.
pub mod Assoc
use rexa.Common.{◌≡◌, Bool, Option, none, some, Key, ◌==◌, if◌then◌else◌}

pub record MapOps (K V : Type 0) : Type 1 where
  pub Map : Type 0
  pub empty : Map
  pub get : Map → K → Option V
  -- The entry replaced, and the map after.
  pub insert : Map → K → V → Option V × Map
  -- The entry removed, and the map after.
  pub remove : Map → K → Option (K × V) × Map

abbrev pub keyed : {K V : Type 0} → K → Option V → Option (K × V)
keyed k none = none
keyed k (some v) = some (k, v)

pub record MapLaws {K V : Type 0} ⦃e : Key K⦄ (ops : MapOps K V) : Type 0 where
  pub get-empty : (k : K) → ops.get ops.empty k ≡ none
  pub insert_old : (m : ops.Map) (k : K) (v : V) → (ops.insert m k v).0 ≡ ops.get m k
  pub get-insert :
      (m : ops.Map) (k j : K) (v : V)
      → ops.get (ops.insert m k v).1 j ≡ (if k == j then some v else ops.get m j)
  pub remove_old : (m : ops.Map) (k : K) → (ops.remove m k).0 ≡ keyed k (ops.get m k)
  pub get-remove :
      (m : ops.Map) (k j : K)
      → ops.get (ops.remove m k).1 j ≡ (if k == j then none else ops.get m j)
