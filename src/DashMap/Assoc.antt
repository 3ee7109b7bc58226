-- ===== src/DashMap/Assoc.antt =====
-- An association list meets the laws of the map.
use rexa.DashMap.{MapOps, MapLaws, keyed}
use rexa.Common.{◌≡◌, refl, Option, none, some, List, [], ◌∷◌, arith, Key, ◌==◌, if◌then◌else◌}

module _ {K V : Type 0} ⦃e : Key K⦄ where
  abbrev pub lookup : K → List (K × V) → Option V
  lookup k [] = none
  lookup k ((j, v) ∷ m) = if j == k then some v else lookup k m

  abbrev pub without : K → List (K × V) → List (K × V)
  without k [] = []
  without k ((j, v) ∷ m) = let rest = without k m in if j == k then rest else (j, v) ∷ rest

  pub lookup-without :
      (k j : K) (m : List (K × V)) → lookup j (without k m) ≡ (if k == j then none else lookup j m)
  lookup-without k j [] = ground arith
  lookup-without k j ((i, v) ∷ m) =
      ground (arith, lookup-without k j m, e.same_iff i k, e.same_iff i j, e.same_iff k j)

  -- `HashMap` and `DashMap` as a list with the newest entry first.
  abbrev pub assoc_ops : MapOps K V
  assoc_ops = record {
    Map = List (K × V);
    empty = [];
    get = λ m k. lookup k m;
    insert = λ m k v. (lookup k m, (k, v) ∷ without k m);
    remove = λ m k. (keyed k (lookup k m), without k m);
  }

  assoc_get-insert :
      (m : List (K × V)) (k j : K) (v : V)
      → lookup j ((k, v) ∷ without k m) ≡ (if k == j then some v else lookup j m)
  assoc_get-insert m k j v = rw (lookup-without k j m) (ground arith)

  pub assoc_laws : MapLaws assoc_ops
  assoc_laws = record {
    get-empty = λ k. refl;
    insert_old = λ m k v. refl;
    get-insert = assoc_get-insert;
    remove_old = λ m k. refl;
    get-remove = λ m k j. lookup-without k j m;
  }
