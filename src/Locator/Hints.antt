-- ===== src/Locator/Hints.antt =====
-- src/locator.rs: the hints of a locator in the query of its URI, and back.
use rexa.Common.{
  ℕ, ◌≡◌, refl, sym, ◌∙◌, ap, inl, inr, true, false, Option, none, some, Bytes, bytes_eq, bytes_beq,
  bytes_beq_iff, List, [], ◌∷◌, ◌++◌, ok, codes, All, arith, if◌then◌else◌, Bool-cases,
}
use mathlib.Core.List.{append-nil, append_assoc}
use rexa.DashMap.Assoc.{lookup, lookup-without}
use rexa.Text.{has, split, split_once, split-append, split_free, split_once-append}
use rexa.Locator.{
  Uri, UriCodec, insert_hint, is_special, pair_of, encode_pairs, add_pair, add_pairs, add_query,
  if_any,
}

-- What the code relies on of the codec. The encoder of queries leaves `&` and `=` as they are.
pub record UriLaws (c : UriCodec) : Type 0 where
  pub decode-query : (b : Bytes) → c.decode (c.encode_query b) ≡ b
  pub decode-userinfo : (b : Bytes) → c.decode (c.encode_userinfo b) ≡ b
  pub decode-path : (b : Bytes) → c.decode (codes "/s/" ++ c.encode_path b) ≡ codes "/s/" ++ b
  pub query_keeps_and : (b : Bytes) → has 38 (c.encode_query b) ≡ has 38 b
  pub query_keeps_equals : (b : Bytes) → has 61 (c.encode_query b) ≡ has 61 b
  pub build_parts : (u v : Uri) → c.build u ≡ ok v → v ≡ u

module _ (c : UriCodec) (laws : UriLaws c) where
  open c use {encode_query, decode, into_string}

  abbrev Hints : Type 0
  Hints = List (Bytes × Bytes)

  -- A hint of valid text, without `&`, and with no `=` in its key.
  abbrev pub Plain : Bytes × Bytes → Type 0
  Plain (k, v) =
      (into_string k ≡ ok k)
      × (into_string v ≡ ok v)
      × (has 38 k ≡ false)
      × (has 61 k ≡ false)
      × (has 38 v ≡ false)

  -- The keys of a map.
  abbrev pub Distinct : Hints → Type 0
  Distinct [] = Unit
  Distinct ((k, v) ∷ hints) = (lookup k hints ≡ none) × Distinct hints

  abbrev segments : Hints → List Bytes
  segments [] = []
  segments ((k, v) ∷ hints) =
      let rest = segments hints in if is_special k then rest else pair_of c k v ∷ rest

  abbrev pub insert_all : Hints → Hints → Hints
  insert_all [] acc = acc
  insert_all ((k, v) ∷ hints) acc =
      if is_special k then insert_all hints acc else insert_all hints (insert_hint k v acc)

  has-append :
      (x : ℕ) (xs ys : Bytes) → has x xs ≡ false → has x ys ≡ false → has x (xs ++ ys) ≡ false
  has-append x [] ys h h' = h'
  has-append x (b ∷ xs) ys h h' = ground (arith, has-append x xs ys)

  pair_free : (k v : Bytes) → Plain (k, v) → has 38 (pair_of c k v) ≡ false
  pair_free k v (_, _, hk, _, hv) =
      has-append 38 (encode_query k) (61 ∷ encode_query v) (laws.query_keeps_and k ∙ hk)
        (laws.query_keeps_and v ∙ hv)

  split_pair : (k v : Bytes) → Plain (k, v) → split 38 (pair_of c k v) ≡ pair_of c k v ∷ []
  split_pair k v p = split_free 38 (pair_of c k v) (pair_free k v p)

  pub split-encode_pairs :
      (b : ℕ) (query : Bytes) (hints : Hints)
      → All Plain hints
      → split 38 (encode_pairs c (b ∷ query) hints) ≡ split 38 (b ∷ query) ++ segments hints
  split-encode_pairs b query [] all = sym (append-nil _)
  split-encode_pairs b query ((k, v) ∷ hints) (p, all) = elim (Bool-cases (is_special k)) [
    | inl e ↦ rw e (split-encode_pairs b query hints all)
    | inr e ↦
        rw
          (
            e,
            split-encode_pairs b (query ++ 38 ∷ pair_of c k v) hints all,
            split-append 38 (b ∷ query) (pair_of c k v),
            split_pair k v p,
            append_assoc (split 38 (b ∷ query)) (pair_of c k v ∷ []) (segments hints),
          )
          refl
  ]

  lookup_hint :
      (k j v : Bytes) (acc : Hints)
      → lookup j (insert_hint k v acc) ≡ (if bytes_beq k j then some v else lookup j acc)
  lookup_hint k j v acc = rw (lookup-without k j acc) (ground arith)

  add_pair_plain :
      (k v : Bytes) (acc : Hints)
      → Plain (k, v)
      → add_pair c (split_once 61 (pair_of c k v)) acc ≡ ok (insert_hint k v acc)
  add_pair_plain k v acc (ik, iv, _, hk, _) =
      rw
        (
          split_once-append 61 (encode_query k) (encode_query v) (laws.query_keeps_equals k ∙ hk),
          laws.decode-query k,
          ik,
          laws.decode-query v,
          iv,
        )
        refl

  add_segments :
      (hints acc : Hints)
      → All Plain hints
      → add_pairs c (segments hints) acc ≡ ok (insert_all hints acc)
  add_segments [] acc all = refl
  add_segments ((k, v) ∷ hints) acc (p, all) = elim (Bool-cases (is_special k)) [
    | inl e ↦ rw e (add_segments hints acc all)
    | inr e ↦ rw (e, add_pair_plain k v acc p) (add_segments hints (insert_hint k v acc) all)
  ]

  pair_cons : (k v : Bytes) → (b : ℕ) × (query : Bytes) × (pair_of c k v ≡ b ∷ query)
  pair_cons k v = go (encode_query k)
    where
      go : (xs : Bytes) → (b : ℕ) × (query : Bytes) × (xs ++ 61 ∷ encode_query v ≡ b ∷ query)
      go [] = (61, encode_query v, refl)
      go (x ∷ xs) = (x, xs ++ 61 ∷ encode_query v, refl)

  some_query :
      (b : ℕ) (query : Bytes) (hints : Hints)
      → if_any c (encode_pairs c (b ∷ query) hints) ≡ some (encode_pairs c (b ∷ query) hints)
  some_query b query [] = refl
  some_query b query ((k, v) ∷ hints) = elim (Bool-cases (is_special k)) [
    | inl e ↦ rw e (some_query b query hints)
    | inr e ↦ rw e (some_query b (query ++ 38 ∷ pair_of c k v) hints)
  ]

  -- The query of a locator's URI gives its hints back, less those that stand in the authority.
  pub add_query-encode_pairs :
      (hints acc : Hints)
      → All Plain hints
      → add_query c (if_any c (encode_pairs c [] hints)) acc ≡ ok (insert_all hints acc)
  add_query-encode_pairs [] acc all = refl
  add_query-encode_pairs ((k, v) ∷ hints) acc (p, all) = elim (Bool-cases (is_special k)) [
    | inl e ↦ rw e (add_query-encode_pairs hints acc all)
    | inr e ↦
        let (b, query, q) = pair_cons k v in
        let whole : split 38 (b ∷ query) ≡ pair_of c k v ∷ [] =
          ap (split 38) (sym q) ∙ split_pair k v p in
        rw
          (
            e,
            q,
            some_query b query hints,
            split-encode_pairs b query hints all,
            whole,
            add_pair_plain k v acc p,
          )
          (add_segments hints (insert_hint k v acc) all)
  ]

  abbrev pub or_else : Option Bytes → Option Bytes → Option Bytes
  or_else none o = o
  or_else (some v) o = some v

  pub lookup-insert_all :
      (j : Bytes) (hints acc : Hints)
      → Distinct hints
      → lookup j (insert_all hints acc)
        ≡ (if is_special j then lookup j acc else or_else (lookup j hints) (lookup j acc))
  lookup-insert_all j [] acc d = ground arith
  lookup-insert_all j ((k, v) ∷ hints) acc (dk, d) = elim (Bool-cases (bytes_beq k j)) [
    | inl f ↦
        let same = (bytes_beq_iff k j).0 f in
        let out : lookup j hints ≡ none = ap (λ x. lookup x hints) (sym same) ∙ dk in
        elim (Bool-cases (is_special k)) [
          | inl e ↦
              let sj : is_special j ≡ true = ap is_special (sym same) ∙ e in
              rw (e, lookup-insert_all j hints acc d, sj) refl
          | inr e ↦
              let sj : is_special j ≡ false = ap is_special (sym same) ∙ e in
              rw
                (
                  e,
                  lookup-insert_all j hints (insert_hint k v acc) d,
                  sj,
                  out,
                  lookup_hint k j v acc,
                  f,
                )
                refl
        ]
    | inr f ↦ elim (Bool-cases (is_special k)) [
      | inl e ↦ rw (e, lookup-insert_all j hints acc d, f) refl
      | inr e ↦
          rw (e, lookup-insert_all j hints (insert_hint k v acc) d, lookup_hint k j v acc, f) refl
    ]
  ]
