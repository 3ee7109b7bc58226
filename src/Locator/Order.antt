-- ===== src/Locator/Order.antt =====
-- The `HashMap` of hints in src/locator.rs, without the order in which it is iterated, and locators
-- as their derived `PartialEq` compares them.
use mathlib.Core.Quot
use mathlib.Core.Quot.{Quot, Quot-set}
use rexa.Common.{
  ◌≡◌, refl, sym, ap, subst, ◌∙◌, false, Bool-cases, Option, none, some, inl, inr, Bytes, bytes_beq,
  bytes_eq, bytes_beq_iff, List, [], ◌∷◌, All, arith, ok,
}
use rexa.DashMap.Assoc.{lookup}
use rexa.Text.{has}
use rexa.Locator.{NodeLocator, Uri, UriCodec, try_from, build_uri, hint}
use rexa.Locator.Hints.{UriLaws, Plain, Distinct}
use rexa.Locator.RoundTrip.{build_uri-parses}

-- Two lists have the same value at each key.
abbrev pub SameMap : List (Bytes × Bytes) → List (Bytes × Bytes) → Type 0
SameMap xs ys = (key : Bytes) → lookup key xs ≡ lookup key ys

abbrev pub HashMap : Type 0
HashMap = Quot SameMap

get : Bytes → HashMap → Option Bytes
get key = Quot.lift (hlevel) (lookup key) (λ xs ys same. same key)

-- Equal maps have the same values.
same_values :
    (xs ys : List (Bytes × Bytes)) → Path HashMap (Quot.mk xs) (Quot.mk ys) → SameMap xs ys
unfolding get
same_values xs ys e key = ap (get key) e

-- The order of two entries with different keys does not count, nor what is in front of such a pair.
pub SameMap-swap :
    (j k u v : Bytes) (xs : List (Bytes × Bytes))
    → bytes_beq j k ≡ false
    → SameMap ((j, u) ∷ (k, v) ∷ xs) ((k, v) ∷ (j, u) ∷ xs)
SameMap-swap j k u v xs apart key = elim (Bool-cases (bytes_beq j key)) [
  | inl e ↦
      let same : j ≡ key = (bytes_beq_iff j key).0 e in
      let other : bytes_beq k key ≡ false = elim (Bool-cases (bytes_beq k key)) [
        | inl f ↦
            absurd
              (let again = (bytes_beq_iff j k).1 (same ∙ sym ((bytes_beq_iff k key).0 f)) in cc)
        | inr f ↦ f
      ] in
      rw (e, other) refl
  | inr e ↦ rw (e) refl
]

pub SameMap-cons :
    (entry : Bytes × Bytes) (xs ys : List (Bytes × Bytes))
    → SameMap xs ys
    → SameMap (entry ∷ xs) (entry ∷ ys)
SameMap-cons (k, v) xs ys same key = elim (Bool-cases (bytes_beq k key)) [
  | inl e ↦ rw (e) refl
  | inr e ↦ rw (e) (same key)
]

pub record Unordered : Type 0 where
  pub designator : Bytes
  pub transport : Bytes
  pub hints : HashMap

-- A locator as it is compared.
abbrev pub unordered : NodeLocator → Unordered
unordered loc = record {
  designator = loc.designator;
  transport = loc.transport;
  hints = Quot.mk loc.hints;
}

module _ (c : UriCodec) (laws : UriLaws c) where
  Plain-at :
      (xs : List (Bytes × Bytes)) (k v : Bytes)
      → All (Plain c laws) xs
      → lookup k xs ≡ some v
      → Plain c laws (k, v)
  Plain-at [] k v all h = cc
  Plain-at ((j, u) ∷ xs) k v (one, all) h = elim (Bool-cases (bytes_beq j k)) [
    | inl e ↦
        let same : j ≡ k = (bytes_beq_iff j k).0 e in
        let value : u ≡ v = ground arith in subst (λ p. Plain c laws p) (λ i. (same i, value i)) one
    | inr e ↦ Plain-at xs k v all (ground arith)
  ]

  -- What holds of each value of a map holds of each entry of its list.
  All-values :
      (P : Bytes × Bytes → Type 0) (ys : List (Bytes × Bytes))
      → Distinct c laws ys
      → ((k v : Bytes) → lookup k ys ≡ some v → P (k, v))
      → All P ys
  All-values P [] d values = tt
  All-values P ((j, u) ∷ ys) (fresh, d) values = (
    values j u (rw ((bytes_beq_iff j j).1 refl) refl),
    All-values P ys d (λ k v h. elim (Bool-cases (bytes_beq j k)) [
      | inl e ↦
          let same : j ≡ k = (bytes_beq_iff j k).0 e in
          let gone : lookup k ys ≡ none = subst (λ x. lookup x ys ≡ none) same fresh in
          absurd (ground arith)
      | inr e ↦ values k v (rw (e) h)
    ]),
  )

  -- What two URIs are parsed to, compared with each other and with a locator.
  pub record ReadAlike (loc : NodeLocator) (uri uri' : Uri) : Type 0 where
    pub back : NodeLocator
    pub back' : NodeLocator
    pub parses : try_from c uri ≡ ok back
    pub parses' : try_from c uri' ≡ ok back'
    pub equal : unordered back ≡ unordered back'
    pub kept_hints : (unordered back).hints ≡ (unordered loc).hints

  -- Locators that are equal have URIs that are parsed to equal locators, though each URI has its
  -- hints in the order in which its map is iterated, and whatever the paths are; and the hints are
  -- those of the locators. The conditions are those of one round trip: the hints are text without
  -- `&` and have no `=` in a key, and no `.` is in the encoded transport.
  pub equal_locators-build_uri :
      (loc loc' : NodeLocator) (path path' : Bytes) (uri uri' : Uri)
      → unordered loc ≡ unordered loc'
      → Distinct c laws loc.hints
      → Distinct c laws loc'.hints
      → All (Plain c laws) loc.hints
      → has 46 (c.encode_reg_name loc.transport) ≡ false
      → build_uri c loc path ≡ ok uri
      → build_uri c loc' path' ≡ ok uri'
      → ReadAlike loc uri uri'
  unfolding hint
  equal_locators-build_uri loc loc' path path' uri uri' same d d' all dot built built' =
      let values : SameMap loc.hints loc'.hints =
        same_values loc.hints loc'.hints (ap (λ u. u.hints) same) in
      let all' : All (Plain c laws) loc'.hints =
        All-values (Plain c laws) loc'.hints d'
          (λ k v h. Plain-at loc.hints k v all (values k ∙ h)) in
      let transports : loc.transport ≡ loc'.transport = ap (λ u. u.transport) same in
      let dot' : has 46 (c.encode_reg_name loc'.transport) ≡ false =
        subst (λ t. has 46 (c.encode_reg_name t) ≡ false) transports dot in
      let one = build_uri-parses c laws loc path uri d all dot built in
      let two = build_uri-parses c laws loc' path' uri' d' all' dot' built' in
      let hints : Path HashMap (Quot.mk one.back.hints) (Quot.mk two.back.hints) =
        Quot.sound (λ key. one.same_hints key ∙ values key ∙ sym (two.same_hints key)) in
      let designators =
        one.same_designator
        ∙ ap (λ u. c.encode_reg_name u.designator) same
        ∙ sym two.same_designator in
      let transported =
        one.same_transport ∙ ap c.encode_reg_name transports ∙ sym two.same_transport in
      record {
        back = one.back;
        back' = two.back;
        parses = one.parses;
        parses' = two.parses;
        equal =
            λ i. record { designator = designators i; transport = transported i; hints = hints i };
        kept_hints = Quot.sound one.same_hints;
      }
