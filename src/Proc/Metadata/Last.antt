-- ===== src/Proc/Metadata/Last.antt =====
-- lib/rexa-proc/src/lib.rs, `Metadata`: which property of `impl_object` counts.
use rexa.Common.{
  ◌≡◌, refl, Bool, true, false, Option, none, some, Bytes, bytes_beq, bytes_beq_iff, Bool-cases, ap,
  ◌⊎◌, inl, inr, List, [], ◌∷◌, Result, ok, err, ◌||◌, ◌&&◌, codes, arith, if◌then◌else◌,
}
use mathlib.Core.Option
use rexa.Proc.Attr.{Stream, AttrProperty, parse_property}
use rexa.Proc.Metadata.{
  Given, Metadata, nothing_given, unrecognized, give, read_properties, unwrap_or, metadata,
  parse_metadata,
}

module _ (str : Stream) (CratePath : Type 0) where
  open str use {Token, Error, new_error}

  -- The right side of the last property of a name.
  abbrev pub last_named : Bytes → List (AttrProperty str CratePath) → Option CratePath
  unfolding Option.or_else
  last_named name [] = none
  last_named name (arg ∷ args) =
      Option.or_else (last_named name args)
        (if bytes_beq arg.ident name then some arg.right else none)

  abbrev pub known_name : Bytes → Bool
  known_name name =
      bytes_beq name (codes "rexa")
      || bytes_beq name (codes "syrup")
      || bytes_beq name (codes "futures")
      || bytes_beq name (codes "tracing")

  abbrev pub all_known : List (AttrProperty str CratePath) → Bool
  all_known [] = true
  all_known (arg ∷ args) = known_name arg.ident && all_known args

  -- The properties over those that were given before.
  abbrev over : List (AttrProperty str CratePath) → Given str CratePath → Given str CratePath
  unfolding Option.or_else
  over args g = record {
    rexa = Option.or_else (last_named (codes "rexa") args) g.rexa;
    syrup = Option.or_else (last_named (codes "syrup") args) g.syrup;
    futures = Option.or_else (last_named (codes "futures") args) g.futures;
    tracing = Option.or_else (last_named (codes "tracing") args) g.tracing;
  }

  -- A name is no other one.
  others :
      (name x y z : Bytes)
      → bytes_beq name x ≡ false
      → bytes_beq name y ≡ false
      → bytes_beq name z ≡ false
      → (ident : Bytes) → bytes_beq ident name ≡ true
      → (bytes_beq ident x ≡ false) × (bytes_beq ident y ≡ false) × (bytes_beq ident z ≡ false)
  others name x y z p q r ident e =
      let same = (bytes_beq_iff ident name).0 e in (rw same p, rw same q, rw same r)

  read_properties-over :
      (args : List (AttrProperty str CratePath)) (g : Given str CratePath)
      → read_properties str CratePath args g
        ≡ (if all_known args then ok (over args g) else unrecognized str CratePath)
  unfolding read_properties give Option.or_else
  read_properties-over [] g = refl
  read_properties-over (arg ∷ args) g = elim (Bool-cases (bytes_beq arg.ident (codes "rexa"))) [
    | inl e ↦
        let (a, b, c) =
          others (codes "rexa") (codes "syrup") (codes "futures") (codes "tracing") refl refl refl
            arg.ident e in
        ground (arith, e, a, b, c, read_properties-over args (record g { rexa = some arg.right }))
    | inr r ↦ elim (Bool-cases (bytes_beq arg.ident (codes "syrup"))) [
      | inl e ↦
          let (a, b, c) =
            others (codes "syrup") (codes "rexa") (codes "futures") (codes "tracing") refl refl refl
              arg.ident e in
          ground
            (arith, e, a, b, c, read_properties-over args (record g { syrup = some arg.right }))
      | inr s ↦ elim (Bool-cases (bytes_beq arg.ident (codes "futures"))) [
        | inl e ↦
            let (a, b, c) =
              others (codes "futures") (codes "rexa") (codes "syrup") (codes "tracing") refl refl
                refl arg.ident e in
            ground
              (arith, e, a, b, c, read_properties-over args (record g { futures = some arg.right }))
        | inr f ↦ ground (arith, read_properties-over args (record g { tracing = some arg.right }))
      ]
    ]
  ]

  or_else-none : (o : Option CratePath) → Option.or_else o none ≡ o
  unfolding Option.or_else
  or_else-none none = refl
  or_else-none (some path) = refl

  pub record LastNamed (args : List (AttrProperty str CratePath)) (m : Metadata str CratePath)
      : Type 0 where
    pub rexa : m.rexa ≡ unwrap_or str CratePath (last_named (codes "rexa") args) (codes "::rexa")
    pub syrup :
        m.syrup ≡ unwrap_or str CratePath (last_named (codes "syrup") args) (codes "::syrup")
    pub futures :
        m.futures ≡ unwrap_or str CratePath (last_named (codes "futures") args) (codes "::futures")
    pub tracing : m.tracing ≡ last_named (codes "tracing") args

  -- The properties of `impl_object`, once parsed, are accepted exactly if each has one of the four
  -- names. Then the paths of the crates are those of the last property of their names, or the
  -- crates' own names.
  pub parse_metadata-last :
      (parse_terminated : (List Token → Result Error (AttrProperty str CratePath × List Token))
        → List Token
        → Result Error (List (AttrProperty str CratePath)))
      (parse_path : List Token → Result Error (CratePath × List Token)) (tokens : List Token)
      (args : List (AttrProperty str CratePath))
      → parse_terminated (parse_property str parse_path) tokens ≡ ok args
      → ((all_known args ≡ false)
          × (parse_metadata str CratePath parse_terminated parse_path tokens
              ≡ err (new_error (codes "unrecognized impl_object property"))))
        ⊎ ((all_known args ≡ true)
            × (m : Metadata str CratePath) × (parse_metadata str CratePath parse_terminated
                  parse_path tokens
                ≡ ok m)
            × LastNamed args m)
  unfolding parse_metadata metadata over Option.or_else
  parse_metadata-last parse_terminated parse_path tokens args h =
      elim (Bool-cases (all_known args)) [
        | inr e ↦
            inl (e, ground (arith, h, read_properties-over args (nothing_given str CratePath)))
        | inl e ↦ inr (
          e,
          metadata str CratePath (over args (nothing_given str CratePath)),
          ground (arith, h, read_properties-over args (nothing_given str CratePath)),
          record {
            rexa =
                ap (λ o. unwrap_or str CratePath o (codes "::rexa"))
                  (or_else-none (last_named (codes "rexa") args));
            syrup =
                ap (λ o. unwrap_or str CratePath o (codes "::syrup"))
                  (or_else-none (last_named (codes "syrup") args));
            futures =
                ap (λ o. unwrap_or str CratePath o (codes "::futures"))
                  (or_else-none (last_named (codes "futures") args));
            tracing = or_else-none (last_named (codes "tracing") args);
          },
        )
      ]
