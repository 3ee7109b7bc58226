-- ===== src/Proc/Objects/Marked.antt =====
-- lib/rexa-proc/src/lib.rs: which attribute of a method `ObjectFn::process` reads and removes.
use rexa.Common.{
  ◌≡◌, refl, ℕ, suc, ◌+◌, Bool, true, false, Option, none, some, Bytes, bytes_beq, bytes_beq_iff,
  List, [], ◌∷◌, ◌++◌, ok, codes, arith, if◌then◌else◌, ◌⊎◌, inl, inr, length, All, Bool-cases,
  ok_inj, map_ok_inv, ap, subst,
}
use rexa.Proc.{Syn, Attribute}
use rexa.Proc.Fns.{
  Signature, Method, ObjectFn, delivers, delivers_only, is_export, deliver_fn, deliver_only_fn,
  export_fn, remove_at, scan_attrs, process_fn, Found, finish_method, processed_sig,
}

module _ (syn : Syn) where
  -- Whether an attribute has one of the names that end the loop.
  abbrev pub ends : Attribute syn → Bool
  ends attr =
      if bytes_beq attr.name (codes "deliver")
      then true
      else bytes_beq attr.name (codes "deliver_only")

  abbrev pub marks : Attribute syn → Bool
  marks attr = if ends attr then true else bytes_beq attr.name (codes "exported")

  abbrev pub Unmarked : List (Attribute syn) → Type 0
  Unmarked = All (λ attr. marks attr ≡ false)

  abbrev pub Passed : List (Attribute syn) → Type 0
  Passed = All (λ attr. ends attr ≡ false)

  -- The name of the attribute that makes a method what it is.
  abbrev pub marker : ObjectFn syn → Bytes
  marker (delivers del) = codes "deliver"
  marker (delivers_only del) = codes "deliver_only"
  marker (is_export export) = codes "exported"

  -- The loop has read the attributes after an export, and no others.
  abbrev pub Rest : ObjectFn syn → List (Attribute syn) → Type 0
  Rest (delivers del) post = Unit
  Rest (delivers_only del) post = Unit
  Rest (is_export export) post = Unmarked post

  -- The attribute `attr` of `attrs` makes the method `f`.
  pub record Picked (attrs : List (Attribute syn)) (f : ObjectFn syn) : Type 0 where
    pub before : List (Attribute syn)
    pub attr : Attribute syn
    pub after : List (Attribute syn)
    pub whole : attrs ≡ before ++ attr ∷ after
    pub is_marker : attr.name ≡ marker f
    pub passed : Passed before
    pub rest : Rest f after

  Scanned :
      ℕ → List (Attribute syn) → Option (ℕ × ObjectFn syn) → Option (ℕ × ObjectFn syn) → Type 0
  Scanned i attrs found none = (found ≡ none) × Unmarked attrs
  Scanned i attrs found (some (j, f)) =
      ((found ≡ some (j, f)) × Unmarked attrs) ⊎ ((p : Picked attrs f) × (j ≡ i + length p.before))

  found_now :
      (i : ℕ) (attr : Attribute syn) (attrs : List (Attribute syn))
      (found : Option (ℕ × ObjectFn syn)) (f : ObjectFn syn) (res : Option (ℕ × ObjectFn syn))
      → attr.name ≡ marker f
      → Rest f attrs
      → some (i, f) ≡ res
      → Scanned i (attr ∷ attrs) found res
  unfolding Scanned
  found_now i attr attrs found f res named rest e = subst (Scanned i (attr ∷ attrs) found) e (
      inr (
        record {
          before = [];
          attr = attr;
          after = attrs;
          whole = refl;
          is_marker = named;
          passed = tt;
          rest = rest;
        },
        omega arith,
      ))

  -- What was scanned behind an attribute that the loop passes.
  found_later :
      (i : ℕ) (attr : Attribute syn) (attrs : List (Attribute syn))
      (found : Option (ℕ × ObjectFn syn)) (j : ℕ) (f : ObjectFn syn)
      → ends attr ≡ false
      → ((p : Picked attrs f) × (j ≡ suc i + length p.before))
      → Scanned i (attr ∷ attrs) found (some (j, f))
  unfolding Scanned
  found_later i attr attrs found j f e (p, at) = inr (
    record {
      before = attr ∷ p.before;
      attr = p.attr;
      after = p.after;
      whole = ap (λ xs. attr ∷ xs) p.whole;
      is_marker = p.is_marker;
      passed = (e, p.passed);
      rest = p.rest;
    },
    omega (arith, at),
  )

  pass_export :
      (i : ℕ) (attr : Attribute syn) (attrs : List (Attribute syn)) (sig : Signature syn)
      (found res : Option (ℕ × ObjectFn syn))
      → ends attr ≡ false
      → attr.name ≡ codes "exported"
      → Scanned (suc i) attrs (some (i, is_export (export_fn syn sig))) res
      → Scanned i (attr ∷ attrs) found res
  unfolding Scanned
  pass_export i attr attrs sig found none e n (h, u) = cc
  pass_export i attr attrs sig found (some (j, f)) e n (inl (h, u)) =
      found_now i attr attrs found (is_export (export_fn syn sig)) (some (j, f)) n u h
  pass_export i attr attrs sig found (some (j, f)) e n (inr p) =
      found_later i attr attrs found j f e p

  pass_other :
      (i : ℕ) (attr : Attribute syn) (attrs : List (Attribute syn))
      (found res : Option (ℕ × ObjectFn syn))
      → ends attr ≡ false
      → marks attr ≡ false
      → Scanned (suc i) attrs found res
      → Scanned i (attr ∷ attrs) found res
  unfolding Scanned
  pass_other i attr attrs found none e m (h, u) = (h, (m, u))
  pass_other i attr attrs found (some (j, f)) e m (inl (h, u)) = inl (h, (m, u))
  pass_other i attr attrs found (some (j, f)) e m (inr p) = found_later i attr attrs found j f e p

  scan-Scanned :
      (i : ℕ) (attrs : List (Attribute syn)) (found : Option (ℕ × ObjectFn syn))
      (sig : Signature syn) (res : Option (ℕ × ObjectFn syn)) (sig' : Signature syn)
      → scan_attrs syn i attrs found sig ≡ ok (res, sig')
      → Scanned i attrs found res
  unfolding Scanned scan_attrs
  scan-Scanned i [] found sig none sig' h = (ap (λ p. p.0) (ok_inj h), tt)
  scan-Scanned i [] found sig (some (j, f)) sig' h = inl (ap (λ p. p.0) (ok_inj h), tt)
  scan-Scanned i (attr ∷ attrs) found sig res sig' h =
      elim (Bool-cases (bytes_beq attr.name (codes "deliver"))) [
        | inl e ↦
            let (del, _, same) =
              map_ok_inv {B = Found syn} (λ del. (some (i, delivers del), processed_sig syn sig))
                (deliver_fn syn attr.nested sig) (res, sig') (ground arith) in
            found_now i attr attrs found (delivers del) res
              ((bytes_beq_iff attr.name (codes "deliver")).0 e) tt (ap (λ p. p.0) same)
        | inr e ↦ elim (Bool-cases (bytes_beq attr.name (codes "deliver_only"))) [
          | inl e' ↦
              let (del, _, same) =
                map_ok_inv {B = Found syn}
                  (λ del. (some (i, delivers_only del), processed_sig syn sig))
                  (deliver_only_fn syn attr.nested sig) (res, sig') (ground arith) in
              found_now i attr attrs found (delivers_only del) res
                ((bytes_beq_iff attr.name (codes "deliver_only")).0 e') tt (ap (λ p. p.0) same)
          | inr e' ↦ elim (Bool-cases (bytes_beq attr.name (codes "exported"))) [
            | inl e'' ↦
                pass_export i attr attrs sig found res (ground arith)
                  ((bytes_beq_iff attr.name (codes "exported")).0 e'')
                  (scan-Scanned (suc i) attrs (some (i, is_export (export_fn syn sig))) sig res sig'
                    (ground arith))
            | inr e'' ↦
                pass_other i attr attrs found res (ground arith) (ground arith)
                  (scan-Scanned (suc i) attrs found sig res sig' (ground arith))
          ]
        ]
      ]

  remove_at-append :
      (before after : List (Attribute syn)) (attr : Attribute syn)
      → remove_at (length before) (before ++ attr ∷ after) ≡ before ++ after
  remove_at-append [] after attr = refl
  remove_at-append (b ∷ before) after attr = ap (λ xs. b ∷ xs) (remove_at-append before after attr)

  removed :
      {attrs : List (Attribute syn)} {f : ObjectFn syn} (j : ℕ) (p : Picked attrs f)
      → j ≡ 0 + length p.before
      → remove_at j attrs ≡ p.before ++ p.after
  removed j p at =
      let here : j ≡ length p.before = omega (arith, at) in
      rw (here, p.whole) (remove_at-append p.before p.after p.attr)

  -- What becomes of the attributes of a method.
  abbrev pub Emitted : Option (ObjectFn syn) → (before after : List (Attribute syn)) → Type 0
  Emitted none attrs attrs' = (attrs' ≡ attrs) × Unmarked attrs
  Emitted (some f) attrs attrs' = (p : Picked attrs f) × (attrs' ≡ p.before ++ p.after)

  finish-Emitted :
      (f f' : Method syn) (found : Option (ObjectFn syn)) (res : Option (ℕ × ObjectFn syn))
      (sig : Signature syn)
      → Scanned 0 f.attrs none res
      → finish_method syn f (res, sig) ≡ (found, f')
      → Emitted found f.attrs f'.attrs
  unfolding Scanned
  finish-Emitted f f' found none sig (h, u) e =
      subst (λ (r : Option (ObjectFn syn) × Method syn). Emitted r.0 f.attrs r.1.attrs) e (refl, u)
  finish-Emitted f f' found (some (j, o)) sig (inl (h, u)) e = cc
  finish-Emitted f f' found (some (j, o)) sig (inr (p, at)) e =
      subst (λ (r : Option (ObjectFn syn) × Method syn). Emitted r.0 f.attrs r.1.attrs) e
        (p, removed j p at)

  -- When a method of a block is accepted, one attribute made it what it is, and that attribute
  -- alone is removed: the first one named `deliver` or `deliver_only` if there is one, and
  -- otherwise the last one named `exported`. A method that is not the object's has none of the
  -- three, and keeps all its attributes.
  pub process_fn-marked :
      (f f' : Method syn) (found : Option (ObjectFn syn))
      → process_fn syn f ≡ ok (found, f')
      → Emitted found f.attrs f'.attrs
  unfolding process_fn
  process_fn-marked f f' found h =
      let ((res, sig), e, h') =
        map_ok_inv (finish_method syn f) (scan_attrs syn 0 f.attrs none f.sig) (found, f') h in
      finish-Emitted f f' found res sig (scan-Scanned 0 f.attrs none f.sig res sig e) h'
