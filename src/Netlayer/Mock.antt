-- ===== src/Netlayer/Mock.antt =====
-- lib/rexa-netlayer-mock/src/lib.rs: the registry of names that the mock netlayers of a process
-- share. A netlayer is known by the number of its `bind`. Its registry entry holds a `Weak` and the
-- sender of a channel whose receiver the netlayer owns: both fail from the moment the netlayer is
-- dropped.
pub mod Start
pub mod Pairs
pub mod Introduced
pub mod Pipes
pub mod Examples
use rexa.Common.{
  ℕ, suc, ◌≡◌, refl, ◌∙◌, Option, none, some, Bytes, List, [], ◌∷◌, ◌++◌, Result, ok, err, nat_eq,
  bytes_eq, arith, same_refl, Option-cases, inl, inr,
}
use rexa.DashMap.Assoc.{lookup, without, lookup-without}

pub data MockError : Type 0 where
  not_found : MockError

-- A netlayer that is alive, with the requests for a stream that wait for its `accept`, each the
-- number of its one-shot channel.
pub record MockNetlayer : Type 0 where
  pub name : Bytes
  pub requests : List ℕ

pub record Process : Type 0 where
  pub registry : List (Bytes × ℕ)
  pub alive : List (ℕ × MockNetlayer)
  pub bound : ℕ

-- `Weak::upgrade` of the entry of a name.
abbrev pub upgraded : Bytes → Process → Option ℕ
upgraded name p = elim (lookup name p.registry) [
  | none ↦ none
  | some id ↦ elim (lookup id p.alive) [ none ↦ none | some net ↦ some id ]
]

unfoldable pub bind_name : Bytes → Process → ℕ × Process
bind_name name p = elim (upgraded name p) [
  | some id ↦ (id, p)
  | none ↦
      let id = p.bound in
      (
        id,
        record {
          registry = (name, id) ∷ without name p.registry;
          alive = (id, record { name = name; requests = [] }) ∷ without id p.alive;
          bound = suc id;
        },
      )
]

-- The last owner of a netlayer drops it.
unfoldable pub drop_netlayer : ℕ → Process → Process
drop_netlayer id p = record p { alive = without id p.alive }

-- `close` takes the netlayer by value, and drops it at its end.
unfoldable pub close : ℕ → Process → Process
unfolding drop_netlayer
close id p = elim (lookup id p.alive) [
  | none ↦ p
  | some net ↦ drop_netlayer id (record p { registry = without net.name p.registry })
]

-- The request of `connect` to the netlayer of a name, before it waits for the answer.
unfoldable pub request_stream : ℕ → Bytes → Process → Result MockError (Unit {0}) × Process
request_stream channel name p = elim (lookup name p.registry) [
  | none ↦ (err not_found, p)
  | some id ↦ elim (lookup id p.alive) [
    | none ↦ (err not_found, record p { registry = without name p.registry })
    | some net ↦
        let asked = record net { requests = net.requests ++ channel ∷ [] } in
        (ok tt, record p { alive = (id, asked) ∷ without id p.alive })
  ]
]

-- What `bind` returns is alive and registered: a second `bind` of the name returns the same
-- netlayer and changes nothing, and a request to the name is taken.
bind_name_again :
    (name : Bytes) (channel : ℕ) (p : Process)
    → (bind_name name (bind_name name p).1 ≡ bind_name name p)
      × ((request_stream channel name (bind_name name p).1).0 ≡ ok tt)
unfolding bind_name request_stream
bind_name_again name channel p =
    let b = same_refl {K = Bytes} name in
    let n = same_refl {K = ℕ} p.bound in
    elim (Option-cases (lookup name p.registry)) [
      | inl e ↦ ground (arith, b, n)
      | inr (id, e) ↦ elim (Option-cases (lookup id p.alive)) [
        | inl f ↦ ground (arith, b, n)
        | inr (net, f) ↦ ground arith
      ]
    ]

-- After the netlayer of a name is dropped, without `close`, a request to the name is refused, and
-- takes the name out of the registry.
dropped_is_cleaned :
    (name : Bytes) (channel id : ℕ) (p : Process)
    → lookup name p.registry ≡ some id
    → ((request_stream channel name (drop_netlayer id p)).0 ≡ err not_found)
      × (lookup name (request_stream channel name (drop_netlayer id p)).1.registry ≡ none)
unfolding request_stream drop_netlayer
dropped_is_cleaned name channel id p h =
    let gone : lookup id (without id p.alive) ≡ none =
      lookup-without id id p.alive ∙ rw (same_refl {K = ℕ} id) refl in
    let cleaned : lookup name (without name p.registry) ≡ none =
      lookup-without name name p.registry ∙ rw (same_refl {K = Bytes} name) refl in
    ground (arith, gone, cleaned)
