-- ===== src/Netlayer/Onion/Address.antt =====
-- lib/rexa-netlayer-onion/src/lib.rs: the locator that an onion netlayer publishes, and the address
-- that a peer asks its client for.
use rexa.Common.{
  Result, ◌≡◌, refl, ℕ, some, Bytes, [], ◌∷◌, ◌++◌, length, codes, arith, length-append, ap,
}
use rexa.Locator.{NodeLocator, new}
use rexa.Session.{Node}
use rexa.Handshake.{Keys}
use rexa.Netlayer.Onion.{
  OnionNetlayer, truncate, without_suffix, designator, locators, connect, connect_stream, Halves,
}

truncate-append : (id rest : Bytes) → truncate (length id) (id ++ rest) ≡ id
truncate-append [] rest = refl
truncate-append (b ∷ id) rest = ap (λ xs. b ∷ xs) (truncate-append id rest)

without_suffix-onion : (id : Bytes) → without_suffix (id ++ codes ".onion") ≡ some id
unfolding without_suffix
without_suffix-onion id =
    ground (arith, length-append id (codes ".onion"), truncate-append id (codes ".onion"))

module _ (node : Node) (keys : Keys node) (TorError ClientError : Type 0) where
  -- An onion netlayer whose service has the name `id.onion` publishes one locator, of the transport
  -- `onion`, and a peer that connects to that locator asks its client for that name.
  pub published_name :
      (net peer : OnionNetlayer node keys TorError ClientError) (id : Bytes) (fuel : ℕ)
      (key : node.SigningKey)
      (dial : Bytes → Result TorError (Halves node keys TorError ClientError))
      → net.onion_name ≡ some (id ++ codes ".onion")
      → (loc : NodeLocator) × (locators node keys TorError ClientError net ≡ some (loc ∷ []))
        × (loc.transport ≡ codes "onion")
        × (connect node keys TorError ClientError fuel key dial peer loc
            ≡ connect_stream node keys TorError ClientError fuel key peer
                (dial (id ++ codes ".onion")))
  unfolding locators designator new connect
  published_name net peer id fuel key dial named =
      (new id (codes "onion"), ground (arith, named, without_suffix-onion id), refl, refl)
