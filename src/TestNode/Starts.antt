-- ===== src/TestNode/Starts.antt =====
-- Keys for the tests, and start messages as byte strings: their parts in order, each text behind
-- its length. A signature is the key in front of the bytes that it signs.
use rexa.Common.{
  ℕ, zero, suc, ◌≡◌, refl, Bool, true, false, Bytes, List, [], ◌∷◌, ◌++◌, length, Result, ok, err,
  ◌>>=◌, if◌then◌else◌, bytes_beq, same_refl, bytes_eq,
}
use rexa.TestNode.{node_of}
use rexa.TestNode.Frames.{frames, unframe, unframe-frame}
use rexa.Locator.{NodeLocator}
use rexa.Msg.{OpStartSession}
use rexa.Session.{Node}
use rexa.Handshake.{Keys}
use rexa.Handshake.Honest.{KeysLaws}

abbrev pub node : Node
node = node_of frames

abbrev put : Bytes → Bytes → Bytes
put t rest = length t ∷ (t ++ rest)

abbrev put_hints : List (Bytes × Bytes) → Bytes
put_hints [] = []
put_hints ((k, v) ∷ hints) = put k (put v (put_hints hints))

abbrev pub locator_bytes : NodeLocator → Bytes
locator_bytes loc = put loc.designator (put loc.transport (length loc.hints ∷ put_hints loc.hints))

abbrev start_value : OpStartSession ℕ Bytes → Bytes
start_value msg =
    msg.session_pubkey.ecc
    ∷ put msg.version
        (put msg.acceptable_location_sig.eddsa (locator_bytes msg.acceptable_location))

abbrev take_hints : ℕ → Bytes → Result Bool (List (Bytes × Bytes))
take_hints zero bytes = ok []
take_hints (suc n) bytes = unframe bytes >>= λ (k, b1).
    unframe b1 >>= λ (v, b2). take_hints n b2 >>= λ hints. ok ((k, v) ∷ hints)

abbrev counted_hints : Bytes → Result Bool (List (Bytes × Bytes))
counted_hints [] = err false
counted_hints (n ∷ bytes) = take_hints n bytes

abbrev take_locator : Bytes → Result Bool NodeLocator
take_locator bytes = unframe bytes >>= λ (d, b1). unframe b1 >>= λ (t, b2).
    counted_hints b2 >>= λ hints. ok (record { designator = d; transport = t; hints = hints })

abbrev take_start : Bytes → Result Bool (OpStartSession ℕ Bytes)
take_start [] = err false
take_start (key ∷ bytes) = unframe bytes >>= λ (v, b1). unframe b1 >>= λ (s, b2).
    take_locator b2 >>= λ loc. ok (record {
      version = v;
      session_pubkey = record { ecc = key };
      acceptable_location = loc;
      acceptable_location_sig = record { eddsa = s };
    })

take-put_hints :
    (hints : List (Bytes × Bytes)) → take_hints (length hints) (put_hints hints) ≡ ok hints
take-put_hints [] = refl
take-put_hints ((k, v) ∷ hints) =
    rw
      (
        unframe-frame k (put v (put_hints hints)),
        unframe-frame v (put_hints hints),
        take-put_hints hints,
      )
      refl

take-locator_bytes : (loc : NodeLocator) → take_locator (locator_bytes loc) ≡ ok loc
take-locator_bytes loc =
    rw
      (
        unframe-frame loc.designator (put loc.transport (length loc.hints ∷ put_hints loc.hints)),
        unframe-frame loc.transport (length loc.hints ∷ put_hints loc.hints),
        take-put_hints loc.hints,
      )
      refl

take-start_value : (msg : OpStartSession ℕ Bytes) → take_start (start_value msg) ≡ ok msg
take-start_value msg =
    rw
      (
        unframe-frame msg.version
            (put msg.acceptable_location_sig.eddsa (locator_bytes msg.acceptable_location)),
        unframe-frame msg.acceptable_location_sig.eddsa (locator_bytes msg.acceptable_location),
        take-locator_bytes msg.acceptable_location,
      )
      refl

abbrev pub keys : Keys node
keys = record {
  Sig = Bytes;
  SignatureError = Bool;
  sign = λ k bytes. k ∷ bytes;
  verifying_key = λ k. k;
  verify_strict = λ vk bytes sig. if bytes_beq sig (vk ∷ bytes) then ok tt else err true;
  locator_tokens = locator_bytes;
  start_tokens = start_value;
  decode_start = take_start;
}

pub keys_laws : KeysLaws node keys
keys_laws = record {
  tokenize-encode = unframe-frame;
  decode_start-tokens = take-start_value;
  verify-sign = λ k bytes. rw (same_refl {K = Bytes} (k ∷ bytes)) refl;
}
