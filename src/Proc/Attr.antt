-- ===== src/Proc/Attr.antt =====
-- lib/rexa-proc/src/attr.rs: flags and properties of attributes, parsed from tokens and printed to
-- them. syn's parsers of single tokens are the parameter `Stream`; spans are left out.
use rexa.Common.{
  ◌≡◌, Bool, true, false, Bytes, List, [], ◌∷◌, ◌++◌, Result, ok, err, ◌>>=◌, arith, if◌then◌else◌,
  Bool-cases, inl, inr,
}

pub record Stream : Type 1 where
  pub Token : Type 0
  pub Error : Type 0
  -- `parse::<Ident>()`, `parse::<Token![=]>()` and `parse::<LitBool>()`: on an error nothing is
  -- taken.
  pub parse_ident : List Token → Result Error (Bytes × List Token)
  pub parse_eq : List Token → Result Error (List Token)
  pub parse_bool : List Token → Result Error (Bool × List Token)
  -- What `to_tokens` appends for each.
  pub ident_token : Bytes → Token
  pub eq_token : Token
  pub bool_token : Bool → Token
  -- `syn::Error::new_spanned` with a message.
  pub new_error : Bytes → Error

-- Each parser reads back the token of its kind. Of identifiers this holds where they are no
-- keywords.
pub record StreamLaws (str : Stream) (IsIdent : Bytes → Type 0) : Type 0 where
  pub parse_ident-token :
      (ident : Bytes) (rest : List str.Token)
      → IsIdent ident
      → str.parse_ident (str.ident_token ident ∷ rest) ≡ ok (ident, rest)
  pub parse_eq-token : (rest : List str.Token) → str.parse_eq (str.eq_token ∷ rest) ≡ ok rest
  pub parse_bool-token :
      (b : Bool) (rest : List str.Token) → str.parse_bool (str.bool_token b ∷ rest) ≡ ok (b, rest)

module _ (str : Stream) where
  open str use {Token, Error, parse_ident, parse_eq, parse_bool, ident_token, eq_token, bool_token}

  -- `eq` is whether the flag was written with a value.
  pub record AttrFlag : Type 0 where
    pub ident : Bytes
    pub eq : Bool
    pub value : Bool

  abbrev with_value : Bytes → Bool × List Token → AttrFlag × List Token
  with_value ident (value, rest) = (record { ident = ident; eq = true; value = value }, rest)

  abbrev flag_value :
      Bytes → List Token → Result Error (List Token) → Result Error (AttrFlag × List Token)
  flag_value ident tokens (err e) = ok (record { ident = ident; eq = false; value = true }, tokens)
  flag_value ident tokens (ok rest) = parse_bool rest >>= λ got. ok (with_value ident got)

  unfoldable pub parse_flag : List Token → Result Error (AttrFlag × List Token)
  parse_flag tokens = parse_ident tokens >>= λ (ident, rest). flag_value ident rest (parse_eq rest)

  unfoldable pub flag_tokens : AttrFlag → List Token
  flag_tokens flag =
      ident_token flag.ident ∷ (if flag.eq then eq_token ∷ bool_token flag.value ∷ [] else [])

  pub record AttrProperty (Right : Type 0) : Type 0 where
    pub ident : Bytes
    pub right : Right

  module _ {Right : Type 0} where
    unfoldable pub parse_property :
        (List Token → Result Error (Right × List Token))
        → List Token
        → Result Error (AttrProperty Right × List Token)
    parse_property parse_right tokens = parse_ident tokens >>= λ (ident, rest).
        parse_eq rest >>= λ rest'. parse_right rest' >>= λ (right, rest'').
        ok (record { ident = ident; right = right }, rest'')

    unfoldable pub property_tokens : (Right → List Token) → AttrProperty Right → List Token
    property_tokens right_tokens property =
        ident_token property.ident ∷ eq_token ∷ right_tokens property.right

module _ (str : Stream) (IsIdent : Bytes → Type 0) (laws : StreamLaws str IsIdent) where
  -- A flag is read back from its tokens with what follows them left, unless it was written without
  -- a value and a `=` follows.
  pub parse_flag-tokens :
      (flag : AttrFlag str) (rest : List str.Token) (e : str.Error)
      → IsIdent flag.ident
      → (flag.eq ≡ false → (flag.value ≡ true) × (str.parse_eq rest ≡ err e))
      → parse_flag str (flag_tokens str flag ++ rest) ≡ ok (flag, rest)
  unfolding parse_flag flag_tokens
  parse_flag-tokens flag rest e ident bare = elim (Bool-cases flag.eq) [
    | inl h ↦ ground (
      arith,
      laws.parse_ident-token flag.ident (str.eq_token ∷ str.bool_token flag.value ∷ rest) ident,
      laws.parse_eq-token (str.bool_token flag.value ∷ rest),
      laws.parse_bool-token flag.value rest,
    )
    | inr h ↦
        let (value, none_follows) = bare h in
        ground (arith, laws.parse_ident-token flag.ident rest ident)
  ]

  -- A property is read back from its tokens, with what follows them left, if its right side is.
  pub parse_property-tokens :
      {Right : Type 0} (parse_right : List str.Token → Result str.Error (Right × List str.Token))
      (right_tokens : Right → List str.Token) (property : AttrProperty str Right)
      (rest : List str.Token)
      → IsIdent property.ident
      → parse_right (right_tokens property.right ++ rest) ≡ ok (property.right, rest)
      → parse_property str parse_right (property_tokens str right_tokens property ++ rest)
        ≡ ok (property, rest)
  unfolding parse_property property_tokens
  parse_property-tokens parse_right right_tokens property rest ident right = ground (
    arith,
    laws.parse_ident-token property.ident (str.eq_token ∷ (right_tokens property.right ++ rest))
        ident,
    laws.parse_eq-token (right_tokens property.right ++ rest),
    right,
  )
