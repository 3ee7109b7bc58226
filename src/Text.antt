-- ===== src/Text.antt =====
-- The functions of Rust's `str` that the crate calls, on text as its bytes.
use rexa.Common.{
  ℕ, ◌+◌, ◌≡◌, refl, Bool, true, false, ◌&&◌, ◌||◌, Option, none, some, Bytes, List, [], ◌∷◌, ◌++◌,
  nat_beq, leb, arith, if◌then◌else◌, Bool-cases, Option-cases, inl, inr,
}

abbrev pub has : ℕ → Bytes → Bool
has c [] = false
has c (b ∷ bytes) = nat_beq b c || has c bytes

-- `str::split`
abbrev pub extend : ℕ → List Bytes → List Bytes
extend b [] = (b ∷ []) ∷ []
extend b (part ∷ parts) = (b ∷ part) ∷ parts

abbrev pub split : ℕ → Bytes → List Bytes
split c [] = [] ∷ []
split c (b ∷ bytes) = let rest = split c bytes in if nat_beq b c then [] ∷ rest else extend b rest

abbrev before : ℕ → Option (Bytes × Bytes) → Option (Bytes × Bytes)
before b none = none
before b (some (x, y)) = some (b ∷ x, y)

-- `str::split_once`, at the first `c`.
abbrev pub split_once : ℕ → Bytes → Option (Bytes × Bytes)
split_once c [] = none
split_once c (b ∷ bytes) =
    let rest = split_once c bytes in if nat_beq b c then some ([], bytes) else before b rest

abbrev last_or : ℕ → ℕ → Bytes → Option (Bytes × Bytes) → Option (Bytes × Bytes)
last_or c b bytes none = if nat_beq b c then some ([], bytes) else none
last_or c b bytes (some found) = before b (some found)

-- `str::rsplit_once`, at the last `c`.
abbrev pub rsplit_once : ℕ → Bytes → Option (Bytes × Bytes)
rsplit_once c [] = none
rsplit_once c (b ∷ bytes) = last_or c b bytes (rsplit_once c bytes)

abbrev lower : ℕ → ℕ
lower b = if leb 65 b && leb b 90 then b + 32 else b

abbrev pub eq_ignore_ascii_case : Bytes → Bytes → Bool
eq_ignore_ascii_case [] [] = true
eq_ignore_ascii_case [] (y ∷ ys) = false
eq_ignore_ascii_case (x ∷ xs) [] = false
eq_ignore_ascii_case (x ∷ xs) (y ∷ ys) = nat_beq (lower x) (lower y) && eq_ignore_ascii_case xs ys

-- `strip_prefix`, with which `starts_with` and the slice behind the prefix go together.
abbrev pub strip_prefix : Bytes → Bytes → Option Bytes
strip_prefix [] ys = some ys
strip_prefix (x ∷ xs) [] = none
strip_prefix (x ∷ xs) (y ∷ ys) = let rest = strip_prefix xs ys in if nat_beq x y then rest else none

split_parts : (c : ℕ) (xs : Bytes) → (p : Bytes) × (ps : List Bytes) × (split c xs ≡ p ∷ ps)
split_parts c [] = ([], [], refl)
split_parts c (x ∷ xs) = elim (Bool-cases (nat_beq x c)) [
  | inl e ↦ ([], split c xs, rw e refl)
  | inr e ↦ let (p, ps, h) = split_parts c xs in (x ∷ p, ps, rw (e, h) refl)
]

pub split-append : (c : ℕ) (xs ys : Bytes) → split c (xs ++ c ∷ ys) ≡ split c xs ++ split c ys
split-append c [] ys = ground arith
split-append c (x ∷ xs) ys =
    let (p, ps, e) = split_parts c xs in rw (split-append c xs ys, e) (ground arith)

pub split_free : (c : ℕ) (xs : Bytes) → has c xs ≡ false → split c xs ≡ xs ∷ []
split_free c [] h = refl
split_free c (x ∷ xs) h = ground (arith, split_free c xs)

pub split_once-append :
    (c : ℕ) (xs ys : Bytes) → has c xs ≡ false → split_once c (xs ++ c ∷ ys) ≡ some (xs, ys)
split_once-append c [] ys h = ground arith
split_once-append c (x ∷ xs) ys h = ground (arith, split_once-append c xs ys)

pub rsplit_once_free : (c : ℕ) (xs : Bytes) → has c xs ≡ false → rsplit_once c xs ≡ none
rsplit_once_free c [] h = refl
rsplit_once_free c (x ∷ xs) h = ground (arith, rsplit_once_free c xs)

pub rsplit_once-append :
    (c : ℕ) (xs ys : Bytes) → has c ys ≡ false → rsplit_once c (xs ++ c ∷ ys) ≡ some (xs, ys)
rsplit_once-append c [] ys h = ground (arith, rsplit_once_free c ys)
rsplit_once-append c (x ∷ xs) ys h = rw (rsplit_once-append c xs ys h) refl

pub rsplit_once-none : (c : ℕ) (xs : Bytes) → rsplit_once c xs ≡ none → has c xs ≡ false
rsplit_once-none c [] h = refl
rsplit_once-none c (x ∷ xs) h = elim (Option-cases (rsplit_once c xs)) [
  | inl e ↦ ground (arith, rsplit_once-none c xs e)
  | inr (found, e) ↦ ground arith
]

pub rsplit_once-some :
    (c : ℕ) (xs front back : Bytes)
    → rsplit_once c xs ≡ some (front, back)
    → (xs ≡ front ++ c ∷ back) × (has c back ≡ false)
rsplit_once-some c [] front back h = cc
rsplit_once-some c (x ∷ xs) front back h = elim (Option-cases (rsplit_once c xs)) [
  | inl e ↦ ground (arith, rsplit_once-none c xs e)
  | inr ((a, b), e) ↦ ground (arith, rsplit_once-some c xs a b e)
]
