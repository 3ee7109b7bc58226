-- ===== src/Netlayer/Mock/Pipes/Examples.antt =====
-- Two sides whose values are byte strings behind their length: short ones, and one that is too
-- long.
use mathlib.Core.List.{append-nil}
use rexa.Common.{
  ℕ, zero, suc, ◌≤◌, ◌<◌, ◌≡◌, ◌≢◌, refl, ap, ◌∙◌, ◌+◌, ◌++◌, true, none, Bytes, [], ◌∷◌, length,
  length-append, ok, err, arith, ◌⊎◌, inl,
}
use rexa.TestNode.Frames.{tokenizer, split, unframe}
use rexa.Netlayer.Mock.Pipes.{
  capacity, Pipes, PipesLaws, PipesTakeAll, Link, Step, Runs, opened, sending, ended, writes,
  left_moves, start, next,
}
use rexa.Netlayer.Mock.Pipes.Fit.{Fits}
use rexa.Netlayer.Mock.Pipes.Meet.{Met, sides_meet}
use rexa.Netlayer.Mock.Pipes.Long.{IsLong, long_never_arrives}

-- Pipes that take what there is room for, and give all that they hold.
abbrev pipes : Pipes
pipes = record {
  Accepts = λ held front rest.
      (length held + length front ≤ capacity)
      × ((rest ≡ []) ⊎ (length held + length front ≡ capacity));
  Yields = λ held got left. (got ≡ held) × (left ≡ []);
}

pipes_laws : PipesLaws pipes
pipes_laws = record {
  room = λ held front rest taken. taken.0;
  in_order = λ held got left given. (λ i. given.0 i ++ given.1 i) ∙ append-nil held;
}

pipes_greedy : PipesTakeAll pipes
pipes_greedy = record {
  greedy = λ held front rest taken. taken.1;
  accepts = λ bytes fits. (omega arith, inl refl);
  empties = λ held got left given. given.1;
  yields = λ b bytes fits. (refl, refl);
}

abbrev hello : Bytes
hello = 2 ∷ 7 ∷ 8 ∷ []

abbrev welcome : Bytes
welcome = 1 ∷ 9 ∷ []

hello_fits : Fits tokenizer hello (7 ∷ 8 ∷ [])
hello_fits = record {
  first = 2;
  others = 7 ∷ 8 ∷ [];
  nonempty = refl;
  room = omega arith;
  whole = refl;
}

welcome_fits : Fits tokenizer welcome (9 ∷ [])
welcome_fits = record {
  first = 1;
  others = 9 ∷ [];
  nonempty = refl;
  room = omega arith;
  whole = refl;
}

-- The left side has written.
abbrev said : Link tokenizer
said = record (opened tokenizer hello welcome) {
  left = record { pc = sending []; buffer = [] };
  to_right = hello;
}

says : Runs tokenizer pipes (opened tokenizer hello welcome) 1 said
says = next start (left_moves (writes 2 (7 ∷ 8 ∷ []) refl (omega arith, inl refl)))

sides_meet_example :
    (1 ≤ 11)
    × (Met tokenizer pipes pipes_laws pipes_greedy hello welcome
          (7 ∷ 8 ∷ [])
          (9 ∷ [])
          hello_fits
          welcome_fits
          said
        ⊎ ((l : Link tokenizer) × Step tokenizer pipes said l))
sides_meet_example =
    sides_meet tokenizer pipes pipes_laws pipes_greedy hello welcome (7 ∷ 8 ∷ []) (9 ∷ [])
      hello_fits welcome_fits says

zeros : ℕ → Bytes
zeros zero = []
zeros (suc n) = 0 ∷ zeros n

length-zeros : (n : ℕ) → length (zeros n) ≡ n
unfolding zeros
length-zeros zero = refl
length-zeros (suc n) = ap suc (length-zeros n)

split_short : (n : ℕ) (bytes : Bytes) → length bytes < n → split n bytes ≡ none
split_short zero bytes h = absurd (omega arith)
split_short (suc n) [] h = refl
split_short (suc n) (b ∷ bytes) h = ground (arith, split_short n bytes (omega arith))

unframe_short : (n : ℕ) (bytes : Bytes) → length bytes < n → unframe (n ∷ bytes) ≡ err true
unframe_short n bytes h = ground (arith, split_short n bytes h)

head_inj : {a b : ℕ} {xs ys : Bytes} → a ∷ xs ≡ b ∷ ys → (a ≡ b) × (xs ≡ ys)
head_inj e = (cc, cc)

framed_IsLong : (n : ℕ) → capacity ≤ n → IsLong tokenizer (n ∷ zeros n)
framed_IsLong n h = record {
  long = omega (arith, length-zeros n);
  fronts = λ b front c more e.
      let (same, others) = head_inj e in
      let short : length front < b =
        omega (arith, same, ap length others, length-append {0} front (c ∷ more), length-zeros n) in
      (true, unframe_short b front short, refl);
}

long_never_arrives_example : (opened tokenizer (1024 ∷ zeros 1024) welcome).right.pc ≢ ended (ok [])
long_never_arrives_example =
    long_never_arrives tokenizer pipes pipes_laws (1024 ∷ zeros 1024)
      (framed_IsLong 1024 (omega arith)) welcome (ok []) start
