-- ===== src/Prelude/Lists.antt =====
-- Lists measured by native numbers, and Boolean searches through lists.
use Prim.Native.Nat.{ℕ, suc, ◌+◌}
use Prim.Native.String.{String}
use mathlib.Core.Path.{◌≡◌, refl}
use mathlib.Core.Bool.{Bool, true, false, ◌&&◌, ◌||◌}
use mathlib.Core.Option.{Option, none, some}
use mathlib.Core.List.{List, [], ◌∷◌, ◌++◌}
use native.Mathlib.Omega.{arith}
use text.Mathlib.TextEquality.{eq_iff}
use synora_agentic_erp.Prelude.Tests.{text?_eq, ◌==◌, if◌then◌else◌}

module _ {ℓ} {A : Type ℓ} where
  abbrev pub length : List A → ℕ
  length [] = 0
  length (x ∷ xs) = suc (length xs)

  -- any(p(x) for x in xs)
  abbrev pub any : (A → Bool) → List A → Bool
  any p [] = false
  any p (x ∷ xs) = p x || any p xs

  -- all(p(x) for x in xs)
  abbrev pub all : (A → Bool) → List A → Bool
  all p [] = true
  all p (x ∷ xs) = p x && all p xs

  -- next((x for x in xs if p(x)), None)
  abbrev pub find? : (A → Bool) → List A → Option A
  find? p [] = none
  find? p (x ∷ xs) = if p x then some x else find? p xs

  abbrev pub filter : (A → Bool) → List A → List A
  filter p [] = []
  filter p (x ∷ xs) = if p x then x ∷ filter p xs else filter p xs

  pub length-append : (xs ys : List A) → length (xs ++ ys) ≡ length xs + length ys
  length-append [] ys = omega arith
  length-append (x ∷ xs) ys = omega (arith, length-append xs ys)

-- x in xs
abbrev pub elem : String → List String → Bool
elem x [] = false
elem x (y ∷ ys) = y == x || elem x ys

-- set(xs) <= set(ys)
abbrev pub subset : List String → List String → Bool
subset [] ys = true
subset (x ∷ xs) ys = elem x ys && subset xs ys

-- len(set(xs)) == len(xs)
abbrev pub distinct : List String → Bool
distinct [] = true
distinct (x ∷ xs) = if elem x xs then false else distinct xs

pub elem-subset :
    (x : String) (xs ys : List String) → subset xs ys ≡ true → elem x xs ≡ true → elem x ys ≡ true
elem-subset x [] ys h e = ground arith
elem-subset x (y ∷ xs) ys h e = ground (arith, eq_iff y x, elem-subset x xs ys)

pub subset_mono :
    (xs ys zs : List String)
    → ((x : String) → elem x ys ≡ true → elem x zs ≡ true)
    → subset xs ys ≡ true
    → subset xs zs ≡ true
subset_mono [] ys zs m h = refl
subset_mono (x ∷ xs) ys zs m h = ground (arith, m x, subset_mono xs ys zs m)

pub text?_eq-eq : (a b : Option String) → text?_eq a b ≡ true → a ≡ b
text?_eq-eq none none h = refl
text?_eq-eq none (some b) h = ground arith
text?_eq-eq (some a) none h = ground arith
text?_eq-eq (some a) (some b) h = ground (arith, eq_iff a b)
