-- ===== src/Prelude/Lists.antt =====
-- Lists over the native numbers, under the library's names, and predicates by recursion.
use Prim.Native.Nat.{ℕ, zero, suc, ◌+◌}
use mathlib.Core.Path.{◌≡◌, refl}
use mathlib.Core.Bool.{Bool, true, false, ◌&&◌}
use mathlib.Core.List.{List, [], ◌∷◌, ◌++◌, map}
use native.Mathlib.Omega.{arith}
use psc_mock_server.Prelude.Tests.{if◌then◌else◌}

both_true : (a b : Bool) → (a && b) ≡ true → (a ≡ true) × (b ≡ true)
both_true a b h = ground arith

module _ {ℓ} {A : Type ℓ} where
  abbrev pub length : List A → ℕ
  length [] = 0
  length (x ∷ xs) = suc (length xs)

  abbrev pub take : ℕ → List A → List A
  take zero xs = []
  take (suc n) [] = []
  take (suc n) (x ∷ xs) = x ∷ take n xs

  abbrev pub drop : ℕ → List A → List A
  drop zero xs = xs
  drop (suc n) [] = []
  drop (suc n) (x ∷ xs) = drop n xs

  pub length-append : (xs ys : List A) → length (xs ++ ys) ≡ length xs + length ys
  length-append [] ys = omega arith
  length-append (x ∷ xs) ys = omega (arith, length-append xs ys)

  pub take-append : (xs ys : List A) → take (length xs) (xs ++ ys) ≡ xs
  take-append [] ys = refl
  take-append (x ∷ xs) ys = rw (take-append xs ys)

  pub drop-append : (xs ys : List A) → drop (length xs) (xs ++ ys) ≡ ys
  drop-append [] ys = refl
  drop-append (x ∷ xs) ys = drop-append xs ys

  -- The elements that pass a Boolean test, in order.
  abbrev pub select : (A → Bool) → List A → List A
  select p [] = []
  select p (x ∷ xs) = let rest = select p xs in if p x then x ∷ rest else rest

  -- Every element satisfies a predicate.
  abbrev pub All {κ} : (A → Type κ) → List A → Type κ
  All P [] = Unit
  All P (x ∷ xs) = P x × All P xs

  -- Some element is the given one.
  pub data Member (a : A) : List A → Type ℓ where
    here : {xs : List A} → Member a (a ∷ xs)
    there : {x : A} {xs : List A} → Member a xs → Member a (x ∷ xs)

  abbrev pub is_empty : List A → Bool
  is_empty [] = true
  is_empty (x ∷ xs) = false

  pub Member-append : {a : A} (xs ys : List A) → Member a ys → Member a (xs ++ ys)
  Member-append [] ys m = m
  Member-append (x ∷ xs) ys m = there (Member-append xs ys m)

  pub Member-append_left : {a : A} (xs ys : List A) → Member a xs → Member a (xs ++ ys)
  Member-append_left [] ys m = elim m [ ]
  Member-append_left (x ∷ xs) ys here = here
  Member-append_left (x ∷ xs) ys (there m) = there (Member-append_left xs ys m)

  pub All-append {κ} :
      (F : A → Type κ) (front back : List A) → All F front → All F back → All F (front ++ back)
  All-append F [] back a b = b
  All-append F (x ∷ front) back a b = (a.0, All-append F front back a.1 b)

  pub All-Member {κ} : (P : A → Type κ) (xs : List A) → ((x : A) → Member x xs → P x) → All P xs
  All-Member P [] h = tt
  All-Member P (x ∷ xs) h = (h x here, All-Member P xs (λ y m. h y (there m)))

  -- Every element passes a Boolean test.
  abbrev pub every : (A → Bool) → List A → Bool
  every test [] = true
  every test (x ∷ xs) = test x && every test xs

  pub every-Member :
      (test : A → Bool) (xs : List A) (x : A) → every test xs ≡ true → Member x xs → test x ≡ true
  every-Member test [] x h m = elim m [ ]
  every-Member test (y ∷ xs) x h here = (both_true (test y) (every test xs) h).0
  every-Member test (y ∷ xs) x h (there m) =
      every-Member test xs x (both_true (test y) (every test xs) h).1 m

module _ {ℓ κ} {A : Type ℓ} {B : Type κ} where
  pub Member-map : {a : A} (g : A → B) (xs : List A) → Member a xs → Member (g a) (map g xs)
  Member-map g [] m = elim m [ ]
  Member-map g (x ∷ xs) here = here
  Member-map g (x ∷ xs) (there m) = there (Member-map g xs m)
