-- ===== src/Base/Lists.antt =====
-- Lists measured by native numbers and searched by Boolean tests.
use Prim.Native.Nat.{ℕ, zero, suc, ◌+◌}
use Prim.Native.Char.{code}
use Prim.Native.String.{String}
use mathlib.Core.Path.{◌≡◌, refl}
use mathlib.Core.Logic.{◌≢◌, inl, inr}
use mathlib.Core.Bool.{Bool, true, false, ◌||◌}
use mathlib.Core.List.{List, [], ◌∷◌, ◌++◌}
use mathlib.Core.Option.{Option, none, some}
use native.Mathlib.Omega.{arith}
use dappctrl.Base.Tests.{Bool-cases, if◌then◌else◌, ◌==◌}

-- The code points of a text, its bytes if it is ASCII.
abbrev pub codes : String → List ℕ
codes String.[] = []
codes (String.◌∷◌ c s) = code c ∷ codes s

module _ {ℓ} {A : Type ℓ} where
  abbrev pub length : List A → ℕ
  length [] = 0
  length (x ∷ xs) = suc (length xs)

  pub length-append : (xs ys : List A) → length (xs ++ ys) ≡ length xs + length ys
  length-append [] ys = omega arith
  length-append (x ∷ xs) ys = omega (arith, length-append xs ys)

  abbrev pub get_elem? : List A → ℕ → Option A
  get_elem? [] i = none
  get_elem? (x ∷ xs) zero = some x
  get_elem? (x ∷ xs) (suc i) = get_elem? xs i

  -- The first element that passes a test.
  unfoldable pub find? : (A → Bool) → List A → Option A
  find? p [] = none
  find? p (x ∷ xs) = if p x then some x else find? p xs

  -- The elements that pass a test, in order.
  unfoldable pub select : (A → Bool) → List A → List A
  select p [] = []
  select p (x ∷ xs) = let rest = select p xs in if p x then x ∷ rest else rest

  unfoldable pub any : (A → Bool) → List A → Bool
  any p [] = false
  any p (x ∷ xs) = p x || any p xs

  -- How many elements pass a test.
  unfoldable pub count_where : (A → Bool) → List A → ℕ
  count_where p [] = 0
  count_where p (x ∷ xs) = (if p x then 1 else 0) + count_where p xs

  -- Every element that passes the test is replaced.
  unfoldable pub update_where : (A → Bool) → (A → A) → List A → List A
  update_where p f [] = []
  update_where p f (x ∷ xs) = (if p x then f x else x) ∷ update_where p f xs

  -- A predicate of every element.
  abbrev pub All {κ} : (A → Type κ) → List A → Type κ
  All P [] = Unit
  All P (x ∷ xs) = P x × All P xs

module _ {ℓ} {A : Type ℓ} where
  pub find?-sound : (p : A → Bool) (xs : List A) (x : A) → find? p xs ≡ some x → p x ≡ true
  unfolding find?
  find?-sound p [] x h = cc
  find?-sound p (y ∷ xs) x h = ground (arith, find?-sound p xs x)

  pub select-any-false : (p : A → Bool) (xs : List A) → any p xs ≡ false → select p xs ≡ []
  unfolding any select
  select-any-false p [] h = refl
  select-any-false p (x ∷ xs) h = ground (arith, select-any-false p xs)

  -- An update after which the test fails leaves nothing to select.
  pub select-update_where :
      (p : A → Bool) (f : A → A) (xs : List A)
      → ((x : A) → p (f x) ≡ false)
      → select p (update_where p f xs) ≡ []
  unfolding select update_where
  select-update_where p f [] h = refl
  select-update_where p f (x ∷ xs) h = ground (arith, select-update_where p f xs h, h x)

  pub any-implies :
      (p q : A → Bool) (xs : List A)
      → ((x : A) → q x ≡ true → p x ≡ true)
      → any p xs ≡ false
      → any q xs ≡ false
  unfolding any
  any-implies p q [] h e = refl
  any-implies p q (x ∷ xs) h e = ground (arith, any-implies p q xs h, h x)

  -- What an update by key wrote is found again.
  pub find?-update_where :
      (p : A → Bool) (y : A) (xs : List A)
      → any p xs ≡ true
      → p y ≡ true
      → find? p (update_where p (λ _. y) xs) ≡ some y
  unfolding find? any update_where
  find?-update_where p y [] h k = cc
  find?-update_where p y (x ∷ xs) h k = ground (arith, find?-update_where p y xs)

  -- An update by another key leaves what is found by this one.
  pub find?-update_where-other :
      (p q : A → Bool) (y : A) (xs : List A)
      → ((x : A) → p x ≡ true → q x ≡ false)
      → q y ≡ false
      → find? q (update_where p (λ _. y) xs) ≡ find? q xs
  unfolding find? update_where
  find?-update_where-other p q y [] h k = refl
  find?-update_where-other p q y (x ∷ xs) h k =
      ground (arith, find?-update_where-other p q y xs h k, h x)

  pub length-select-any :
      (p : A → Bool) (xs : List A) → (length (select p xs) == 0) ≡ false → any p xs ≡ true
  unfolding any select
  length-select-any p [] h = cc
  length-select-any p (x ∷ xs) h = ground (arith, length-select-any p xs)

  -- An update that finds no row changes nothing.
  pub update_where-count_zero :
      (p : A → Bool) (f : A → A) (xs : List A) → count_where p xs ≡ 0 → update_where p f xs ≡ xs
  unfolding count_where update_where
  update_where-count_zero p f [] h = refl
  update_where-count_zero p f (x ∷ xs) h = ground (arith, update_where-count_zero p f xs)

  -- What is counted is found.
  pub find?-count_where :
      (p : A → Bool) (xs : List A)
      → count_where p xs ≢ 0
      → (x : A) × (find? p xs ≡ some x) × (p x ≡ true)
  unfolding count_where find?
  find?-count_where p [] h = absurd (h refl)
  find?-count_where p (x ∷ xs) h = elim (Bool-cases (p x)) [
    | inl e ↦ (x, rw e, e)
    | inr e ↦ let (y, f, t) = find?-count_where p xs (λ z. h (ground arith)) in (y, rw e f, t)
  ]

  pub find?-any : (p : A → Bool) (xs : List A) (x : A) → find? p xs ≡ some x → any p xs ≡ true
  unfolding find? any
  find?-any p [] x e = cc
  find?-any p (y ∷ xs) x e = ground (arith, find?-any p xs x)
