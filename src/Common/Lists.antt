-- ===== src/Common/Lists.antt =====
-- Lists measured by native numbers, tests on lists, and the table operations of the SQL statements.
use Prim.Native.Nat.{ℕ, zero, suc, ◌+◌}
use mathlib.Core.Path.{◌≡◌, refl, ap}
use mathlib.Core.Bool.{Bool, true, false, ◌&&◌, ◌||◌}
use mathlib.Core.List.{List, [], ◌∷◌, ◌++◌}
use mathlib.Core.Option.{Option, none, some}
use native.Mathlib.Omega.{arith}
use zatca_integration.Common.Tests.{if◌then◌else◌}

module _ {ℓ} {A : Type ℓ} where
  abbrev pub length : List A → ℕ
  length [] = 0
  length (x ∷ xs) = suc (length xs)

  abbrev pub All {κ} : (A → Type κ) → List A → Type κ
  All P [] = Unit {κ}
  All P (x ∷ xs) = P x × All P xs

  abbrev pub take : ℕ → List A → List A
  take zero xs = []
  take (suc n) [] = []
  take (suc n) (x ∷ xs) = x ∷ take n xs

  abbrev pub drop : ℕ → List A → List A
  drop zero xs = xs
  drop (suc n) [] = []
  drop (suc n) (x ∷ xs) = drop n xs

  abbrev pub any : (A → Bool) → List A → Bool
  any p [] = false
  any p (x ∷ xs) = p x || any p xs

  abbrev pub all : (A → Bool) → List A → Bool
  all p [] = true
  all p (x ∷ xs) = p x && all p xs

  -- the first row that a WHERE clause selects
  abbrev pub find_row : (A → Bool) → List A → Option A
  find_row p [] = none
  find_row p (x ∷ xs) = if p x then some x else find_row p xs

  -- UPDATE: every row that the WHERE clause selects
  abbrev pub update_rows : (A → Bool) → (A → A) → List A → List A
  update_rows p f [] = []
  update_rows p f (x ∷ xs) = (if p x then f x else x) ∷ update_rows p f xs

  pub length-append : (xs ys : List A) → length (xs ++ ys) ≡ length xs + length ys
  length-append [] ys = omega arith
  length-append (x ∷ xs) ys = omega (arith, length-append xs ys)

  pub take-length-append : (xs ys : List A) → take (length xs) (xs ++ ys) ≡ xs
  take-length-append [] ys = refl
  take-length-append (x ∷ xs) ys = ap (λ t. x ∷ t) (take-length-append xs ys)

  pub drop-length-append : (xs ys : List A) → drop (length xs) (xs ++ ys) ≡ ys
  drop-length-append [] ys = refl
  drop-length-append (x ∷ xs) ys = drop-length-append xs ys

-- the row after an UPDATE
abbrev pub changed {ℓ} : {A : Type ℓ} → (A → A) → Option A → Option A
changed f none = none
changed f (some x) = some (f x)

-- An UPDATE by a key that it keeps changes the row that the key finds.
pub find_row-update_rows {ℓ} :
    {A : Type ℓ} (p : A → Bool) (f : A → A) (xs : List A)
    → ((x : A) → p (f x) ≡ p x)
    → find_row p (update_rows p f xs) ≡ changed f (find_row p xs)
find_row-update_rows p f [] h = refl
find_row-update_rows p f (x ∷ xs) h = ground (arith, h x, find_row-update_rows p f xs h)

abbrev pub changed_if {ℓ} : {A : Type ℓ} → (A → Bool) → (A → A) → Option A → Option A
changed_if p f none = none
changed_if p f (some x) = some (if p x then f x else x)

-- An UPDATE by `p`, seen through another key `q` that it keeps.
pub find_row-update_rows_if {ℓ} :
    {A : Type ℓ} (p q : A → Bool) (f : A → A) (xs : List A)
    → ((x : A) → q (f x) ≡ q x)
    → find_row q (update_rows p f xs) ≡ changed_if p f (find_row q xs)
find_row-update_rows_if p q f [] h = refl
find_row-update_rows_if p q f (x ∷ xs) h = ground (arith, h x, find_row-update_rows_if p q f xs h)

pub find_row_sound {ℓ} :
    {A : Type ℓ} (p : A → Bool) (xs : List A) (x : A) → find_row p xs ≡ some x → p x ≡ true
find_row_sound p [] x e = cc
find_row_sound p (y ∷ ys) x e = ground (arith, find_row_sound p ys x)
