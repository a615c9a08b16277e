-- ===== src/Common/Times.antt =====
-- Lists of numbers counted: how often a number stands in a list, and what moves it about.
use Prim.Native.Nat.{ℕ, zero, suc, ◌+◌, ◌<◌, ◌≤◌}
use mathlib.Core.Path.{◌≡◌, refl, ◌∙◌}
use mathlib.Core.Bool.{Bool}
use mathlib.Core.List.{List, [], ◌∷◌, ◌++◌}
use native.Mathlib.Omega.{arith}
use tabia_shogi_server.Common.Tests.{ltb, leb, ◌==◌, if◌then◌else◌}
use tabia_shogi_server.Common.Lists.{length, get_or, set, numbers, get_or-set, length-set}

-- 1 if a test holds, else 0.
abbrev pub one_if : Bool → ℕ
one_if b = if b then 1 else 0

unfoldable pub times : ℕ → List ℕ → ℕ
times a [] = 0
times a (x ∷ xs) = one_if (x == a) + times a xs

pub times-append : (a : ℕ) (xs ys : List ℕ) → times a (xs ++ ys) ≡ times a xs + times a ys
unfolding times
times-append a [] ys = omega arith
times-append a (x ∷ xs) ys = omega (arith, times-append a xs ys)

-- `Vec::remove`, but for the element removed; out of range nothing is removed.
unfoldable pub remove_at {ℓ} : {A : Type ℓ} → ℕ → List A → List A
remove_at i [] = []
remove_at zero (x ∷ xs) = xs
remove_at (suc i) (x ∷ xs) = x ∷ remove_at i xs

pub times-remove_at :
    (a i d : ℕ) (xs : List ℕ)
    → i < length xs
    → times a (remove_at i xs) + one_if (get_or xs i d == a) ≡ times a xs
unfolding times remove_at
times-remove_at a i d [] h = elim h [ ]
times-remove_at a zero d (x ∷ xs) h = omega arith
times-remove_at a (suc i) d (x ∷ xs) h = omega (arith, times-remove_at a i d xs)

pub length-remove_at {ℓ} :
    {A : Type ℓ} (i : ℕ) (xs : List A) → i < length xs → length (remove_at i xs) + 1 ≡ length xs
unfolding remove_at
length-remove_at i [] h = elim h [ ]
length-remove_at zero (x ∷ xs) h = omega arith
length-remove_at (suc i) (x ∷ xs) h = omega (arith, length-remove_at i xs)

-- `swap`
unfoldable pub swap {ℓ} : {A : Type ℓ} → A → ℕ → ℕ → List A → List A
swap d i j xs = set (set xs i (get_or xs j d)) j (get_or xs i d)

times-set :
    (a i v d : ℕ) (xs : List ℕ)
    → i < length xs
    → times a (set xs i v) + one_if (get_or xs i d == a) ≡ times a xs + one_if (v == a)
unfolding times
times-set a i v d [] h = elim h [ ]
times-set a zero v d (x ∷ xs) h = omega arith
times-set a (suc i) v d (x ∷ xs) h = omega (arith, times-set a i v d xs)

set-get_or :
    (xs : List ℕ) (i j d : ℕ)
    → i < length xs
    → get_or (set xs i (get_or xs j d)) j d ≡ get_or xs j d
set-get_or xs i j d h = ground (arith, get_or-set xs i j (get_or xs j d) d h)

pub times-swap :
    (a i j d : ℕ) (xs : List ℕ)
    → i < length xs
    → j < length xs
    → times a (swap d i j xs) ≡ times a xs
unfolding swap
times-swap a i j d xs hi hj =
    let first : List ℕ = set xs i (get_or xs j d) in
    let step =
      times-set a j (get_or xs i d) d first (omega (arith, length-set xs i (get_or xs j d))) in
    omega (arith, times-set a i (get_or xs j d) d xs hi, rw (set-get_or xs i j d hi) at step)

pub length-swap {ℓ} :
    {A : Type ℓ} (d : A) (i j : ℕ) (xs : List A) → length (swap d i j xs) ≡ length xs
unfolding swap
length-swap d i j xs =
    length-set (set xs i (get_or xs j d)) j (get_or xs i d) ∙ length-set xs i (get_or xs j d)

-- `sort_unstable`, as an insertion sort: of numbers, any two sorts agree.
unfoldable pub insert : ℕ → List ℕ → List ℕ
insert a [] = a ∷ []
insert a (x ∷ xs) = let later = insert a xs in if leb a x then a ∷ x ∷ xs else x ∷ later

unfoldable pub sort : List ℕ → List ℕ
unfolding insert
sort [] = []
sort (x ∷ xs) = insert x (sort xs)

times-insert : (a b : ℕ) (xs : List ℕ) → times a (insert b xs) ≡ one_if (b == a) + times a xs
unfolding times insert
times-insert a b [] = refl
times-insert a b (x ∷ xs) = ground (arith, times-insert a b xs)

pub times-sort : (a : ℕ) (xs : List ℕ) → times a (sort xs) ≡ times a xs
unfolding times sort
times-sort a [] = refl
times-sort a (x ∷ xs) = omega (arith, times-insert a x (sort xs), times-sort a xs)

-- No element is below the one before it.
abbrev pub IsFrom : ℕ → List ℕ → Type 0
IsFrom a [] = Unit
IsFrom a (x ∷ xs) = (a ≤ x) × IsFrom x xs

abbrev pub IsSorted : List ℕ → Type 0
IsSorted [] = Unit
IsSorted (x ∷ xs) = IsFrom x xs

insert-IsFrom : (a b : ℕ) (xs : List ℕ) → a ≤ b → IsFrom a xs → IsFrom a (insert b xs)
unfolding insert
insert-IsFrom a b [] h s = (h, tt)
insert-IsFrom a b (x ∷ xs) h s = ground (arith, insert-IsFrom x b xs)

insert-IsSorted : (b : ℕ) (xs : List ℕ) → IsSorted xs → IsSorted (insert b xs)
unfolding insert
insert-IsSorted b [] s = tt
insert-IsSorted b (x ∷ xs) s = ground (arith, insert-IsFrom x b xs)

pub sort-IsSorted : (xs : List ℕ) → IsSorted (sort xs)
unfolding sort
sort-IsSorted [] = tt
sort-IsSorted (x ∷ xs) = insert-IsSorted x (sort xs) (sort-IsSorted xs)

-- The indices of a list of a length, once each.
pub times-numbers :
    (a first count : ℕ)
    → times a (numbers first count) ≡ (if leb first a then one_if (ltb a (first + count)) else 0)
unfolding times numbers
times-numbers a first zero = ground arith
times-numbers a first (suc count) = ground (arith, times-numbers a (first + 1) count)
