-- ===== src/Common/Lists.antt =====
-- Lists indexed and searched as the source does it, over the native numbers.
use Prim.Native.Nat.{ℕ, zero, suc, ◌+◌, ◌<◌, ◌≤◌}
use mathlib.Core.Path.{◌≡◌, refl, ap, subst, sym, ◌∙◌}
use mathlib.Core.Logic.{◌⊎◌, inl, inr}
use mathlib.Core.Bool.{Bool, true, false, ◌&&◌, ◌||◌}
use mathlib.Core.Option.{Option, none, some}
use mathlib.Core.List.{List, [], ◌∷◌, ◌++◌, Memᴰ}
use native.Mathlib.Omega.{arith}
use tabia_shogi_server.Common.Tests.{if◌then◌else◌, ◌==◌}

module _ {ℓ} {A : Type ℓ} where
  abbrev pub length : List A → ℕ
  length [] = 0
  length (x ∷ xs) = suc (length xs)

  abbrev pub get_or : List A → ℕ → A → A
  get_or [] i d = d
  get_or (x ∷ xs) zero d = x
  get_or (x ∷ xs) (suc i) d = get_or xs i d

  -- A write out of bounds changes nothing; the source never makes one.
  abbrev pub set : List A → ℕ → A → List A
  set [] i v = []
  set (x ∷ xs) zero v = v ∷ xs
  set (x ∷ xs) (suc i) v = x ∷ set xs i v

  abbrev pub replicate : ℕ → A → List A
  replicate zero a = []
  replicate (suc n) a = a ∷ replicate n a

  abbrev pub snoc : List A → A → List A
  snoc xs a = xs ++ a ∷ []

  -- `Iterator::any`
  unfoldable pub any : (A → Bool) → List A → Bool
  any f [] = false
  any f (x ∷ xs) = let rest = any f xs in f x || rest

  -- `Iterator::all`
  unfoldable pub all : (A → Bool) → List A → Bool
  all f [] = true
  all f (x ∷ xs) = let rest = all f xs in f x && rest

  -- `Iterator::find`
  unfoldable pub find : (A → Bool) → List A → Option A
  find f [] = none
  find f (x ∷ xs) = let rest = find f xs in if f x then some x else rest

module _ {ℓ} {A : Type ℓ} where
  pub any_intro : (f : A → Bool) {x : A} {xs : List A} → Memᴰ x xs → f x ≡ true → any f xs ≡ true
  unfolding any
  any_intro f (Memᴰ.head e) h = ground (arith, e, ap f e)
  any_intro f (Memᴰ.tail m) h = ground (arith, any_intro f m h)

  pub any_elim : (f : A → Bool) (xs : List A) → any f xs ≡ true → (x : A) × Memᴰ x xs × (f x ≡ true)
  unfolding any
  any_elim f [] h = ground arith
  any_elim f (x ∷ xs) h = go (f x) refl (any_elim f xs)
    where
      go :
          (b : Bool)
          → f x ≡ b
          → (any f xs ≡ true → (y : A) × Memᴰ y xs × (f y ≡ true))
          → (y : A) × Memᴰ y (x ∷ xs) × (f y ≡ true)
      go true e later = (x, Memᴰ.head refl, e)
      go false e later = let (y, m, fy) = later (ground arith) in (y, Memᴰ.tail m, fy)

  pub all_elim : (f : A → Bool) {x : A} {xs : List A} → Memᴰ x xs → all f xs ≡ true → f x ≡ true
  unfolding all
  all_elim f (Memᴰ.head {xs = xs} e) h = ground (arith, e, ap f e)
  all_elim f (Memᴰ.tail {x = y} {xs = xs} m) h = all_elim f m (ground arith)

  pub find-some :
      (f : A → Bool) (xs : List A) {x : A} → find f xs ≡ some x → Memᴰ x xs × (f x ≡ true)
  unfolding find
  find-some f [] h = ground arith
  find-some f (y ∷ xs) {x} h = go (f y) refl (find-some f xs)
    where
      go :
          (b : Bool)
          → f y ≡ b
          → (find f xs ≡ some x → Memᴰ x xs × (f x ≡ true))
          → Memᴰ x (y ∷ xs) × (f x ≡ true)
      go true e later = let same : x ≡ y = ground arith in (Memᴰ.head same, rw same e)
      go false e later = let (m, fx) = later (ground arith) in (Memᴰ.tail m, fx)

  pub find-none : (f : A → Bool) {x : A} {xs : List A} → Memᴰ x xs → find f xs ≡ none → f x ≡ false
  unfolding find
  find-none f (Memᴰ.head e) h = ground (arith, e, ap f e)
  find-none f (Memᴰ.tail m) h = ground (arith, find-none f m)

  pub get_or-set :
      (xs : List A) (i j : ℕ) (v d : A)
      → i < length xs
      → get_or (set xs i v) j d ≡ (if i == j then v else get_or xs j d)
  get_or-set [] i j v d h = elim h [ ]
  get_or-set (x ∷ xs) zero zero v d h = refl
  get_or-set (x ∷ xs) zero (suc j) v d h = ground arith
  get_or-set (x ∷ xs) (suc i) zero v d h = ground arith
  get_or-set (x ∷ xs) (suc i) (suc j) v d h = ground (arith, get_or-set xs i j v d)

  pub length-set : (xs : List A) (i : ℕ) (v : A) → length (set xs i v) ≡ length xs
  length-set [] i v = refl
  length-set (x ∷ xs) zero v = refl
  length-set (x ∷ xs) (suc i) v = ap suc (length-set xs i v)

  pub length-snoc : (xs : List A) (a : A) → length (snoc xs a) ≡ length xs + 1
  length-snoc [] a = omega arith
  length-snoc (x ∷ xs) a = omega (arith, length-snoc xs a)

-- The numbers `first`, `first + 1`, ..., `count` of them.
unfoldable pub numbers : ℕ → ℕ → List ℕ
numbers first zero = []
numbers first (suc count) = first ∷ numbers (first + 1) count

pub mem-numbers : (first count n : ℕ) → first ≤ n → n < first + count → Memᴰ n (numbers first count)
unfolding numbers
mem-numbers first zero n h k = absurd (omega arith)
mem-numbers first (suc count) n h k = go (first == n) refl (mem-numbers (first + 1) count n)
  where
    go :
        (b : Bool)
        → (first == n) ≡ b
        → (first + 1 ≤ n → n < first + 1 + count → Memᴰ n (numbers (first + 1) count))
        → Memᴰ n (first ∷ numbers (first + 1) count)
    go true e later = Memᴰ.head (ground arith)
    go false e later = Memᴰ.tail (later (ground arith) (ground arith))

module _ {ℓ} {B : Type ℓ} where
  abbrev pub cons_some : Option B → List B → List B
  cons_some none ys = ys
  cons_some (some y) ys = y ∷ ys

  mem-append_left : {b : B} {ys : List B} (zs : List B) → Memᴰ b ys → Memᴰ b (ys ++ zs)
  mem-append_left zs (Memᴰ.head e) = Memᴰ.head e
  mem-append_left zs (Memᴰ.tail m) = Memᴰ.tail (mem-append_left zs m)

  mem-append_right : {b : B} (ys : List B) {zs : List B} → Memᴰ b zs → Memᴰ b (ys ++ zs)
  mem-append_right [] m = m
  mem-append_right (y ∷ ys) m = Memᴰ.tail (mem-append_right ys m)

  mem-append_split : {b : B} (ys zs : List B) → Memᴰ b (ys ++ zs) → Memᴰ b ys ⊎ Memᴰ b zs
  mem-append_split [] zs m = inr m
  mem-append_split (y ∷ ys) zs (Memᴰ.head e) = inl (Memᴰ.head e)
  mem-append_split (y ∷ ys) zs (Memᴰ.tail m) = elim (mem-append_split ys zs m) [
    | inl here ↦ inl (Memᴰ.tail here)
    | inr there ↦ inr there
  ]

module _ {ℓ} {A B : Type ℓ} where
  -- `Iterator::flat_map`
  unfoldable pub flat_map : (A → List B) → List A → List B
  flat_map f [] = []
  flat_map f (x ∷ xs) = f x ++ flat_map f xs

  -- `Iterator::filter_map`
  unfoldable pub filter_map : (A → Option B) → List A → List B
  filter_map f [] = []
  filter_map f (x ∷ xs) = cons_some (f x) (filter_map f xs)

  pub mem-flat_map :
      (f : A → List B) {a : A} {b : B} {xs : List A}
      → Memᴰ a xs
      → Memᴰ b (f a)
      → Memᴰ b (flat_map f xs)
  unfolding flat_map
  mem-flat_map f {b = b} (Memᴰ.head {xs = xs} e) h =
      mem-append_left (flat_map f xs) (subst (λ y. Memᴰ b (f y)) e h)
  mem-flat_map f (Memᴰ.tail {x = x} m) h = mem-append_right (f x) (mem-flat_map f m h)

  pub flat_map-mem :
      (f : A → List B) (xs : List A) {b : B}
      → Memᴰ b (flat_map f xs)
      → (a : A) × Memᴰ a xs × Memᴰ b (f a)
  unfolding flat_map
  flat_map-mem f [] m = elim m [ ]
  flat_map-mem f (x ∷ xs) {b} m =
      let later : Memᴰ b (flat_map f xs) → (a : A) × Memᴰ a xs × Memᴰ b (f a) = flat_map-mem f xs in
      elim (mem-append_split (f x) (flat_map f xs) m) [
        | inl here ↦ (x, Memᴰ.head refl, here)
        | inr there ↦ let (a, n, k) = later there in (a, Memᴰ.tail n, k)
      ]

  pub mem-filter_map :
      (f : A → Option B) {a : A} {b : B} {xs : List A}
      → Memᴰ a xs
      → f a ≡ some b
      → Memᴰ b (filter_map f xs)
  unfolding filter_map
  mem-filter_map f {b = b} (Memᴰ.head {x = x} e) h =
      let here : f x ≡ some b = subst (λ y. f y ≡ some b) e h in rw here (Memᴰ.head refl)
  mem-filter_map f {b = b} (Memᴰ.tail {x = x} {xs = xs} m) h = go (f x) (mem-filter_map f m h)
    where
      go : (o : Option B) → Memᴰ b (filter_map f xs) → Memᴰ b (cons_some o (filter_map f xs))
      go none n = n
      go (some y) n = Memᴰ.tail n

  pub filter_map-mem :
      (f : A → Option B) (xs : List A) {b : B}
      → Memᴰ b (filter_map f xs)
      → (a : A) × Memᴰ a xs × (f a ≡ some b)
  unfolding filter_map
  filter_map-mem f [] m = elim m [ ]
  filter_map-mem f (x ∷ xs) {b} m = go (f x) refl m (filter_map-mem f xs)
    where
      go :
          (o : Option B)
          → f x ≡ o
          → Memᴰ b (cons_some o (filter_map f xs))
          → (Memᴰ b (filter_map f xs) → (a : A) × Memᴰ a xs × (f a ≡ some b))
          → (a : A) × Memᴰ a (x ∷ xs) × (f a ≡ some b)
      go none e n later = let (a, k, fa) = later n in (a, Memᴰ.tail k, fa)
      go (some y) e (Memᴰ.head same) later = (x, Memᴰ.head refl, e ∙ ap some (sym same))
      go (some y) e (Memᴰ.tail n) later = let (a, k, fa) = later n in (a, Memᴰ.tail k, fa)
