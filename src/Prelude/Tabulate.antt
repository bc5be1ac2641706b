-- ===== src/Prelude/Tabulate.antt =====
-- A list given by a function of the index: what a loop over `0 .. n` reads from an array.
use Prim.Native.Nat.{ℕ, zero, suc, ◌<◌, ◌≤◌}
use mathlib.Core.Path.{◌≡◌, refl, ap, ap₂, ◌∙◌}
use mathlib.Core.List.{List, [], ◌∷◌, ◌++◌}
use mathlib.Core.Bool.{false}
use native.Mathlib.Omega.{arith}
use void_frame.Prelude.Tests.{ltb, ◌==◌, if◌then◌else◌}
use void_frame.Prelude.Lists.{length, get_or, set, remove_at}

module _ {ℓ} {A : Type ℓ} where
  abbrev pub tabulate : ℕ → (ℕ → A) → List A
  tabulate zero f = []
  tabulate (suc n) f = f 0 ∷ tabulate n (λ i. f (suc i))

  pub length-tabulate : (n : ℕ) (f : ℕ → A) → length (tabulate n f) ≡ n
  length-tabulate zero f = refl
  length-tabulate (suc n) f = ap suc (length-tabulate n (λ i. f (suc i)))

  pub tabulate_ext :
      (n : ℕ) (f g : ℕ → A) → ((i : ℕ) → i < n → f i ≡ g i) → tabulate n f ≡ tabulate n g
  tabulate_ext zero f g h = refl
  tabulate_ext (suc n) f g h =
      ap₂ ◌∷◌ (h 0 (omega arith))
        (tabulate_ext n (λ i. f (suc i)) (λ i. g (suc i)) (λ i p. h (suc i) (omega arith)))

  pub tabulate-snoc : (n : ℕ) (f : ℕ → A) → tabulate (suc n) f ≡ tabulate n f ++ (f n ∷ [])
  tabulate-snoc zero f = refl
  tabulate-snoc (suc n) f = ap (λ xs. f 0 ∷ xs) (tabulate-snoc n (λ i. f (suc i)))

  pub get_or-tabulate :
      (n : ℕ) (f : ℕ → A) (i : ℕ) (d : A) → i < n → get_or (tabulate n f) i d ≡ f i
  get_or-tabulate zero f i d h = absurd (omega arith)
  get_or-tabulate (suc n) f zero d h = refl
  get_or-tabulate (suc n) f (suc i) d h = get_or-tabulate n (λ j. f (suc j)) i d (omega arith)

  pub set-tabulate :
      (n : ℕ) (f : ℕ → A) (k : ℕ) (v : A)
      → set (tabulate n f) k v ≡ tabulate n (λ i. if i == k then v else f i)
  set-tabulate zero f k v = refl
  set-tabulate (suc n) f zero v = ap (λ xs. v ∷ xs) (tabulate_ext n _ _ (λ i p. ground arith))
  set-tabulate (suc n) f (suc k) v =
      ap₂ ◌∷◌ (ground arith)
        (set-tabulate n (λ i. f (suc i)) k v ∙ tabulate_ext n _ _ (λ i p. ground arith))

  pub remove_at-tabulate :
      (n : ℕ) (f : ℕ → A) (k : ℕ)
      → k ≤ n
      → remove_at (tabulate (suc n) f) k ≡ tabulate n (λ i. if ltb i k then f i else f (suc i))
  remove_at-tabulate n f zero h = tabulate_ext n _ _ (λ i p. ground arith)
  remove_at-tabulate zero f (suc k) h = absurd (omega arith)
  remove_at-tabulate (suc n) f (suc k) h = ap₂ ◌∷◌ (ground arith) (
      remove_at-tabulate n (λ i. f (suc i)) k (omega arith)
      ∙ tabulate_ext n _ _ (λ i p. ground arith))

module _ {ℓ} {A : Type ℓ} where
  pub get_or-set :
      (xs : List A) (i j : ℕ) (v d : A)
      → i < length xs
      → get_or (set xs i v) j d ≡ (if j == i then v else get_or xs j d)
  get_or-set [] i j v d h = absurd (omega arith)
  get_or-set (x ∷ xs) zero zero v d h = refl
  get_or-set (x ∷ xs) zero (suc j) v d h =
      let other : (suc j == 0) ≡ false = ground arith in rw other refl
  get_or-set (x ∷ xs) (suc i) zero v d h =
      let other : (0 == suc i) ≡ false = ground arith in rw other refl
  get_or-set (x ∷ xs) (suc i) (suc j) v d h =
      let same : (suc j == suc i) ≡ (j == i) = ground arith in
      rw same (get_or-set xs i j v d (omega arith))
