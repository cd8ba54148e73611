-- ===== src/Prelude/Lists.antt =====
-- Lists measured and indexed by native numbers, under the library's names.
use ezfadvance_iii.Prelude.Tests.{if◌then◌else◌, ltb, leb}
use Prim.Native.Nat.{ℕ, zero, suc, ◌+◌, ◌-◌, ◌≤◌, ◌<◌, min}
use mathlib.Core.Path.{◌≡◌, refl, ap, ◌∙◌}
use mathlib.Core.Logic.{◌⊎◌, inr}
use mathlib.Core.Bool.{◌&&◌}
use mathlib.Core.List.{List, [], ◌∷◌, ◌++◌}
use mathlib.Core.Option.{Option, none, some}
use native.Mathlib.Omega.{arith}

module _ {ℓ} {A : Type ℓ} where
  abbrev pub length : List A → ℕ
  length [] = 0
  length (x ∷ xs) = suc (length xs)

  abbrev pub get_or : List A → ℕ → A → A
  get_or [] i d = d
  get_or (x ∷ xs) zero d = x
  get_or (x ∷ xs) (suc i) d = get_or xs i d

  abbrev pub get_elem? : List A → ℕ → Option A
  get_elem? [] i = none
  get_elem? (x ∷ xs) zero = some x
  get_elem? (x ∷ xs) (suc i) = get_elem? xs i

  -- A write out of bounds changes nothing.
  abbrev pub set : List A → ℕ → A → List A
  set [] i v = []
  set (x ∷ xs) zero v = v ∷ xs
  set (x ∷ xs) (suc i) v = x ∷ set xs i v

  abbrev pub take : ℕ → List A → List A
  take zero xs = []
  take (suc n) [] = []
  take (suc n) (x ∷ xs) = x ∷ take n xs

  abbrev pub drop : ℕ → List A → List A
  drop zero xs = xs
  drop (suc n) [] = []
  drop (suc n) (x ∷ xs) = drop n xs

  abbrev pub replicate : ℕ → A → List A
  replicate zero a = []
  replicate (suc n) a = a ∷ replicate n a

  abbrev pub All {κ} : (A → Type κ) → List A → Type κ
  All P [] = Unit {κ}
  All P (x ∷ xs) = P x × All P xs

module _ {ℓ} {A : Type ℓ} where
  pub length-append : (xs ys : List A) → length (xs ++ ys) ≡ length xs + length ys
  length-append [] ys = omega arith
  length-append (x ∷ xs) ys = omega (arith, length-append xs ys)

  pub length-set : (xs : List A) (i : ℕ) (v : A) → length (set xs i v) ≡ length xs
  length-set [] i v = refl
  length-set (x ∷ xs) zero v = refl
  length-set (x ∷ xs) (suc i) v = ap suc (length-set xs i v)

  pub length-take : (n : ℕ) (xs : List A) → length (take n xs) ≡ min n (length xs)
  length-take zero xs = omega arith
  length-take (suc n) [] = omega arith
  length-take (suc n) (x ∷ xs) = omega (arith, length-take n xs)

  pub length-drop : (n : ℕ) (xs : List A) → length (drop n xs) ≡ length xs - n
  length-drop zero xs = omega arith
  length-drop (suc n) [] = omega arith
  length-drop (suc n) (x ∷ xs) = omega (arith, length-drop n xs)

  pub length-replicate : (n : ℕ) (a : A) → length (replicate n a) ≡ n
  length-replicate zero a = refl
  length-replicate (suc n) a = ap suc (length-replicate n a)

  pub All-append {κ} : (P : A → Type κ) (xs ys : List A) → All P xs → All P ys → All P (xs ++ ys)
  All-append P [] ys h k = k
  All-append P (x ∷ xs) ys (p, h) k = (p, All-append P xs ys h k)

  pub All-map {κ μ} :
      {P : A → Type κ} {Q : A → Type μ}
      → ((x : A) → P x → Q x)
      → (xs : List A) → All P xs
      → All Q xs
  All-map f [] h = tt
  All-map f (x ∷ xs) (p, h) = (f x p, All-map f xs h)

  -- `std::fill` on the `count` elements from `start`; nothing is written past the end.
  abbrev pub fill : ℕ → ℕ → A → List A → List A
  fill start count v [] = []
  fill zero zero v (x ∷ xs) = x ∷ xs
  fill zero (suc count) v (x ∷ xs) = v ∷ fill zero count v xs
  fill (suc start) count v (x ∷ xs) = x ∷ fill start count v xs

module _ {ℓ} {A : Type ℓ} where
  pub length-fill :
      (start count : ℕ) (v : A) (xs : List A) → length (fill start count v xs) ≡ length xs
  length-fill zero zero v [] = refl
  length-fill zero zero v (x ∷ xs) = refl
  length-fill zero (suc count) v [] = refl
  length-fill zero (suc count) v (x ∷ xs) = ap suc (length-fill zero count v xs)
  length-fill (suc start) count v [] = refl
  length-fill (suc start) count v (x ∷ xs) = ap suc (length-fill start count v xs)

  -- What stands at `i` after a fill.
  pub get_or-fill :
      (start count : ℕ) (v : A) (xs : List A) (i : ℕ) (d : A)
      → get_or (fill start count v xs) i d
        ≡ (if leb start i && ltb i (start + count) && ltb i (length xs) then v else get_or xs i d)
  get_or-fill zero zero v [] i d = ground arith
  get_or-fill zero zero v (x ∷ xs) i d = ground arith
  get_or-fill zero (suc count) v [] i d = ground arith
  get_or-fill zero (suc count) v (x ∷ xs) zero d = ground arith
  get_or-fill zero (suc count) v (x ∷ xs) (suc i) d =
      ground (arith, get_or-fill zero count v xs i d)
  get_or-fill (suc start) count v [] i d = ground arith
  get_or-fill (suc start) count v (x ∷ xs) zero d = ground arith
  get_or-fill (suc start) count v (x ∷ xs) (suc i) d =
      ground (arith, get_or-fill start count v xs i d)

  pub get_elem?-get_or :
      (xs : List A) (k : ℕ) (d : A) → k < length xs → get_elem? xs k ≡ some (get_or xs k d)
  get_elem?-get_or [] k d h = absurd (omega arith)
  get_elem?-get_or (x ∷ xs) zero d h = refl
  get_elem?-get_or (x ∷ xs) (suc k) d h = get_elem?-get_or xs k d (omega arith)

module _ {ℓ} {A : Type ℓ} where
  -- `std::copy` of the first list over the elements from `start`; nothing is written past the end.
  abbrev pub copy_at : ℕ → List A → List A → List A
  copy_at start xs [] = []
  copy_at zero [] (y ∷ ys) = y ∷ ys
  copy_at zero (x ∷ xs) (y ∷ ys) = x ∷ copy_at zero xs ys
  copy_at (suc start) xs (y ∷ ys) = y ∷ copy_at start xs ys

module _ {ℓ} {A : Type ℓ} where
  pub length-copy_at : (start : ℕ) (xs ys : List A) → length (copy_at start xs ys) ≡ length ys
  length-copy_at zero [] [] = refl
  length-copy_at zero [] (y ∷ ys) = refl
  length-copy_at zero (x ∷ xs) [] = refl
  length-copy_at zero (x ∷ xs) (y ∷ ys) = ap suc (length-copy_at zero xs ys)
  length-copy_at (suc start) xs [] = refl
  length-copy_at (suc start) xs (y ∷ ys) = ap suc (length-copy_at start xs ys)

  pub get_or_past : (xs : List A) (i : ℕ) (d : A) → length xs ≤ i → get_or xs i d ≡ d
  get_or_past [] i d h = refl
  get_or_past (x ∷ xs) zero d h = absurd (omega arith)
  get_or_past (x ∷ xs) (suc i) d h = get_or_past xs i d (omega arith)

  -- What was copied stands at its place.
  pub take-drop-copy_at :
      (start : ℕ) (xs ys : List A)
      → start + length xs ≤ length ys
      → take (length xs) (drop start (copy_at start xs ys)) ≡ xs
  take-drop-copy_at zero [] ys h = refl
  take-drop-copy_at zero (x ∷ xs) [] h = absurd (omega arith)
  take-drop-copy_at zero (x ∷ xs) (y ∷ ys) h =
      ap (λ zs. x ∷ zs) (take-drop-copy_at zero xs ys (omega arith))
  take-drop-copy_at (suc start) xs [] h = absurd (omega arith)
  take-drop-copy_at (suc start) xs (y ∷ ys) h = take-drop-copy_at start xs ys (omega arith)

  -- Outside the copy nothing changes.
  pub get_or-copy_at_ne :
      (start : ℕ) (xs ys : List A) (i : ℕ) (d : A)
      → (i < start) ⊎ (start + length xs ≤ i)
      → get_or (copy_at start xs ys) i d ≡ get_or ys i d
  get_or-copy_at_ne zero [] [] i d h = refl
  get_or-copy_at_ne zero [] (y ∷ ys) i d h = refl
  get_or-copy_at_ne zero (x ∷ xs) [] i d h = refl
  get_or-copy_at_ne zero (x ∷ xs) (y ∷ ys) zero d h = absurd (ground arith)
  get_or-copy_at_ne zero (x ∷ xs) (y ∷ ys) (suc i) d h =
      get_or-copy_at_ne zero xs ys i d (inr (ground arith))
  get_or-copy_at_ne (suc start) xs [] i d h = refl
  get_or-copy_at_ne (suc start) xs (y ∷ ys) zero d h = refl
  get_or-copy_at_ne (suc start) xs (y ∷ ys) (suc i) d h =
      get_or-copy_at_ne start xs ys i d (ground arith)

  pub get_or-drop :
      (n : ℕ) (xs : List A) (i : ℕ) (d : A) → get_or (drop n xs) i d ≡ get_or xs (n + i) d
  get_or-drop zero xs i d = let e : i ≡ 0 + i = omega arith in ap (λ k. get_or xs k d) e
  get_or-drop (suc n) [] i d = refl
  get_or-drop (suc n) (x ∷ xs) i d =
      let e : suc (n + i) ≡ suc n + i = omega arith in
      get_or-drop n xs i d ∙ ap (λ k. get_or (x ∷ xs) k d) e

  pub get_or-replicate : (n : ℕ) (a : A) (i : ℕ) (d : A) → i < n → get_or (replicate n a) i d ≡ a
  get_or-replicate zero a i d h = absurd (omega arith)
  get_or-replicate (suc n) a zero d h = refl
  get_or-replicate (suc n) a (suc i) d h = get_or-replicate n a i d (omega arith)

  -- Two lists with the same elements are equal.
  pub same_elements :
      (d : A) (xs ys : List A)
      → length xs ≡ length ys
      → ((i : ℕ) → i < length xs → get_or xs i d ≡ get_or ys i d)
      → xs ≡ ys
  same_elements d [] [] n h = refl
  same_elements d [] (y ∷ ys) n h = absurd (omega arith)
  same_elements d (x ∷ xs) [] n h = absurd (omega arith)
  same_elements d (x ∷ xs) (y ∷ ys) n h =
      ap (λ (z : A). z ∷ xs) (h 0 (omega arith))
      ∙ ap (λ zs. y ∷ zs) (same_elements d xs ys (omega arith) (λ i lt. h (suc i) (omega arith)))

module _ {A : Type 0} where
  -- What stands at `i` after a copy.
  pub get_or-copy_at :
      (start : ℕ) (xs ys : List A) (i : ℕ) (d : A)
      → get_or (copy_at start xs ys) i d ≡ (
          if leb start i && ltb i (start + length xs) && ltb i (length ys)
          then get_or xs (i - start) d
          else get_or ys i d)
  get_or-copy_at zero [] [] i d = ground arith
  get_or-copy_at zero [] (y ∷ ys) i d = ground arith
  get_or-copy_at zero (x ∷ xs) [] i d = ground arith
  get_or-copy_at zero (x ∷ xs) (y ∷ ys) zero d = ground arith
  get_or-copy_at zero (x ∷ xs) (y ∷ ys) (suc i) d = ground (arith, get_or-copy_at zero xs ys i d)
  get_or-copy_at (suc start) xs [] i d = ground arith
  get_or-copy_at (suc start) xs (y ∷ ys) zero d = ground arith
  get_or-copy_at (suc start) xs (y ∷ ys) (suc i) d = ground (arith, get_or-copy_at start xs ys i d)

  pub get_or-take :
      (n : ℕ) (xs : List A) (i : ℕ) (d : A)
      → get_or (take n xs) i d ≡ (if ltb i n then get_or xs i d else d)
  get_or-take zero xs i d = ground arith
  get_or-take (suc n) [] i d = ground arith
  get_or-take (suc n) (x ∷ xs) zero d = ground arith
  get_or-take (suc n) (x ∷ xs) (suc i) d = ground (arith, get_or-take n xs i d)
