-- ===== src/Base/Lists.antt =====
-- Lists measured and indexed by native numbers, and the block operations on byte buffers:
-- `slice` is a `memcpy` out of a buffer, `overwrite` a `memcpy` into one.
use Prim.Native.Nat.{ℕ, zero, suc, ◌+◌, ◌-◌, ◌≤◌, ◌<◌, min}
use mathlib.Core.Path.{◌≡◌, refl, ap, ap₂}
use mathlib.Core.Logic.{◌⊎◌, inr}
use mathlib.Core.List.{List, [], ◌∷◌, ◌++◌}
use mathlib.Core.Option.{Option, none, some}
use native.Mathlib.Nat.{zero-add, suc-add}
use native.Mathlib.Omega.{arith}

module _ {ℓ} {A : Type ℓ} where
  abbrev pub length : List A → ℕ
  length [] = 0
  length (x ∷ xs) = suc (length xs)

  abbrev pub get_elem? : List A → ℕ → Option A
  get_elem? [] i = none
  get_elem? (x ∷ xs) zero = some x
  get_elem? (x ∷ xs) (suc i) = get_elem? xs i

  abbrev pub get_or : List A → ℕ → A → A
  get_or [] i d = d
  get_or (x ∷ xs) zero d = x
  get_or (x ∷ xs) (suc i) d = get_or xs i d

  abbrev pub take : ℕ → List A → List A
  take zero xs = []
  take (suc n) [] = []
  take (suc n) (x ∷ xs) = x ∷ take n xs

  abbrev pub drop : ℕ → List A → List A
  drop zero xs = xs
  drop (suc n) [] = []
  drop (suc n) (x ∷ xs) = drop n xs

  abbrev pub replicate : ℕ → A → List A
  replicate zero a = []
  replicate (suc n) a = a ∷ replicate n a

  -- The `n` elements from index `o` on.
  abbrev pub slice : ℕ → ℕ → List A → List A
  slice o n xs = take n (drop o xs)

  -- `src` written over the elements from index `o` on; what falls outside is lost.
  abbrev pub overwrite : ℕ → List A → List A → List A
  overwrite o src [] = []
  overwrite zero [] (b ∷ bs) = b ∷ bs
  overwrite zero (x ∷ xs) (b ∷ bs) = x ∷ overwrite zero xs bs
  overwrite (suc o) src (b ∷ bs) = b ∷ overwrite o src bs

  abbrev pub All {κ} : (A → Type κ) → List A → Type κ
  All P [] = Unit
  All P (x ∷ xs) = P x × All P xs

module _ {ℓ} {A : Type ℓ} where
  pub length-append : (xs ys : List A) → length (xs ++ ys) ≡ length xs + length ys
  length-append [] ys = omega arith
  length-append (x ∷ xs) ys = omega (arith, length-append xs ys)

  pub length-take : (n : ℕ) (xs : List A) → length (take n xs) ≡ min n (length xs)
  length-take zero xs = omega arith
  length-take (suc n) [] = omega arith
  length-take (suc n) (x ∷ xs) = omega (arith, length-take n xs)

  pub length-drop : (n : ℕ) (xs : List A) → length (drop n xs) ≡ length xs - n
  length-drop zero xs = omega arith
  length-drop (suc n) [] = omega arith
  length-drop (suc n) (x ∷ xs) = omega (arith, length-drop n xs)

  pub length-replicate : (n : ℕ) (a : A) → length (replicate n a) ≡ n
  length-replicate zero a = refl
  length-replicate (suc n) a = ap suc (length-replicate n a)

  pub length-slice : (o n : ℕ) (xs : List A) → o + n ≤ length xs → length (slice o n xs) ≡ n
  length-slice o n xs h = omega (arith, length-take n (drop o xs), length-drop o xs)

  pub length-overwrite : (o : ℕ) (src xs : List A) → length (overwrite o src xs) ≡ length xs
  length-overwrite zero src [] = refl
  length-overwrite (suc o) src [] = refl
  length-overwrite zero [] (b ∷ bs) = refl
  length-overwrite zero (x ∷ src) (b ∷ bs) = ap suc (length-overwrite zero src bs)
  length-overwrite (suc o) src (b ∷ bs) = ap suc (length-overwrite o src bs)

  pub take-length : (xs : List A) → take (length xs) xs ≡ xs
  take-length [] = refl
  take-length (x ∷ xs) = ap (λ r. x ∷ r) (take-length xs)

  pub take-append : (xs ys : List A) → take (length xs) (xs ++ ys) ≡ xs
  take-append [] ys = refl
  take-append (x ∷ xs) ys = ap (λ r. x ∷ r) (take-append xs ys)

  pub drop-append : (xs ys : List A) → drop (length xs) (xs ++ ys) ≡ ys
  drop-append [] ys = refl
  drop-append (x ∷ xs) ys = drop-append xs ys

  pub overwrite-nil : (o : ℕ) (xs : List A) → overwrite o [] xs ≡ xs
  overwrite-nil zero [] = refl
  overwrite-nil (suc o) [] = refl
  overwrite-nil zero (b ∷ bs) = refl
  overwrite-nil (suc o) (b ∷ bs) = ap (λ r. b ∷ r) (overwrite-nil o bs)

  -- What was written is read back.
  pub slice-overwrite_self :
      (o : ℕ) (src xs : List A)
      → o + length src ≤ length xs
      → slice o (length src) (overwrite o src xs) ≡ src
  slice-overwrite_self zero [] [] h = refl
  slice-overwrite_self zero (x ∷ src) [] h = absurd (omega arith)
  slice-overwrite_self (suc o) src [] h = absurd (omega arith)
  slice-overwrite_self zero [] (b ∷ bs) h = refl
  slice-overwrite_self zero (x ∷ src) (b ∷ bs) h =
      ap (λ r. x ∷ r) (slice-overwrite_self zero src bs (omega arith))
  slice-overwrite_self (suc o) src (b ∷ bs) h = slice-overwrite_self o src bs (omega arith)

  -- A block that ends where the write begins keeps its elements.
  pub slice-overwrite_before :
      (p n o : ℕ) (src xs : List A) → p + n ≤ o → slice p n (overwrite o src xs) ≡ slice p n xs
  slice-overwrite_before zero zero o src xs h = refl
  slice-overwrite_before zero (suc n) zero src xs h = absurd (omega arith)
  slice-overwrite_before zero (suc n) (suc o) src [] h = refl
  slice-overwrite_before zero (suc n) (suc o) src (b ∷ bs) h =
      ap (λ r. b ∷ r) (slice-overwrite_before zero n o src bs (omega arith))
  slice-overwrite_before (suc p) n zero src xs h = absurd (omega arith)
  slice-overwrite_before (suc p) n (suc o) src [] h = refl
  slice-overwrite_before (suc p) n (suc o) src (b ∷ bs) h =
      slice-overwrite_before p n o src bs (omega arith)

  -- So does a block that begins where the write ends.
  pub drop-overwrite_after :
      (p o : ℕ) (src xs : List A) → o + length src ≤ p → drop p (overwrite o src xs) ≡ drop p xs
  drop-overwrite_after p zero src [] h = refl
  drop-overwrite_after p (suc o) src [] h = refl
  drop-overwrite_after zero zero [] (b ∷ bs) h = refl
  drop-overwrite_after (suc p) zero [] (b ∷ bs) h = refl
  drop-overwrite_after zero zero (x ∷ src) (b ∷ bs) h = absurd (omega arith)
  drop-overwrite_after (suc p) zero (x ∷ src) (b ∷ bs) h =
      drop-overwrite_after p zero src bs (omega arith)
  drop-overwrite_after zero (suc o) src (b ∷ bs) h = absurd (omega arith)
  drop-overwrite_after (suc p) (suc o) src (b ∷ bs) h =
      drop-overwrite_after p o src bs (omega arith)

  pub slice-overwrite_after :
      (p n o : ℕ) (src xs : List A)
      → o + length src ≤ p
      → slice p n (overwrite o src xs) ≡ slice p n xs
  slice-overwrite_after p n o src xs h = ap (take n) (drop-overwrite_after p o src xs h)

  pub list_ext :
      (d : A) (xs ys : List A)
      → length xs ≡ length ys
      → ((i : ℕ) → i < length xs → get_or xs i d ≡ get_or ys i d)
      → xs ≡ ys
  list_ext d [] [] e h = refl
  list_ext d [] (y ∷ ys) e h = absurd (omega arith)
  list_ext d (x ∷ xs) [] e h = absurd (omega arith)
  list_ext d (x ∷ xs) (y ∷ ys) e h =
      ap₂ ◌∷◌ (h 0 (omega arith)) (list_ext d xs ys (omega arith) (λ i p. h (suc i) (omega arith)))

  -- A single element written, and read by its index.
  pub get_or-overwrite_self :
      (o : ℕ) (x d : A) (xs : List A) → o < length xs → get_or (overwrite o (x ∷ []) xs) o d ≡ x
  get_or-overwrite_self zero x d [] h = absurd (omega arith)
  get_or-overwrite_self (suc o) x d [] h = absurd (omega arith)
  get_or-overwrite_self zero x d (b ∷ bs) h = refl
  get_or-overwrite_self (suc o) x d (b ∷ bs) h = get_or-overwrite_self o x d bs (omega arith)

  -- An element read by its index is the block of one at that index.
  pub get_or-slice : (o : ℕ) (d : A) (xs : List A) → get_or xs o d ≡ get_or (slice o 1 xs) 0 d
  get_or-slice zero d [] = refl
  get_or-slice (suc o) d [] = refl
  get_or-slice zero d (b ∷ bs) = refl
  get_or-slice (suc o) d (b ∷ bs) = get_or-slice o d bs

  pub take-append_le : (n : ℕ) (xs ys : List A) → n ≤ length xs → take n (xs ++ ys) ≡ take n xs
  take-append_le zero xs ys h = refl
  take-append_le (suc n) [] ys h = absurd (omega arith)
  take-append_le (suc n) (x ∷ xs) ys h = ap (λ r. x ∷ r) (take-append_le n xs ys (omega arith))

  pub drop-append_le :
      (n : ℕ) (xs ys : List A) → n ≤ length xs → drop n (xs ++ ys) ≡ drop n xs ++ ys
  drop-append_le zero xs ys h = refl
  drop-append_le (suc n) [] ys h = absurd (omega arith)
  drop-append_le (suc n) (x ∷ xs) ys h = drop-append_le n xs ys (omega arith)

  pub take-append-drop : (n : ℕ) (xs : List A) → take n xs ++ drop n xs ≡ xs
  take-append-drop zero xs = refl
  take-append-drop (suc n) [] = refl
  take-append-drop (suc n) (x ∷ xs) = rw (take-append-drop n xs)

  pub get_or-take : (n i : ℕ) (d : A) (xs : List A) → i < n → get_or (take n xs) i d ≡ get_or xs i d
  get_or-take zero i d xs h = absurd (omega arith)
  get_or-take (suc n) i d [] h = refl
  get_or-take (suc n) zero d (x ∷ xs) h = refl
  get_or-take (suc n) (suc i) d (x ∷ xs) h = get_or-take n i d xs (omega arith)

  pub get_or-drop : (n i : ℕ) (d : A) (xs : List A) → get_or (drop n xs) i d ≡ get_or xs (n + i) d
  get_or-drop zero i d xs = rw zero-add
  get_or-drop (suc n) i d [] = refl
  get_or-drop (suc n) i d (x ∷ xs) = rw suc-add (get_or-drop n i d xs)

  -- An element outside the written block is kept.
  pub get_or-overwrite_out :
      (o j : ℕ) (d : A) (src xs : List A)
      → (j < o) ⊎ (o + length src ≤ j)
      → get_or (overwrite o src xs) j d ≡ get_or xs j d
  get_or-overwrite_out zero j d src [] h = refl
  get_or-overwrite_out (suc o) j d src [] h = refl
  get_or-overwrite_out zero j d [] (b ∷ bs) h = refl
  get_or-overwrite_out zero zero d (x ∷ src) (b ∷ bs) h = absurd (omega arith)
  get_or-overwrite_out zero (suc j) d (x ∷ src) (b ∷ bs) h =
      get_or-overwrite_out zero j d src bs (inr (omega arith))
  get_or-overwrite_out (suc o) zero d src (b ∷ bs) h = refl
  get_or-overwrite_out (suc o) (suc j) d src (b ∷ bs) h =
      get_or-overwrite_out o j d src bs (omega arith)

-- Every entry is below `m`.
abbrev pub EachBelow : ℕ → List ℕ → Type 0
EachBelow m xs = (i : ℕ) → get_or xs i 0 < m

pub EachBelow-take : (m k : ℕ) (xs : List ℕ) → 0 < m → EachBelow m xs → EachBelow m (take k xs)
EachBelow-take m zero xs p h i = p
EachBelow-take m (suc k) [] p h i = p
EachBelow-take m (suc k) (x ∷ xs) p h zero = h zero
EachBelow-take m (suc k) (x ∷ xs) p h (suc i) = EachBelow-take m k xs p (λ j. h (suc j)) i

pub EachBelow-drop : (m k : ℕ) (xs : List ℕ) → EachBelow m xs → EachBelow m (drop k xs)
EachBelow-drop m k xs h i = rw (get_or-drop k i 0 xs) (h (k + i))

-- Past the end of a list its default is read.
pub EachBelow-inside :
    (m : ℕ) (xs : List ℕ) → 0 < m → ((i : ℕ) → i < length xs → get_or xs i 0 < m) → EachBelow m xs
EachBelow-inside m [] p h i = p
EachBelow-inside m (x ∷ xs) p h zero = h zero (omega arith)
EachBelow-inside m (x ∷ xs) p h (suc i) = EachBelow-inside m xs p (λ j k. h (suc j) (omega arith)) i
