-- ===== src/Driver/Words.antt =====
-- The output area as registers: what `store_to_registers` reads, word by word.
use ros2_wavemakers.Base.{
  List, [], ap, ap₂, arith, drop, get_or, get_or-drop, length, length-drop, ok, refl, slice, suc,
  sym, take, word, zero, ℕ, ◌*◌, ◌+◌, ◌<◌, ◌∙◌, ◌∷◌, ◌≡◌, ◌≤◌,
}
use ros2_wavemakers.Image.Access.{ProcessImage}
use ros2_wavemakers.Image.Bounds.{Fits, access-Fits}
use ros2_wavemakers.Image.Registers.{registers_of, store_to_registers}

-- The register that the bytes `2 * i` and `2 * i + 1` make.
abbrev pub word_at : List ℕ → ℕ → ℕ
word_at img i = word (get_or img (2 * i) 0) (get_or img (2 * i + 1) 0)

word_at-cons : (a b : ℕ) (xs : List ℕ) (i : ℕ) → word_at (a ∷ b ∷ xs) (suc i) ≡ word_at xs i
word_at-cons a b xs i =
    let odd : 2 * suc i + 1 ≡ suc (suc (2 * i + 1)) = omega arith in
    let even : 2 * suc i ≡ suc (suc (2 * i)) = omega arith in rw (odd, even)

registers_of-take :
    (n : ℕ) (xs : List ℕ)
    → n * 2 ≤ length xs
    → (length (registers_of (take (n * 2) xs)) ≡ n)
      × ((i : ℕ) → i < n → get_or (registers_of (take (n * 2) xs)) i 0 ≡ word_at xs i)
unfolding registers_of
registers_of-take zero xs h = (refl, λ i k. absurd (omega arith))
registers_of-take (suc n) [] h = absurd (omega arith)
registers_of-take (suc n) (a ∷ []) h = absurd (omega arith)
registers_of-take (suc n) (a ∷ b ∷ xs) h =
    let double : suc n * 2 ≡ suc (suc (n * 2)) = omega arith in
    let (l, g) = registers_of-take n xs (omega arith) in (rw double (ap suc l), rw double (each g))
  where
    each :
        ((i : ℕ) → i < n → get_or (registers_of (take (n * 2) xs)) i 0 ≡ word_at xs i)
        → (i : ℕ) → i < suc n
        → get_or (word a b ∷ registers_of (take (n * 2) xs)) i 0 ≡ word_at (a ∷ b ∷ xs) i
    each g zero k = refl
    each g (suc i) k = g i (omega arith) ∙ sym (word_at-cons a b xs i)

-- The registers stored from word `first` on are the words of the area.
pub store-words :
    (img : ProcessImage) (first n : ℕ)
    → Fits img (first * 2) (n * 2)
    → (regs : List ℕ) × (store_to_registers img n (first * 2) ≡ ok regs)
      × (length regs ≡ n)
      × ((i : ℕ) → i < n → get_or regs i 0 ≡ word_at img (first + i))
unfolding store_to_registers
store-words img first n f =
    let (l, g) =
      registers_of-take n (drop (first * 2) img)
        (omega (arith, length-drop (first * 2) img, f.inside)) in
    (registers_of (slice (first * 2) (n * 2) img), rw (access-Fits f), l, λ i k. g i k ∙ shifted i)
  where
    shifted : (i : ℕ) → word_at (drop (first * 2) img) i ≡ word_at img (first + i)
    shifted i =
        ap₂ word (get_or-drop (first * 2) (2 * i) 0 img ∙ ap (λ j. get_or img j 0) (omega arith))
          (get_or-drop (first * 2) (2 * i + 1) 0 img ∙ ap (λ j. get_or img j 0) (omega arith))
