-- ===== src/Image/Involution.antt =====
-- `reorder` on whole byte pairs: every order is its own inverse.
use mathlib.Core.List.{reverse_aux, reverse-reverse}
use ros2_wavemakers.Base.{
  List, [], ap, arith, length, length-append, refl, ℕ, ◌++◌, ◌+◌, ◌∙◌, ◌∷◌, ◌≡◌,
}
use ros2_wavemakers.Image.Order.{
  ByteOrder, big_endian, big_endian_swap, little_endian, little_endian_swap, reorder, reverse_pairs,
  swap_pairs,
}

abbrev pub IsPaired : List ℕ → Type 0
IsPaired [] = Unit
IsPaired (a ∷ []) = ⊥
IsPaired (a ∷ b ∷ rest) = IsPaired rest

length-reverse_aux : (xs ys : List ℕ) → length (reverse_aux xs ys) ≡ length xs + length ys
length-reverse_aux [] ys = omega arith
length-reverse_aux (x ∷ xs) ys = omega (arith, length-reverse_aux xs (x ∷ ys))

length-reverse_pairs : (xs : List ℕ) → IsPaired xs → length (reverse_pairs xs) ≡ length xs
unfolding reverse_pairs
length-reverse_pairs [] h = refl
length-reverse_pairs (a ∷ []) h = absurd h
length-reverse_pairs (a ∷ b ∷ rest) h =
    omega (arith, length-append (reverse_pairs rest) (a ∷ b ∷ []), length-reverse_pairs rest h)

length-swap_pairs : (xs : List ℕ) → IsPaired xs → length (swap_pairs xs) ≡ length xs
unfolding swap_pairs
length-swap_pairs [] h = refl
length-swap_pairs (a ∷ []) h = absurd h
length-swap_pairs (a ∷ b ∷ rest) h = omega (arith, length-swap_pairs rest h)

pub length-reorder : (o : ByteOrder) (xs : List ℕ) → IsPaired xs → length (reorder o xs) ≡ length xs
unfolding reorder
length-reorder big_endian xs h = refl
length-reorder little_endian xs h = omega (arith, length-reverse_aux xs [])
length-reorder big_endian_swap xs h = length-reverse_pairs xs h
length-reorder little_endian_swap xs h = length-swap_pairs xs h

reverse_pairs-append :
    (xs : List ℕ) (a b : ℕ)
    → IsPaired xs
    → reverse_pairs (xs ++ (a ∷ b ∷ [])) ≡ a ∷ b ∷ reverse_pairs xs
unfolding reverse_pairs
reverse_pairs-append [] a b h = refl
reverse_pairs-append (c ∷ []) a b h = absurd h
reverse_pairs-append (c ∷ d ∷ rest) a b h =
    ap (λ r. r ++ (c ∷ d ∷ [])) (reverse_pairs-append rest a b h)

append-IsPaired : (xs : List ℕ) (a b : ℕ) → IsPaired xs → IsPaired (xs ++ (a ∷ b ∷ []))
append-IsPaired [] a b h = tt
append-IsPaired (c ∷ []) a b h = absurd h
append-IsPaired (c ∷ d ∷ rest) a b h = append-IsPaired rest a b h

reverse_pairs-IsPaired : (xs : List ℕ) → IsPaired xs → IsPaired (reverse_pairs xs)
unfolding reverse_pairs
reverse_pairs-IsPaired [] h = tt
reverse_pairs-IsPaired (a ∷ []) h = absurd h
reverse_pairs-IsPaired (a ∷ b ∷ rest) h =
    append-IsPaired (reverse_pairs rest) a b (reverse_pairs-IsPaired rest h)

reverse_pairs-reverse_pairs : (xs : List ℕ) → IsPaired xs → reverse_pairs (reverse_pairs xs) ≡ xs
unfolding reverse_pairs
reverse_pairs-reverse_pairs [] h = refl
reverse_pairs-reverse_pairs (a ∷ []) h = absurd h
reverse_pairs-reverse_pairs (a ∷ b ∷ rest) h =
    reverse_pairs-append (reverse_pairs rest) a b (reverse_pairs-IsPaired rest h)
    ∙ ap (λ r. a ∷ b ∷ r) (reverse_pairs-reverse_pairs rest h)

swap_pairs-swap_pairs : (xs : List ℕ) → IsPaired xs → swap_pairs (swap_pairs xs) ≡ xs
unfolding swap_pairs
swap_pairs-swap_pairs [] h = refl
swap_pairs-swap_pairs (a ∷ []) h = absurd h
swap_pairs-swap_pairs (a ∷ b ∷ rest) h = ap (λ r. a ∷ b ∷ r) (swap_pairs-swap_pairs rest h)

-- On any number of whole byte pairs each of the four orders is its own inverse.
pub reorder-reorder : (o : ByteOrder) (xs : List ℕ) → IsPaired xs → reorder o (reorder o xs) ≡ xs
unfolding reorder
reorder-reorder big_endian xs h = refl
reorder-reorder little_endian xs h = reverse-reverse xs
reorder-reorder big_endian_swap xs h = reverse_pairs-reverse_pairs xs h
reorder-reorder little_endian_swap xs h = swap_pairs-swap_pairs xs h
