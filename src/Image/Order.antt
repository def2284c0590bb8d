-- ===== src/Image/Order.antt =====
-- The byte orders of multi-byte values, and the big-endian integer of a run of bytes.
use ros2_wavemakers.Base.{List, [], reverse, suc, u64, u8, zero, ℕ, ◌*◌, ◌++◌, ◌+◌, ◌/◌, ◌^◌, ◌∷◌}

pub data ByteOrder : Type 0 where
  big_endian little_endian big_endian_swap little_endian_swap : ByteOrder

-- The byte pairs in reverse, each kept. The index loop writes no byte past the last pair.
unfoldable pub reverse_pairs : List ℕ → List ℕ
reverse_pairs [] = []
reverse_pairs (a ∷ []) = []
reverse_pairs (a ∷ b ∷ rest) = reverse_pairs rest ++ (a ∷ b ∷ [])

-- The byte pairs in order, each swapped.
unfoldable pub swap_pairs : List ℕ → List ℕ
swap_pairs [] = []
swap_pairs (a ∷ []) = []
swap_pairs (a ∷ b ∷ rest) = b ∷ a ∷ swap_pairs rest

-- The bytes that `reorder` stores at `dst` for those at `src`.
unfoldable pub reorder : ByteOrder → List ℕ → List ℕ
unfolding reverse_pairs swap_pairs
reorder big_endian src = src
reorder little_endian src = reverse src
reorder big_endian_swap src = reverse_pairs src
reorder little_endian_swap src = swap_pairs src

-- The loop `v = (v << 8) | p[i]`: the shifted value has a zero byte below, so `|` is a sum.
unfoldable pub be_from : ℕ → List ℕ → ℕ
be_from v [] = v
be_from v (b ∷ bs) = be_from (u64 (v * 256) + b) bs

unfoldable pub be_to_u64 : List ℕ → ℕ
unfolding be_from
be_to_u64 p = be_from 0 p

-- `p[n - 1 - i] = v >> (8 * i)`, from `i = n - 1` down to 0.
unfoldable pub u64_to_be : ℕ → ℕ → List ℕ
u64_to_be v zero = []
u64_to_be v (suc i) = u8 (v / 2 ^ (8 * i)) ∷ u64_to_be v i
