-- ===== src/Modbus/Stream.antt =====
-- Exact sends and receives over a byte stream.
use mathlib.Core.List.{append-nil, append_assoc}
use ros2_wavemakers.Base.{
  List, [], ap, arith, drop, drop-append_le, false, inl, inr, length, length-drop, length-take,
  refl, suc, sym, take, take-append-drop, take-append_le, true, zero, ℕ, ◌++◌, ◌-◌, ◌∙◌, ◌∷◌, ◌≡◌,
  ◌≤◌, ◌⊎◌,
}
use ros2_wavemakers.Modbus.Client.{all_of, recv_exact, send_all}
use ros2_wavemakers.Modbus.Socket.{IsStream, SocketOps, received}

ℕ-cases : (n : ℕ) → (n ≡ 0) ⊎ ((m : ℕ) × (n ≡ suc m))
ℕ-cases zero = inl refl
ℕ-cases (suc m) = inr (m, refl)

module _ {W : Type 0} (os : SocketOps W) where
  send_all_stop :
      (fuel b : ℕ) (bs : List ℕ) (w : W)
      → (os.send (b ∷ bs) w).0 ≡ 0
      → send_all os (suc fuel) (b ∷ bs) w ≡ (false, (os.send (b ∷ bs) w).1)
  unfolding send_all
  send_all_stop fuel b bs w e = rw (e, send_all)

  send_all_step :
      (fuel b : ℕ) (bs : List ℕ) (w : W) (n : ℕ)
      → (os.send (b ∷ bs) w).0 ≡ suc n
      → send_all os (suc fuel) (b ∷ bs) w ≡ send_all os fuel (drop n bs) (os.send (b ∷ bs) w).1
  unfolding send_all
  send_all_step fuel b bs w n e = rw (e, send_all)

  -- When the loop reports success, every byte has been handed over, in order.
  send_all-IsStream :
      (s : IsStream os) (fuel : ℕ) (bs : List ℕ) (w : W)
      → (send_all os fuel bs w).0 ≡ true
      → s.outgoing (send_all os fuel bs w).1 ≡ s.outgoing w ++ bs
  send_all-IsStream s zero [] w h = unfold send_all in sym (append-nil (s.outgoing w))
  send_all-IsStream s (suc fuel) [] w h = unfold send_all in sym (append-nil (s.outgoing w))
  send_all-IsStream s zero (b ∷ bs) w h = absurd (unfold send_all in cc)
  send_all-IsStream s (suc fuel) (b ∷ bs) w h = elim (ℕ-cases (os.send (b ∷ bs) w).0) [
    | inl e ↦ absurd (cc (send_all_stop fuel b bs w e))
    | inr (n, e) ↦
        let w' = (os.send (b ∷ bs) w).1 in
        let step = send_all_step fuel b bs w n e in
        let rest = send_all-IsStream s fuel (drop n bs) w' (rw step at h) in
        let front : s.outgoing w' ≡ s.outgoing w ++ take (suc n) (b ∷ bs) =
          rw e at (s.send_some (b ∷ bs) w) in
        rw (step, rest, front, append_assoc, take-append-drop (suc n) (b ∷ bs))
  ]

  recv_exact_step :
      (fuel n : ℕ) (got : List ℕ) (w : W) (b : ℕ) (bs : List ℕ)
      → (os.recv (suc n) w).0 ≡ received (b ∷ bs)
      → recv_exact os (suc fuel) (suc n) got w
        ≡ recv_exact os fuel (n - length bs) (got ++ (b ∷ bs)) (os.recv (suc n) w).1
  unfolding recv_exact
  recv_exact_step fuel n got w b bs e = rw (e, recv_exact)

  -- Where `n` bytes are there to be read, in whatever pieces they come, a receive of `n` bytes
  -- returns them behind those it had and leaves the stream behind them.
  pub recv_exact-IsStream :
      (s : IsStream os) (fuel n : ℕ) (got xs ys : List ℕ) (w : W)
      → n ≤ fuel
      → length xs ≡ n
      → s.incoming w ≡ xs ++ ys
      → (w' : W) × (recv_exact os fuel n got w ≡ (all_of (got ++ xs), w')) × (s.incoming w' ≡ ys)
  recv_exact-IsStream s fuel zero got [] ys w h e i =
      (w, unfold recv_exact in ap (λ g. (all_of g, w)) (sym (append-nil got)), i)
  recv_exact-IsStream s fuel zero got (x ∷ xs) ys w h e i = absurd (omega arith)
  recv_exact-IsStream s zero (suc n) got xs ys w h e i = absurd (omega arith)
  recv_exact-IsStream s (suc fuel) (suc n) got [] ys w h e i = absurd (omega arith)
  recv_exact-IsStream s (suc fuel) (suc n) got (x ∷ xs) ys w h e i =
      let (k, p, q, r, t) = s.recv_some (suc n) x (xs ++ ys) w (omega arith) i in
      elim (ℕ-cases k) [
        | inl z ↦ absurd (omega arith)
        | inr (j, z) ↦
            let w' = (os.recv (suc n) w).1 in
            let inside : j ≤ length xs = omega arith in
            let front : (os.recv (suc n) w).0 ≡ received (x ∷ take j (xs ++ ys)) = rw z at r in
            let arrived : (os.recv (suc n) w).0 ≡ received (x ∷ take j xs) =
              rw (take-append_le j xs ys inside) at front in
            let behind : s.incoming w' ≡ drop j (xs ++ ys) = rw z at t in
            let left : length (drop j xs) ≡ n - length (take j xs) =
              omega (arith, length-drop j xs, length-take j xs) in
            let (w'', a, b) =
              recv_exact-IsStream s fuel (n - length (take j xs)) (got ++ (x ∷ take j xs))
                (drop j xs) ys w' (omega arith) left (behind ∙ drop-append_le j xs ys inside) in
            (
              w'',
              rw (
                recv_exact_step fuel n got w x (take j xs) arrived,
                a,
                append_assoc,
                take-append-drop j xs,
              ),
              b,
            )
      ]
