-- ===== src/Modbus/Samples.antt =====
-- A concrete socket: bytes arrive and leave in small pieces.
use ros2_wavemakers.Base.{
  List, [], ap, arith, drop, length, min, refl, suc, take, zero, ℕ, ◌++◌, ◌<◌, ◌∙◌, ◌∷◌, ◌≡◌, ◌≤◌,
}
use ros2_wavemakers.Modbus.Socket.{IsStream, Recv, SocketOps, established, received, would_block}

pub record Pipe : Type 0 where
  pub inbox : List ℕ
  pub outbox : List ℕ

abbrev recv_some : List ℕ → Recv
recv_some [] = would_block
recv_some (b ∷ bs) = received (b ∷ bs)

abbrev up_to_two : ℕ → ℕ
up_to_two zero = 0
up_to_two (suc zero) = 1
up_to_two (suc (suc n)) = 2

pub piece :
    (n b : ℕ) (bs : List ℕ)
    → 0 < n
    → (0 < up_to_two n)
      × (up_to_two n ≤ n)
      × (recv_some (take (up_to_two n) (b ∷ bs)) ≡ received (take (up_to_two n) (b ∷ bs)))
piece zero b bs h = absurd (omega arith)
piece (suc zero) b bs h = (omega arith, omega arith, refl)
piece (suc (suc n)) b bs h = (omega arith, omega arith, refl)

-- At most two bytes come at a time, and at most three go.
abbrev pub pipe : SocketOps Pipe
pipe = record {
  send = λ bs w. (min 3 (length bs), record w { outbox = w.outbox ++ take (min 3 (length bs)) bs });
  recv = λ n w.
      (recv_some (take (up_to_two n) w.inbox), record w { inbox = drop (up_to_two n) w.inbox });
  shutdown_socket = λ w. w;
  close_socket = λ w. record { inbox = []; outbox = w.outbox };
  resolve = λ host port w. (1 ∷ [], w);
  dial = λ a ms w. (established, w);
}

abbrev pub pipe_stream : IsStream pipe
pipe_stream = record {
  incoming = λ w. w.inbox;
  outgoing = λ w. w.outbox;
  recv_some = λ n b bs w h e.
      let (lo, hi, r) = piece n b bs h in
      (
        up_to_two n,
        lo,
        hi,
        ap (λ xs. recv_some (take (up_to_two n) xs)) e ∙ r,
        ap (drop (up_to_two n)) e,
      );
  send_some = λ bs w. refl;
}
