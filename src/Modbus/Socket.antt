-- ===== src/Modbus/Socket.antt =====
-- The operating system's sockets, which the client only calls. `W` is the state of the world
-- behind the one socket that the client owns.
use ros2_wavemakers.Base.{List, String, drop, take, ℕ, ◌++◌, ◌<◌, ◌∷◌, ◌≡◌, ◌≤◌}

pub data Recv : Type 0 where
  -- `r` bytes; the empty list is `r == 0`, the peer has closed.
  received : List ℕ → Recv
  -- `r < 0` and `recv_timed_out()`.
  would_block : Recv
  -- `r < 0` otherwise.
  broken : Recv

-- How one pass of the `for` over the resolved addresses ends.
pub data Attempt : Type 0 where
  no_socket : Attempt
  refused : Attempt
  select_timeout : Attempt
  select_failed : Attempt
  so_error : Attempt
  established : Attempt

pub record SocketOps (W : Type 0) : Type 0 where
  -- `send`: how many bytes were taken, 0 for every result `r <= 0`.
  pub send : List ℕ → W → ℕ × W
  pub recv : ℕ → W → Recv × W
  pub shutdown_socket : W → W
  pub close_socket : W → W
  -- `getaddrinfo`: the addresses found, none on failure.
  pub resolve : String → ℕ → W → List ℕ × W
  -- `socket`, `connect`, `select` and `getsockopt` for one address.
  pub dial : ℕ → ℕ → W → Attempt × W

-- What POSIX says of a stream socket. `incoming` are the bytes that have arrived and are not yet
-- read: `recv` takes some of them from the front, at most as many as asked for, and one at least
-- where there are any. `outgoing` are the bytes handed over so far: `send` appends the front of
-- its argument, as many bytes as it returns.
pub record IsStream {W : Type 0} (os : SocketOps W) : Type 0 where
  pub incoming : W → List ℕ
  pub outgoing : W → List ℕ
  pub recv_some :
      (n : ℕ) (b : ℕ) (bs : List ℕ) (w : W)
      → 0 < n
      → incoming w ≡ b ∷ bs
      → (k : ℕ) × (0 < k)
        × (k ≤ n)
        × ((os.recv n w).0 ≡ received (take k (b ∷ bs)))
        × (incoming (os.recv n w).1 ≡ drop k (b ∷ bs))
  pub send_some :
      (bs : List ℕ) (w : W) → outgoing (os.send bs w).1 ≡ outgoing w ++ take (os.send bs w).0 bs
