-- ===== src/Socket/Udp.antt =====
-- `udp_write`, `udp_read` and the calls that lead to them, in src/socket-machine.c.
pub mod Sent
pub mod Held
use bingewatch.Prelude.{
  ℕ, zero, suc, ◌≤◌, ◌<◌, ◌≡◌, refl, ◌⊎◌, inl, inr, Bool-cases, arith, ◌+◌, ◌-◌, ◌%◌, ◌^◌, Bool,
  true, false, Option, none, some, List, [], ◌∷◌, ◌++◌, take, drop, length, ltb, leb, ◌==◌, not,
  ◌&&◌, if◌then◌else◌, add_size, sub_size, size_mod, ◌>>=◌, find_key, update_key, remove_key,
}
use bingewatch.Status.{Status}
use bingewatch.Socket.{
  Network, Sock, SockProtocol, SockReply, Sockets, acquire_socket, change_sock, get_socket,
  release_socket,
}

-- The bytes stored at an offset of the caller's buffer.
pub store_at : List ℕ → ℕ → List ℕ → Option (List ℕ)
store_at buf offset input =
    if leb (offset + length input) (length buf)
    then some (take offset buf ++ (input ++ drop (offset + length input) buf))
    else none

-- A `ssize_t` that is stored in a `size_t`.
abbrev pub rcvd_size : Option (List ℕ) → ℕ
rcvd_size none = size_mod - 1
rcvd_size (some input) = length input

abbrev rcvd_bytes : Option (List ℕ) → List ℕ
rcvd_bytes none = []
rcvd_bytes (some input) = input

-- The end of `udp_write`; where `sendto` has failed the socket stays locked.
pub sent_reply : {W : Type 0} → Sockets → ℕ → List ℕ → Option ℕ × W → SockReply W
unfolding change_sock
sent_reply s h buf (some written, w) = record {
  sockets = s;
  status = Status.success;
  count = written;
  buf = buf;
  world = w;
}
sent_reply s h buf (none, w) = record {
  sockets = change_sock h (λ k. record k { held = true }) s;
  status = Status.error;
  count = 0;
  buf = buf;
  world = w;
}

-- The size of the next datagram, in `udp_write` and in `udp_read`.
unfoldable pub datagram_size : ℕ → ℕ → ℕ
datagram_size payload remaining = if ltb payload remaining then payload else remaining

-- It is positive and at most either, and one of the two.
pub datagram_size_bounds :
    (payload n : ℕ)
    → 0 < payload
    → 0 < n
    → let b = datagram_size payload n in
      (0 < b) × (b ≤ payload) × (b ≤ n) × ((b ≡ payload) ⊎ (b ≡ n))
unfolding datagram_size
datagram_size_bounds payload n pos pos' = elim (Bool-cases (ltb payload n)) [
  | inl h ↦ rw h (ground (arith, h))
  | inr h ↦ rw h (ground (arith, h))
]

module _ {W : Type 0} (net : Network W) where
  -- The loop of `udp_write`: `written`, or that `sendto` has failed. Fuel: the calls of `sendto`.
  unfoldable pub send_loop :
      ℕ → (fd payload : ℕ) → W → (ptr : List ℕ) → (remaining written : ℕ) → Option (Option ℕ × W)
  send_loop zero fd payload w ptr remaining written = none
  send_loop (suc fuel) fd payload w ptr remaining written =
      let b = datagram_size payload remaining in
      let r = net.sendto w fd (take b ptr) in
      elim (remaining == 0) [
        | true ↦ some (some written, w)
        | false ↦ elim r.0 [
          | none ↦ some (none, r.1)
          | some sent ↦
              send_loop fuel fd payload r.1 (drop sent ptr) (sub_size remaining sent)
                (add_size written sent)
        ]
      ]

  -- `udp_write`
  pub udp_write : ℕ → Sockets → W → ℕ → List ℕ → Option (SockReply W)
  unfolding get_socket send_loop sent_reply
  udp_write fuel s w h buf = do
    found ← get_socket s h
    (elim found [
      | none ↦ some (record { sockets = s; status = Status.error; count = 0; buf = buf; world = w })
      | some k ↦
          if k.held
          then none
          else send_loop fuel k.fd k.payload_size w buf (length buf) 0
            >>= (λ r. some (sent_reply s h buf r))
    ])

  -- The loop of `udp_read`: `*bytes` and the buffer. A round waits for the socket, so it does not
  -- return where this is held. Fuel: the calls of `recvfrom`.
  pub recv_loop :
      ℕ
      → (held : Bool) → (fd payload bytes : ℕ) → W
      → (buf : List ℕ) → (offset remaining total_read : ℕ) → Option (ℕ × List ℕ × W)
  recv_loop zero held fd payload bytes w buf offset remaining total_read = none
  recv_loop (suc fuel) held fd payload bytes w buf offset remaining total_read =
      let b = datagram_size payload remaining in
      let r = net.recvfrom w fd b in
      let n = rcvd_size r.0 in
      elim (remaining == 0) [
        | true ↦ some (bytes, buf, w)
        | false ↦ if held then none else elim (n == 0) [
          | true ↦ some (total_read, buf, r.1)
          | false ↦ store_at buf offset (rcvd_bytes r.0) >>= (λ buf'.
              recv_loop fuel held fd payload bytes r.1 buf' (add_size offset n)
                (sub_size remaining n) (add_size total_read n))
        ]
      ]

  -- `udp_read`; its test for an error is never met, since a `size_t` is not below 0.
  pub udp_read : ℕ → Sockets → W → ℕ → List ℕ → Option (SockReply W)
  unfolding get_socket recv_loop
  udp_read fuel s w h buf = do
    found ← get_socket s h
    (elim found [
      | none ↦ some (record { sockets = s; status = Status.error; count = 0; buf = buf; world = w })
      | some k ↦
          recv_loop fuel k.held k.fd k.payload_size (length buf) w buf 0 (length buf) 0 >>= (λ r.
            some (record {
              sockets = s;
              status = Status.success;
              count = r.0;
              buf = r.1;
              world = r.2;
            }))
    ])

  -- `tcp_read` and `tcp_write`, which do nothing.
  pub tcp_move : Sockets → W → List ℕ → SockReply W
  tcp_move s w buf = record {
    sockets = s;
    status = Status.success;
    count = length buf;
    buf = buf;
    world = w;
  }

  -- `release_socket` of the socket of a handle, at the end of a read or a write.
  pub release_in : ℕ → SockReply W → Option (SockReply W)
  unfolding release_socket change_sock
  release_in h r = elim (find_key (λ k. k.handle) h r.sockets.socks) [
    | none ↦ none
    | some k ↦ (do
      k' ← release_socket k
      some (record r { sockets = change_sock h (λ k. k') r.sockets }))
  ]

  -- `sock_read` and `sock_write`, by the sockets' side and what it calls: a side that is not there
  -- is a NULL pointer that is used.
  pub sock_move :
      (Sock → Bool)
      → (Sockets → W → ℕ → List ℕ → Option (SockReply W))
      → Sockets
      → W
      → ℕ
      → List ℕ
      → Option (SockReply W)
  unfolding get_socket acquire_socket change_sock tcp_move release_in
  sock_move side udp_call s w h buf = do
    found ← get_socket s h
    (elim found [
      | none ↦ some (record { sockets = s; status = Status.error; count = 0; buf = buf; world = w })
      | some k ↦
          if side k
          then (do
            k' ← acquire_socket k
            let s' = change_sock h (λ k. k') s
            r ← (elim k.protocol as (λ _. Option (SockReply W)) [
              | SockProtocol.udp ↦ udp_call s' w h buf
              | SockProtocol.tcp ↦ some (tcp_move s' w buf)
            ])
            release_in h r)
          else none
    ])

  pub sock_read : ℕ → Sockets → W → ℕ → List ℕ → Option (SockReply W)
  unfolding sock_move udp_read
  sock_read fuel s w h buf = sock_move (λ k. k.io_read) (udp_read fuel) s w h buf

  pub sock_write : ℕ → Sockets → W → ℕ → List ℕ → Option (SockReply W)
  unfolding sock_move udp_write
  sock_write fuel s w h buf = sock_move (λ k. k.io_write) (udp_write fuel) s w h buf
