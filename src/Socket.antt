-- ===== src/Socket.antt =====
-- src/socket-machine.c: the list of sockets, and datagrams sent and received.
--
-- The calls of the system are given by `Network`, over a world `W`; a call that answers -1 gives
-- `none`. The mutexes are modelled, since some paths leave one locked: `none` as the outcome of an
-- operation stands for a wait that does not end, or for a byte stored outside of the buffer.
pub mod Udp
mod Tests
use bingewatch.Prelude.{
  ℕ, zero, suc, ◌≤◌, ◌<◌, ◌≡◌, refl, ◌⊎◌, inl, inr, Bool-cases, arith, ◌+◌, ◌-◌, ◌%◌, ◌^◌, Bool,
  true, false, Option, none, some, List, [], ◌∷◌, ◌++◌, take, drop, length, ltb, leb, ◌==◌, not,
  ◌&&◌, if◌then◌else◌, add_size, sub_size, size_mod, ◌>>=◌, find_key, update_key, remove_key,
}
use bingewatch.Status.{Status}
use bingewatch.Machine.{Machines, machine_get_desc, request_handle}

-- `enum sock_type_e`, `enum sock_protocol_e`
pub data SockType : Type 0 where
  server client : SockType

pub data SockProtocol : Type 0 where
  udp tcp : SockProtocol

-- `struct sock_desc_t`: `io_read` and `io_write` say whether the side is there; `held` is whether
-- its mutex is locked.
pub record Sock : Type 0 where
  pub handle : ℕ
  pub fd : ℕ
  pub type : SockType
  pub protocol : SockProtocol
  pub payload_size : ℕ
  pub in_use : ℕ
  pub io_read : Bool
  pub io_write : Bool
  pub held : Bool

-- `socks` and `sock_list_lock`
pub record Sockets : Type 0 where
  pub socks : List Sock
  pub locked : Bool

-- `sendto(fd, buf, n)`, `recvfrom(fd, n)`, and `shutdown` with `close`.
pub record Network (W : Type 0) : Type 0 where
  pub sendto : W → ℕ → List ℕ → Option ℕ × W
  pub recvfrom : W → ℕ → ℕ → Option (List ℕ) × W
  pub shutdown : W → ℕ → W

-- `UDP_PACKET_SIZE`
abbrev pub udp_packet_size : ℕ
udp_packet_size = 1500 - 20 - 8

-- `add_socket`
pub add_socket : Sockets → Sock → Option Sockets
add_socket s sock = if s.locked then none else some (record s { socks = s.socks ++ (sock ∷ []) })

-- `get_socket`: the socket, or NULL.
unfoldable pub get_socket : Sockets → ℕ → Option (Option Sock)
get_socket s h = if s.locked then none else some (find_key (λ k. k.handle) h s.socks)

-- The socket of a handle changed in place.
pub change_sock : ℕ → (Sock → Sock) → Sockets → Sockets
change_sock h f s = record s { socks = update_key (λ k. k.handle) h f s.socks }

-- `acquire_socket`, `release_socket`; `in_use` is a `char`.
pub acquire_socket : Sock → Option Sock
acquire_socket k = if k.held then none else some (record k { in_use = (k.in_use + 1) % 256 })

pub release_socket : Sock → Option Sock
release_socket k = if k.held then none else some (record k { in_use = (k.in_use + 255) % 256 })

-- `init_filters`, once its allocations have succeeded.
pub init_filters : Sock → Sock
init_filters k = elim k.type [
  | SockType.server ↦ record k { io_read = true }
  | SockType.client ↦ record k { io_write = true }
]

-- What a read or a write of a socket leaves.
pub record SockReply (W : Type 0) : Type 0 where
  pub sockets : Sockets
  pub status : Status
  pub count : ℕ
  pub buf : List ℕ
  pub world : W

module _ {W : Type 0} (net : Network W) where
  -- `destroy_sock`
  pub destroy_sock : Sockets → W → ℕ → Option (Sockets × W)
  destroy_sock s w h = if s.locked then none else elim (find_key (λ k. k.handle) h s.socks) [
    | none ↦ some (record s { locked = true }, w)
    | some k ↦
        if k.in_use == 0
        then some (record s { socks = remove_key (λ k. k.handle) h s.socks }, net.shutdown w k.fd)
        else none
  ]

-- The answers of `socket` and `bind` to `create_sock`.
pub record SockAnswers : Type 0 where
  pub socket : Option ℕ
  pub bind : Bool

-- `struct sockiom_args`, less the address.
pub record SockArgs : Type 0 where
  pub type : SockType
  pub protocol : SockProtocol
  pub payload_size : ℕ

abbrev is_server : SockType → Bool
is_server SockType.server = true
is_server SockType.client = false

module _ {F : Type 0} where
  -- `create_sock` of the machine `machine`, once its allocations have succeeded: the handle; a
  -- socket that cannot be had gives IO_ERROR, which is -1.
  pub create_sock :
      SockAnswers
      → Machines F
      → Sockets
      → (machine : ℕ) → SockArgs
      → Option (ℕ × Machines F × Sockets)
  unfolding init_filters add_socket
  create_sock answers m s machine args = elim answers.socket [
    | none ↦ some (2 ^ 32 - 1, m, s)
    | some fd ↦ if is_server args.type && not answers.bind then some (0, m, s) else (do
      let q = request_handle m machine
      s' ← add_socket s (
          init_filters (record {
            handle = q.0;
            fd = fd;
            type = args.type;
            protocol = args.protocol;
            payload_size = args.payload_size;
            in_use = 0;
            io_read = false;
            io_write = false;
            held = false;
          }))
      some (q.0, q.1, s'))
  ]

  -- `set_payload_size`, which looks for the handle among the descriptors of the machines: what it
  -- finds there is no socket, and storing into it is undefined.
  pub set_payload_size : Machines F → Sockets → ℕ → ℕ → Option Sockets
  unfolding machine_get_desc
  set_payload_size m s h payload_size = elim (machine_get_desc m h) [
    | none ↦ some s
    | some d ↦ none
  ]
