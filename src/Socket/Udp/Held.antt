-- ===== src/Socket/Udp/Held.antt =====
-- Mutexes of the socket machine that stay locked, and a setting that never takes effect.
use bingewatch.Prelude.{
  ℕ, zero, suc, Bool, ◌==◌, inl, inr, Bool-cases, ◌+◌, ◌<◌, ◌≡◌, refl, ap, ◌∙◌, true, false, Option,
  none, some, List, [], ◌∷◌, ◌++◌, length, arith, not, ◌&&◌, if-true, if-false, ◌>>=◌, find_key,
  IsKeyed, find_key-fresh, find_key_head, find_key-append_none, find_key-update_some,
}
use bingewatch.Status.{Status}
use bingewatch.Machine.{Machines, machine_get_desc, request_handle, handle_mod}
use bingewatch.Machine.Registry.{Registered, request_handle_fresh}
use bingewatch.Socket.{
  Network, Sock, Sockets, SockReply, SockArgs, SockAnswers, is_server, add_socket, get_socket,
  change_sock, create_sock, destroy_sock, init_filters, set_payload_size,
}
use bingewatch.Socket.Udp.{recv_loop, send_loop, sent_reply, udp_read, udp_write}

get_socket_found :
    (s : Sockets) (h : ℕ) (x : Option Sock)
    → get_socket s h ≡ some x
    → (s.locked ≡ false) × (find_key (λ k. k.handle) h s.socks ≡ x)
unfolding get_socket
get_socket_found s h x e = elim (Bool-cases s.locked) [
  | inl l ↦ absurd (ground (arith, l, e))
  | inr l ↦ (l, ground (arith, l, e))
]

get_socket_open :
    (s : Sockets) (h : ℕ) (x : Option Sock)
    → s.locked ≡ false
    → find_key (λ k. k.handle) h s.socks ≡ x
    → get_socket s h ≡ some x
unfolding get_socket
get_socket_open s h x l e = ground (arith, l, e)

module _ {W : Type 0} (net : Network W) where
  -- To destroy a handle that no socket has leaves the list locked: from then on no socket is found,
  -- added or destroyed, since each of these waits for the list for ever.
  pub destroy_sock-get_socket :
      (s : Sockets) (w : W) (h : ℕ)
      → get_socket s h ≡ some none
      → (s' : Sockets) × (destroy_sock net s w h ≡ some (s', w))
        × ((g : ℕ) → get_socket s' g ≡ none)
        × ((k : Sock) → add_socket s' k ≡ none)
        × ((w' : W) (g : ℕ) → destroy_sock net s' w' g ≡ none)
  unfolding destroy_sock get_socket add_socket
  destroy_sock-get_socket s w h missing =
      (record s { locked = true }, ground (arith, missing), λ g. refl, λ k. refl, λ w' g. refl)

  -- A socket that is found, and is locked.
  Stuck : Sockets → ℕ → Type 0
  Stuck s h = (k : Sock) × (get_socket s h ≡ some (some k)) × (k.held ≡ true)

  Stuck-udp_write :
      (s : Sockets) (h : ℕ)
      → Stuck s h
      → (fuel : ℕ) (w : W) (buf : List ℕ) → udp_write net fuel s w h buf ≡ none
  unfolding Stuck udp_write
  Stuck-udp_write s h (k, found, held) fuel w buf = rw found (if-true k.held _ _ held)

  -- A read of at least one byte locks the socket.
  recv_loop_held :
      (fuel : ℕ) (held : Bool) (fd payload bytes : ℕ) (w : W) (buf : List ℕ)
      (offset remaining total : ℕ)
      → held ≡ true
      → 0 < remaining
      → recv_loop net fuel held fd payload bytes w buf offset remaining total ≡ none
  unfolding recv_loop
  recv_loop_held zero held fd payload bytes w buf offset remaining total h pos = refl
  recv_loop_held (suc fuel) held fd payload bytes w buf offset remaining total h pos =
      let no : (remaining == 0) ≡ false = ground (arith, pos) in
      rw (recv_loop, no) (if-true held _ _ h)

  Stuck-udp_read :
      (s : Sockets) (h : ℕ)
      → Stuck s h
      → (fuel : ℕ) (w : W) (buf : List ℕ) → 0 < length buf
      → udp_read net fuel s w h buf ≡ none
  unfolding Stuck udp_read
  Stuck-udp_read s h (k, found, held) fuel w buf some_bytes =
      rw
        (
          found,
          recv_loop_held fuel k.held k.fd k.payload_size (length buf) w buf 0 (length buf) 0 held
              some_bytes,
        )
        refl

  udp_write_fails :
      (fuel : ℕ) (s : Sockets) (w w' : W) (h : ℕ) (k : Sock) (buf : List ℕ)
      → get_socket s h ≡ some (some k)
      → k.held ≡ false
      → send_loop net fuel k.fd k.payload_size w buf (length buf) 0 ≡ some (none, w')
      → udp_write net fuel s w h buf ≡ some (sent_reply s h buf (none, w'))
  unfolding udp_write
  udp_write_fails fuel s w w' h k buf found open_ failed =
      rw found
        (if-false k.held _ _ open_ ∙ ap (λ o. o >>= (λ r. some (sent_reply s h buf r))) failed)

  -- A failed write leaves its socket locked.
  held-Stuck :
      (s : Sockets) (h : ℕ) (k : Sock)
      → get_socket s h ≡ some (some k)
      → Stuck (change_sock h (λ k. record k { held = true }) s) h
  unfolding Stuck change_sock
  held-Stuck s h k found =
      let (unlocked, there) = get_socket_found s h (some k) found in
      (
        record k { held = true },
        get_socket_open (change_sock h (λ k. record k { held = true }) s) h
            (some (record k { held = true })) unlocked
            (find_key-update_some (λ k. k.handle) h (λ k. record k { held = true }) s.socks k
              (λ y e. e) there),
        refl,
      )

  -- Where the system refuses a datagram, `udp_write` answers IO_ERROR with no bytes and leaves the
  -- socket locked: no later write to it returns, and no later read of at least one byte.
  pub udp_write-held :
      (fuel : ℕ) (s : Sockets) (w w' : W) (h : ℕ) (k : Sock) (buf : List ℕ)
      → get_socket s h ≡ some (some k)
      → k.held ≡ false
      → send_loop net fuel k.fd k.payload_size w buf (length buf) 0 ≡ some (none, w')
      → (r : SockReply W) × (udp_write net fuel s w h buf ≡ some r)
        × (r.status ≡ Status.error)
        × (r.count ≡ 0)
        × ((fuel' : ℕ) (v : W) (buf' : List ℕ) → udp_write net fuel' r.sockets v h buf' ≡ none)
        × ((fuel' : ℕ) (v : W) (buf' : List ℕ)
            → 0 < length buf'
            → udp_read net fuel' r.sockets v h buf' ≡ none)
  unfolding sent_reply
  udp_write-held fuel s w w' h k buf found open_ failed =
      let stuck = held-Stuck s h k found in
      (
        sent_reply s h buf (none, w'),
        udp_write_fails fuel s w w' h k buf found open_ failed,
        refl,
        refl,
        Stuck-udp_write (sent_reply s h buf (none, w')).sockets h stuck,
        Stuck-udp_read (sent_reply s h buf (none, w')).sockets h stuck,
      )

-- The socket that `create_sock` adds.
new_sock : SockArgs → ℕ → ℕ → Sock
new_sock args h fd = init_filters (record {
  handle = h;
  fd = fd;
  type = args.type;
  protocol = args.protocol;
  payload_size = args.payload_size;
  in_use = 0;
  io_read = false;
  io_write = false;
  held = false;
})

new_sock_fields :
    (args : SockArgs) (h fd : ℕ)
    → ((new_sock args h fd).handle ≡ h) × ((new_sock args h fd).payload_size ≡ args.payload_size)
unfolding new_sock init_filters
new_sock_fields args h fd = ground arith

module _ {F : Type 0} where
  unset :
      (m : Machines F) (s : Sockets) (h n : ℕ)
      → machine_get_desc m h ≡ none
      → set_payload_size m s h n ≡ some s
  unfolding set_payload_size
  unset m s h n missing = rw (set_payload_size, missing) refl

  create_sock_runs :
      (answers : SockAnswers) (m : Machines F) (s : Sockets) (machine fd : ℕ) (args : SockArgs)
      → answers.socket ≡ some fd
      → (is_server args.type && not answers.bind) ≡ false
      → s.locked ≡ false
      → let q = request_handle m machine in
        create_sock answers m s machine args
        ≡ some (q.0, q.1, record s { socks = s.socks ++ (new_sock args q.0 fd ∷ []) })
  unfolding create_sock add_socket new_sock
  create_sock_runs answers m s machine fd args socket bound open_ =
      rw (create_sock, socket, bound, add_socket, open_) refl

  -- A socket that could be had and, for a server, bound gets a handle that no socket had, and is
  -- found under it with the payload size asked for; but `set_payload_size` of that handle, whatever
  -- the size, changes nothing, since a socket is not among the descriptors of the machines.
  pub create_sock-set_payload_size :
      (answers : SockAnswers) (m : Machines F) (s : Sockets) (machine fd : ℕ) (args : SockArgs)
      → Registered m
      → m.handle_counter + 1 < handle_mod
      → IsKeyed (λ k. k.handle) m.handle_counter s.socks
      → s.locked ≡ false
      → answers.socket ≡ some fd
      → (is_server args.type && not answers.bind) ≡ false
      → (h : ℕ) × (m' : Machines F) × (s' : Sockets) × (k : Sock) × (create_sock answers m s machine
            args
          ≡ some (h, m', s'))
        × (get_socket s h ≡ some none)
        × (get_socket s' h ≡ some (some k))
        × (k.payload_size ≡ args.payload_size)
        × ((n : ℕ) → set_payload_size m' s' h n ≡ some s')
  unfolding Registered machine_get_desc
  create_sock-set_payload_size answers m s machine fd args reg small keyed open_ socket bound =
      let q = request_handle m machine in
      let (new, same) = request_handle_fresh m machine small in
      let k = new_sock args q.0 fd in
      let fields = new_sock_fields args q.0 fd in
      let s' : Sockets = record s { socks = s.socks ++ (k ∷ []) } in
      let below : m.handle_counter < q.0 = omega (arith, new) in
      let gone : find_key (λ k. k.handle) q.0 s.socks ≡ none =
        find_key-fresh (λ k. k.handle) m.handle_counter q.0 s.socks keyed below in
      let absent : find_key (λ d. d.handle) q.0 q.1.machine_descriptors ≡ none =
        ap (find_key (λ d. d.handle) q.0) same
        ∙ find_key-fresh (λ d. d.handle) m.handle_counter q.0 m.machine_descriptors reg.0 below in
      (
        q.0,
        q.1,
        s',
        k,
        create_sock_runs answers m s machine fd args socket bound open_,
        get_socket_open s q.0 none open_ gone,
        get_socket_open s' q.0 (some k) open_ (
            find_key-append_none (λ k. k.handle) q.0 s.socks (k ∷ []) gone
            ∙ find_key_head (λ k. k.handle) q.0 k [] fields.0),
        fields.1,
        λ n. unset q.1 s' q.0 n absent,
      )
