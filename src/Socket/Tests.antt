-- ===== src/Socket/Tests.antt =====
-- A network that takes every datagram and one that takes none, and the theorems at them.
use bingewatch.Prelude.{
  ℕ, ◌<◌, ◌≡◌, refl, true, false, none, some, List, [], ◌∷◌, ◌++◌, length, arith, find_key,
}
use bingewatch.Status.{Status}
use bingewatch.Machine.{Machines}
use bingewatch.Machine.Registry.{Registered}
use bingewatch.Socket.{
  Network, Sock, Sockets, SockArgs, SockAnswers, SockProtocol, SockReply, SockType, add_socket,
  create_sock, destroy_sock, get_socket, set_payload_size, udp_packet_size,
}
use bingewatch.Socket.Udp.{send_loop, udp_read, udp_write}
use bingewatch.Socket.Udp.Held.{
  create_sock-set_payload_size, destroy_sock-get_socket, udp_write-held,
}
use bingewatch.Socket.Udp.Sent.{Datagrams, Splits, udp_write-Splits}

-- The world is the list of the datagrams that were sent.
abbrev taking : Network (List (List ℕ))
taking = record {
  sendto = λ w fd d. (some (length d), w ++ (d ∷ []));
  recvfrom = λ w fd n. (some [], w);
  shutdown = λ w fd. w;
}

taking-Datagrams : Datagrams taking (λ w. w)
taking-Datagrams = record { whole = λ w fd d. refl; logged = λ w fd d. refl }

abbrev refusing : Network (List (List ℕ))
refusing = record taking { sendto = λ w fd d. (none, w) }

abbrev client : Sock
client = record {
  handle = 4;
  fd = 9;
  type = SockType.client;
  protocol = SockProtocol.udp;
  payload_size = 2;
  in_use = 0;
  io_read = false;
  io_write = true;
  held = false;
}

abbrev one_sock : Sockets
one_sock = record { socks = client ∷ []; locked = false }

abbrev input : List ℕ
input = 1 ∷ 2 ∷ 3 ∷ 4 ∷ 5 ∷ []

found : get_socket one_sock 4 ≡ some (some client)
unfolding get_socket find_key
found = refl

missing : get_socket one_sock 5 ≡ some none
unfolding get_socket find_key
missing = refl

udp_write-Splits_example :
    (ds : List (List ℕ)) × (w' : List (List ℕ)) × (udp_write taking 6 one_sock [] 4 input
      ≡ some (record {
        sockets = one_sock;
        status = Status.success;
        count = length input;
        buf = input;
        world = w';
      }))
    × (w' ≡ ds)
    × Splits 2 input ds
udp_write-Splits_example =
    udp_write-Splits taking (λ w. w) taking-Datagrams 6 one_sock [] 4 client input found refl
      (omega arith) (omega arith) (omega arith)

destroy_sock-get_socket_example :
    (s' : Sockets) × (destroy_sock taking one_sock [] 5 ≡ some (s', []))
    × ((g : ℕ) → get_socket s' g ≡ none)
    × ((k : Sock) → add_socket s' k ≡ none)
    × ((w' : List (List ℕ)) (g : ℕ) → destroy_sock taking s' w' g ≡ none)
destroy_sock-get_socket_example = destroy_sock-get_socket taking one_sock [] 5 missing

refused : send_loop refusing 6 9 2 [] input 5 0 ≡ some (none, [])
unfolding send_loop
refused = refl

udp_write-held_example :
    (r : SockReply (List (List ℕ))) × (udp_write refusing 6 one_sock [] 4 input ≡ some r)
    × (r.status ≡ Status.error)
    × (r.count ≡ 0)
    × ((fuel' : ℕ) (v : List (List ℕ)) (buf' : List ℕ)
        → udp_write refusing fuel' r.sockets v 4 buf' ≡ none)
    × ((fuel' : ℕ) (v : List (List ℕ)) (buf' : List ℕ)
        → 0 < length buf'
        → udp_read refusing fuel' r.sockets v 4 buf' ≡ none)
udp_write-held_example = udp_write-held refusing 6 one_sock [] [] 4 client input found refl refused

abbrev no_machines : Machines ℕ
no_machines = record {
  machines = [];
  handle_map = [];
  handle_alloc = 0;
  handle_counter = 4;
  machine_descriptors = [];
}

abbrev args : SockArgs
args = record {
  type = SockType.server;
  protocol = SockProtocol.udp;
  payload_size = udp_packet_size;
}

abbrev answers : SockAnswers
answers = record { socket = some 6; bind = true }

no_machines-Registered : Registered no_machines
unfolding Registered
no_machines-Registered = (tt, tt)

create_sock-set_payload_size_example :
    (h : ℕ) × (m' : Machines ℕ) × (s' : Sockets) × (k : Sock) × (create_sock answers no_machines
        one_sock 0 args
      ≡ some (h, m', s'))
    × (get_socket one_sock h ≡ some none)
    × (get_socket s' h ≡ some (some k))
    × (k.payload_size ≡ udp_packet_size)
    × ((n : ℕ) → set_payload_size m' s' h n ≡ some s')
create_sock-set_payload_size_example =
    create_sock-set_payload_size answers no_machines one_sock 0 6 args no_machines-Registered
      (omega arith) (omega arith, tt, tt) refl refl refl
