-- ===== src/Proxy/Forwarding/Order.antt =====
-- The order in which the socket of a connection writes the packets of its channel (handleSocketTraffic
-- of player-gateway-testing-app/internal/proxy/client_connection.go).
use amazon_gamelift_toolkit.Base.{
  ℕ, ◌+◌, ◌≤◌, ◌<◌, ◌≡◌, refl, sym, ap, ◌∙◌, Bool, true, false, List, [], ◌∷◌, ◌++◌, append_assoc,
  append-nil, length-append, none, some, arith, lt→ltb, length, replicate,
}
use amazon_gamelift_toolkit.Go.Text.{Bytes}
use amazon_gamelift_toolkit.Proxy.Pool.{buffer_size}
use amazon_gamelift_toolkit.Proxy.Forwarding.Socket.{
  Socket, SocketRead, bytes_read, deadline_exceeded, read_failed, SocketTurn, puts, context_done,
  round, Outcome, put, write_next, read_next, take_next, turn, unless_returned,
  handle_socket_traffic,
}

abbrev pub queue_of : Socket → List Bytes
queue_of s = s.client_conn.server_bound_traffic_chan

abbrev held : Socket → List Bytes
held s = s.written ++ queue_of s

abbrev pub put_by : SocketTurn → List Bytes
put_by (puts packet) = packet ∷ []
put_by context_done = []
put_by (round writes read) = []

unfoldable pub puts_of : List SocketTurn → List Bytes
puts_of [] = []
puts_of (t ∷ turns) = put_by t ++ puts_of turns

-- A turn after which the loop runs on keeps the packets and their order, and appends what is put.
abbrev IsOrdered : Socket → Socket → List Bytes → Type 0
IsOrdered s s' new =
    (held s' ≡ held s ++ new) × (length (queue_of s') ≤ length (queue_of s) + length new)

put-IsOrdered :
    (s : Socket) (packet : Bytes)
    → length (queue_of s) < buffer_size
    → IsOrdered s (put s packet) (packet ∷ [])
unfolding put
put-IsOrdered s packet room = rw (lt→ltb (length (queue_of s)) buffer_size room) (
  sym (append_assoc s.written (queue_of s) (packet ∷ [])),
  omega (arith, length-append (queue_of s) (packet ∷ [])),
)

read_next-IsOrdered :
    (s : Socket) (read : SocketRead)
    → (read_next s read).1 ≡ none
    → IsOrdered s (read_next s read).0 []
unfolding read_next
read_next-IsOrdered s deadline_exceeded e = (sym (append-nil (held s)), omega arith)
read_next-IsOrdered s read_failed e = absurd (cc)
read_next-IsOrdered s (bytes_read packet) e = (sym (append-nil (held s)), omega arith)

write_next-IsOrdered :
    (s : Socket) (writes : Bool) (packet : Bytes) (queue : List Bytes)
    → queue_of s ≡ packet ∷ queue
    → (write_next s writes packet queue).1 ≡ none
    → IsOrdered s (write_next s writes packet queue).0 []
unfolding write_next
write_next-IsOrdered s false packet queue same e = absurd (cc)
write_next-IsOrdered s true packet queue same e = (
  append_assoc s.written (packet ∷ []) queue
      ∙ ap (◌++◌ s.written) (sym same)
      ∙ sym (append-nil (held s)),
  omega (arith, ap length same),
)

take_next-IsOrdered :
    (s : Socket) (writes : Bool) (read : SocketRead) (queue : List Bytes)
    → queue_of s ≡ queue
    → (take_next s writes read queue).1 ≡ none
    → IsOrdered s (take_next s writes read queue).0 []
unfolding take_next
take_next-IsOrdered s writes read [] same e = read_next-IsOrdered s read e
take_next-IsOrdered s writes read (packet ∷ queue) same e =
    write_next-IsOrdered s writes packet queue same e

turn-IsOrdered :
    (s : Socket) (t : SocketTurn)
    → length (queue_of s) + length (put_by t) ≤ buffer_size
    → (turn s t).1 ≡ none
    → IsOrdered s (turn s t).0 (put_by t)
turn-IsOrdered s (puts packet) room e = put-IsOrdered s packet (omega arith)
turn-IsOrdered s context_done room e = absurd (cc)
turn-IsOrdered s (round writes read) room e = take_next-IsOrdered s writes read (queue_of s) refl e

unless_returned-none :
    (s : Socket) (outcome : Outcome) (rest : Socket × Outcome)
    → (unless_returned s outcome rest).1 ≡ none
    → (outcome ≡ none) × (unless_returned s outcome rest ≡ rest)
unfolding unless_returned
unless_returned-none s none rest e = (refl, refl)
unless_returned-none s (some result) rest e = absurd (cc)

handle_socket_traffic-IsOrdered :
    (s : Socket) (turns : List SocketTurn)
    → length (queue_of s) + length (puts_of turns) ≤ buffer_size
    → (handle_socket_traffic s turns).1 ≡ none
    → IsOrdered s (handle_socket_traffic s turns).0 (puts_of turns)
unfolding handle_socket_traffic puts_of
handle_socket_traffic-IsOrdered s [] room e = (sym (append-nil (held s)), omega arith)
handle_socket_traffic-IsOrdered s (t ∷ turns) room e =
    let s' = (turn s t).0 in
    let rest = handle_socket_traffic s' turns in
    let (goes_on, same) = unless_returned-none s' (turn s t).1 rest e in
    let len = length-append (put_by t) (puts_of turns) in
    let (first, shorter) = turn-IsOrdered s t (omega arith) goes_on in
    let (order, bound) =
      handle_socket_traffic-IsOrdered s' turns (omega arith) (sym (ap (λ r. r.1) same) ∙ e) in
    (
      ap (λ r. held r.0) same
          ∙ order
          ∙ ap (λ l. l ++ puts_of turns) first
          ∙ append_assoc (held s) (put_by t) (puts_of turns),
      omega (arith, ap (λ r. length (queue_of r.0)) same),
    )

-- As many rounds as there are packets, in which the writes succeed.
pub flush : ℕ → List SocketTurn
flush n = replicate n (round true deadline_exceeded)

flushed :
    (s : Socket) (queue : List Bytes)
    → queue_of s ≡ queue
    → let after = handle_socket_traffic s (flush (length queue)) in
      (after.1 ≡ none) × (after.0.written ≡ s.written ++ queue) × (queue_of after.0 ≡ [])
unfolding handle_socket_traffic flush unless_returned
flushed s [] same = (refl, sym (append-nil s.written), same)
flushed s (packet ∷ queue) same =
    let next = record s {
      client_conn = record s.client_conn { server_bound_traffic_chan = queue };
      written = s.written ++ packet ∷ [];
    } in
    let (goes_on, all, empty) = flushed next queue refl in
    rw same (goes_on, all ∙ append_assoc s.written (packet ∷ []) queue, empty)

-- While the loop of a socket runs, the packets that were put into the channel of its connection are
-- written to the destination in their order and each once: after as many more rounds as packets
-- wait, in which the writes succeed, what has been written is what was before, then the packets that
-- were waiting, then those that were put in, and the loop still runs. The channel has to have room
-- for these packets.
pub queued_packets_are_written :
    (s : Socket) (turns : List SocketTurn)
    → length (queue_of s) + length (puts_of turns) ≤ buffer_size
    → (handle_socket_traffic s turns).1 ≡ none
    → let now = (handle_socket_traffic s turns).0 in
      let after = handle_socket_traffic now (flush (length (queue_of now))) in
      (after.1 ≡ none)
      × (after.0.written ≡ (s.written ++ queue_of s) ++ puts_of turns)
      × (queue_of after.0 ≡ [])
queued_packets_are_written s turns room runs =
    let now = (handle_socket_traffic s turns).0 in
    let (goes_on, all, empty) = flushed now (queue_of now) refl in
    (goes_on, all ∙ (handle_socket_traffic-IsOrdered s turns room runs).0, empty)
