-- ===== src/Proxy/ServerSide.antt =====
-- player-gateway-testing-app/internal/proxy/server_side_traffic_handler.go: which client-side
-- proxies carry the traffic of a player, and the round robin over them on the way back. Times are
-- nanoseconds of the monotonic clock. The handler's maps hold pointers to the same structs, so these
-- stand on a heap, and a pointer is an index into it.
pub mod View
pub mod Invariant
pub mod Sources
pub mod RoundRobin
pub mod Rotation
pub mod Reach
use amazon_gamelift_toolkit.Base.{
  ℕ, zero, suc, ◌+◌, ◌-◌, ◌*◌, ◌%◌, Bool, true, false, List, [], ◌∷◌, ◌++◌, Option, none, some, ltb,
  if◌then◌else◌, length, get_elem?, set,
}
use amazon_gamelift_toolkit.Base.Int.{ℤ}
use amazon_gamelift_toolkit.Base.Eq.{int_eq}
use amazon_gamelift_toolkit.Base.Result.{Result, ok, err, panic}
use amazon_gamelift_toolkit.Base.Dict.{Dict, lookup, insert, delete}
use amazon_gamelift_toolkit.Go.Text.{Bytes}
use amazon_gamelift_toolkit.Token.{TokenError, parse_server_side_token}
use amazon_gamelift_toolkit.Proxy.{UdpAddr, udp_addr_beq, PreprocessServerBoundTrafficResult}

abbrev pub second : ℕ
second = 1000000000

abbrev pub active_endpoint_timeout : ℕ
active_endpoint_timeout = 1 * second

abbrev pub connection_drop_timeout : ℕ
connection_drop_timeout = 60 * second

pub record ClientSideProxyInfo : Type 0 where
  pub source_addr : UdpAddr
  pub last_received_timestamp : ℕ

pub record ServerSideProxyTrafficHandler : Type 0 where
  -- the structs that the pointers below stand for
  pub infos : List ClientSideProxyInfo
  pub client_side_proxy_sources : Dict ℤ (List ℕ)
  pub last_used_source : Dict ℤ ℕ
  pub next_source_index : Dict ℤ ℕ

unfoldable pub new_handler : ServerSideProxyTrafficHandler
new_handler = record {
  infos = [];
  client_side_proxy_sources = [];
  last_used_source = [];
  next_source_index = [];
}

-- A missing key of a map of slices is the empty slice, and of a map of numbers zero.
abbrev pub or_nil : Option (List ℕ) → List ℕ
or_nil none = []
or_nil (some xs) = xs

abbrev pub or_zero : Option ℕ → ℕ
or_zero none = 0
or_zero (some n) = n

abbrev pub sources_of : ServerSideProxyTrafficHandler → ℤ → List ℕ
sources_of h player = or_nil (lookup player h.client_side_proxy_sources)

abbrev pub has_addr : UdpAddr → Option ClientSideProxyInfo → Bool
has_addr a none = false
has_addr a (some info) = udp_addr_beq info.source_addr a

unfoldable pub find_client_info : List ClientSideProxyInfo → List ℕ → UdpAddr → Option ℕ
find_client_info infos [] source_addr = none
find_client_info infos (ptr ∷ sources) source_addr =
    if has_addr source_addr (get_elem? infos ptr)
    then some ptr
    else find_client_info infos sources source_addr

abbrev pub touch : ℕ → ClientSideProxyInfo → ClientSideProxyInfo
touch now info = record info { last_received_timestamp = now }

-- `clientInfo.LastReceivedTimestamp = time.Now()` through a pointer
unfoldable pub stamp : List ClientSideProxyInfo → ℕ → ℕ → List ClientSideProxyInfo
stamp [] ptr now = []
stamp (info ∷ infos) zero now = touch now info ∷ infos
stamp (info ∷ infos) (suc ptr) now = info ∷ stamp infos ptr now

-- The known source of a packet, or a new one behind the others.
unfoldable pub record_source :
    ServerSideProxyTrafficHandler → ℕ → ℤ → UdpAddr → ServerSideProxyTrafficHandler
record_source h now player source_addr =
    let sources = sources_of h player in
    elim (find_client_info h.infos sources source_addr) [
      | some ptr ↦ record h {
        infos = stamp h.infos ptr now;
        last_used_source = insert player ptr h.last_used_source;
      }
      | none ↦
          let ptr = length h.infos in
          record h {
            infos =
                h.infos ++ record { source_addr = source_addr; last_received_timestamp = now } ∷ [];
            client_side_proxy_sources =
                insert player (sources ++ ptr ∷ []) h.client_side_proxy_sources;
            last_used_source = insert player ptr h.last_used_source;
          }
    ]

unfoldable pub preprocess_server_bound_traffic :
    ServerSideProxyTrafficHandler
    → ℕ
    → Bytes
    → UdpAddr
    → ServerSideProxyTrafficHandler × Result TokenError PreprocessServerBoundTrafficResult
unfolding record_source
preprocess_server_bound_traffic h now packet source_addr = elim (parse_server_side_token packet) [
  | err e ↦ (h, err e)
  | panic ↦ (h, panic)
  | ok r ↦ (
    record_source h now r.0 source_addr,
    ok (record { player_number = r.0; packet = r.1; config_command = none }),
  )
]

-- time.Since(src.LastReceivedTimestamp) < activeEndpointTimeout
abbrev pub is_active : ℕ → Option ClientSideProxyInfo → Bool
is_active now none = false
is_active now (some info) = ltb (now - info.last_received_timestamp) active_endpoint_timeout

unfoldable pub filter_active_sources : List ClientSideProxyInfo → ℕ → List ℕ → List ℕ
filter_active_sources infos now [] = []
filter_active_sources infos now (ptr ∷ sources) =
    let rest = filter_active_sources infos now sources in
    if is_active now (get_elem? infos ptr) then ptr ∷ rest else rest

-- The active sources, or the last used one if there are none.
abbrev pub or_last : ℕ → List ℕ → List ℕ
or_last last_used [] = last_used ∷ []
or_last last_used (ptr ∷ active) = ptr ∷ active

-- The player's entries go when the connection has been silent for too long.
unfoldable pub forget_player : ServerSideProxyTrafficHandler → ℤ → ServerSideProxyTrafficHandler
forget_player h player = record h {
  client_side_proxy_sources = delete player h.client_side_proxy_sources;
  last_used_source = delete player h.last_used_source;
  next_source_index = delete player h.next_source_index;
}

-- The address behind a pointer, if there is one.
abbrev pub addr_of : List ClientSideProxyInfo → Option ℕ → Result TokenError (Option UdpAddr)
addr_of infos none = panic
addr_of infos (some ptr) = elim (get_elem? infos ptr) [
  | none ↦ panic
  | some info ↦ ok (some info.source_addr)
]

-- The round robin: the stored index is used as it is, and `targets[idx]` panics out of range.
unfoldable pub send_round_robin :
    ServerSideProxyTrafficHandler
    → ℤ
    → List ℕ
    → ServerSideProxyTrafficHandler × Result TokenError (Option UdpAddr)
send_round_robin h player targets =
    let idx = or_zero (lookup player h.next_source_index) in
    (
      record h {
        next_source_index = insert player ((idx + 1) % length targets) h.next_source_index;
      },
      addr_of h.infos (get_elem? targets idx),
    )

abbrev pub targets_of : ServerSideProxyTrafficHandler → ℕ → ℤ → ℕ → List ℕ
targets_of h now player last_used =
    or_last last_used (filter_active_sources h.infos now (sources_of h player))

-- `lastUsed == nil || time.Since(lastUsed.LastReceivedTimestamp) >= connectionDropTimeout`
abbrev pub is_stale : ℕ → Option ClientSideProxyInfo → Bool
is_stale now none = true
is_stale now (some info) =
    if ltb (now - info.last_received_timestamp) connection_drop_timeout then false else true

-- HandleClientBoundTraffic for a player up to the socket: the address that the packet is sent to,
-- or none where the packet is blocked.
unfoldable pub handle_client_bound_traffic :
    ServerSideProxyTrafficHandler
    → ℕ
    → Option ℤ
    → ServerSideProxyTrafficHandler × Result TokenError (Option UdpAddr)
unfolding forget_player send_round_robin
handle_client_bound_traffic h now none = (h, ok none)
handle_client_bound_traffic h now (some player) = elim (lookup player h.last_used_source) [
  | none ↦ (forget_player h player, ok none)
  | some last_used ↦
      if is_stale now (get_elem? h.infos last_used)
      then (forget_player h player, ok none)
      else send_round_robin h player (targets_of h now player last_used)
]
