-- ===== src/Proxy/ServerSide/Reach.antt =====
-- The server-side handler in any run: packets of players and of the game server in any order.
use amazon_gamelift_toolkit.Base.{ℕ, ◌≡◌, refl, Option}
use amazon_gamelift_toolkit.Base.Int.{ℤ}
use amazon_gamelift_toolkit.Base.Result.{Result, ok, err, panic}
use amazon_gamelift_toolkit.Go.Text.{Bytes}
use amazon_gamelift_toolkit.Token.{TokenError, parse_server_side_token}
use amazon_gamelift_toolkit.Proxy.{UdpAddr}
use amazon_gamelift_toolkit.Proxy.ServerSide.{
  ServerSideProxyTrafficHandler, new_handler, preprocess_server_bound_traffic,
  handle_client_bound_traffic,
}
use amazon_gamelift_toolkit.Proxy.ServerSide.Invariant.{
  IsLinked, new_handler-IsLinked, handle_client_bound_traffic-IsLinked,
}
use amazon_gamelift_toolkit.Proxy.ServerSide.Sources.{record_source-IsLinked}

-- A packet from a source, or a packet of the game server for a player.
pub data Step : ServerSideProxyTrafficHandler → ServerSideProxyTrafficHandler → Type 0 where
  arrive :
      (h : ServerSideProxyTrafficHandler) (now : ℕ) (packet : Bytes) (a : UdpAddr)
      → Step h (preprocess_server_bound_traffic h now packet a).0
  reply :
      (h : ServerSideProxyTrafficHandler) (now : ℕ) (player : Option ℤ)
      → Step h (handle_client_bound_traffic h now player).0

pub data Reach (s : ServerSideProxyTrafficHandler) : ServerSideProxyTrafficHandler → Type 0 where
  here : Reach s s
  next : {h k : ServerSideProxyTrafficHandler} → Reach s h → Step h k → Reach s k

arrive-IsLinked :
    (h : ServerSideProxyTrafficHandler) (now : ℕ) (packet : Bytes) (a : UdpAddr)
    → IsLinked h
    → IsLinked (preprocess_server_bound_traffic h now packet a).0
unfolding preprocess_server_bound_traffic
arrive-IsLinked h now packet a v = of (parse_server_side_token packet) refl
  where
    of :
        (r : Result TokenError (ℤ × Bytes))
        → parse_server_side_token packet ≡ r
        → IsLinked (preprocess_server_bound_traffic h now packet a).0
    of (ok p) e = rw (e, preprocess_server_bound_traffic) (record_source-IsLinked h now p.0 a v)
    of (err x) e = rw (e, preprocess_server_bound_traffic) v
    of panic e = rw (e, preprocess_server_bound_traffic) v

Step-IsLinked : {h k : ServerSideProxyTrafficHandler} → Step h k → IsLinked h → IsLinked k
Step-IsLinked (arrive h now packet a) v = arrive-IsLinked h now packet a v
Step-IsLinked (reply h now player) v = handle_client_bound_traffic-IsLinked h now player v

-- After any run of a new server-side handler, in which packets of the players and of the game
-- server come in any order and at any time, the pointers are linked: each one stands for a struct,
-- no player has one twice, no two players share one, and the last used source of a player is among
-- the player's sources.
pub reachable-IsLinked : {h : ServerSideProxyTrafficHandler} → Reach new_handler h → IsLinked h
reachable-IsLinked here = new_handler-IsLinked
reachable-IsLinked (next run step) = Step-IsLinked step (reachable-IsLinked run)
