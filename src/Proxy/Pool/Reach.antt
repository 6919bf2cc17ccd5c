-- ===== src/Proxy/Pool/Reach.antt =====
-- The pool of connections in any run: connections are asked for and closed in any order.
use amazon_gamelift_toolkit.Base.{ℕ, ◌≡◌, Option, none, some}
use amazon_gamelift_toolkit.Base.Int.{ℤ}
use amazon_gamelift_toolkit.Proxy.{UdpAddr}
use amazon_gamelift_toolkit.Proxy.Pool.{
  EventChan, ClientConnectionPool, new_pool, get_or_create_client_connection,
  close_client_connection,
}
use amazon_gamelift_toolkit.Proxy.Pool.Invariant.{IsPaired, player_at, new_pool-IsPaired}
use amazon_gamelift_toolkit.Proxy.Pool.Closing.{
  get_or_create_client_connection-IsPaired, close_client_connection-IsPaired,
}

-- The system gives a new socket a port that no open connection has.
pub data Step : ClientConnectionPool → ClientConnectionPool → Type 0 where
  ask :
      (pool : ClientConnectionPool) (socket : Option ℕ) (p : ℤ) (a : UdpAddr)
      → ((port : ℕ) → socket ≡ some port → player_at pool port ≡ none)
      → Step pool (get_or_create_client_connection pool socket p a).0
  close : (pool : ClientConnectionPool) (p : ℤ) → Step pool (close_client_connection pool p)

pub data Reach (s : ClientConnectionPool) : ClientConnectionPool → Type 0 where
  here : Reach s s
  next : {h k : ClientConnectionPool} → Reach s h → Step h k → Reach s k

Step-IsPaired : {h k : ClientConnectionPool} → Step h k → IsPaired h → IsPaired k
Step-IsPaired (ask pool socket p a free) v =
    get_or_create_client_connection-IsPaired pool socket p a v free
Step-IsPaired (close pool p) v = (close_client_connection-IsPaired pool p v).0

-- After any run of a new pool, in which connections are asked for and closed in any order, the
-- maps of players and of ports are inverse to each other, and exactly the ports with a player have
-- an open socket. The system has to give new sockets ports that no open connection has.
pub reachable-IsPaired :
    (chan : EventChan) {pool : ClientConnectionPool} → Reach (new_pool chan) pool → IsPaired pool
reachable-IsPaired chan here = new_pool-IsPaired chan
reachable-IsPaired chan (next run step) = Step-IsPaired step (reachable-IsPaired chan run)
