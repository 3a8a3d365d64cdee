-- ===== src/Network/TcpServer/Instance.antt =====
-- network/conn.go's Connection as the network/interface.go IConnection that the pool and the server
-- use.
use mine_net.Base.{◌≡◌, if◌then◌else◌, ℕ, Bool, none, some, Outcome, ok, err, panic}
use mine_net.Base.Int.{to_int32}
use mine_net.Base.Map.{nat_key, lookup, lookup-insert}
use mine_net.Network.Errors.{Error}
use mine_net.Network.RateLimiter.{LimiterLib, RateLimiter}
use mine_net.Network.Connection.State.{Connection, close, close-closed, set_handler, is_alive}
use mine_net.Network.Connection.Send.{send}
use mine_net.Network.Connection.Closed.{close-closed_id}
use mine_net.Network.ConnPool.Pool.{Result, ConnectionInterface}
use mine_net.Network.TcpServer.Server.{ServerInterface}

-- What a caller sees of a method's end. A panic leaves no result; Close does not panic on a sound
-- connection.
abbrev pub result_of : Outcome Error (Unit {0}) → Result
result_of (ok u) = none
result_of (err e) = some e
result_of panic = none

module _ {H V : Type 0} where
  abbrev pub pooled : ConnectionInterface (Connection H V)
  pooled = record {
    id = λ c. c.id;
    is_closed = λ c. c.closed;
    close = λ c. ((close c).0, result_of (close c).1);
    last_active = λ c. c.last_active;
    created_at = λ c. c.created_at;
    error_count = λ c. to_int32 c.error_count;
    is_alive = is_alive;
    close-is_closed = close-closed;
    close_again = λ c h. simp (close-closed_id c h);
  }

  pub lookup-set_handler :
      (cmd k : ℕ) (h : H) (c : Connection H V)
      → lookup k (set_handler cmd h c).handlers
        ≡ (if nat_key.beq cmd k then some h else lookup k c.handlers)
  unfolding set_handler
  lookup-set_handler cmd k h c = lookup-insert cmd k h c.handlers

  -- Over the limiter that the connections share. `pick` is what select picks when it has a choice.
  abbrev pub served :
      (lib : LimiterLib) → Bool → ServerInterface (Connection H V) H (RateLimiter lib)
  served lib pick = record {
    base = pooled;
    set_handler = set_handler;
    handler = λ k c. lookup k c.handlers;
    send =
        λ now r c p. let (r', c', result) = send lib now pick r c p in (r', c', result_of result);
    handler-set_handler = lookup-set_handler;
  }
