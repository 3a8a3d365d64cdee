-- ===== src/Common/Redis.antt =====
-- common/redis.go. Package go-redis is a parameter. K: clients; E: errors.
use mine_net.Base.{Bool, true, false, Option, none, some, if◌then◌else◌}
use mine_net.Config.{RedisConfig}

pub record RedisApi (K E : Type 0) : Type 0 where
  pub new_client : RedisConfig → K
  pub ping : K → Option E
  pub close : K → K × Option E

-- The package's variables: the client, nil at first, and whether the sync.Once is spent.
pub record RedisState (K : Type 0) : Type 0 where
  pub redis_client : Option K
  pub once_done : Bool

abbrev pub new_redis_state : {K : Type 0} → RedisState K
new_redis_state = record { redis_client = none; once_done = false }

pub data RedisError (E : Type 0) : Type 0 where
  client_nil : RedisError E
  redis : E → RedisError E

module _ {K E : Type 0} (api : RedisApi K E) where
  abbrev wrapped : Option E → Option (RedisError E)
  wrapped none = none
  wrapped (some e) = some (redis e)

  -- The configuration is not nil, as main gives it, and the error is always nil.
  unfoldable pub init_redis : RedisConfig → RedisState K → RedisState K
  init_redis cfg s =
      if s.once_done
      then s
      else record { redis_client = some (api.new_client cfg); once_done = true }

  abbrev pub get_redis_client : RedisState K → Option K
  get_redis_client s = s.redis_client

  abbrev pub start_client : Option K → Option (RedisError E)
  start_client none = some client_nil
  start_client (some k) = wrapped (api.ping k)

  unfoldable pub start : RedisState K → Option (RedisError E)
  start s = start_client s.redis_client

  abbrev pub stop_client : Option K → RedisState K → RedisState K × Option (RedisError E)
  stop_client none s = (s, none)
  stop_client (some k) s =
      let closed = api.close k in (record s { redis_client = some (closed.0) }, wrapped (closed.1))

  unfoldable pub stop : RedisState K → RedisState K × Option (RedisError E)
  stop s = stop_client s.redis_client s
