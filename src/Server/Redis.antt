-- ===== src/Server/Redis.antt =====
-- The clients of Redis: `InitRedisClient` and `ShutDownRedisClient` of util/redis.go, and
-- `GetRedisClient` of modules/sse/server.go, which connects in the same way.
use runner_controller_micros.Base.{ℕ, String, Option, none, some}
use runner_controller_micros.Service.World.{Reply, given, refused}

-- The library of Redis: the address in a URL, the result of a ping, which may differ from one time to
-- another, and of closing a client.
pub record Library : Type 0 where
  pub parse_url : String → Reply String
  pub ping : ℕ → String → Option String
  pub close : ℕ → Option String

-- The address of a client that is connected, or the error.
unfoldable pub pinged : String → Option String → Reply String
pinged addr none = given addr
pinged addr (some e) = refused e

module _ (library : Library) (time : ℕ) where
  unfoldable pub connect_to : Reply String → Reply String
  unfolding pinged
  connect_to (refused e) = refused e
  connect_to (given addr) = pinged addr (library.ping time addr)

  -- `GetRedisClient`, and `InitRedisClient`, which keeps the client in `RedisClient`
  unfoldable pub connect : String → Reply String
  unfolding connect_to
  connect url = connect_to (library.parse_url url)
