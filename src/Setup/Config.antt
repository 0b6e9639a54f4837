-- ===== src/Setup/Config.antt =====
-- internal/config: what is computed from the fields that the environment sets. A text is its bytes;
-- caarlos0/env, which reads them, is not modelled.
use high_load_ledger.Prelude.{ℕ, List, [], ◌∷◌, ◌++◌, ◌==◌, if◌then◌else◌}
use high_load_ledger.Prelude.Int.{ℤ}
use high_load_ledger.Wire.{Bytes}

-- ","
abbrev pub comma : ℕ
comma = 44

-- ":"
abbrev pub colon : ℕ
colon = 58

abbrev add_first : ℕ → List Bytes → List Bytes
add_first c [] = (c ∷ []) ∷ []
add_first c (s ∷ rest) = (c ∷ s) ∷ rest

-- `strings.Split(addrs, ",")`
unfoldable pub split_addrs : Bytes → List Bytes
split_addrs [] = [] ∷ []
split_addrs (c ∷ s) = let rest = split_addrs s in if c == comma then [] ∷ rest else add_first c rest

pub record KafkaProducer : Type 0 where
  pub brokers : Bytes
  pub topic : Bytes

pub record KafkaConsumer : Type 0 where
  pub brokers : Bytes
  pub topic : Bytes
  pub group_id : Bytes

-- `BrokerList` of the two
abbrev pub producer_broker_list : KafkaProducer → List Bytes
producer_broker_list k = split_addrs k.brokers

abbrev pub consumer_broker_list : KafkaConsumer → List Bytes
consumer_broker_list k = split_addrs k.brokers

-- `Addr` of `Redis` and of `Idempotency`
unfoldable pub addr : Bytes → Bytes → Bytes
addr host port = host ++ (colon ∷ port)

pub record Postgres : Type 0 where
  pub super_user : Bytes
  pub super_user_pass : Bytes
  pub user : Bytes
  pub password : Bytes
  pub name : Bytes
  pub host : Bytes
  pub port : Bytes
  pub ssl_mode : Bytes
  pub max_conns : ℤ
  pub min_conns : ℤ
  pub dsn : Bytes

-- "postgres://"
abbrev scheme : Bytes
scheme = 112 ∷ 111 ∷ 115 ∷ 116 ∷ 103 ∷ 114 ∷ 101 ∷ 115 ∷ 58 ∷ 47 ∷ 47 ∷ []

-- "?sslmode="
abbrev ssl_mode_parameter : Bytes
ssl_mode_parameter = 63 ∷ 115 ∷ 115 ∷ 108 ∷ 109 ∷ 111 ∷ 100 ∷ 101 ∷ 61 ∷ []

-- "@" and "/"
abbrev at_sign : ℕ
at_sign = 64

abbrev slash : ℕ
slash = 47

abbrev or_else : Bytes → Bytes → Bytes
or_else [] other = other
or_else (c ∷ s) other = c ∷ s

-- `ConnectionString`: the DSN if there is one
unfoldable pub connection_string : Postgres → Bytes
unfolding addr
connection_string p = or_else p.dsn (
    scheme
    ++ addr p.super_user p.super_user_pass
    ++ (at_sign ∷ addr p.host p.port)
    ++ (slash ∷ p.name)
    ++ ssl_mode_parameter
    ++ p.ssl_mode)
