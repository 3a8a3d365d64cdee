-- ===== src/Network/Errors.antt =====
-- The errors of package network, and those that the standard library hands to it.
use mine_net.Base.{ℕ}

-- What a read from the network can fail with, apart from the end of the stream.
pub data NetError : Type 0 where
  timeout reset : NetError

pub data Error : Type 0 where
  eof unexpected_eof invalid_packet_size unsupported_version : Error
  connection_closed rate_limit_exceeded send_queue_full : Error
  pool_full conn_closed not_found : Error
  net : NetError → Error
  key_size : ℕ → Error
  gzip : ℕ → Error
  json : ℕ → Error
  listen : ℕ → Error
