-- ===== src/Solclient.antt =====
-- The part of solclient (include/solclient/solClient.h) that the library calls, as a parameter: each
-- call takes the state of the client library and the broker, and returns a code and the next state.
use kdb_solace.Base.{Bool, ℤ, pos, negsuc, eqb_ℤ}
use kdb_solace.Memory.{Bytes}

-- `solClient_returnCode_t`, as its numbers.
abbrev pub solclient_ok : ℤ
solclient_ok = pos 0

abbrev pub solclient_fail : ℤ
solclient_fail = negsuc 0

abbrev pub is_ok : ℤ → Bool
is_ok rc = eqb_ℤ rc solclient_ok

pub record SolClient : Type 1 where
  pub World : Type 0
  pub topic_subscribe : Bytes → World → ℤ × World
  pub topic_unsubscribe : Bytes → World → ℤ × World
