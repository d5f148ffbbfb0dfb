-- ===== src/Message.antt =====
-- The messages of solclient (include/solclient/solClientMsg.h) and their way to the broker, as a parameter.
use kdb_solace.Base.{ℤ}
use kdb_solace.Memory.{Bytes}
use kdb_solace.Container.{Containers}

-- A call gives its code and the next state, and one that creates a message or a stream also that.
pub record Messages : Type 1 where
  pub containers : Containers
  pub Message : Type 0
  pub msg_alloc : containers.World → ℤ × (Message × containers.World)
  pub set_delivery_mode : Message → containers.World → ℤ × containers.World
  pub set_destination : Message → Bytes → containers.World → ℤ × containers.World
  pub create_attachment_stream :
      Message → containers.World → ℤ × (containers.Handle × containers.World)
  pub send_msg : Message → containers.World → ℤ × containers.World
  pub msg_free : Message → containers.World → ℤ × containers.World
