-- ===== src/Client.antt =====
-- The globals of src/solace_k.c and src/solace.c that the functions called from q work on, and what such
-- a function returns.
use kdb_solace.Base.{ℕ, ℤ, Bool, List}
use kdb_solace.Memory.{Bytes}
use kdb_solace.Kdb.{K}

-- The errors given to `krr` by name, and the text of a return code.
pub data Error : Type 0 where
  noinit nonconnected alreadyinit expecteddict topictype messagetype maxtopics outofrange memory :
      Error
  bad_option : Bytes → Error
  return_code : ℤ → Error

-- `(K)0`, an object, an error, or an access to memory that is not there.
pub data Reply : Type 0 where
  nothing : Reply
  value : K → Reply
  error : Error → Reply
  fault : Reply

-- A pointer of `topicindex.topics`: never set, null, a string on the heap, or a string that was freed.
pub data Slot : Type 0 where
  unset null freed : Slot
  live : Bytes → Slot

-- `topicindex`; times are in seconds, and 0 is the null time.
pub record TopicIndex : Type 0 where
  pub size : ℕ
  pub subscribed : List ℕ
  pub unsubscribed : List ℕ
  pub topics : List Slot

pub record Client (World : Type 0) : Type 0 where
  pub world : World
  pub initiated : Bool
  pub rc : ℤ
  pub index : TopicIndex
