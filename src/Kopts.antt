-- ===== src/Kopts.antt =====
-- `struct kopts` of include/solace_k.h, its fields grouped by type, and the keys for them. A C int and an
-- enumeration are kept as 32 bits.
use kdb_solace.Base.{ℕ, Bool, [], ◌∷◌, Option}
use kdb_solace.Memory.{Bytes}
use kdb_solace.Kdb.{K}

-- The keys of the dictionary that `config_opts` knows, by what their values are.
pub data TextKey : Type 0 where
  user password host callback vpn topic tablename rcvfunc : TextKey

pub data NumberKey : Type 0 where
  port loglevel connectretries msgstosend loglvl : NumberKey

pub data FlagKey : Type 0 where
  enablecompression usegss dumptoscreen : FlagKey

pub data Key : Type 0 where
  text_key : TextKey → Key
  number_key : NumberKey → Key
  flag_key : FlagKey → Key
  schema handle : Key

-- `struct kopts`
pub record Kopts : Type 0 where
  pub username : Bytes
  pub password : Bytes
  pub hostname : Bytes
  pub callback : Bytes
  pub loglevel : ℕ
  pub port : ℕ
  pub topic : Bytes
  pub vpn : Bytes
  pub connectretries : ℕ
  pub nummsgstosend : ℕ
  pub enablecompression : Bool
  pub usegss : Bool
  pub schema : Option K
  pub tablename : Bytes
  pub handle : ℕ
  pub rcvfunc : Bytes
  pub loglvl : ℕ
  pub dumptoscreen : Bool

unfoldable pub text_of : Kopts → TextKey → Bytes
text_of o user = o.username
text_of o password = o.password
text_of o host = o.hostname
text_of o callback = o.callback
text_of o vpn = o.vpn
text_of o topic = o.topic
text_of o tablename = o.tablename
text_of o rcvfunc = o.rcvfunc

unfoldable pub put_text : Kopts → TextKey → Bytes → Kopts
put_text o user s = record o { username = s }
put_text o password s = record o { password = s }
put_text o host s = record o { hostname = s }
put_text o callback s = record o { callback = s }
put_text o vpn s = record o { vpn = s }
put_text o topic s = record o { topic = s }
put_text o tablename s = record o { tablename = s }
put_text o rcvfunc s = record o { rcvfunc = s }

-- An int or an enumeration of `opts`.
unfoldable pub number_of : Kopts → NumberKey → ℕ
number_of o port = o.port
number_of o loglevel = o.loglevel
number_of o connectretries = o.connectretries
number_of o msgstosend = o.nummsgstosend
number_of o loglvl = o.loglvl

unfoldable pub put_number : Kopts → NumberKey → ℕ → Kopts
put_number o port n = record o { port = n }
put_number o loglevel n = record o { loglevel = n }
put_number o connectretries n = record o { connectretries = n }
put_number o msgstosend n = record o { nummsgstosend = n }
put_number o loglvl n = record o { loglvl = n }

unfoldable pub flag_of : Kopts → FlagKey → Bool
flag_of o enablecompression = o.enablecompression
flag_of o usegss = o.usegss
flag_of o dumptoscreen = o.dumptoscreen

unfoldable pub put_flag : Kopts → FlagKey → Bool → Kopts
put_flag o enablecompression b = record o { enablecompression = b }
put_flag o usegss b = record o { usegss = b }
put_flag o dumptoscreen b = record o { dumptoscreen = b }

abbrev pub key_name : Key → Bytes
key_name (text_key user) = b'u' ∷ b's' ∷ b'e' ∷ b'r' ∷ []
key_name (text_key password) = b'p' ∷ b'a' ∷ b's' ∷ b's' ∷ b'w' ∷ b'o' ∷ b'r' ∷ b'd' ∷ []
key_name (text_key host) = b'h' ∷ b'o' ∷ b's' ∷ b't' ∷ []
key_name (text_key callback) = b'c' ∷ b'a' ∷ b'l' ∷ b'l' ∷ b'b' ∷ b'a' ∷ b'c' ∷ b'k' ∷ []
key_name (text_key vpn) = b'v' ∷ b'p' ∷ b'n' ∷ []
key_name (text_key topic) = b't' ∷ b'o' ∷ b'p' ∷ b'i' ∷ b'c' ∷ []
key_name (text_key tablename) = b't' ∷ b'a' ∷ b'b' ∷ b'l' ∷ b'e' ∷ b'n' ∷ b'a' ∷ b'm' ∷ b'e' ∷ []
key_name (text_key rcvfunc) = b'r' ∷ b'c' ∷ b'v' ∷ b'f' ∷ b'u' ∷ b'n' ∷ b'c' ∷ []
key_name (number_key port) = b'p' ∷ b'o' ∷ b'r' ∷ b't' ∷ []
key_name (number_key loglevel) = b'l' ∷ b'o' ∷ b'g' ∷ b'l' ∷ b'e' ∷ b'v' ∷ b'e' ∷ b'l' ∷ []
key_name (number_key connectretries) =
    b'c' ∷ b'o' ∷ b'n' ∷ b'n' ∷ b'e' ∷ b'c' ∷ b't' ∷ b'r' ∷ b'e' ∷ b't' ∷ b'r' ∷ b'i' ∷ b'e' ∷ b's'
    ∷ []
key_name (number_key msgstosend) =
    b'm' ∷ b's' ∷ b'g' ∷ b's' ∷ b't' ∷ b'o' ∷ b's' ∷ b'e' ∷ b'n' ∷ b'd' ∷ []
key_name (number_key loglvl) = b'l' ∷ b'o' ∷ b'g' ∷ b'l' ∷ b'v' ∷ b'l' ∷ []
key_name (flag_key enablecompression) =
    b'e' ∷ b'n' ∷ b'a' ∷ b'b' ∷ b'l' ∷ b'e' ∷ b'c' ∷ b'o' ∷ b'm' ∷ b'p' ∷ b'r' ∷ b'e' ∷ b's' ∷ b's'
    ∷ b'i' ∷ b'o' ∷ b'n' ∷ []
key_name (flag_key usegss) = b'u' ∷ b's' ∷ b'e' ∷ b'g' ∷ b's' ∷ b's' ∷ []
key_name (flag_key dumptoscreen) =
    b'd' ∷ b'u' ∷ b'm' ∷ b'p' ∷ b't' ∷ b'o' ∷ b's' ∷ b'c' ∷ b'r' ∷ b'e' ∷ b'e' ∷ b'n' ∷ []
key_name schema = b's' ∷ b'c' ∷ b'h' ∷ b'e' ∷ b'm' ∷ b'a' ∷ []
key_name handle = b'h' ∷ b'a' ∷ b'n' ∷ b'd' ∷ b'l' ∷ b'e' ∷ []
