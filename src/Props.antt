-- ===== src/Props.antt =====
-- `configure_session_properties` of src/solace.c: the array `sessionProps` of names and values, which
-- `solClient_session_create` reads up to its null pointer.
pub mod Reads
pub mod Retries
mod Tests
use kdb_solace.Base.{ℕ, ◌+◌, Bool, true, false, List, [], ◌∷◌, ◌++◌, if◌then◌else◌, set}
use kdb_solace.Memory.{Bytes}
use kdb_solace.Text.{print_int, snprintf}
use kdb_solace.Kopts.{Kopts}

-- The names `SOLCLIENT_SESSION_PROP_…` that are used.
pub data PropKey : Type 0 where
  host username password vpn_name reconnect_retries compression_level reapply_subscriptions :
      PropKey
  ssl_validate_certificate authentication_scheme generate_send_timestamps : PropKey
  generate_rcv_timestamps send_blocking : PropKey

-- A pointer in the array: to a name, to a text that stays, or to an array of the function itself, which
-- has the text until the function returns.
pub data Pointer : Type 0 where
  null : Pointer
  name : PropKey → Pointer
  text local_text : Bytes → Pointer

abbrev pub prop_count : ℕ
prop_count = 50

abbrev pub enable_val : Bytes
enable_val = b'1' ∷ []

abbrev pub disable_val : Bytes
disable_val = b'0' ∷ []

abbrev pub gss_krb : Bytes
gss_krb =
    b'A' ∷ b'U' ∷ b'T' ∷ b'H' ∷ b'E' ∷ b'N' ∷ b'T' ∷ b'I' ∷ b'C' ∷ b'A' ∷ b'T' ∷ b'I' ∷ b'O' ∷ b'N'
    ∷ b'_' ∷ b'S' ∷ b'C' ∷ b'H' ∷ b'E' ∷ b'M' ∷ b'E' ∷ b'_' ∷ b'G' ∷ b'S' ∷ b'S' ∷ b'_' ∷ b'K'
    ∷ b'R' ∷ b'B' ∷ []

-- The arrays `port`, of 256 bytes, and `tmpstr`, of which `sizeof(opts.connectretries)` bytes are used.
unfoldable pub port_text : Kopts → Bytes
port_text o = snprintf 256 (o.hostname ++ (b':' ∷ print_int o.port))

unfoldable pub retries_text : Kopts → Bytes
retries_text o = snprintf 4 (print_int o.connectretries)

abbrev pub gss_entries : Bool → List Pointer
gss_entries true = name authentication_scheme ∷ text gss_krb ∷ []
gss_entries false = []

-- What is assigned to `sessionProps[propIndex++]`, in this order.
abbrev pub entries : Kopts → List Pointer
entries o =
    (name host
      ∷ local_text (port_text o)
      ∷ name username
      ∷ text o.username
      ∷ name password
      ∷ text o.password
      ∷ name vpn_name
      ∷ text o.vpn
      ∷ name reconnect_retries
      ∷ local_text (retries_text o)
      ∷ name compression_level
      ∷ text (if o.enablecompression then b'9' ∷ [] else b'0' ∷ [])
      ∷ name reapply_subscriptions
      ∷ text enable_val
      ∷ name ssl_validate_certificate
      ∷ text disable_val
      ∷ [])
    ++ (gss_entries o.usegss
        ++ (name generate_send_timestamps
            ∷ text enable_val
            ∷ name generate_rcv_timestamps
            ∷ text enable_val
            ∷ name send_blocking
            ∷ text disable_val
            ∷ []))

-- The assignments from an index on, with the index behind the last one.
unfoldable pub store_all : List Pointer → ℕ → List Pointer → List Pointer × ℕ
store_all props i [] = (props, i)
store_all props i (p ∷ ps) = store_all (set props i p) (i + 1) ps

unfoldable pub configure : Kopts → List Pointer → List Pointer
unfolding store_all
configure o props = let (filled, i) = store_all props 0 (entries o) in set filled i null

-- When the function has returned, its arrays are gone.
pub data Value : Type 0 where
  kept : Bytes → Value
  dangling : Value

abbrev pub returned_value : Pointer → Value
returned_value (text s) = kept s
returned_value _ = dangling

-- The reading of the array by `solClient_session_create`.
unfoldable pub read_props : List Pointer → List (PropKey × Value)
read_props (name k ∷ p ∷ ps) = (k, returned_value p) ∷ read_props ps
read_props _ = []
