-- ===== src/Display.antt =====
-- Functions of src/solace_k.c that show what the library holds: `printargs`, `getstats`, `getcbstats`,
-- `checkconnect`; `getsolacelib`, the table of what q may call; and of src/solace.c `logtofile`, which
-- prints a line unless its level is too high, and `messageReceiveCallbackDump`.
use mathlib.Core.Option
use kdb_solace.Base.{
  ℕ, ◌^◌, ◌-◌, ◌%◌, ◌++◌, Bool, Option, none, some, List, [], ◌∷◌, ℤ, pos, negsuc, length, ltb,
  if◌then◌else◌,
}
use kdb_solace.Memory.{Bytes}
use kdb_solace.Ring.{Cb, cb_size}
use kdb_solace.Kdb.{list_size, other, K, nil, cons, list, dict, symbols, vector, kb, ki}
use kdb_solace.Kopts.{Kopts}
use kdb_solace.Text.{print_int, snprintf}
use kdb_solace.Solclient.{solclient_ok, is_ok}
use kdb_solace.Api.{Version}

-- The bytes of a long that holds an int.
abbrev pub long_of : ℤ → ℕ
long_of (pos n) = n
long_of (negsuc n) = 2 ^ 64 - n - 1

-- `checkconnect`
abbrev pub checkconnect : Bool → K
checkconnect initiated = kb (if initiated then 1 else 0)

abbrev pub cb_names : List Bytes
cb_names = (b'h' ∷ []) ∷ (b't' ∷ []) ∷ (b'n' ∷ []) ∷ (b's' ∷ b'i' ∷ b'z' ∷ b'e' ∷ []) ∷ []

-- `getcbstats`, on one look at the queue.
unfoldable pub getcbstats : Cb → K
getcbstats q = dict (symbols cb_names) (vector 7 (q.h ∷ q.t ∷ q.n ∷ long_of (cb_size q) ∷ []))

abbrev pub stat_names : List Bytes
stat_names =
    (b'r' ∷ b'e' ∷ b'c' ∷ b'v' ∷ [])
    ∷ (b's' ∷ b'e' ∷ b'n' ∷ b't' ∷ [])
    ∷ (b'b' ∷ b'a' ∷ b't' ∷ b'c' ∷ b'h' ∷ b'e' ∷ b'd' ∷ [])
    ∷ (b'p' ∷ b'r' ∷ b'o' ∷ b'c' ∷ b'e' ∷ b's' ∷ b's' ∷ b'e' ∷ b'd' ∷ [])
    ∷ []

-- `getstats`, of the four counters.
unfoldable pub getstats : ℕ → ℕ → ℕ → ℕ → K
getstats msg_recv msg_sent callbackcounter msg_processed = dict (symbols stat_names) (
    list (
      cons (ki msg_recv)
        (cons (ki msg_sent) (cons (ki callbackcounter) (cons (ki msg_processed) nil)))))

-- `logtofile`: what has been printed so far, with one more line if its level is not above the level set.
-- The array for the line has 4096 bytes.
unfoldable pub logtofile : ℕ → ℕ → Bytes → Bytes → List Bytes → List Bytes
logtofile set_level level time line lines =
    if ltb set_level level
    then lines
    else lines ++ (((b'[' ∷ time) ++ (b']' ∷ b' ' ∷ snprintf 4096 line)) ∷ [])

-- What a line of `printargs` says; its fixed words are left out.
pub data Shown : Type 0 where
  shown_user shown_host shown_callback shown_vpn shown_tablename shown_rcvfunc : Bytes → Shown
  shown_port shown_loglevel shown_connectretries shown_msgstosend shown_handle : Bytes → Shown
  shown_schema_count shown_loglvl : Bytes → Shown
  shown_compression shown_gss shown_dumptoscreen : Bytes → Shown
  shown_kdb_lib shown_solace_lib : Bytes → Shown

abbrev pub true_or_false : Bool → Bytes
true_or_false x =
    if x then b't' ∷ b'r' ∷ b'u' ∷ b'e' ∷ [] else b'f' ∷ b'a' ∷ b'l' ∷ b's' ∷ b'e' ∷ []

-- `KDB_LIB_VERSION`
abbrev pub kdb_lib_version : Bytes
kdb_lib_version = b'1' ∷ b'.' ∷ b'0' ∷ b'.' ∷ b'0' ∷ b'.' ∷ b'1' ∷ []

-- `x->n`, which an atom and a symbol share with their value and a table and a dictionary with a pointer:
-- these are left out.
abbrev pub count : K → Option ℕ
count (symbols ss) = some (length ss)
count (vector t vs) = some (length vs)
count (list xs) = some (list_size xs)
count (other c n) = some n
count _ = none

-- `kK(opts.schema)[0]->n`, where `opts.schema` may be null.
abbrev pub schema_count : Option K → Option ℕ
schema_count (some (dict k v)) = count k
schema_count _ = none

-- The lines of `printargs`, with the number of keys of the schema.
abbrev pub lines_of : Kopts → Version → ℕ → List Shown
lines_of o v n =
    shown_user o.username
    ∷ shown_host o.hostname
    ∷ shown_callback o.callback
    ∷ shown_port (print_int o.port)
    ∷ shown_loglevel (print_int o.loglevel)
    ∷ shown_vpn o.vpn
    ∷ shown_connectretries (print_int o.connectretries)
    ∷ shown_msgstosend (print_int o.nummsgstosend)
    ∷ shown_compression (true_or_false o.enablecompression)
    ∷ shown_gss (true_or_false o.usegss)
    ∷ shown_handle (print_int o.handle)
    ∷ shown_tablename o.tablename
    ∷ shown_schema_count (print_int (n % 2 ^ 32))
    ∷ shown_rcvfunc o.rcvfunc
    ∷ shown_loglvl (print_int o.loglvl)
    ∷ shown_dumptoscreen (true_or_false o.dumptoscreen)
    ∷ shown_kdb_lib kdb_lib_version
    ∷ shown_solace_lib v.version_p
    ∷ shown_solace_lib v.date_time_p
    ∷ shown_solace_lib v.variant_p
    ∷ []

-- `printargs`, with `version_p`, which is null before the first `init`. A result `none` is a null pointer
-- that is read, or a schema whose keys have no length.
unfoldable pub printargs : Kopts → Option Version → Option (List Shown)
printargs o none = none
printargs o (some v) = Option.map (lines_of o v) (schema_count o.schema)

-- `messageReceiveCallbackDump`: with the code of `solClient_msg_dump`, the global code and the answer.
unfoldable pub message_receive_callback_dump : ℤ → ℤ × ℤ
message_receive_callback_dump rc = if is_ok rc then (rc, solclient_ok) else (rc, rc)

-- The functions that q is given, and under which names, with the number of their arguments.
pub data Exported : Type 0 where
  exported_init exported_getstats exported_subscribe exported_printargs exported_disconnect :
      Exported
  exported_unsubscribe exported_publish exported_checkconnect exported_gettopics : Exported
  exported_getcbstats exported_getopts exported_changeloglevel : Exported

-- `getsolacelib`
abbrev pub getsolacelib : List (Bytes × (Exported × ℕ))
getsolacelib =
    ((b'i' ∷ b'n' ∷ b'i' ∷ b't' ∷ []), (exported_init, 1))
    ∷ ((b'g' ∷ b'e' ∷ b't' ∷ b's' ∷ b't' ∷ b'a' ∷ b't' ∷ b's' ∷ []), (exported_getstats, 1))
    ∷ ((b's' ∷ b'u' ∷ b'b' ∷ b's' ∷ b'c' ∷ b'r' ∷ b'i' ∷ b'b' ∷ b'e' ∷ []), (exported_subscribe, 1))
    ∷ ((b'p' ∷ b'r' ∷ b'i' ∷ b'n' ∷ b't' ∷ b'a' ∷ b'r' ∷ b'g' ∷ b's' ∷ []), (exported_printargs, 1))
    ∷ (
      (b'd' ∷ b'i' ∷ b's' ∷ b'c' ∷ b'o' ∷ b'n' ∷ b'n' ∷ b'e' ∷ b'c' ∷ b't' ∷ []),
      (exported_disconnect, 1),
    )
    ∷ (
      (b'u' ∷ b'n' ∷ b's' ∷ b'u' ∷ b'b' ∷ b's' ∷ b'c' ∷ b'r' ∷ b'i' ∷ b'b' ∷ b'e' ∷ []),
      (exported_unsubscribe, 1),
    )
    ∷ ((b'p' ∷ b'u' ∷ b'b' ∷ b'l' ∷ b'i' ∷ b's' ∷ b'h' ∷ []), (exported_publish, 2))
    ∷ (
      (b'c' ∷ b'h' ∷ b'e' ∷ b'c' ∷ b'k' ∷ b'c' ∷ b'o' ∷ b'n' ∷ b'n' ∷ b'e' ∷ b'c' ∷ b't' ∷ []),
      (exported_checkconnect, 1),
    )
    ∷ ((b'g' ∷ b'e' ∷ b't' ∷ b't' ∷ b'o' ∷ b'p' ∷ b'i' ∷ b'c' ∷ b's' ∷ []), (exported_gettopics, 1))
    ∷ (
      (b'g' ∷ b'e' ∷ b't' ∷ b'c' ∷ b'b' ∷ b's' ∷ b't' ∷ b'a' ∷ b't' ∷ b's' ∷ []),
      (exported_getcbstats, 1),
    )
    ∷ ((b'g' ∷ b'e' ∷ b't' ∷ b'o' ∷ b'p' ∷ b't' ∷ b's' ∷ []), (exported_getopts, 1))
    ∷ (
      (b'c' ∷ b'h' ∷ b'a' ∷ b'n' ∷ b'g' ∷ b'e' ∷ b'l' ∷ b'o' ∷ b'g' ∷ b'l' ∷ b'e' ∷ b'v' ∷ b'e'
          ∷ b'l' ∷ []),
      (exported_changeloglevel, 1),
    )
    ∷ []
