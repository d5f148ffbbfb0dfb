-- ===== src/Options.antt =====
-- Options of src/solace_k.c: `opts`, `setup_schema`, `config_opts`, `getopts`, `changeloglevel`.
-- Log lines are left out.
use mathlib.Core.Option
pub mod Fields
pub mod Config
mod Tests
use kdb_solace.Base.{
  ℕ, ◌+◌, ◌-◌, ◌%◌, ◌^◌, ◌||◌, Bool, false, not, map, negsuc, eqb_ℤ, List, [], ◌∷◌, Option, none,
  some, ◌==◌, ltb, if◌then◌else◌,
}
use kdb_solace.Memory.{Bytes}
use kdb_solace.CString.{same_string}
use kdb_solace.Kdb.{
  K, Ks, nil, cons, cons_null, atom, symbol, symbols, vector, list, dict, kb, kj, ktype, other,
  of_list,
}
use kdb_solace.Client.{Error, bad_option, noinit, Reply, nothing, value, error, fault}
use kdb_solace.Kopts.{
  Kopts, Key, text_key, number_key, flag_key, schema, handle, user, password, host, callback, vpn,
  topic, tablename, rcvfunc, port, loglevel, connectretries, msgstosend, loglvl, enablecompression,
  usegss, dumptoscreen, put_text, put_number, put_flag, key_name,
}

-- The initial value of `opts`.
abbrev pub default_opts : Kopts
default_opts = record {
  username = b'a' ∷ b'd' ∷ b'm' ∷ b'i' ∷ b'n' ∷ [];
  password = b'a' ∷ b'd' ∷ b'm' ∷ b'i' ∷ b'n' ∷ [];
  hostname = b'1' ∷ b'9' ∷ b'2' ∷ b'.' ∷ b'1' ∷ b'6' ∷ b'8' ∷ b'.' ∷ b'1' ∷ b'.' ∷ b'5' ∷ b'7' ∷ [];
  callback = b'f' ∷ [];
  loglevel = 4;
  port = 0;
  topic = [];
  vpn = b'd' ∷ b'e' ∷ b'f' ∷ b'a' ∷ b'u' ∷ b'l' ∷ b't' ∷ [];
  connectretries = 3;
  nummsgstosend = 10;
  enablecompression = false;
  usegss = false;
  schema = none;
  tablename = b't' ∷ b'a' ∷ b'b' ∷ b'l' ∷ b'e' ∷ [];
  handle = 0;
  rcvfunc = b'i' ∷ b'n' ∷ b's' ∷ b'e' ∷ b'r' ∷ b't' ∷ [];
  loglvl = 4;
  dumptoscreen = false;
}

-- The keys in the order in which `config_opts` compares them.
abbrev pub config_keys : List Key
config_keys =
    text_key user
    ∷ text_key password
    ∷ text_key host
    ∷ text_key callback
    ∷ number_key port
    ∷ text_key vpn
    ∷ number_key loglevel
    ∷ text_key topic
    ∷ number_key connectretries
    ∷ number_key msgstosend
    ∷ flag_key enablecompression
    ∷ flag_key usegss
    ∷ schema
    ∷ text_key tablename
    ∷ handle
    ∷ text_key rcvfunc
    ∷ number_key loglvl
    ∷ flag_key dumptoscreen
    ∷ []

unfoldable pub key_among : List Key → Bytes → Option Key
key_among [] name = none
key_among (k ∷ ks) name = if same_string name (key_name k) then some k else key_among ks name

unfoldable pub key_of : Bytes → Option Key
unfolding key_among
key_of name = key_among config_keys name

-- What the error for a value of a wrong type is called.
abbrev pub option_error : Key → Error
option_error (text_key vpn) = bad_option (key_name (number_key loglevel))
option_error k = bad_option (key_name k)

-- `value->s` of a symbol; `value->j` of a long or an int, cut to 32 bits; `value->g` of a boolean.
abbrev pub text_value : K → Option Bytes
text_value (symbol s) = some s
text_value _ = none

abbrev pub number_value : K → Option ℕ
number_value (atom t v) = if t == 7 || t == 6 then some (v % 2 ^ 32) else none
number_value _ = none

abbrev pub flag_value : K → Option Bool
flag_value (atom t v) = if t == 1 then some (not (v % 256 == 0)) else none
flag_value _ = none

abbrev pub schema_value : K → Option K
schema_value (dict k v) = some (dict k v)
schema_value _ = none

-- `value->t != -6 || value->t != -7`
abbrev pub refuses_handle : K → Bool
refuses_handle v = not (eqb_ℤ (ktype v) (negsuc 5)) || not (eqb_ℤ (ktype v) (negsuc 6))

-- The options with a value under a key; `none` if its type is refused.
unfoldable pub assign : Kopts → Key → K → Option Kopts
unfolding put_text put_number put_flag ktype
assign o (text_key k) v = Option.map (put_text o k) (text_value v)
assign o (number_key k) v = Option.map (put_number o k) (number_value v)
assign o (flag_key k) v = Option.map (put_flag o k) (flag_value v)
assign o schema v = Option.map (λ d. record o { schema = some d }) (schema_value v)
assign o handle v =
    if refuses_handle v then none else Option.map (λ n. record o { handle = n }) (number_value v)

-- One round of the loop: `rest` is the loop on the pairs behind this one.
abbrev pub assigned : Kopts → Key → Option Kopts → (Kopts → Kopts × Reply) → Kopts × Reply
assigned o k none rest = (o, error (option_error k))
assigned o k (some o') rest = rest o'

abbrev pub config_key : Kopts → Option Key → K → (Kopts → Kopts × Reply) → Kopts × Reply
config_key o none v rest = rest o
config_key o (some k) v rest = assigned o k (assign o k v) rest

abbrev pub config_null : Kopts → Option Key → (Kopts → Kopts × Reply) → Kopts × Reply
config_null o none rest = rest o
config_null o (some k) rest = (o, fault)

-- The loop of `config_opts`. It stops at the first value that is refused. Where the values end early or
-- are in no general list, a fault comes with the next key, even an unknown one, for which the code only
-- loads a pointer from there and does not use it.
unfoldable pub config_from : List Bytes → Ks → Kopts → Kopts × Reply
config_from [] vs o = (o, nothing)
config_from (name ∷ names) nil o = (o, fault)
config_from (name ∷ names) (cons_null vs) o = config_null o (key_of name) (config_from names vs)
config_from (name ∷ names) (cons v vs) o = config_key o (key_of name) v (config_from names vs)

abbrev pub key_list : K → Option (List Bytes)
key_list (symbols names) = some names
key_list (vector t []) = some []
key_list (list nil) = some []
key_list _ = none

abbrev pub elements : K → Ks
elements (list vs) = vs
elements _ = nil

abbrev pub config_names : Kopts → Option (List Bytes) → Ks → Kopts × Reply
config_names o none vs = (o, fault)
config_names o (some names) vs = config_from names vs o

-- `config_opts`. Keys that are no symbols are a fault once one is read, and so are values in no list.
unfoldable pub config_opts : Kopts → K → Kopts × Reply
unfolding config_from
config_opts o (dict keys values) = config_names o (key_list keys) (elements values)
config_opts o _ = (o, fault)

-- An empty dictionary, and `setup_schema`, which gives one in the place of q's `::`.
abbrev pub empty_dict : K
empty_dict = dict (symbols []) (symbols [])

abbrev pub or_empty : K → K
or_empty (other t n) = if t == 101 then empty_dict else other t n
or_empty x = x

unfoldable pub setup_schema : Kopts → K → Kopts × K
setup_schema o x = (record o { schema = some empty_dict }, or_empty x)

-- An int as a long. An enumeration has no negative values.
abbrev pub sign_extend : ℕ → ℕ
sign_extend v = if ltb v (2 ^ 31) then v else v + (2 ^ 64 - 2 ^ 32)

abbrev pub of_bool : Bool → K
of_bool b = kb (if b then 1 else 0)

abbrev pub solaceloglevel_name : Bytes
solaceloglevel_name =
    b's' ∷ b'o' ∷ b'l' ∷ b'a' ∷ b'c' ∷ b'e' ∷ b'l' ∷ b'o' ∷ b'g' ∷ b'l' ∷ b'e' ∷ b'v' ∷ b'e' ∷ b'l'
    ∷ []

abbrev pub clientloglevel_name : Bytes
clientloglevel_name =
    b'c' ∷ b'l' ∷ b'i' ∷ b'e' ∷ b'n' ∷ b't' ∷ b'l' ∷ b'o' ∷ b'g' ∷ b'l' ∷ b'e' ∷ b'v' ∷ b'e' ∷ b'l'
    ∷ []

-- What `getopts` shows under its names, in order.
unfoldable pub opts_rows : Kopts → List (Bytes × K)
opts_rows o =
    (key_name (text_key user), symbol o.username)
    ∷ (key_name (text_key password), symbol o.password)
    ∷ (key_name (text_key host), symbol o.hostname)
    ∷ (key_name (number_key port), kj (sign_extend o.port))
    ∷ (key_name (text_key topic), symbol o.topic)
    ∷ (key_name (text_key vpn), symbol o.vpn)
    ∷ (key_name (number_key connectretries), kj (sign_extend o.connectretries))
    ∷ (key_name (number_key msgstosend), kj (sign_extend o.nummsgstosend))
    ∷ (key_name (flag_key enablecompression), of_bool o.enablecompression)
    ∷ (key_name (flag_key usegss), of_bool o.usegss)
    ∷ (key_name (text_key callback), symbol o.callback)
    ∷ (key_name (text_key tablename), symbol o.tablename)
    ∷ (key_name handle, kj (sign_extend o.handle))
    ∷ (key_name (text_key rcvfunc), symbol o.rcvfunc)
    ∷ (solaceloglevel_name, kj o.loglevel)
    ∷ (clientloglevel_name, kj o.loglvl)
    ∷ (key_name (flag_key dumptoscreen), of_bool o.dumptoscreen)
    ∷ []

abbrev pub dict_of : List (Bytes × K) → K
dict_of rows = dict (symbols (map (λ r. r.0) rows)) (list (of_list (map (λ r. r.1) rows)))

unfoldable pub getopts : Bool → Kopts → Reply
unfolding opts_rows
getopts initiated o = if initiated then value (dict_of (opts_rows o)) else error noinit

-- `changeloglevel`
unfoldable pub changeloglevel : Kopts → K → Kopts × Reply
changeloglevel o x = elim (number_value x) [
  | none ↦ (o, error (bad_option (key_name (number_key loglevel))))
  | some n ↦ (record o { loglvl = n }, nothing)
]
