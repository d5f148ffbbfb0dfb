-- ===== src/Options/Fields.antt =====
-- What `getopts` shows of the options, field by field, and what an assignment of `config_opts` does to it.
use kdb_solace.Base.{
  ℕ, ◌≡◌, refl, Bool, true, false, not, Option, none, some, List, [], ◌∷◌, ◌||◌, ◌%◌, ◌^◌, ◌==◌,
  arith, if◌then◌else◌,
}
use kdb_solace.Memory.{Bytes}
use kdb_solace.CString.{same_string}
use kdb_solace.Kdb.{K, atom, symbol, dict, kj, ktype}
use kdb_solace.Kopts.{
  Kopts, Key, text_key, number_key, flag_key, schema, handle, TextKey, user, password, host,
  callback, vpn, topic, tablename, rcvfunc, NumberKey, port, loglevel, connectretries, msgstosend,
  loglvl, FlagKey, enablecompression, usegss, dumptoscreen, text_of, put_text, number_of,
  put_number, flag_of, put_flag, key_name,
}
use kdb_solace.Options.{
  assign, sign_extend, of_bool, opts_rows, solaceloglevel_name, clientloglevel_name,
}

-- The places of the keys in an enumeration of them.
unfoldable pub key_index : Key → ℕ
key_index (text_key user) = 0
key_index (text_key password) = 1
key_index (text_key host) = 2
key_index (text_key callback) = 3
key_index (text_key vpn) = 4
key_index (text_key topic) = 5
key_index (text_key tablename) = 6
key_index (text_key rcvfunc) = 7
key_index (number_key port) = 8
key_index (number_key loglevel) = 9
key_index (number_key connectretries) = 10
key_index (number_key msgstosend) = 11
key_index (number_key loglvl) = 12
key_index (flag_key enablecompression) = 13
key_index (flag_key usegss) = 14
key_index (flag_key dumptoscreen) = 15
key_index schema = 16
key_index handle = 17

abbrev pub same_key : Key → Key → Bool
same_key a b = key_index a == key_index b

-- The name under which `getopts` shows what was given under a key.
unfoldable pub shown_name : Key → Bytes
shown_name (number_key loglevel) = solaceloglevel_name
shown_name (number_key loglvl) = clientloglevel_name
shown_name k = key_name k

-- Ints keep their sign, levels have none.
abbrev pub shown_number : NumberKey → ℕ → K
shown_number loglevel n = kj n
shown_number loglvl n = kj n
shown_number _ n = kj (sign_extend n)

-- The value of the options under a key, as q gets to see it; the schema is not shown.
unfoldable pub shown : Kopts → Key → Option K
unfolding text_of number_of flag_of
shown o (text_key k) = some (symbol (text_of o k))
shown o (number_key k) = some (shown_number k (number_of o k))
shown o (flag_key k) = some (of_bool (flag_of o k))
shown o schema = none
shown o handle = some (kj (sign_extend o.handle))

-- The same of a value that is given under the key.
unfoldable pub shown_value : Key → K → Option K
shown_value (text_key k) (symbol s) = some (symbol s)
shown_value (number_key k) (atom t v) = some (shown_number k (v % 2 ^ 32))
shown_value (flag_key k) (atom t v) = some (of_bool (not (v % 256 == 0)))
shown_value _ _ = none

-- The types that `config_opts` accepts.
unfoldable pub accepts : Key → K → Bool
accepts (text_key k) (symbol s) = true
accepts (number_key k) (atom t v) = t == 7 || t == 6
accepts (flag_key k) (atom t v) = t == 1
accepts schema (dict x y) = true
accepts _ _ = false

unfoldable pub row_of : Bytes → List (Bytes × K) → Option K
row_of name [] = none
row_of name ((s, v) ∷ rs) = if same_string name s then some v else row_of name rs

pub row_of-opts_rows : (o : Kopts) (k : Key) → row_of (shown_name k) (opts_rows o) ≡ shown o k
unfolding row_of opts_rows shown_name shown same_string text_of number_of flag_of
row_of-opts_rows o k = ground arith

shown-put_text :
    (o : Kopts) (k : TextKey) (s : Bytes) (k' : Key)
    → shown (put_text o k s) k' ≡ (if same_key (text_key k) k' then some (symbol s) else shown o k')
unfolding shown put_text key_index text_of number_of flag_of
shown-put_text o k s k' = ground arith

shown-put_number :
    (o : Kopts) (k : NumberKey) (n : ℕ) (k' : Key)
    → shown (put_number o k n) k'
      ≡ (if same_key (number_key k) k' then some (shown_number k n) else shown o k')
unfolding shown put_number key_index text_of number_of flag_of
shown-put_number o k n k' = ground arith

shown-put_flag :
    (o : Kopts) (k : FlagKey) (b : Bool) (k' : Key)
    → shown (put_flag o k b) k'
      ≡ (if same_key (flag_key k) k' then some (of_bool b) else shown o k')
unfolding shown put_flag key_index text_of number_of flag_of
shown-put_flag o k b k' = ground arith

-- A value of an accepted type is assigned, and changes what is shown of its own key alone.
pub record Assigned (o : Kopts) (k : Key) (v : K) : Type 0 where
  pub next : Kopts
  pub done : assign o k v ≡ some next
  pub shows : (k' : Key) → shown next k' ≡ (if same_key k k' then shown_value k v else shown o k')

pub assign-accepts : (o : Kopts) (k : Key) (v : K) → accepts k v ≡ true → Assigned o k v
unfolding assign accepts shown_value
assign-accepts o (text_key k) (symbol s) fit = record {
  next = put_text o k s;
  done = refl;
  shows = shown-put_text o k s;
}
assign-accepts o (number_key k) (atom t v) fit = record {
  next = put_number o k (v % 2 ^ 32);
  done = rw fit;
  shows = shown-put_number o k (v % 2 ^ 32);
}
assign-accepts o (flag_key k) (atom t v) fit = record {
  next = put_flag o k (not (v % 256 == 0));
  done = rw fit;
  shows = shown-put_flag o k (not (v % 256 == 0));
}
assign-accepts o schema (dict x y) fit = record {
  next = record o { schema = some (dict x y) };
  done = refl;
  shows = unfold shown key_index text_of number_of flag_of in λ k'. ground arith;
}
assign-accepts o _ _ fit = absurd cc

pub assign-refuses : (o : Kopts) (k : Key) (v : K) → accepts k v ≡ false → assign o k v ≡ none
unfolding assign accepts ktype
assign-refuses o (text_key k) v bad = ground arith
assign-refuses o (number_key k) v bad = ground arith
assign-refuses o (flag_key k) v bad = ground arith
assign-refuses o schema v bad = ground arith
assign-refuses o handle v bad = ground arith
