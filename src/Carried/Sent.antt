-- ===== src/Carried/Sent.antt =====
-- Which objects of q can be sent (src/solace.c, `encodeToSolaceContainer`), as which fields, and as what
-- they arrive (`decodeFromSolaceContainer`), told without the code.
use kdb_solace.Base.{◌≤◌, ℕ, ◌^◌, ◌<◌, ◌≡◌, ◌||◌, List, [], ◌∷◌, ◌==◌, if◌then◌else◌, length}
use kdb_solace.Memory.{Bytes}
use kdb_solace.Kdb.{
  K, Ks, nil, cons, cons_null, atom, symbol, symbols, vector, list, dict, kb, ki, kj, ke, kf, kp,
  list_size,
}
use kdb_solace.Kdb.Objects.{width, HaveBits}
use kdb_solace.Field.{
  Field, boolean, int16, int32, int64, float32, float64, string, map_of, stream_of, Fields, end,
  field, sign_extend,
}
use kdb_solace.Encode.{container_size}
use kdb_solace.Carried.{IsCarried}

-- Numbers, symbols and vectors of both, and general lists of what can be sent; dictionaries only from
-- symbols to as many values, which stand in a vector or are atoms; no tables.
abbrev pub AreValues : Ks → Type 0
AreValues nil = Unit {0}
AreValues (cons (atom t v) xs) = IsCarried t × (v < 2 ^ width t) × AreValues xs
AreValues (cons (symbol s) xs) = AreValues xs
AreValues _ = ⊥

abbrev pub IsColumn : ℕ → K → Type 0
IsColumn n (vector t vs) = (length vs ≡ n) × IsCarried t × HaveBits (width t) vs
IsColumn n (symbols ss) = length ss ≡ n
IsColumn n (list xs) = (list_size xs ≡ n) × AreValues xs
IsColumn n _ = ⊥

unfoldable mutual
  pub IsSendable : K → Type 0
  IsSendable (atom t v) = IsCarried t × (v < 2 ^ width t)
  IsSendable (symbol s) = Unit {0}
  IsSendable (vector t vs) = IsCarried t × HaveBits (width t) vs
  IsSendable (symbols ss) = Unit {0}
  IsSendable (list xs) = AreSendable xs
  IsSendable (dict (symbols names) v) = IsColumn (length names) v
  IsSendable _ = ⊥

  pub AreSendable : Ks → Type 0
  AreSendable nil = Unit {0}
  AreSendable (cons x xs) = IsSendable x × AreSendable xs
  AreSendable (cons_null xs) = ⊥

-- The field for a number of one of the types of `IsCarried`.
abbrev pub number_field : ℕ → ℕ → Field
number_field t v =
    if t == 1
    then boolean (if v == 0 then 0 else 1)
    else if t == 5
    then int16 v
    else if t == 8
    then float32 v
    else if t == 9
    then float64 v
    else if t == 7 || t == 12 || t == 16
    then int64 v
    else int32 v

abbrev pub number_fields : ℕ → List ℕ → List Field
number_fields t [] = []
number_fields t (v ∷ vs) = number_field t v ∷ number_fields t vs

abbrev pub symbol_fields : List Bytes → List Field
symbol_fields [] = []
symbol_fields (s ∷ ss) = string s ∷ symbol_fields ss

abbrev pub value_fields : Ks → List Field
value_fields (cons (atom t v) xs) = number_field t v ∷ value_fields xs
value_fields (cons (symbol s) xs) = string s ∷ value_fields xs
value_fields _ = []

abbrev pub column_fields : K → List Field
column_fields (vector t vs) = number_fields t vs
column_fields (symbols ss) = symbol_fields ss
column_fields (list xs) = value_fields xs
column_fields _ = []

-- Fields without names, and with names.
abbrev pub unnamed : List Field → Fields
unnamed [] = end
unnamed (f ∷ fs) = field [] f (unnamed fs)

abbrev pub named : List Bytes → List Field → Fields
named (name ∷ names) (f ∷ fs) = field name f (named names fs)
named _ _ = end

unfoldable mutual
  pub field_of : K → Field
  field_of (atom t v) = number_field t v
  field_of (symbol s) = string s
  field_of (vector t vs) = stream_of (unnamed (number_fields t vs))
  field_of (symbols ss) = stream_of (unnamed (symbol_fields ss))
  field_of (list xs) = stream_of (fields_of xs)
  field_of (dict (symbols names) v) = map_of (named names (column_fields v))
  field_of _ = stream_of end

  pub fields_of : Ks → Fields
  fields_of nil = end
  fields_of (cons x xs) = field [] (field_of x) (fields_of xs)
  fields_of (cons_null xs) = end

module _ (bytes : Field → ℕ) where
  -- The memory of `encodeToSolaceContainer` takes the container.
  abbrev pub Fits : Field → Type 0
  Fits c = bytes c ≤ container_size

  -- So it does for all containers that an element of a general list needs.
  unfoldable mutual
    unfolding field_of

    pub IsContained : K → Type 0
    IsContained (vector t vs) = Fits (field_of (vector t vs))
    IsContained (symbols ss) = Fits (field_of (symbols ss))
    IsContained (dict k v) = Fits (field_of (dict k v))
    IsContained (list xs) = Fits (stream_of (fields_of xs)) × AreContained xs
    IsContained _ = Unit {0}

    pub AreContained : Ks → Type 0
    AreContained nil = Unit {0}
    AreContained (cons x xs) = IsContained x × AreContained xs
    AreContained (cons_null xs) = AreContained xs

  -- Elements at the top stand in the stream of the message itself.
  unfoldable pub Contained : K → Type 0
  unfolding IsContained
  Contained (list xs) = AreContained xs
  Contained (dict k v) = IsContained (dict k v)
  Contained _ = Unit {0}

-- The fields of the stream of a message.
abbrev pub message_fields : K → Fields
message_fields (list xs) = fields_of xs
message_fields (vector t vs) = unnamed (number_fields t vs)
message_fields (symbols ss) = unnamed (symbol_fields ss)
message_fields x = field [] (field_of x) end

-- A symbol arrives as a char vector.
abbrev pub arrived_symbols : List Bytes → Ks
arrived_symbols [] = nil
arrived_symbols (s ∷ ss) = cons (kp s) (arrived_symbols ss)

module _ (float_of_double : ℕ → ℕ) where
  -- As what a number, a symbol and so on arrive. A vector and a column arrive as general lists.
  abbrev pub arrived_number : ℕ → ℕ → K
  arrived_number t v =
      if t == 1
      then kb (if v == 0 then 0 else 1)
      else if t == 5
      then ki (sign_extend 16 32 v)
      else if t == 8
      then ke v
      else if t == 9
      then kf (float_of_double v)
      else if t == 7 || t == 12 || t == 16
      then kj v
      else ki v

  abbrev pub arrived_numbers : ℕ → List ℕ → Ks
  arrived_numbers t [] = nil
  arrived_numbers t (v ∷ vs) = cons (arrived_number t v) (arrived_numbers t vs)

  abbrev pub arrived_values : Ks → Ks
  arrived_values (cons (atom t v) xs) = cons (arrived_number t v) (arrived_values xs)
  arrived_values (cons (symbol s) xs) = cons (kp s) (arrived_values xs)
  arrived_values _ = nil

  abbrev pub arrived_column : K → Ks
  arrived_column (vector t vs) = arrived_numbers t vs
  arrived_column (symbols ss) = arrived_symbols ss
  arrived_column (list xs) = arrived_values xs
  arrived_column _ = nil

  unfoldable mutual
    pub arrived : K → K
    arrived (atom t v) = arrived_number t v
    arrived (symbol s) = kp s
    arrived (vector t vs) = list (arrived_numbers t vs)
    arrived (symbols ss) = list (arrived_symbols ss)
    arrived (list xs) = list (arrived_all xs)
    arrived (dict k v) = dict k (list (arrived_column v))
    arrived x = x

    pub arrived_all : Ks → Ks
    arrived_all nil = nil
    arrived_all (cons x xs) = cons (arrived x) (arrived_all xs)
    arrived_all (cons_null xs) = nil

  -- A message arrives as a list, of one element for an atom and for a dictionary.
  unfoldable pub arrived_message : K → K
  unfolding arrived
  arrived_message (list xs) = list (arrived_all xs)
  arrived_message (vector t vs) = list (arrived_numbers t vs)
  arrived_message (symbols ss) = list (arrived_symbols ss)
  arrived_message x = list (cons (arrived x) nil)
