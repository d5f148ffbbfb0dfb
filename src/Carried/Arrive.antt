-- ===== src/Carried/Arrive.antt =====
-- `decodeFromSolaceContainer` of src/solace.c on the fields of what can be sent.
use kdb_solace.Base.{ℕ, ◌≡◌, ◌≢◌, refl, ap, ap₂, ◌∙◌, some, List, [], ◌∷◌, length, arith}
use kdb_solace.Memory.{Bytes}
use kdb_solace.Kdb.{K, Ks, nil, cons, cons_null, atom, symbol, symbols, vector, list, dict, kp}
use kdb_solace.Field.{Field, map_of, stream_of, end}
use kdb_solace.Decode.{
  Attachment, no_message, cons_decoded, decode_names, decode_field, decode_fields,
}
use kdb_solace.Solclient.{solclient_ok}
use kdb_solace.Container.{Containers}
use kdb_solace.Encode.{Encoder, encode}
use kdb_solace.Carried.Store.{IsWithin, put_fields, put_fields-stream, Store}
use kdb_solace.Carried.New.{empty-HasRoom}
use kdb_solace.Carried.Whole.{encode-Fills}
use kdb_solace.Carried.{IsCarried, booleans, shorts}
use kdb_solace.Carried.Sent.{
  Contained, AreValues, IsColumn, IsSendable, AreSendable, number_field, number_fields,
  symbol_fields, value_fields, column_fields, unnamed, named, field_of, fields_of, message_fields,
  arrived_number, arrived_numbers, arrived_symbols, arrived_values, arrived_column, arrived,
  arrived_all, arrived_message,
}
use kdb_solace.Carried.Columns.{length-column_fields}

decode_names-named :
    (names : List Bytes) (fs : List Field)
    → length fs ≡ length names
    → decode_names (named names fs) ≡ names
decode_names-named [] [] size = refl
decode_names-named [] (f ∷ fs) size = absurd (omega (arith, size))
decode_names-named (name ∷ names) [] size = absurd (omega (arith, size))
decode_names-named (name ∷ names) (f ∷ fs) size =
    ap (λ ns. name ∷ ns) (decode_names-named names fs (omega (arith, size)))

module _ (float_of_uint64 float_of_double : ℕ → ℕ) where
  abbrev Decodes : Field → K → Type 0
  Decodes f x = decode_field float_of_uint64 float_of_double f no_message ≡ some x

  -- Fields in a list, each decoded.
  abbrev all_decoded : List Field → Ks
  all_decoded [] = nil
  all_decoded (f ∷ fs) =
      cons_decoded (decode_field float_of_uint64 float_of_double f no_message) (all_decoded fs)

  decode_fields-unnamed :
      (fs : List Field)
      → decode_fields float_of_uint64 float_of_double (unnamed fs) ≡ all_decoded fs
  unfolding decode_field
  decode_fields-unnamed [] = refl
  decode_fields-unnamed (f ∷ fs) =
      ap (cons_decoded (decode_field float_of_uint64 float_of_double f no_message))
        (decode_fields-unnamed fs)

  decode_fields-named :
      (names : List Bytes) (fs : List Field)
      → length fs ≡ length names
      → decode_fields float_of_uint64 float_of_double (named names fs) ≡ all_decoded fs
  unfolding decode_field
  decode_fields-named [] [] size = refl
  decode_fields-named [] (f ∷ fs) size = absurd (omega (arith, size))
  decode_fields-named (name ∷ names) [] size = absurd (omega (arith, size))
  decode_fields-named (name ∷ names) (f ∷ fs) size =
      ap (cons_decoded (decode_field float_of_uint64 float_of_double f no_message))
        (decode_fields-named names fs (omega (arith, size)))

  number-Decodes :
      {t : ℕ} (c : IsCarried t) (v : ℕ)
      → Decodes (number_field t v) (arrived_number float_of_double t v)
  unfolding decode_field
  number-Decodes booleans v = refl
  number-Decodes shorts v = refl
  number-Decodes _ v = refl

  numbers-Decodes :
      {t : ℕ} (c : IsCarried t) (vs : List ℕ)
      → all_decoded (number_fields t vs) ≡ arrived_numbers float_of_double t vs
  numbers-Decodes c [] = refl
  numbers-Decodes c (v ∷ vs) = ap₂ cons_decoded (number-Decodes c v) (numbers-Decodes c vs)

  symbols-Decodes : (ss : List Bytes) → all_decoded (symbol_fields ss) ≡ arrived_symbols ss
  unfolding decode_field
  symbols-Decodes [] = refl
  symbols-Decodes (s ∷ ss) = ap (cons (kp s)) (symbols-Decodes ss)

  values-Decodes :
      (xs : Ks) → AreValues xs → all_decoded (value_fields xs) ≡ arrived_values float_of_double xs
  unfolding decode_field
  values-Decodes nil h = refl
  values-Decodes (cons (atom t v) xs) (c, bits, h) =
      ap₂ cons_decoded (number-Decodes c v) (values-Decodes xs h)
  values-Decodes (cons (symbol s) xs) h = ap (cons (kp s)) (values-Decodes xs h)
  values-Decodes _ h = absurd h

  column-Decodes :
      (n : ℕ) (v : K)
      → IsColumn n v
      → all_decoded (column_fields v) ≡ arrived_column float_of_double v
  column-Decodes n (vector t vs) (size, c, bits) = numbers-Decodes c vs
  column-Decodes n (symbols ss) size = symbols-Decodes ss
  column-Decodes n (list xs) (size, h) = values-Decodes xs h
  column-Decodes n _ h = absurd h

  dict-Decodes :
      (names : List Bytes) (v : K)
      → IsColumn (length names) v
      → Decodes
          (map_of (named names (column_fields v)))
          (dict (symbols names) (list (arrived_column float_of_double v)))
  unfolding decode_field
  dict-Decodes names v c =
      let size = length-column_fields (length names) v c in
      ap₂ (λ ns xs. some (dict (symbols ns) (list xs)))
        (decode_names-named names (column_fields v) size)
        (decode_fields-named names (column_fields v) size ∙ column-Decodes (length names) v c)

  mutual
    unfolding decode_field IsSendable field_of arrived

    field-Decodes : (x : K) → IsSendable x → Decodes (field_of x) (arrived float_of_double x)
    field-Decodes (atom t v) (c, bits) = number-Decodes c v
    field-Decodes (symbol s) h = refl
    field-Decodes (vector t vs) (c, bits) =
        ap (λ xs. some (list xs))
          (decode_fields-unnamed (number_fields t vs) ∙ numbers-Decodes c vs)
    field-Decodes (symbols ss) h =
        ap (λ xs. some (list xs)) (decode_fields-unnamed (symbol_fields ss) ∙ symbols-Decodes ss)
    field-Decodes (list xs) h = ap (λ ys. some (list ys)) (fields-Decodes xs h)
    field-Decodes (dict (symbols names) v) h = dict-Decodes names v h
    field-Decodes _ h = absurd h

    fields-Decodes :
        (xs : Ks)
        → AreSendable xs
        → decode_fields float_of_uint64 float_of_double (fields_of xs)
          ≡ arrived_all float_of_double xs
    fields-Decodes nil h = refl
    fields-Decodes (cons x xs) h = ap₂ cons_decoded (field-Decodes x h.0) (fields-Decodes xs h.1)
    fields-Decodes (cons_null xs) h = absurd h

  -- The stream of what can be sent is decoded to that as which it arrives.
  pub message-Decodes :
      (x : K) (a : Attachment)
      → IsSendable x
      → decode_field float_of_uint64 float_of_double (stream_of (message_fields x)) a
        ≡ some (arrived_message float_of_double x)
  unfolding decode_field IsSendable arrived_message arrived
  message-Decodes (list xs) a h = ap (λ ys. some (list ys)) (fields-Decodes xs h)
  message-Decodes (vector t vs) a (c, bits) =
      ap (λ xs. some (list xs)) (decode_fields-unnamed (number_fields t vs) ∙ numbers-Decodes c vs)
  message-Decodes (symbols ss) a h =
      ap (λ xs. some (list xs)) (decode_fields-unnamed (symbol_fields ss) ∙ symbols-Decodes ss)
  message-Decodes x a h = ap (λ y. some (list (cons_decoded y nil))) (field-Decodes x h)

  module _ (api : Containers) (store : Store api) where
    -- With a client library that fills containers as documented, what can be sent, is no empty general list,
    -- and has in it only containers of at most 1024 bytes, is encoded with the code OK into an empty stream
    -- that may take its fields, and that stream is decoded to what it arrives as.
    pub decode-encode_sendable :
        (x : K) (h : api.Handle) (e : Encoder api) (a : Attachment)
        → IsSendable x
        → x ≢ list nil
        → Contained store.bytes x
        → e.rc ≡ solclient_ok
        → store.IsOpen h e.world
        → store.value h e.world ≡ stream_of end
        → IsWithin (store.limit h e.world) (store.bytes (stream_of (message_fields x)))
        → (e' : Encoder api) × (encode api x h e ≡ some (solclient_ok, e'))
          × (decode_field float_of_uint64 float_of_double (store.value h e'.world) a
              ≡ some (arrived_message float_of_double x))
    decode-encode_sendable x h e a sendable some_x fits ok o empty within =
        let room = empty-HasRoom api store h e.world (message_fields x) o empty within in
        let f = encode-Fills api store x h e sendable some_x fits (ok, room) in
        (
          f.last,
          f.gives,
          ap (λ c. decode_field float_of_uint64 float_of_double c a)
                (f.filled.put
                  ∙ ap (λ c. put_fields c (message_fields x)) empty
                  ∙ put_fields-stream end (message_fields x))
              ∙ message-Decodes x a sendable,
        )
