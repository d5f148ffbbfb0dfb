-- ===== src/Encode/Tests.antt =====
-- Encoding with a client library that takes every call and writes the items down.
use kdb_solace.Base.{ℕ, ◌+◌, ◌≡◌, refl, some, List, [], ◌∷◌, ◌++◌, ◌+ℤ◌}
use kdb_solace.Kdb.{K, nil, cons, vector, symbols, list, table, dict, kj, append_element}
use kdb_solace.Solclient.{solclient_ok, solclient_fail}
use kdb_solace.Container.{Containers, Item, add_int64}
use kdb_solace.Encode.{Encoder, encode, atom_item, encode_list}
use kdb_solace.Encode.Codes.{encode-last}

-- The number of containers, and the items with the containers that they went into.
abbrev recorder : Containers
recorder = record {
  World = ℕ × List (ℕ × Item);
  Handle = ℕ;
  null_handle = 0;
  create_map = λ h n w. (solclient_ok, (w.0 + 1, (w.0 + 1, w.1)));
  create_stream = λ h n w. (solclient_ok, (w.0 + 1, (w.0 + 1, w.1)));
  add_item = λ h a name w. (solclient_ok, (w.0, w.1 ++ ((h, a) ∷ [])));
  add_container = λ h new w. (solclient_ok, w);
}

abbrev start : Encoder recorder
start = record { rc = solclient_ok; world = (0, []) }

-- A table alone gives FAIL; with an atom behind it the list is published without it.
abbrev some_table : K
some_table = table (dict (symbols ((b'a' ∷ []) ∷ [])) (list (cons (vector 7 (1 ∷ [])) nil)))

table_alone :
    encode recorder (list (cons some_table nil)) 0 start
    ≡ some (solclient_fail, record start { world = (1, []) })
unfolding encode encode_list ◌+ℤ◌
table_alone = refl

encode-last_example :
    encode recorder (list (append_element (cons some_table nil) (kj 1))) 0 start
    ≡ some (solclient_ok, record start { world = (1, (0, add_int64 1) ∷ []) })
encode-last_example =
    encode-last recorder (cons some_table nil) 7 1 (add_int64 1) 0 start
      (record start { world = (1, []) }) solclient_fail (unfold atom_item in refl) table_alone

-- A general list without elements is a failure.
empty_list : encode recorder (list nil) 0 start ≡ some (solclient_fail, start)
unfolding encode encode_list ◌+ℤ◌
empty_list = refl
