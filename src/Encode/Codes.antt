-- ===== src/Encode/Codes.antt =====
-- The code that `encodeToSolaceContainer` of src/solace.c returns for a general list.
use kdb_solace.Encode.{container_size}
use kdb_solace.Base.{ℕ, ◌≡◌, refl, ap, ◌∙◌, Option, none, some, ℤ}
use kdb_solace.Kdb.{Ks, nil, cons, cons_null, atom, list, append_element}
use kdb_solace.Solclient.{solclient_fail}
use kdb_solace.Container.{Containers, Item}
use kdb_solace.Encode.{
  Encoder, Result, and_then, and_next, add, atom_item, encode_atom, encode_flat, encode_list,
  encode,
}

module _ (api : Containers) where
  open api use {World, Handle, null_handle, create_map, create_stream, add_item, add_container}

  -- Two continuations that differ by a last step give results that do so.
  and_then-last :
      (m : Result api) (k k' f : ℤ → Encoder api → Result api)
      → ((rc : ℤ) (e : Encoder api) → k rc e ≡ and_then api (k' rc e) f)
      → and_then api m k ≡ and_then api (and_then api m k') f
  and_then-last none k k' f h = refl
  and_then-last (some r) k k' f h = h r.0 r.1

  and_next-last :
      (m : Option ((ℤ × Handle) × Encoder api)) (k k' : ℤ → Handle → Encoder api → Result api)
      (f : ℤ → Encoder api → Result api)
      → ((rc : ℤ) (last : Handle) (e : Encoder api) → k rc last e ≡ and_then api (k' rc last e) f)
      → and_next api m k ≡ and_then api (and_next api m k') f
  and_next-last none k k' f h = refl
  and_next-last (some r) k k' f h = h r.0.0 r.0.1 r.1

  encode_list-atom :
      (t v : ℕ) (a : Item) (rc : ℤ) (last h : Handle) (e : Encoder api)
      → atom_item (atom t v) ≡ some a
      → encode_list api (cons (atom t v) nil) rc last h e ≡ add api a none h e
  unfolding encode_list encode_flat encode_atom
  encode_list-atom t v a rc last h e known = simp known

  encode_list-append :
      (xs : Ks) (t v : ℕ) (a : Item) (rc : ℤ) (last h : Handle) (e : Encoder api)
      → atom_item (atom t v) ≡ some a
      → encode_list api (append_element xs (atom t v)) rc last h e
        ≡ and_then api (encode_list api xs rc last h e) (λ rc' e'. add api a none h e')
  unfolding encode_list append_element
  encode_list-append nil t v a rc last h e known = encode_list-atom t v a rc last h e known
  encode_list-append (cons_null xs) t v a rc last h e known = refl
  encode_list-append (cons (list ys) xs) t v a rc last h e known =
      let (rc', (new, w)) = create_stream null_handle container_size e.world in
      and_then-last (encode_list api ys solclient_fail null_handle new (record e { world = w })) _
        (λ rc'' e'.
          let (rc3, w') = add_container h new e'.world in
          encode_list api xs rc3 last h (record e' { world = w' }))
        (λ rc'' e'. add api a none h e')
        λ rc'' e'.
          let (rc3, w') = add_container h new e'.world in
          encode_list-append xs t v a rc3 last h (record e' { world = w' }) known
  encode_list-append (cons x xs) t v a rc last h e known =
      and_next-last (encode_flat api x last h e) _
        (λ rc' last' e'. encode_list api xs rc' last' h e') (λ rc' e'. add api a none h e')
        (λ rc' last' e'. encode_list-append xs t v a rc' last' h e' known)

  -- If a general list is encoded up to a last atom of a known type, with whatever code, then with the
  -- atom the code is that of adding it: no error of an element before it is left.
  pub encode-last :
      (xs : Ks) (t v : ℕ) (a : Item) (h : Handle) (e e' : Encoder api) (rc : ℤ)
      → atom_item (atom t v) ≡ some a
      → encode api (list xs) h e ≡ some (rc, e')
      → let (code, w) = add_item h a none e'.world in
        encode api (list (append_element xs (atom t v))) h e ≡ some (code, record e' { world = w })
  unfolding encode
  encode-last xs t v a h e e' rc known before =
      encode_list-append xs t v a solclient_fail null_handle h e known
      ∙ ap (λ r. and_then api r (λ rc' e''. add api a none h e'')) before
