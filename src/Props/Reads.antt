-- ===== src/Props/Reads.antt =====
-- What the session is created with.
use kdb_solace.Base.{
  ℕ, ◌+◌, ◌≤◌, ◌<◌, ◌≡◌, refl, ◌∙◌, ap, sym, Bool, true, false, List, [], ◌∷◌, ◌++◌, if◌then◌else◌,
  set, drop, length, length-append, append_assoc, length-drop, length-set, Bool-cases, inl, inr,
  arith,
}
use kdb_solace.Kopts.{Kopts}
use kdb_solace.Props.{
  PropKey, host, username, password, vpn_name, reconnect_retries, compression_level,
  reapply_subscriptions, ssl_validate_certificate, authentication_scheme, generate_send_timestamps,
  generate_rcv_timestamps, send_blocking, Pointer, null, prop_count, enable_val, disable_val,
  gss_krb, entries, store_all, configure, Value, kept, dangling, read_props,
}

abbrev pub gss_settings : Bool → List (PropKey × Value)
gss_settings true = (authentication_scheme, kept gss_krb) ∷ []
gss_settings false = []

-- The settings by the options.
abbrev pub settings : Kopts → List (PropKey × Value)
settings o =
    ((host, dangling)
      ∷ (username, kept o.username)
      ∷ (password, kept o.password)
      ∷ (vpn_name, kept o.vpn)
      ∷ (reconnect_retries, dangling)
      ∷ (compression_level, kept (if o.enablecompression then b'9' ∷ [] else b'0' ∷ []))
      ∷ (reapply_subscriptions, kept enable_val)
      ∷ (ssl_validate_certificate, kept disable_val)
      ∷ [])
    ++ (gss_settings o.usegss
        ++ ((generate_send_timestamps, kept enable_val)
            ∷ (generate_rcv_timestamps, kept enable_val)
            ∷ (send_blocking, kept disable_val)
            ∷ []))

set-append :
    (pre : List Pointer) (x v : Pointer) (rest : List Pointer)
    → set (pre ++ (x ∷ rest)) (length pre) v ≡ pre ++ (v ∷ rest)
set-append [] x v rest = refl
set-append (y ∷ pre) x v rest = ap (λ l. y ∷ l) (set-append pre x v rest)

store_all-append :
    (pre rest ps : List Pointer)
    → length ps ≤ length rest
    → store_all (pre ++ rest) (length pre) ps
      ≡ (pre ++ (ps ++ drop (length ps) rest), length pre + length ps)
unfolding store_all
store_all-append pre rest [] h = ap (λ (i : ℕ). (pre ++ rest, i)) (omega arith)
store_all-append pre [] (p ∷ ps) h = absurd (omega arith)
store_all-append pre (x ∷ rest) (p ∷ ps) h =
    let next = store_all-append (pre ++ (p ∷ [])) rest ps (omega arith) in
    let behind : length (pre ++ (p ∷ [])) ≡ length pre + 1 = length-append pre (p ∷ []) in
    rw (set-append pre x p rest) (
      ap (λ l. store_all l (length pre + 1) ps) (sym (append_assoc pre (p ∷ []) rest))
      ∙ ap (λ i. store_all ((pre ++ (p ∷ [])) ++ rest) i ps) (sym behind)
      ∙ next
      ∙ ap (λ l. (l, length (pre ++ (p ∷ [])) + length ps))
          (append_assoc pre (p ∷ []) (ps ++ drop (length ps) rest))
      ∙ ap (λ (i : ℕ). (pre ++ (p ∷ (ps ++ drop (length ps) rest)), i)) (omega (arith, behind)))

store_all-whole :
    (props ps : List Pointer)
    → length ps ≤ length props
    → store_all props 0 ps ≡ (ps ++ drop (length ps) props, length ps)
store_all-whole props ps h =
    store_all-append [] props ps h ∙ ap (λ (i : ℕ). (ps ++ drop (length ps) props, i)) (omega arith)

-- What stands behind the entries: a null pointer, if the array is long enough.
terminated :
    (ps rest : List Pointer)
    → 0 < length rest
    → (l : List Pointer) × (set (ps ++ rest) (length ps) null ≡ ps ++ (null ∷ l))
terminated ps [] h = absurd (omega arith)
terminated ps (x ∷ rest) h = (rest, set-append ps x null rest)

read_props-entries :
    (o : Kopts) (l : List Pointer) → read_props (entries o ++ (null ∷ l)) ≡ settings o
unfolding read_props
read_props-entries o l = elim (Bool-cases o.usegss) [ inl gss ↦ simp gss | inr plain ↦ simp plain ]

entries-bound : (o : Kopts) → length (entries o) < prop_count
entries-bound o = elim (Bool-cases o.usegss) [
  | inl gss ↦ rw gss (omega arith)
  | inr plain ↦ rw plain (omega arith)
]

-- Whatever the array held before, the session is created with just the settings by the options, if the
-- array has its 50 places. The values of host and of reconnect retries are dangling pointers by then.
pub read_props-configure :
    (o : Kopts) (props : List Pointer)
    → length props ≡ prop_count
    → read_props (configure o props) ≡ settings o
unfolding configure
read_props-configure o props size =
    let bound = entries-bound o in
    let (l, e) =
      terminated (entries o) (drop (length (entries o)) props)
        (omega (arith, length-drop (length (entries o)) props)) in
    rw (store_all-whole props (entries o) (omega arith), e) (read_props-entries o l)

length-store_all :
    (props ps : List Pointer) (i : ℕ) → length (store_all props i ps).0 ≡ length props
unfolding store_all
length-store_all props [] i = refl
length-store_all props (p ∷ ps) i =
    length-store_all (set props i p) ps (i + 1) ∙ length-set props i p

-- The array keeps its size.
pub length-configure :
    (o : Kopts) (props : List Pointer) → length (configure o props) ≡ length props
unfolding configure
length-configure o props =
    let (filled, i) = store_all props 0 (entries o) in
    length-set filled i null ∙ length-store_all props (entries o) 0
