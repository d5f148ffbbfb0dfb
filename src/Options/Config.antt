-- ===== src/Options/Config.antt =====
-- `config_opts` and `getopts` of src/solace_k.c: from a dictionary of q to what q is shown.
use kdb_solace.Base.{
  ◌≡◌, ◌∙◌, refl, ap, sym, Bool, true, false, Option, none, some, List, [], ◌∷◌, ◌++◌, subst, map,
  if◌then◌else◌, Option-cases, inl, inr,
}
use kdb_solace.Memory.{Bytes}
use kdb_solace.CString.{same_string}
use kdb_solace.Kdb.{K, Ks, cons, of_list, symbols, list, dict}
use kdb_solace.Client.{Reply, nothing, value, error, bad_option}
use kdb_solace.Kopts.{Kopts, Key, handle, key_name}
use kdb_solace.Options.{
  config_from, config_opts, key_of, key_among, opts_rows, dict_of, getopts, option_error,
}
use kdb_solace.Options.Fields.{
  same_key, shown_name, shown, shown_value, accepts, row_of, row_of-opts_rows, Assigned,
  assign-accepts, assign-refuses,
}

abbrev pub Pairs : Type 0
Pairs = List (Bytes × K)

-- What is shown under a key after a value under a name.
abbrev pub shown_after : Option Key → K → Key → Option K → Option K
shown_after none v k before = before
shown_after (some k') v k before = if same_key k' k then shown_value k' v else before

-- Whether a value suits the name.
abbrev pub suits : Option Key → K → Bool
suits none v = true
suits (some k) v = accepts k v

-- Every known key has a value of its type.
abbrev pub Suitable : Pairs → Type 0
Suitable [] = Unit {0}
Suitable ((name, v) ∷ ps) = (suits (key_of name) v ≡ true) × Suitable ps

-- What q is shown under a key after a dictionary: its last value there, or else what was shown before.
abbrev pub last_shown : Key → Pairs → Option K → Option K
last_shown k [] before = before
last_shown k ((name, v) ∷ ps) before = last_shown k ps (shown_after (key_of name) v k before)

abbrev pub dict_row : List Bytes → Ks → Bytes → Option K
dict_row [] vs name = none
dict_row (s ∷ names) (cons v vs) name =
    if same_string name s then some v else dict_row names vs name
dict_row (s ∷ names) _ name = none

-- What a reply of `getopts` holds under a name.
abbrev pub reply_row : Reply → Bytes → Option K
reply_row (value (dict (symbols names) (list vs))) name = dict_row names vs name
reply_row _ name = none

dict_row-row_of :
    (name : Bytes) (rows : Pairs)
    → dict_row (map (λ r. r.0) rows) (of_list (map (λ r. r.1) rows)) name ≡ row_of name rows
unfolding row_of
dict_row-row_of name [] = refl
dict_row-row_of name ((s, v) ∷ rows) =
    ap (λ rest. if same_string name s then some v else rest) (dict_row-row_of name rows)

reply_row-getopts : (o : Kopts) (k : Key) → reply_row (getopts true o) (shown_name k) ≡ shown o k
unfolding getopts
reply_row-getopts o k = dict_row-row_of (shown_name k) (opts_rows o) ∙ row_of-opts_rows o k

-- The loop over pairs.
abbrev pub config_pairs : Kopts → Pairs → Kopts × Reply
config_pairs o ps = config_from (map (λ r. r.0) ps) (of_list (map (λ r. r.1) ps)) o

config_pairs-unknown :
    (o : Kopts) (name : Bytes) (v : K) (ps : Pairs)
    → key_of name ≡ none
    → config_pairs o ((name, v) ∷ ps) ≡ config_pairs o ps
unfolding config_from
config_pairs-unknown o name v ps unknown = simp unknown

config_pairs-assign :
    (o : Kopts) (name : Bytes) (k : Key) (v : K) (ps : Pairs) (a : Assigned o k v)
    → key_of name ≡ some k
    → config_pairs o ((name, v) ∷ ps) ≡ config_pairs a.next ps
unfolding config_from
config_pairs-assign o name k v ps a known = simp (known, a.done)

config_pairs-refused :
    (o : Kopts) (name : Bytes) (k : Key) (v : K) (ps : Pairs)
    → key_of name ≡ some k
    → accepts k v ≡ false
    → config_pairs o ((name, v) ∷ ps) ≡ (o, error (option_error k))
unfolding config_from
config_pairs-refused o name k v ps known bad = simp (known, assign-refuses o k v bad)

-- What the loop has done at the end of suitable pairs.
record Configured (o : Kopts) (ps : Pairs) (out : Kopts × Reply) : Type 0 where
  pub reply : out.1 ≡ nothing
  pub shows : (k : Key) → shown out.0 k ≡ last_shown k ps (shown o k)

config_pairs-Configured :
    (o : Kopts) (ps : Pairs) → Suitable ps → Configured o ps (config_pairs o ps)
unfolding config_from
config_pairs-Configured o [] fit = record { reply = refl; shows = λ k. refl }
config_pairs-Configured o ((name, v) ∷ ps) (fits, rest) = elim (Option-cases (key_of name)) [
  | inl unknown ↦
      let x = config_pairs-Configured o ps rest in
      rw (config_pairs-unknown o name v ps unknown)
        (record { reply = x.reply; shows = rw unknown x.shows })
  | inr (k, known) ↦
      let a = assign-accepts o k v (subst (λ q. suits q v ≡ true) known fits) in
      let x = config_pairs-Configured a.next ps rest in
      rw (config_pairs-assign o name k v ps a known) (record {
        reply = x.reply;
        shows = rw known (λ k'. x.shows k' ∙ ap (λ b. last_shown k' ps b) (a.shows k'));
      })
]

-- From every state of the options, `config_opts` of a dictionary whose known keys have values of their
-- types reports no error. Then, for every known key but `schema`, `getopts` shows the last value that was
-- given for the key, cut to its field, or what it showed before if none was given. It shows `loglevel` as
-- `solaceloglevel`, `loglvl` as `clientloglevel`, and every other key under its own name; the schema is
-- not shown under its name, before or after.
pub getopts-config_opts :
    (o : Kopts) (ps : Pairs)
    → Suitable ps
    → let (o', r) = config_opts o (dict_of ps) in
      (r ≡ nothing)
      × ((k : Key)
          → reply_row (getopts true o') (shown_name k)
            ≡ last_shown k ps (reply_row (getopts true o) (shown_name k)))
unfolding config_opts
getopts-config_opts o ps fit =
    let x = config_pairs-Configured o ps fit in
    (
      x.reply,
      λ k.
          reply_row-getopts (config_pairs o ps).0 k
          ∙ x.shows k
          ∙ ap (λ b. last_shown k ps b) (sym (reply_row-getopts o k)),
    )

config_pairs_stops :
    (o : Kopts) (ps : Pairs) (name : Bytes) (k : Key) (v : K) (qs : Pairs)
    → Suitable ps
    → key_of name ≡ some k
    → accepts k v ≡ false
    → config_pairs o (ps ++ ((name, v) ∷ qs)) ≡ ((config_pairs o ps).0, error (option_error k))
unfolding config_from
config_pairs_stops o [] name k v qs fit known bad = config_pairs-refused o name k v qs known bad
config_pairs_stops o ((s, w) ∷ ps) name k v qs (fits, rest) known bad =
    elim (Option-cases (key_of s)) [
      | inl unknown ↦
          rw
            (
              config_pairs-unknown o s w ps unknown,
              config_pairs-unknown o s w (ps ++ ((name, v) ∷ qs)) unknown,
            )
            (config_pairs_stops o ps name k v qs rest known bad)
      | inr (k', e) ↦
          let a = assign-accepts o k' w (subst (λ q. suits q w ≡ true) e fits) in
          rw
            (
              config_pairs-assign o s k' w ps a e,
              config_pairs-assign o s k' w (ps ++ ((name, v) ∷ qs)) a e,
            )
            (config_pairs_stops a.next ps name k v qs rest known bad)
    ]

-- At the first value of a wrong type `config_opts` stops with that key's error; what stands before it
-- in the dictionary is set all the same, and nothing behind it.
pub config_opts_stops :
    (o : Kopts) (ps : Pairs) (name : Bytes) (k : Key) (v : K) (qs : Pairs)
    → Suitable ps
    → key_of name ≡ some k
    → accepts k v ≡ false
    → config_opts o (dict_of (ps ++ ((name, v) ∷ qs)))
      ≡ ((config_opts o (dict_of ps)).0, error (option_error k))
unfolding config_opts
config_opts_stops o ps name k v qs fit known bad = config_pairs_stops o ps name k v qs fit known bad

-- A dictionary with the key `handle` is refused there, whatever the value.
pub handle_is_refused :
    (o : Kopts) (ps : Pairs) (v : K) (qs : Pairs)
    → Suitable ps
    → config_opts o (dict_of (ps ++ ((key_name handle, v) ∷ qs)))
      ≡ ((config_opts o (dict_of ps)).0, error (bad_option (key_name handle)))
handle_is_refused o ps v qs fit =
    config_opts_stops o ps (key_name handle) handle v qs fit
      (unfold key_of key_among same_string in refl) (unfold accepts in refl)
