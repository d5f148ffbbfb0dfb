-- ===== src/Options/Tests.antt =====
-- A dictionary of options, with a key given twice, an unknown key and a number that does not fit an int.
use kdb_solace.Base.{◌+◌, ◌^◌, ◌≡◌, refl, true, some, [], ◌∷◌, ◌++◌}
use kdb_solace.CString.{same_string}
use kdb_solace.Kdb.{symbol, ki, kj}
use kdb_solace.Client.{nothing, error, bad_option}
use kdb_solace.Kopts.{Key, text_key, number_key, user, port, loglevel, vpn, handle, key_name}
use kdb_solace.Options.{
  config_opts, getopts, dict_of, option_error, key_of, key_among, assign, default_opts,
}
use kdb_solace.Options.Fields.{accepts, shown_name}
use kdb_solace.Options.Config.{
  Pairs, Suitable, last_shown, reply_row, getopts-config_opts, config_opts_stops, handle_is_refused,
}

abbrev given : Pairs
given =
    (key_name (number_key port), kj (2 ^ 40 + 7))
    ∷ (key_name (text_key user), symbol (b'b' ∷ b'o' ∷ b'b' ∷ []))
    ∷ (b'c' ∷ b'o' ∷ b'l' ∷ b'o' ∷ b'r' ∷ [], kj 1)
    ∷ (key_name (number_key loglevel), ki 2)
    ∷ (key_name (text_key user), symbol (b'e' ∷ b'v' ∷ b'e' ∷ []))
    ∷ []

given-Suitable : Suitable given
unfolding key_of key_among same_string accepts
given-Suitable = (refl, (refl, (refl, (refl, (refl, tt)))))

getopts-config_opts_example :
    let (o', r) = config_opts default_opts (dict_of given) in
    (r ≡ nothing)
    × ((k : Key)
        → reply_row (getopts true o') (shown_name k)
          ≡ last_shown k given (reply_row (getopts true default_opts) (shown_name k)))
getopts-config_opts_example = getopts-config_opts default_opts given given-Suitable

-- A long is cut to an int: 2 ^ 40 + 7 becomes port 7.
port_is_cut :
    reply_row
      (getopts true (config_opts default_opts (dict_of given)).0)
      (key_name (number_key port))
    ≡ some (kj 7)
unfolding config_opts getopts key_of key_among same_string assign
port_is_cut = refl

config_opts_stops_example :
    config_opts default_opts (
      dict_of
        (given ++ ((key_name (text_key vpn), kj 1) ∷ (key_name (number_key port), kj 9) ∷ [])))
    ≡ ((config_opts default_opts (dict_of given)).0, error (option_error (text_key vpn)))
config_opts_stops_example =
    config_opts_stops default_opts given (key_name (text_key vpn)) (text_key vpn) (kj 1)
      ((key_name (number_key port), kj 9) ∷ []) given-Suitable
      (unfold key_of key_among same_string in refl) (unfold accepts in refl)

handle_is_refused_example :
    config_opts default_opts (dict_of (given ++ ((key_name handle, ki 5) ∷ [])))
    ≡ ((config_opts default_opts (dict_of given)).0, error (bad_option (key_name handle)))
handle_is_refused_example = handle_is_refused default_opts given (ki 5) [] given-Suitable
