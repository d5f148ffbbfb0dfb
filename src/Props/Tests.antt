-- ===== src/Props/Tests.antt =====
-- An array that an earlier session with GSS has filled.
use kdb_solace.Base.{◌<◌, ◌≡◌, ◌↔◌, refl, true, [], ◌∷◌, replicate, length, arith}
use kdb_solace.Text.{print_int, snprintf, digits}
use kdb_solace.Text.Digits.{value}
use kdb_solace.Props.Retries.{value-retries_text}
use kdb_solace.Kopts.{Kopts}
use kdb_solace.Options.{default_opts}
use kdb_solace.Props.{prop_count, null, configure, retries_text, read_props}
use kdb_solace.Props.Reads.{settings, read_props-configure, length-configure}

abbrev gss_opts : Kopts
gss_opts = record default_opts { usegss = true; port = 55555; connectretries = 1234 }

abbrev used : kdb_solace.Base.List kdb_solace.Props.Pointer
used = configure gss_opts (replicate prop_count null)

used_size : length used ≡ prop_count
used_size = length-configure gss_opts (replicate prop_count null)

read_props-configure_example : read_props (configure default_opts used) ≡ settings default_opts
read_props-configure_example = read_props-configure default_opts used used_size

value-retries_text_example : (value (retries_text gss_opts) ≡ 1234) ↔ (1234 < 1000)
value-retries_text_example = value-retries_text gss_opts (omega arith)

-- 1234 retries become 123.
retries_are_cut : retries_text gss_opts ≡ b'1' ∷ b'2' ∷ b'3' ∷ []
unfolding retries_text snprintf print_int digits
retries_are_cut = refl

minus_one : retries_text (record default_opts { connectretries = 4294967295 }) ≡ b'-' ∷ b'1' ∷ []
unfolding retries_text snprintf print_int digits
minus_one = refl
