-- ===== src/Props/Retries.antt =====
-- The number of retries in `configure_session_properties` of src/solace.c.
use kdb_solace.Base.{◌<◌, ◌≡◌, ◌↔◌, ◌^◌}
use kdb_solace.Kopts.{Kopts}
use kdb_solace.Text.Digits.{value, value-snprintf_four}
use kdb_solace.Props.{retries_text}

-- The text for the session's retries, in a local array, says the number of the options exactly if that is
-- less than 1000: an int that is not negative but 1000 or more becomes another number.
pub value-retries_text :
    (o : Kopts)
    → o.connectretries < 2 ^ 31
    → (value (retries_text o) ≡ o.connectretries) ↔ (o.connectretries < 1000)
unfolding retries_text
value-retries_text o small = value-snprintf_four o.connectretries small
