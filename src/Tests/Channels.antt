-- ===== src/Tests/Channels.antt =====
-- A chain of channels, of which the first fails. The state is the list of the calls.
use javi.Prelude.{String, ◌≡◌, refl, true, false, none, some, List, [], ◌∷◌, ◌++◌}
use javi.Env.{MessageText}
use javi.Channels.{Provider, send_from, chained_send_text}
use javi.Channels.Chain.{IsChained, chained_send_text_lem}

abbrev text : MessageText
text = MessageText.rating_request "sr-latn" "Pekara" "token"

abbrev viber : Provider (List String)
viber = record {
  channel = "viber";
  class_channel = "viber";
  send_text = λ phone text calls. (
    record { succeeded = false; provider_message_id = none; channel = ""; attempts = [] },
    calls ++ "viber" ∷ [],
  );
}

abbrev sms : Provider (List String)
sms = record {
  channel = "sms";
  class_channel = "sms";
  send_text = λ phone text calls. (
    record { succeeded = true; provider_message_id = some "mid-9"; channel = "sms"; attempts = [] },
    calls ++ "sms" ∷ [],
  );
}

chained_send_text_lem_example :
    IsChained "+3816" text []
      (viber ∷ sms ∷ viber ∷ [])
      []
      (chained_send_text "+3816" text (viber ∷ sms ∷ viber ∷ []) [])
chained_send_text_lem_example = chained_send_text_lem "+3816" text (viber ∷ sms ∷ viber ∷ []) []

calls : (chained_send_text "+3816" text (viber ∷ sms ∷ viber ∷ []) []).1 ≡ "viber" ∷ "sms" ∷ []
unfolding chained_send_text send_from
calls = refl
