-- ===== src/Channels.antt =====
-- integrations/chained.py: a chain of providers of one channel each, and the choice of the chain in
-- integrations/providers.py. A call of a provider may change the state outside of the service, of
-- which nothing is said: it is a parameter.
pub mod Chain
use javi.Prelude.{
  String, Bool, Option, none, List, [], ◌∷◌, ◌++◌, true, false, if◌then◌else◌, truthy, str_eq,
}
use javi.Env.{AttemptResult, SendResult, MessageText}

-- `class_channel` is the name of the class without "Provider", in lower case.
pub record Provider (S : Type 0) : Type 0 where
  pub channel : String
  pub class_channel : String
  pub send_text : String → MessageText → S → SendResult × S

module _ {S : Type 0} where
  -- `_infer_channel`
  abbrev pub infer_channel : Provider S → String
  infer_channel p = if truthy p.channel then p.channel else p.class_channel

  abbrev pub attempt_of : Provider S → SendResult → AttemptResult
  attempt_of p result = record {
    channel = if truthy result.channel then result.channel else infer_channel p;
    succeeded = result.succeeded;
    provider_message_id = result.provider_message_id;
  }

  module _ (phone : String) (text : MessageText) where
    -- The loop of `send_text`, with the attempts so far.
    unfoldable pub send_from : List AttemptResult → List (Provider S) → S → SendResult × S
    send_from attempts [] s = (
      record { succeeded = false; provider_message_id = none; channel = ""; attempts = attempts },
      s,
    )
    send_from attempts (p ∷ rest) s =
        let answer = p.send_text phone text s in
        let attempt = attempt_of p answer.0 in
        let all = attempts ++ attempt ∷ [] in
        let later = send_from all rest answer.1 in
        if answer.0.succeeded
        then (
          record {
            succeeded = true;
            provider_message_id = attempt.provider_message_id;
            channel = attempt.channel;
            attempts = all;
          },
          answer.1,
        )
        else later

    unfoldable pub chained_send_text : List (Provider S) → S → SendResult × S
    chained_send_text providers s = send_from [] providers s

-- integrations/providers.py: the settings that choose the chain.
pub record ChainSettings : Type 0 where
  pub infobip_channel : String
  pub whatsapp_enabled : Bool
  pub infobip_sms_fallback : Bool
  pub telegram_enabled : Bool
  pub messaging_chain : List String

abbrev pub viber_path : String
viber_path = "integrations.infobip.ViberProvider"

abbrev pub sms_path : String
sms_path = "integrations.infobip.SmsProvider"

abbrev pub whatsapp_path : String
whatsapp_path = "integrations.whatsapp.WhatsAppProvider"

abbrev pub telegram_path : String
telegram_path = "integrations.telegram.TelegramProvider"

-- `_default_chain_paths`
unfoldable pub default_chain_paths : ChainSettings → List String
default_chain_paths s =
    let sms = if s.infobip_sms_fallback then sms_path ∷ [] else [] in
    let whatsapp = if s.whatsapp_enabled then whatsapp_path ∷ sms else sms in
    let chain = if str_eq s.infobip_channel "sms" then sms_path ∷ [] else viber_path ∷ whatsapp in
    if s.telegram_enabled then telegram_path ∷ chain else chain

chain_or : List String → List String → List String
chain_or [] paths = paths
chain_or (p ∷ ps) paths = p ∷ ps

-- `_chain_paths`
unfoldable pub chain_paths : ChainSettings → List String
unfolding chain_or
chain_paths s = chain_or s.messaging_chain (default_chain_paths s)
