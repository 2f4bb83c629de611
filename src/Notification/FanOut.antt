-- ===== src/Notification/FanOut.antt =====
-- What a notification reaches: `send` of dispatch.service.ts against the contact on file.
use gusto_backend.Common.{String, some, ◌≡◌, sym, ap, subst, ◌∙◌, arith}
use gusto_backend.Common.Dict.{lookup}
use gusto_backend.Notification.{
  Notification, World, NotificationType, Payload, ContactPreference, parse_type, fan_out, send,
}
use gusto_backend.Notification.Expected.{IsFannedOut}
use gusto_backend.Notification.Steps.{fan_out-IsFannedOut}

-- A notification of a known type, to a user with a contact on file, does not throw. It goes as an
-- e-mail to the address on file and as a push to the endpoint on file, or a new one for the token on
-- file, each exactly where there is one that is not opted out and SES or SNS takes it; and a channel
-- is reported as a success exactly if in addition the log and the event were written.
pub send-IsFannedOut :
    (w : World) (user type_text : String) (p : Payload) (t : NotificationType)
    (c : ContactPreference) (s : Notification)
    → parse_type type_text ≡ some t
    → lookup user s.contacts ≡ some c
    → IsFannedOut w t p c s (send w user type_text p s)
unfolding send
send-IsFannedOut w user type_text p t c s known there =
    subst (IsFannedOut w t p c s) (sym chosen) (fan_out-IsFannedOut w user t p c s there)
  where
    chosen : send w user type_text p s ≡ fan_out w user t p (some c) s
    chosen = by_type known ∙ ap (λ o. fan_out w user t p o s) there
      where
        by_type :
            parse_type type_text ≡ some t
            → send w user type_text p s ≡ fan_out w user t p (lookup user s.contacts) s
        by_type h = ground arith
