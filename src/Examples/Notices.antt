-- ===== src/Examples/Notices.antt =====
-- The theorems on notification-service at one contact with a device and an e-mail address that
-- is opted out.
use gusto_backend.Common.{true, false, none, some, [], ◌∷◌, ◌≡◌, refl}
use gusto_backend.Common.Dict.{lookup}
use gusto_backend.Notification.{
  Notification, World, ContactPreference, Payload, send, order_status, fan_out, email_part,
  push_part, dispatch_push, endpoint_of, ensure_push_endpoint, set_push_endpoint_arn, record_sent,
}
use gusto_backend.Notification.Expected.{IsFannedOut}
use gusto_backend.Notification.FanOut.{send-IsFannedOut}

abbrev contact : ContactPreference
contact = record {
  email = some "asha@example.com";
  phone = none;
  push_token = some "device";
  push_platform = some "ios";
  push_endpoint_arn = none;
  email_opt_out = true;
  push_opt_out = false;
}

abbrev quiet : Notification
quiet = record {
  contacts = ("asha", contact) ∷ [];
  emails = [];
  pushes = [];
  log = [];
  published = [];
}

-- SNS makes an endpoint and takes the push, whose event the bus refuses.
abbrev world : World
world = record {
  ses = true;
  sns = true;
  new_endpoint = some "arn:1";
  stores_endpoint = true;
  email_logged = true;
  push_logged = true;
  email_announced = true;
  push_announced = false;
  ios_arn = some "arn:ios";
  android_arn = none;
}

abbrev payload : Payload
payload = record { proposed_items = []; order_id = some "o1"; status = some "PLACED" }

on_file : lookup "asha" quiet.contacts ≡ some contact
unfolding lookup
on_file = refl

send-IsFannedOut_example :
    IsFannedOut world order_status payload contact quiet
      (send world "asha" "ORDER_STATUS" payload quiet)
send-IsFannedOut_example =
    send-IsFannedOut world "asha" "ORDER_STATUS" payload order_status contact quiet refl on_file

-- No e-mail goes out, and a push to the new endpoint.
pushed_only :
    ((send world "asha" "ORDER_STATUS" payload quiet).1.emails ≡ [])
    × ((send world "asha" "ORDER_STATUS" payload quiet).1.pushes
        ≡ record { endpoint = "arn:1"; notification_type = order_status; payload = payload } ∷ [])
unfolding send fan_out email_part push_part dispatch_push endpoint_of ensure_push_endpoint
    set_push_endpoint_arn record_sent lookup
pushed_only = (refl, refl)
