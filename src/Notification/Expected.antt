-- ===== src/Notification/Expected.antt =====
-- What a notification ought to reach, by the contact on file.
use gusto_backend.Common.{
  String, Bool, false, str_eq, ◌&&◌, Option, none, some, List, [], ◌∷◌, ◌++◌, if◌then◌else◌, ◌≡◌,
}
use gusto_backend.Common.Http.{Result, ok}
use gusto_backend.Notification.{
  Notification, World, NotificationType, email, push, DispatchResult, Payload, ContactPreference,
  Email, Push, subject_for, body_for,
}

-- A text on file, where it is not empty.
abbrev pub given : Option String → Option String
given none = none
given (some t) = if str_eq t "" then none else some t

-- Where a user wants to be reached: at an address, unless the channel is opted out.
abbrev pub wanted : Option String → Bool → Option String
wanted address opt_out = elim (given address) [
  | none ↦ none
  | some a ↦ if opt_out then none else some a
]

abbrev is_ios : Option String → Bool
is_ios none = false
is_ios (some p) = str_eq p "ios"

-- The endpoint that a push goes to: the one on file, or a new one for the token on file.
abbrev pub chosen_endpoint : World → ContactPreference → Option String
chosen_endpoint w c = elim c.push_endpoint_arn [
  | some arn ↦ some arn
  | none ↦ elim (given (if is_ios c.push_platform then w.ios_arn else w.android_arn)) [
    | none ↦ none
    | some platform ↦ elim (given c.push_token) [
      | none ↦ none
      | some token ↦ if w.stores_endpoint then w.new_endpoint else none
    ]
  ]
]

-- The results and messages of a dispatch to a contact, as the contact and the world have it.
abbrev pub email_results : World → ContactPreference → List DispatchResult
email_results w c = elim (wanted c.email c.email_opt_out) [
  | none ↦ []
  | some to ↦
      record { channel = email; success = w.ses && (w.email_logged && w.email_announced) } ∷ []
]

abbrev pub push_results : World → ContactPreference → List DispatchResult
push_results w c = elim (wanted c.push_token c.push_opt_out) [
  | none ↦ []
  | some token ↦
      record {
        channel = push;
        success = elim (chosen_endpoint w c) [
          | none ↦ false
          | some arn ↦ w.sns && (w.push_logged && w.push_announced)
        ];
      }
      ∷ []
]

abbrev pub expected_results : World → ContactPreference → List DispatchResult
expected_results w c = email_results w c ++ push_results w c

abbrev pub expected_emails :
    World → NotificationType → Payload → ContactPreference → List Email → List Email
expected_emails w t p c before = elim (wanted c.email c.email_opt_out) [
  | none ↦ before
  | some to ↦
      if w.ses
      then record { to = to; subject = subject_for t; text = body_for t p } ∷ before
      else before
]

abbrev pub expected_pushes :
    World → NotificationType → Payload → ContactPreference → List Push → List Push
expected_pushes w t p c before = elim (wanted c.push_token c.push_opt_out) [
  | none ↦ before
  | some token ↦ elim (chosen_endpoint w c) [
    | none ↦ before
    | some arn ↦
        if w.sns
        then record { endpoint = arn; notification_type = t; payload = p } ∷ before
        else before
  ]
]

pub record IsFannedOut (w : World) (t : NotificationType) (p : Payload) (c : ContactPreference)
    (s : Notification) (out : Result (List DispatchResult) × Notification) : Type 0 where
  pub results : out.0 ≡ ok (expected_results w c)
  pub emails : out.1.emails ≡ expected_emails w t p c s.emails
  pub pushes : out.1.pushes ≡ expected_pushes w t p c s.pushes
