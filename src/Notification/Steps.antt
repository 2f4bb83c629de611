-- ===== src/Notification/Steps.antt =====
-- The steps of `send` of dispatch.service.ts against what they ought to reach.
use gusto_backend.Common.{
  String, Bool, true, false, ◌&&◌, Option, none, some, List, [], ◌∷◌, ◌++◌, if◌then◌else◌, ◌≡◌,
  refl, sym, ap, subst, ◌∙◌, arith,
}
use gusto_backend.Common.Dict.{lookup}
use gusto_backend.Common.Http.{Result, ok, err, Action, ◌>>=◌, ◌>>◌, pure, bind_ok, internal, is_ok}
use gusto_backend.Notification.{
  Notification, World, NotificationType, email, push, DispatchResult, Payload, ContactPreference,
  Email, Push, subject_for, body_for, record_sent, dispatch_email, set_push_endpoint_arn,
  ensure_push_endpoint, endpoint_of, dispatch_push, publish_push, reachable, email_part, push_part,
  fan_out,
}
use gusto_backend.Notification.Expected.{
  wanted, chosen_endpoint, email_results, push_results, expected_pushes, IsFannedOut,
}

-- What an e-mail does.
record IsEmailed (w : World) (t : NotificationType) (p : Payload) (to : String) (s : Notification)
    (out : Result DispatchResult × Notification) : Type 0 where
  result :
      out.0
      ≡ ok (record { channel = email; success = w.ses && (w.email_logged && w.email_announced) })
  written : out.1.emails ≡ (
      if w.ses
      then record { to = to; subject = subject_for t; text = body_for t p } ∷ s.emails
      else s.emails)
  same_pushes : out.1.pushes ≡ s.pushes
  same_contacts : out.1.contacts ≡ s.contacts

-- What a push does with the endpoint of the contact.
record IsPushed (w : World) (t : NotificationType) (p : Payload) (o : Option String)
    (s : Notification) (out : Result DispatchResult × Notification) : Type 0 where
  result :
      out.0
      ≡ ok (record {
        channel = push;
        success = elim o [ none ↦ false | some arn ↦ w.sns && (w.push_logged && w.push_announced) ];
      })
  same_emails : out.1.emails ≡ s.emails
  written : out.1.pushes ≡ (elim o [
    | none ↦ s.pushes
    | some arn ↦
        if w.sns
        then record { endpoint = arn; notification_type = t; payload = p } ∷ s.pushes
        else s.pushes
  ])

module _ (w : World) (user : String) (t : NotificationType) (p : Payload) where
  dispatch_email-IsEmailed :
      (to : String) (s : Notification) → IsEmailed w t p to s (dispatch_email w user t p to s)
  unfolding dispatch_email record_sent
  dispatch_email-IsEmailed to s = by_world w.ses w.email_logged w.email_announced
    where
      by_world :
          (ses email_logged email_announced : Bool)
          → IsEmailed
              (record w {
                ses = ses;
                email_logged = email_logged;
                email_announced = email_announced;
              })
              t
              p
              to
              s
              (dispatch_email
                (record w {
                  ses = ses;
                  email_logged = email_logged;
                  email_announced = email_announced;
                })
                user
                t
                p
                to
                s)
      by_world false b d = record {
        result = refl;
        written = refl;
        same_pushes = refl;
        same_contacts = refl;
      }
      by_world true false d = record {
        result = refl;
        written = refl;
        same_pushes = refl;
        same_contacts = refl;
      }
      by_world true true false = record {
        result = refl;
        written = refl;
        same_pushes = refl;
        same_contacts = refl;
      }
      by_world true true true = record {
        result = refl;
        written = refl;
        same_pushes = refl;
        same_contacts = refl;
      }

  -- Behind the endpoint.
  abbrev push_to : String → Action Notification (Unit {0})
  push_to arn =
      publish_push w (record { endpoint = arn; notification_type = t; payload = p })
      >> record_sent w user t push

  module _ (c : ContactPreference) (s : Notification)
      (there : lookup user s.contacts ≡ some c) where
    endpoint_result :
        (endpoint_of w user c c.push_endpoint_arn s).0
        ≡ (elim (chosen_endpoint w c) [ none ↦ err internal | some arn ↦ ok arn ])
    unfolding endpoint_of ensure_push_endpoint set_push_endpoint_arn
    endpoint_result = ground arith

    endpoint_emails : (endpoint_of w user c c.push_endpoint_arn s).1.emails ≡ s.emails
    unfolding endpoint_of ensure_push_endpoint set_push_endpoint_arn
    endpoint_emails = ground arith

    endpoint_pushes : (endpoint_of w user c c.push_endpoint_arn s).1.pushes ≡ s.pushes
    unfolding endpoint_of ensure_push_endpoint set_push_endpoint_arn
    endpoint_pushes = ground arith

  abbrev finish : Result String × Notification → Result DispatchResult × Notification
  finish (r, s) =
      let (out, s') = elim r as (λ _. Result (Unit {0}) × Notification) [
        | ok arn ↦ push_to arn s
        | err e ↦ (err e, s)
      ] in
      (ok (record { channel = push; success = is_ok out }), s')

  published-IsPushed :
      (arn : String) (s : Notification) → IsPushed w t p (some arn) s (finish (ok arn, s))
  unfolding record_sent
  published-IsPushed arn s = by_world w.sns w.push_logged w.push_announced
    where
      by_world :
          (sns push_logged push_announced : Bool)
          → (let v = record w {
            sns = sns;
            push_logged = push_logged;
            push_announced = push_announced;
          } in
              let step =
                (publish_push v (record { endpoint = arn; notification_type = t; payload = p })
                    >> record_sent v user t push)
                  s in
              IsPushed v t p
                (some arn)
                s
                (ok (record { channel = push; success = is_ok step.0 }), step.1))
      by_world false b d = record { result = refl; same_emails = refl; written = refl }
      by_world true false d = record { result = refl; same_emails = refl; written = refl }
      by_world true true false = record { result = refl; same_emails = refl; written = refl }
      by_world true true true = record { result = refl; same_emails = refl; written = refl }

  finish-IsPushed :
      (o : Option String) (r : Result String × Notification)
      → r.0 ≡ (elim o [ none ↦ err internal | some arn ↦ ok arn ])
      → IsPushed w t p o r.1 (finish r)
  finish-IsPushed none (ok arn, s) e = absurd (ground arith)
  finish-IsPushed none (err x, s) e = record { result = refl; same_emails = refl; written = refl }
  finish-IsPushed (some a) (ok arn, s) e =
      subst (λ x. IsPushed w t p (some x) s (finish (ok arn, s))) (ground arith)
        (published-IsPushed arn s)
  finish-IsPushed (some a) (err x, s) e = absurd (ground arith)

  dispatch_push-IsPushed :
      (c : ContactPreference) (s : Notification)
      → lookup user s.contacts ≡ some c
      → IsPushed w t p (chosen_endpoint w c) s (dispatch_push w user t p c s)
  unfolding dispatch_push
  dispatch_push-IsPushed c s there =
      let i =
        finish-IsPushed (chosen_endpoint w c) (endpoint_of w user c c.push_endpoint_arn s)
          (endpoint_result c s there) in
      record {
        result = i.result;
        same_emails = i.same_emails ∙ endpoint_emails c s there;
        written =
            subst
              (λ xs.
                (dispatch_push w user t p c s).1.pushes
                ≡ (elim (chosen_endpoint w c) as (λ _. List Push) [
                  | none ↦ xs
                  | some arn ↦
                      if w.sns
                      then record { endpoint = arn; notification_type = t; payload = p } ∷ xs
                      else xs
                ]))
              (endpoint_pushes c s there) i.written;
      }

  -- A step with a known result goes on with it.
  after :
      {A B : Type 0} (m : Action Notification A) (f : A → Action Notification B) (s : Notification)
      (a : A)
      → (m s).0 ≡ ok a
      → (m >>= f) s ≡ f a (m s).1
  after m f s a e = bind_ok m f s a (m s).1 (ap (λ x. (x, (m s).1)) e)

  email_part-after :
      (o : Option String) (s : Notification)
      → (email_part w user t p o s) ≡ (
        ok (elim o as (λ _. List DispatchResult) [
          | none ↦ []
          | some to ↦
              record { channel = email; success = w.ses && (w.email_logged && w.email_announced) }
              ∷ []
        ]),
        (email_part w user t p o s).1,
      )
  unfolding email_part
  email_part-after none s = refl
  email_part-after (some to) s =
      let e =
        after (dispatch_email w user t p to) (λ r. pure (r ∷ [])) s _
          (dispatch_email-IsEmailed to s).result in
      e
      ∙ ap
          (λ x. (
            ok (
                record { channel = email; success = w.ses && (w.email_logged && w.email_announced) }
                ∷ []),
            x.1,
          ))
          (sym e)

  email_part_state :
      (o : Option String) (s : Notification)
      → ((email_part w user t p o s).1.emails ≡ (elim o as (λ _. List Email) [
        | none ↦ s.emails
        | some to ↦
            if w.ses
            then record { to = to; subject = subject_for t; text = body_for t p } ∷ s.emails
            else s.emails
      ]))
        × ((email_part w user t p o s).1.pushes ≡ s.pushes)
        × ((email_part w user t p o s).1.contacts ≡ s.contacts)
  unfolding email_part
  email_part_state none s = (refl, refl, refl)
  email_part_state (some to) s =
      let i = dispatch_email-IsEmailed to s in
      let e = after (dispatch_email w user t p to) (λ r. pure (r ∷ [])) s _ i.result in
      (
        ap (λ x. x.1.emails) e ∙ i.written,
        ap (λ x. x.1.pushes) e ∙ i.same_pushes,
        ap (λ x. x.1.contacts) e ∙ i.same_contacts,
      )

  push_part-after :
      (c : ContactPreference) (o : Option String) (s : Notification)
      → lookup user s.contacts ≡ some c
      → ((push_part w user t p c o s).0
          ≡ ok (elim o as (λ _. List DispatchResult) [
            | none ↦ []
            | some token ↦
                record {
                  channel = push;
                  success = elim (chosen_endpoint w c) [
                    | none ↦ false
                    | some arn ↦ w.sns && (w.push_logged && w.push_announced)
                  ];
                }
                ∷ []
          ]))
        × ((push_part w user t p c o s).1.emails ≡ s.emails)
        × ((push_part w user t p c o s).1.pushes ≡ (elim o as (λ _. List Push) [
          | none ↦ s.pushes
          | some token ↦ elim (chosen_endpoint w c) [
            | none ↦ s.pushes
            | some arn ↦
                if w.sns
                then record { endpoint = arn; notification_type = t; payload = p } ∷ s.pushes
                else s.pushes
          ]
        ]))
  unfolding push_part
  push_part-after c none s there = (refl, refl, refl)
  push_part-after c (some token) s there =
      let i = dispatch_push-IsPushed c s there in
      let e = after (dispatch_push w user t p c) (λ r. pure (r ∷ [])) s _ i.result in
      (ap (λ x. x.0) e, ap (λ x. x.1.emails) e ∙ i.same_emails, ap (λ x. x.1.pushes) e ∙ i.written)

  abbrev parts :
      ContactPreference
      → Option String
      → Option String
      → Notification
      → Result (List DispatchResult) × Notification
  parts c o q = email_part w user t p o >>= λ a. push_part w user t p c q >>= λ b. pure (a ++ b)

  reachable-wanted :
      (address : Option String) (out : Bool) → reachable address out ≡ wanted address out
  reachable-wanted address out = ground arith

  fan_out-parts :
      (c : ContactPreference) (s : Notification)
      → fan_out w user t p (some c) s
        ≡ parts c (wanted c.email c.email_opt_out) (wanted c.push_token c.push_opt_out) s
  unfolding fan_out
  fan_out-parts c s =
      ap (λ o. parts c o (reachable c.push_token c.push_opt_out) s)
        (reachable-wanted c.email c.email_opt_out)
      ∙ ap (λ q. parts c (wanted c.email c.email_opt_out) q s)
          (reachable-wanted c.push_token c.push_opt_out)

  pub fan_out-IsFannedOut :
      (c : ContactPreference) (s : Notification)
      → lookup user s.contacts ≡ some c
      → IsFannedOut w t p c s (fan_out w user t p (some c) s)
  fan_out-IsFannedOut c s there =
      let o = wanted c.email c.email_opt_out in
      let s1 = (email_part w user t p o s).1 in
      let (mails, no_push, same) = email_part_state o s in
      let (results, no_mail, pushes) =
        push_part-after c (wanted c.push_token c.push_opt_out) s1 (ap (lookup user) same ∙ there) in
      let first =
        after (email_part w user t p o)
          (λ a. push_part w user t p c (wanted c.push_token c.push_opt_out) >>= λ b. pure (a ++ b))
          s _ (ap (λ x. x.0) (email_part-after o s)) in
      let second =
        after (push_part w user t p c (wanted c.push_token c.push_opt_out))
          (λ b. pure (email_results w c ++ b)) s1 (push_results w c) results in
      let whole = fan_out-parts c s ∙ first ∙ second in
      record {
        results = ap (λ x. x.0) whole;
        emails = ap (λ x. x.1.emails) whole ∙ no_mail ∙ mails;
        pushes = ap (λ x. x.1.pushes) whole ∙ pushes ∙ ap (expected_pushes w t p c) no_push;
      }
