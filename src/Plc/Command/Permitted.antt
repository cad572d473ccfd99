-- ===== src/Plc/Command/Permitted.antt =====
-- Who may send what to the PLC.
use mqttview.Common.{
  ◌≡◌, refl, sym, ap, ap₂, ◌∙◌, subst, inl, inr, Bool, true, false, not, ◌&&◌, Option, none, some,
  List, [], ◌∷◌, Bytes, if◌then◌else◌, Bool-cases, arith,
}
use mqttview.Auth.SignIn.{User, at_least}
use mqttview.Plc.Command.{
  CommandRequest, CommandSpec, CommandTier, output, CommandPayload, Built, built, refused,
  build_command,
}
use mqttview.Plc.Command.Handler.{
  Settings, Handled, declined, drives_output, target_connection, operator, send, send_built,
  handle_command,
}
use mqttview.Plc.Command.Allowed.{IsAllowed, build_command-IsAllowed}

passed_guard :
    (b : Bool) (h : Handled) (x : Bytes × Bytes)
    → (if not b then declined 403 else h).published ≡ x ∷ []
    → (b ≡ true) × (h.published ≡ x ∷ [])
passed_guard true h x e = (refl, e)
passed_guard false h x e = absurd (ground arith)

passed_guards :
    (c g : Bool) (h : Handled) (x : Bytes × Bytes)
    → (if not c then declined 403 else if g then declined 403 else h).published ≡ x ∷ []
    → (c ≡ true) × (g ≡ false) × (h.published ≡ x ∷ [])
passed_guards true false h x e = (refl, refl, e)
passed_guards true true h x e = absurd (ground arith)
passed_guards false g h x e = absurd (ground arith)

refused_role :
    {x : Bytes × Bytes} (b : Bool)
    → (if not b then declined 403 else declined 400).published ≡ x ∷ []
    → ⊥
refused_role true e = ground arith
refused_role false e = ground arith

consented :
    (t : CommandTier) (allow : Bool)
    → (drives_output t && not allow) ≡ false
    → t ≡ output
    → allow ≡ true
consented t allow guard e = elim (Bool-cases allow) [
  | inl y ↦ y
  | inr n ↦
      let both : (drives_output output && not false) ≡ false =
        ap₂ (λ k a. drives_output k && not a) (sym e) (sym n) ∙ guard in
      absurd (ground arith)
]

module _ (marshal : CommandPayload → Option Bytes) where
  -- What has to hold for a body to be handed to the host.
  pub record IsPermitted (u : User) (settings : Settings) (body : Bytes) : Type 0 where
    pub role : at_least u.role operator ≡ true
    pub control : settings.allow_control ≡ true
    pub spec : CommandSpec
    pub payload : CommandPayload
    pub allowed : IsAllowed spec payload
    pub coded : marshal payload ≡ some body
    pub consent : spec.tier ≡ output → settings.allow_digital_outputs ≡ true

  module _ (publish : Bytes → Bytes → Bool) where
    send-published :
        (body id b : Bytes) (o : Option Bytes)
        → (send marshal publish body o).published ≡ (id, b) ∷ []
        → body ≡ b
    unfolding send
    send-published body id b none e = absurd (ground arith)
    send-published body id b (some i) e = cc

    send_built-IsPermitted :
        (u : User) (req : CommandRequest) (settings : Settings) (connections : List Bytes)
        (r : Built) (id b : Bytes)
        → at_least u.role operator ≡ true
        → build_command marshal req ≡ r
        → (send_built marshal publish req settings connections r).published ≡ (id, b) ∷ []
        → IsPermitted u settings b
    unfolding send_built
    send_built-IsPermitted u req settings connections (refused err) id b role r e =
        absurd (ground arith)
    send_built-IsPermitted u req settings connections (built spec body) id b role r e =
        let guard = drives_output spec.tier && not settings.allow_digital_outputs in
        let (control, unguarded, sent) =
          passed_guards settings.allow_control guard
            (send marshal publish body (target_connection req.connection_id connections)) (id, b)
            e in
        let same =
          send-published body id b (target_connection req.connection_id connections) sent in
        let (p, allowed, coded) = build_command-IsAllowed marshal req spec body r in
        record {
          role = role;
          control = control;
          spec = spec;
          payload = p;
          allowed = allowed;
          coded = coded ∙ ap some same;
          consent = λ out. consented spec.tier settings.allow_digital_outputs unguarded out;
        }

    -- What reaches the host is a command of the catalogue, from a user who is an operator at least,
    -- with control switched on, and for an output with outputs switched on as well; whatever the
    -- request, the connections and the host's answer are.
    pub published-IsPermitted :
        (user : Option User) (req : Option CommandRequest) (settings : Settings)
        (connections : List Bytes) (id body : Bytes)
        → (handle_command marshal publish user req settings connections).published ≡ (id, body) ∷ []
        → (u : User) × (user ≡ some u) × IsPermitted u settings body
    unfolding handle_command
    published-IsPermitted none req settings connections id body e = absurd (ground arith)
    published-IsPermitted (some u) none settings connections id body e =
        elim (Bool-cases (at_least u.role operator)) [
          | inl y ↦ absurd (
              refused_role true (
                subst
                  (λ r. (if not r then declined 403 else declined 400).published ≡ (id, body) ∷ [])
                  y e))
          | inr n ↦ absurd (
              refused_role false (
                subst
                  (λ r. (if not r then declined 403 else declined 400).published ≡ (id, body) ∷ [])
                  n e))
        ]
    published-IsPermitted (some u) (some req) settings connections id body e =
        let (role, sent) =
          passed_guard (at_least u.role operator)
            (send_built marshal publish req settings connections (build_command marshal req))
            (id, body) e in
        (
          u,
          refl,
          send_built-IsPermitted u req settings connections (build_command marshal req) id body role
              refl sent,
        )
