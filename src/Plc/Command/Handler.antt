-- ===== src/Plc/Command/Handler.antt =====
-- internal/plugins/plc/plugin.go: `handleCommand`, which decides who may send which command.
-- `publish` is whether the host could publish; the decoded request and the settings are arguments.
use mqttview.Common.{
  ℕ, Bool, true, false, not, ◌&&◌, Option, none, some, List, [], ◌∷◌, Bytes, codes, if◌then◌else◌,
}
use mqttview.Auth.SignIn.{User, at_least}
use mqttview.Plc.Command.{
  CommandRequest, CommandPayload, CommandTier, light, output, Built, built, refused, build_command,
}

pub record Settings : Type 0 where
  pub allow_control : Bool
  pub allow_digital_outputs : Bool

-- What was handed to the host to publish, by its connection, and the status of the response.
pub record Handled : Type 0 where
  pub published : List (Bytes × Bytes)
  pub status : ℕ

abbrev pub declined : ℕ → Handled
declined status = record { published = []; status = status }

abbrev pub drives_output : CommandTier → Bool
drives_output light = false
drives_output output = true

-- The connection of the request, or the only one that there is.
unfoldable pub target_connection : Bytes → List Bytes → Option Bytes
target_connection [] (id ∷ []) = some id
target_connection [] _ = none
target_connection (b ∷ id) connections = some (b ∷ id)

abbrev pub operator : Bytes
operator = codes "operator"

module _ (marshal : CommandPayload → Option Bytes) (publish : Bytes → Bytes → Bool) where
  unfoldable pub send : Bytes → Option Bytes → Handled
  send body none = declined 400
  send body (some id) = record {
    published = (id, body) ∷ [];
    status = if publish id body then 200 else 502;
  }

  unfoldable pub send_built : CommandRequest → Settings → List Bytes → Built → Handled
  unfolding send target_connection
  send_built req settings connections (refused e) = declined 400
  send_built req settings connections (built spec body) =
      if not settings.allow_control
      then declined 403
      else if drives_output spec.tier && not settings.allow_digital_outputs
      then declined 403
      else send body (target_connection req.connection_id connections)

  unfoldable pub handle_command :
      Option User → Option CommandRequest → Settings → List Bytes → Handled
  unfolding send_built build_command
  handle_command none req settings connections = declined 403
  handle_command (some u) none settings connections =
      if not (at_least u.role operator) then declined 403 else declined 400
  handle_command (some u) (some req) settings connections =
      if not (at_least u.role operator)
      then declined 403
      else send_built req settings connections (build_command marshal req)
