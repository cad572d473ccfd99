-- ===== src/Witness/Browser.antt =====
-- The results about internal/hub at concrete inputs.
use mqttview.Common.{
  ◌+◌, ◌*◌, ◌≤◌, ◌≡◌, refl, Option, some, [], ◌∷◌, Bytes, codes, pos, length, keep_if, arith,
}
use mqttview.Message.{Message, zero_message}
use mqttview.Hub.{Frame, Command, Client, command, undecodable, connect, read_loop}
use mqttview.Hub.Tokens.{attempts, attempts-le}
use mqttview.Hub.Commands.{IsClient, connected-IsClient}
use mqttview.Hub.Fanout.{offers, wanted_by, offers-accounted}

abbrev encode : Frame → Option Bytes
encode _ = some (codes "{}")

abbrev watch_home : Command
watch_home = record {
  type = codes "watch";
  connection_id = codes "c1";
  filter = codes "home/#";
  max_rate = pos 2;
}

abbrev fresh : Client
fresh = record { send = []; watch = []; rate = 2; dropped = 0; tokens = 2; window_start = 10 }

abbrev watching : Client
watching = record fresh { watch = (codes "c1", codes "home/#") ∷ [] }

attempts-le_example : (attempts (10 ∷ 1_000_000_010 ∷ []) fresh).0 ≤ 2 + 1 * 2
attempts-le_example = attempts-le 1 fresh (10 ∷ 1_000_000_010 ∷ []) (omega arith)

connected-IsClient_example :
    IsClient (read_loop encode (undecodable ∷ command watch_home ∷ []) (connect encode 10))
connected-IsClient_example = connected-IsClient encode 10 (undecodable ∷ command watch_home ∷ [])

abbrev hall : Message
hall = record zero_message { connection_id = codes "c1"; topic = codes "home/hall" }

encodes : (m : Message) → (raw : Bytes) × (encode (Frame.message m) ≡ some raw)
encodes m = (codes "{}", refl)

offers-accounted_example :
    length (offers encode ((10, hall) ∷ (11, hall) ∷ (12, hall) ∷ []) watching).send
      + (offers encode ((10, hall) ∷ (11, hall) ∷ (12, hall) ∷ []) watching).dropped
    ≡ 0 + 0 + length (keep_if (wanted_by watching) ((10, hall) ∷ (11, hall) ∷ (12, hall) ∷ []))
offers-accounted_example =
    offers-accounted encode encodes ((10, hall) ∷ (11, hall) ∷ (12, hall) ∷ []) watching
      (omega arith)
