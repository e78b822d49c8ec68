-- ===== src/Protocol/Builder/Values.antt =====
-- MessageBuilder.cpp: how JSON values are made, the texts of enumerations, and the envelope of a message.
use sea_battle.Base.{
  ℕ, Bool, List, [], ◌∷◌, map, String, Option, none, some, if◌then◌else◌, ℤ, Cell,
}
use sea_battle.Types.{PlayerStatus, ShotResult, CellInfo, CellState}
use sea_battle.Protocol.Payload.{JsonLibrary}

-- How values are made. `set` is `json[key] = value` on an object or on null, which becomes an object.
pub record JsonWriter (Json Double : Type 0) : Type 0 where
  pub null : Json
  pub object : Json
  pub array : List Json → Json
  pub set : Json → String → Json → Json
  pub of_string : String → Json
  pub of_int : ℤ → Json
  pub of_bool : Bool → Json
  pub of_double : Double → Json
  pub no_percent : Double
  pub percent : ℕ → ℕ → Double

unfoldable pub shot_result_to_string : ShotResult → String
shot_result_to_string ShotResult.miss = "miss"
shot_result_to_string ShotResult.hit = "hit"
shot_result_to_string ShotResult.kill = "kill"
shot_result_to_string ShotResult.already_shot = "already_shot"
shot_result_to_string ShotResult.invalid_coordinates = "invalid"

unfoldable pub player_status_to_string : PlayerStatus → String
player_status_to_string PlayerStatus.offline = "offline"
player_status_to_string PlayerStatus.online = "online"
player_status_to_string PlayerStatus.in_game = "in_game"

-- The `switch` of `cellInfoToJson`.
unfoldable pub cell_state_to_string : CellState → String
cell_state_to_string CellState.empty = "empty"
cell_state_to_string CellState.ship = "ship"
cell_state_to_string CellState.hit = "hit"
cell_state_to_string CellState.miss = "miss"

module _ {Json Double : Type 0} (lib : JsonLibrary Json) (w : JsonWriter Json Double) where
  -- `json[key]`, where a key that is not there comes to stand for null.
  unfoldable pub entry : Json → String → Json
  entry json key = if lib.has json key then lib.at json key else w.null

  -- `json[k1]...[kn] = value`.
  unfoldable pub set_at : Json → List String → Json → Json
  set_at json [] value = value
  set_at json (key ∷ path) value = w.set json key (set_at (entry json key) path value)

  -- `msg["payload"][key] = value`.
  abbrev pub put : String → Json → Json → Json
  put key value msg = set_at msg ("payload" ∷ key ∷ []) value

  unfoldable pub create_base : String → String → Json
  create_base type action =
      w.set (w.set (w.set w.null "type" (w.of_string type)) "action" (w.of_string action)) "payload"
        w.object

  unfoldable pub cell_info_to_json : CellInfo → Json
  cell_info_to_json cell =
      w.array
        (w.of_int cell.x ∷ w.of_int cell.y ∷ w.of_string (cell_state_to_string cell.state) ∷ [])

  unfoldable pub cells_to_json_array : List CellInfo → Json
  cells_to_json_array cells = w.array (map cell_info_to_json cells)

  unfoldable pub coords_to_json_array : List Cell → Json
  coords_to_json_array coords =
      w.array (map (λ (x, y). w.array (w.of_int x ∷ w.of_int y ∷ [])) coords)

  -- An assignment under `if (value.has_value())`.
  abbrev pub set_if : {A : Type 0} → List String → (A → Json) → Option A → Json → Json
  set_if path write none json = json
  set_if path write (some a) json = set_at json path (write a)
