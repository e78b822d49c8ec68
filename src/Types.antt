-- ===== src/Types.antt =====
-- common/include/Types.hpp: the shared enumerations, records and constants.
use sea_battle.Base.{ℕ, ◌+◌, ◌*◌, String, Option, List, Bool, ℤ, pos, Cell}

pub data CellState : Type 0 where
  empty ship hit miss : CellState

pub data ShotResult : Type 0 where
  miss hit kill already_shot invalid_coordinates : ShotResult

pub data GameState : Type 0 where
  placing battle finished : GameState

pub data PlayerStatus : Type 0 where
  offline online in_game : PlayerStatus

pub record ShipPlacement : Type 0 where
  pub x : ℤ
  pub y : ℤ
  pub size : ℤ
  pub horizontal : Bool

pub record PlayerInfo : Type 0 where
  pub guid : String
  pub nickname : String
  pub status : PlayerStatus
  pub game_id : Option String

pub record FriendInfo : Type 0 where
  pub guid : String
  pub nickname : String
  pub status : PlayerStatus

pub record CellInfo : Type 0 where
  pub x : ℤ
  pub y : ℤ
  pub state : CellState

pub record ShotResultInfo : Type 0 where
  pub result : ShotResult
  pub x : ℤ
  pub y : ℤ
  pub killed_ship_cells : Option (List Cell)
  pub surrounding_misses : Option (List Cell)
  pub next_turn_guid : String

-- A `weak_ptr<Session>` is the identity of the session object; which of these objects are still
-- alive is an argument of the methods that ask.
abbrev pub SessionRef : Type 0
SessionRef = ℕ

-- GameConfig.
abbrev pub board_size : ℤ
board_size = pos 10

abbrev pub ship_4_count : ℕ
ship_4_count = 1

abbrev pub ship_3_count : ℕ
ship_3_count = 2

abbrev pub ship_2_count : ℕ
ship_2_count = 3

abbrev pub ship_1_count : ℕ
ship_1_count = 4

abbrev pub total_ships : ℕ
total_ships = ship_4_count + ship_3_count + ship_2_count + ship_1_count

abbrev pub total_ship_cells : ℕ
total_ship_cells = 4 * ship_4_count + 3 * ship_3_count + 2 * ship_2_count + 1 * ship_1_count

-- TimingConfig, in seconds.
abbrev pub placement_timeout : ℕ
placement_timeout = 90

abbrev pub turn_timeout : ℕ
turn_timeout = 30

abbrev pub invite_timeout : ℕ
invite_timeout = 30

abbrev pub reconnect_timeout : ℕ
reconnect_timeout = 10

-- Equality of the enumerations.
pub PlayerStatus_discrete : Discrete PlayerStatus
PlayerStatus_discrete = hlevel
