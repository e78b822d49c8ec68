-- ===== src/Handler.antt =====
-- server/src/network/MessageHandler.cpp: what the server does with a message of a client. The state is
-- all that the handler reaches through the server: the lobby with its games and players, the table of
-- sessions, the player of each session, and the messages sent. The handlers run one after the other.
pub mod Account
pub mod Meeting
pub mod Ending
pub mod Playing
pub mod Dispatch
pub mod Departure
pub mod Server
pub mod Safe
pub mod Results
use Prim.Native.Char.{code}
use Prim.Native.String.{[] as end_of_text, ◌∷◌ as with_char}
use sea_battle.Base.{
  ℕ, Bool, true, false, List, [], ◌∷◌, ◌++◌, String, ◌==◌, Option, none, some, if◌then◌else◌, ℤ,
  pos, negsuc, number_key, string_key, find, assign,
}
use sea_battle.Types.{SessionRef}
use sea_battle.Players.{Player}
use sea_battle.Players.Directory.{Directory, get_player, update}
use sea_battle.Game.Nickname.Utf8.{encode}
use sea_battle.Game.Match.{Game}
use sea_battle.Game.Manager.{Manager}
use sea_battle.Lobby.{Hall}
use sea_battle.Network.Registry.{Registry, get_session_by_player_guid, broadcast, broadcast_except}
use sea_battle.Protocol.Messages.{Message}
use sea_battle.Protocol.Codes.{error_message}

-- `player_of` is `player_` of each session; `sent` has the latest message first.
pub record World : Type 0 where
  pub hall : Hall
  pub registry : Registry
  pub player_of : List (SessionRef × String)
  pub sent : List (SessionRef × Message)

-- What a handler meets from outside: which sessions are open and which are alive, their numbers, the
-- clock, and the identifiers and draws that it gets, in their order.
pub record Context : Type 0 where
  pub is_open : SessionRef → Bool
  pub alive : SessionRef → Bool
  pub session_id : SessionRef → ℕ
  pub second : ℕ
  pub now : ℕ
  pub fresh : ℕ → String
  pub heads : ℕ → Bool

abbrev pub players_of : World → Directory
players_of w = w.hall.players

abbrev pub games_of : World → Manager
games_of w = w.hall.games

abbrev pub with_hall : World → Hall → World
with_hall w hall = record w { hall = hall }

-- A call through the pointer to a player.
abbrev pub on_player : (Player → Player) → String → World → World
on_player f guid w = with_hall w (record w.hall { players = update f w.hall.players guid })

-- The state after calls through the pointer to a game, which is stored under its own identifier.
abbrev pub set_game : World → Game → World
set_game w g =
    with_hall w
      (record w.hall { games = record w.hall.games { games = assign w.hall.games.games g.id g } })

abbrev pub player_named : Directory → Option String → Option Player
player_named d none = none
player_named d (some guid) = get_player d guid

-- `session->getPlayer()`.
unfoldable pub session_player : World → SessionRef → Option Player
session_player w s = player_named w.hall.players (find w.player_of s)

abbrev pub error_text : ℤ → String
error_text (pos code) = error_message code
error_text (negsuc n) = "Неизвестная ошибка"

abbrev pub post_all :
    List SessionRef → Message → List (SessionRef × Message) → List (SessionRef × Message)
post_all [] m sent = sent
post_all (s ∷ sessions) m sent = post_all sessions m ((s, m) ∷ sent)

module _ (c : Context) where
  -- `session->send`, which does nothing on a session that is closed.
  unfoldable pub send : World → SessionRef → Message → World
  send w s m = record w { sent = if c.is_open s then (s, m) ∷ w.sent else w.sent }

  unfoldable pub send_error : World → SessionRef → ℤ → World
  send_error w s code = send w s (Message.error code (error_text code))

  abbrev pub post_found :
      Option SessionRef → Message → List (SessionRef × Message) → List (SessionRef × Message)
  post_found none m sent = sent
  post_found (some s) m sent = if c.is_open s then (s, m) ∷ sent else sent

  unfoldable pub send_to_player : String → Message → World → World
  send_to_player guid m w = record w {
    sent = post_found (get_session_by_player_guid w.registry guid) m w.sent;
  }

  unfoldable pub broadcast_message : Message → World → World
  broadcast_message m w = record w {
    sent = post_all (broadcast c.is_open w.registry.sessions) m w.sent;
  }

  -- A broadcast under a condition.
  unfoldable pub broadcast_if : Bool → Message → World → World
  broadcast_if b m w = record w { sent = if b then (broadcast_message m w).sent else w.sent }

  unfoldable pub broadcast_message_except : Message → ℕ → World → World
  broadcast_message_except m id w = record w {
    sent = post_all (broadcast_except c.is_open w.registry.sessions id) m w.sent;
  }

-- The bytes of a text: what the JSON library hands on is in UTF-8.
unfoldable pub bytes : String → List ℕ
bytes end_of_text = []
bytes (with_char c s) = encode (code c) ++ bytes s

-- A text that is there and not empty.
abbrev pub given : Option String → Option String
given none = none
given (some s) = if s == "" then none else some s

abbrev pub or_given : Option String → Option String → Option String
or_given (some s) other = some s
or_given none other = given other

-- A text under one of two keys: the second counts when under the first there is none or an empty one.
abbrev pub first_given : Option String → Option String → Option String
first_given first second = or_given (given first) second
