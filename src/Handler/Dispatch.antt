-- ===== src/Handler/Dispatch.antt =====
-- MessageHandler.cpp, `handleMessage`: which handler gets a message.
pub mod Unchanged
pub mod Sessions
use Prim.Native.String
use sea_battle.Base.{
  String, ◌==◌, Option, none, some, if◌then◌else◌, pos, negsuc, Throws, ok, ◌>>=◌,
}
use sea_battle.Types.{SessionRef}
use sea_battle.Players.{Player}
use sea_battle.Protocol.Messages.{Message}
use sea_battle.Protocol.Payload.{JsonLibrary, ParseError, ParseResult, parse_message}
use sea_battle.Handler.{World, Context, session_player, send, send_error}
use sea_battle.Handler.Account.{
  handle_auth, handle_get_players, handle_add_friend, handle_remove_friend, handle_get_friends,
  handle_get_stats,
}
use sea_battle.Handler.Meeting.{
  handle_find_game, handle_cancel_search, handle_invite, handle_invite_response,
}
use sea_battle.Handler.Playing.{handle_spectate, handle_place_ships, handle_shoot, handle_surrender}

-- The texts of the errors of `MessageParser::parse`.
unfoldable pub parse_error_text : ParseError → String
parse_error_text ParseError.invalid_json = "Невалидный JSON"
parse_error_text ParseError.no_type = "Отсутствует поле 'type'"
parse_error_text ParseError.no_action = "Отсутствует поле 'action'"
parse_error_text (ParseError.unknown_type type) = String.◌++◌ "Неизвестный тип сообщения: " type
parse_error_text (ParseError.unknown_action action) = String.◌++◌ "Неизвестное действие: " action

module _ (c : Context) {Json : Type 0} (lib : JsonLibrary Json) where
  unfoldable pub dispatch : World → SessionRef → Player → String → Json → Throws World
  dispatch w s player action payload =
      if action == "get_players"
      then ok (handle_get_players c w s)
      else if action == "add_friend"
      then ok (handle_add_friend c lib w s player payload)
      else if action == "remove_friend"
      then ok (handle_remove_friend c lib w s player payload)
      else if action == "get_friends"
      then ok (handle_get_friends c w s player)
      else if action == "get_stats"
      then ok (handle_get_stats c lib w s player payload)
      else if action == "find_game"
      then ok (handle_find_game c w s player)
      else if action == "cancel_search"
      then ok (handle_cancel_search c w s player)
      else if action == "invite"
      then ok (handle_invite c lib w s player payload)
      else if action == "invite_response"
      then ok (handle_invite_response c lib w s player payload)
      else if action == "spectate"
      then handle_spectate c lib w s player payload
      else if action == "place_ships"
      then handle_place_ships c lib w s player payload
      else if action == "shoot"
      then handle_shoot c lib w s player payload
      else if action == "surrender"
      then handle_surrender c w s player
      else ok (send_error c w s (negsuc 0))

  abbrev pub dispatch_as : World → SessionRef → Option Player → String → Json → Throws World
  dispatch_as w s none action payload = ok (send_error c w s (pos 1002))
  dispatch_as w s (some player) action payload = dispatch w s player action payload

  -- `handleMessage` with what `parse` returned.
  abbrev pub handle_parsed : World → SessionRef → ParseResult Json → Throws World
  handle_parsed w s (ParseResult.failed e) =
      ok (send c w s (Message.error (negsuc 0) (parse_error_text e)))
  handle_parsed w s (ParseResult.parsed m) =
      if m.action == "auth"
      then ok (handle_auth c lib w s m.payload)
      else dispatch_as w s (session_player w s) m.action m.payload

  unfoldable pub handle_message : World → SessionRef → String → Throws World
  handle_message w s raw = do r ← parse_message lib raw; handle_parsed w s r
