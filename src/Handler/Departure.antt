-- ===== src/Handler/Departure.antt =====
-- server/src/network/Server.cpp: what follows when the connection of a session has failed, with the
-- callback of the message handler for a game that ends.
pub mod Left
use sea_battle.Base.{String, Option, none, some, ok, Throws, ◌>>=◌, string_key, number_key, find}
use sea_battle.Types.{SessionRef}
use sea_battle.Players.Directory.{set_player_offline}
use sea_battle.Game.Match.{Game}
use sea_battle.Lobby.{handle_player_disconnect}
use sea_battle.Network.Departure.{end_game_of}
use sea_battle.Network.Registry.{remove_session}
use sea_battle.Handler.{World, Context, with_hall}
use sea_battle.Handler.Ending.{notify_game_over}

module _ (c : Context) where
  abbrev pub tell_end : Option Game → World → Throws World
  tell_end none w = ok w
  tell_end (some g) w = notify_game_over c g w

  unfoldable pub on_player_disconnect : World → String → Throws World
  on_player_disconnect w guid =
      let left = handle_player_disconnect w.hall guid in
      let (ended, game) = end_game_of left guid (find left.games.player_to_game guid) in
      do
        told ← tell_end game (with_hall w ended)
        ok (
            with_hall told
              (record told.hall { players = set_player_offline told.hall.players guid }))

  -- The disconnect callback of the table of sessions, if it is called.
  abbrev pub tell_gone : Option String → World → Throws World
  tell_gone none w = ok w
  tell_gone (some guid) w = on_player_disconnect w guid

  unfoldable pub on_session_error : World → SessionRef → Throws World
  on_session_error w s =
      let (registry, gone) = remove_session (λ s. find w.player_of s) w.registry (c.session_id s) in
      tell_gone gone (record w { registry = registry })
