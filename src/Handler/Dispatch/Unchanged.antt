-- ===== src/Handler/Dispatch/Unchanged.antt =====
-- MessageHandler.cpp: what the requests do to the table of sessions and the players of sessions.
mod Meetings
mod Fights
pub use sea_battle.Handler.Dispatch.Unchanged.Meetings.{Keeps, KeepsAll}
use sea_battle.Handler.Dispatch.Unchanged.Meetings.{
  befriend-Keeps, unfriend-Keeps, show_stats-Keeps, invite_target-Keeps, respond-Keeps,
  find_game-Keeps,
}
use sea_battle.Handler.Dispatch.Unchanged.Fights.{
  watch_named-Keeps, surrender_found-Keeps, place_found-Keeps, shoot_found-Keeps,
}
use sea_battle.Base.{
  ℕ, zero, suc, ◌≡◌, refl, inl, inr, Bool, true, false, List, String, ◌==◌, Option, none, some,
  if◌then◌else◌, arith, Bool-cases, Option-cases, ok, throw, Throws, ◌>>=◌, ◌||◌, number_key, ℤ,
}
use sea_battle.Types.{SessionRef}
use sea_battle.Players.{Player}
use sea_battle.Game.Match.{
  Game, is_finished, place_ships, shoot_at, get_board_full_state, get_board_fog_of_war,
}
use sea_battle.Lobby.{try_match_players}
use sea_battle.Protocol.Payload.{JsonLibrary}
use sea_battle.Handler.{World, Context, send, send_error, send_to_player, broadcast_message}
use sea_battle.Handler.Account.{
  handle_get_players, handle_add_friend, handle_remove_friend, handle_get_friends, handle_get_stats,
  befriend, unfriend, show_stats,
}
use sea_battle.Handler.Meeting.{
  notify_game_start, check_matchmaking, handle_find_game, handle_cancel_search, handle_invite,
  handle_invite_response, invite_target, respond, invite_found, start_invited, respond_to,
  is_player_online,
}
use sea_battle.Handler.Ending.{notify_game_over, settle}
use sea_battle.Types.{ShipPlacement, ShotResultInfo}
use sea_battle.Players.Friends.{is_friend}
use sea_battle.Game.Match.{add_spectator, is_placing, is_battle, is_player_turn}
use sea_battle.Handler.Meeting.{is_in_game_status}
use sea_battle.Handler.Playing.{ships_placed, place_read, shot_taken, is_carried_out, shoot_read}
use sea_battle.Handler.Ending.Settled.{hall_after}
use sea_battle.Lobby.{Hall}
use sea_battle.Lobby.Invites.{GameInvite}
use sea_battle.Players.Directory.{get_player}
use sea_battle.Handler.{players_of}
use sea_battle.Handler.Playing.{
  handle_spectate, handle_place_ships, handle_shoot, handle_surrender, watch_named, watch_found,
  place_found, shoot_found, surrender_found, notify_battle_start, report_shot,
}
use sea_battle.Handler.Dispatch.{dispatch}

module _ (c : Context) {Json : Type 0} (lib : JsonLibrary Json) where
  if-KeepsAll :
      (w : World) (b : Bool) (t u : Throws World)
      → KeepsAll w t
      → KeepsAll w u
      → KeepsAll w (if b then t else u)
  if-KeepsAll w true t u h k = h
  if-KeepsAll w false t u h k = k

  pub dispatch-Keeps :
      (w : World) (s : SessionRef) (p : Player) (action : String) (payload : Json)
      → KeepsAll w (dispatch c lib w s p action payload)
  unfolding dispatch handle_get_players handle_add_friend handle_remove_friend handle_get_friends
      handle_get_stats handle_cancel_search handle_invite handle_invite_response handle_spectate
      handle_place_ships handle_shoot handle_surrender send send_error
  dispatch-Keeps w s p action payload =
      if-KeepsAll w (action == "get_players") _ _ (refl, refl)
        (if-KeepsAll w (action == "add_friend") _ _ (befriend-Keeps c w s p _) (
          if-KeepsAll w (action == "remove_friend") _ _ (unfriend-Keeps c w s p _) (
            if-KeepsAll w (action == "get_friends") _ _ (refl, refl)
              (if-KeepsAll w (action == "get_stats") _ _ (show_stats-Keeps c w s _) (
                if-KeepsAll w (action == "find_game") _ _ (find_game-Keeps c w s p) (
                  if-KeepsAll w (action == "cancel_search") _ _ (refl, refl)
                    (if-KeepsAll w (action == "invite") _ _ (invite_target-Keeps c w s p _) (
                      if-KeepsAll w (action == "invite_response") _ _ (respond-Keeps c w s p _ _) (
                        if-KeepsAll w (action == "spectate") _ _ (watch_named-Keeps c w s p _) (
                          if-KeepsAll w (action == "place_ships") _ _
                            (place_found-Keeps c lib w s p payload _)
                            (if-KeepsAll w (action == "shoot") _ _
                              (shoot_found-Keeps c lib w s p payload _)
                              (if-KeepsAll w (action == "surrender") _ _
                                (surrender_found-Keeps c w s p _) (refl, refl)))))))))))))
