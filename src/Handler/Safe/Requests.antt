-- ===== src/Handler/Safe/Requests.antt =====
-- MessageHandler.cpp, `handleMessage`: its handlers together.
use mathlib.Core.Path.{subst}
use sea_battle.Base.{
  ◌≡◌, sym, inl, inr, String, ◌==◌, Option, none, some, Option-cases, number_key, string_key,
}
use sea_battle.Types.{SessionRef}
use sea_battle.Players.{Player}
use sea_battle.Game.Manager.{Manager, get_game_by_player}
use sea_battle.Lobby.{remove_from_queue}
use sea_battle.Protocol.Payload.{JsonLibrary, ParseResult}
use sea_battle.Handler.{World, Context, games_of, session_player, send, send_error}
use sea_battle.Handler.Account.{
  handle_get_players, handle_add_friend, handle_remove_friend, handle_get_friends, handle_get_stats,
}
use sea_battle.Handler.Meeting.{handle_cancel_search, handle_invite, handle_invite_response}
use sea_battle.Handler.Playing.{handle_spectate, handle_place_ships, handle_shoot, handle_surrender}
use sea_battle.Handler.Dispatch.{dispatch, dispatch_as, handle_parsed}
use sea_battle.Handler.Server.{IsFresh}
use sea_battle.Handler.Safe.Games.{IsSafe, get_game_by_player_lem}
use sea_battle.Handler.Safe.Endings.{Fine, if-Fine}
use sea_battle.Handler.Safe.Accounts.{
  befriend-SameGames, unfriend-SameGames, show_stats-SameGames, invite_target-SameGames,
  handle_auth-SameGames,
}
use sea_battle.Handler.Safe.Meetings.{find_game-IsSafe, respond-IsSafe}
use sea_battle.Handler.Safe.Fights.{
  Found, watch_named-Fine, place_found-Fine, shoot_found-Fine, surrender_found-Fine,
}

same-IsSafe : {m m' : Manager} → m' ≡ m → IsSafe m → IsSafe m'
same-IsSafe same v = subst IsSafe (sym same) v

module _ (c : Context) {Json : Type 0} (lib : JsonLibrary Json) where
  pub game-Found :
      (w : World) (p : Player)
      → IsSafe (games_of w)
      → Found c w p (get_game_by_player (games_of w) p.guid)
  game-Found w p v = elim (Option-cases (get_game_by_player (games_of w) p.guid)) [
    | inl nowhere ↦ rw nowhere tt
    | inr (g, e) ↦ rw e (get_game_by_player_lem (games_of w) p.guid g v e)
  ]

  dispatch-Fine :
      (w : World) (s : SessionRef) (p : Player) (action : String) (payload : Json)
      → IsSafe (games_of w)
      → IsFresh c w
      → Fine (dispatch c lib w s p action payload)
  unfolding dispatch handle_get_players handle_add_friend handle_remove_friend handle_get_friends
      handle_get_stats handle_cancel_search handle_invite handle_invite_response handle_spectate
      handle_place_ships handle_shoot handle_surrender send send_error remove_from_queue
  dispatch-Fine w s p action payload v fresh =
      let game = game-Found w p v in
      if-Fine (action == "get_players") _ _ v (
        if-Fine (action == "add_friend") _ _ (same-IsSafe (befriend-SameGames c w s p _) v) (
          if-Fine (action == "remove_friend") _ _ (same-IsSafe (unfriend-SameGames c w s p _) v) (
            if-Fine (action == "get_friends") _ _ v (
              if-Fine (action == "get_stats") _ _ (same-IsSafe (show_stats-SameGames c w s _) v) (
                if-Fine (action == "find_game") _ _ (find_game-IsSafe c w s p v fresh) (
                  if-Fine (action == "cancel_search") _ _ v (
                    if-Fine (action == "invite") _ _
                      (same-IsSafe (invite_target-SameGames c w s p _) v)
                      (if-Fine (action == "invite_response") _ _
                        (respond-IsSafe c w s p _ _ v fresh)
                        (if-Fine (action == "spectate") _ _ (watch_named-Fine c w s p _ v) (
                          if-Fine (action == "place_ships") _ _
                            (place_found-Fine c lib w s p payload _ v game)
                            (if-Fine (action == "shoot") _ _
                              (shoot_found-Fine c lib w s p payload _ v game)
                              (if-Fine (action == "surrender") _ _
                                (surrender_found-Fine c w s p _ v game) v))))))))))))

  dispatch_as-Fine :
      (w : World) (s : SessionRef) (p : Option Player) (action : String) (payload : Json)
      → IsSafe (games_of w)
      → IsFresh c w
      → Fine (dispatch_as c lib w s p action payload)
  unfolding send send_error
  dispatch_as-Fine w s none action payload v fresh = v
  dispatch_as-Fine w s (some p) action payload v fresh = dispatch-Fine w s p action payload v fresh

  pub handle_parsed-Fine :
      (w : World) (s : SessionRef) (r : ParseResult Json)
      → IsSafe (games_of w)
      → IsFresh c w
      → Fine (handle_parsed c lib w s r)
  unfolding send
  handle_parsed-Fine w s (ParseResult.failed e) v fresh = v
  handle_parsed-Fine w s (ParseResult.parsed m) v fresh =
      if-Fine (m.action == "auth") _ _ (same-IsSafe (handle_auth-SameGames c lib w s m.payload) v)
        (dispatch_as-Fine w s (session_player w s) m.action m.payload v fresh)
