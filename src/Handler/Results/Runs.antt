-- ===== src/Handler/Results/Runs.antt =====
-- MessageHandler.cpp and Server.cpp: the results of games under any sequence of events.
use sea_battle.Base.{◌≡◌, true, String, ◌==◌, Option, none, some, number_key, string_key}
use mathlib.Core.Path.{subst}
use sea_battle.Types.{SessionRef}
use sea_battle.Players.{Player}
use sea_battle.Game.Match.{Game, is_finished}
use sea_battle.Game.Match.Reach.{SameResult}
use sea_battle.Game.Manager.{get_game}
use sea_battle.Lobby.{remove_from_queue}
use sea_battle.Protocol.Payload.{JsonLibrary, ParseResult, parse_message}
use sea_battle.Handler.{World, Context, games_of, session_player, send, send_error}
use sea_battle.Handler.Account.{
  handle_get_players, handle_add_friend, handle_remove_friend, handle_get_friends, handle_get_stats,
}
use sea_battle.Handler.Meeting.{handle_cancel_search, handle_invite, handle_invite_response}
use sea_battle.Handler.Playing.{handle_spectate, handle_place_ships, handle_shoot, handle_surrender}
use sea_battle.Handler.Dispatch.{dispatch, dispatch_as, handle_parsed, handle_message}
use sea_battle.Handler.Server.{Event, IsFresh, Run, handle_event, on_accept}
use sea_battle.Handler.Safe.Games.{IsSafe}
use sea_battle.Handler.Safe.Accounts.{
  befriend-SameGames, unfriend-SameGames, show_stats-SameGames, invite_target-SameGames,
  handle_auth-SameGames,
}
use sea_battle.Handler.Safe.Requests.{game-Found}
use sea_battle.Handler.Safe.Runs.{Run-IsSafe}
use sea_battle.Handler.Results.Kept.{Kept, KeptAll, refl-Kept, same-Kept, trans-Kept, if-KeptAll}
use sea_battle.Handler.Results.Endings.{bind-KeptAll, on_session_error-KeptAll}
use sea_battle.Handler.Results.Meetings.{find_game-Kept, respond-Kept}
use sea_battle.Handler.Results.Fights.{
  watch_named-KeptAll, place_found-KeptAll, shoot_found-KeptAll, surrender_found-KeptAll,
}

module _ {Json : Type 0} (lib : JsonLibrary Json) (c : Context) where
  dispatch-KeptAll :
      (w : World) (s : SessionRef) (p : Player) (action : String) (payload : Json)
      → IsSafe (games_of w)
      → IsFresh c w
      → KeptAll (games_of w).games (dispatch c lib w s p action payload)
  unfolding dispatch handle_get_players handle_add_friend handle_remove_friend handle_get_friends
      handle_get_stats handle_cancel_search handle_invite handle_invite_response handle_spectate
      handle_place_ships handle_shoot handle_surrender send send_error remove_from_queue
  dispatch-KeptAll w s p action payload v fresh =
      let gs = (games_of w).games in
      let same = refl-Kept gs in
      let game = game-Found c lib w p v in
      if-KeptAll gs (action == "get_players") _ _ same (
        if-KeptAll gs (action == "add_friend") _ _ (same-Kept (befriend-SameGames c w s p _)) (
          if-KeptAll gs (action == "remove_friend") _ _ (same-Kept (unfriend-SameGames c w s p _)) (
            if-KeptAll gs (action == "get_friends") _ _ same (
              if-KeptAll gs (action == "get_stats") _ _ (same-Kept (show_stats-SameGames c w s _)) (
                if-KeptAll gs (action == "find_game") _ _ (find_game-Kept c w s p v fresh) (
                  if-KeptAll gs (action == "cancel_search") _ _ same (
                    if-KeptAll gs (action == "invite") _ _
                      (same-Kept (invite_target-SameGames c w s p _))
                      (if-KeptAll gs (action == "invite_response") _ _
                        (respond-Kept c w s p _ _ v fresh)
                        (if-KeptAll gs (action == "spectate") _ _ (watch_named-KeptAll c w s p _ v)
                          (if-KeptAll gs (action == "place_ships") _ _
                            (place_found-KeptAll c lib w s p payload _ v game)
                            (if-KeptAll gs (action == "shoot") _ _
                              (shoot_found-KeptAll c lib w s p payload _ v game)
                              (if-KeptAll gs (action == "surrender") _ _
                                (surrender_found-KeptAll c w s p _ v game) same))))))))))))

  dispatch_as-KeptAll :
      (w : World) (s : SessionRef) (p : Option Player) (action : String) (payload : Json)
      → IsSafe (games_of w)
      → IsFresh c w
      → KeptAll (games_of w).games (dispatch_as c lib w s p action payload)
  unfolding send send_error
  dispatch_as-KeptAll w s none action payload v fresh = refl-Kept (games_of w).games
  dispatch_as-KeptAll w s (some p) action payload v fresh =
      dispatch-KeptAll w s p action payload v fresh

  handle_parsed-KeptAll :
      (w : World) (s : SessionRef) (r : ParseResult Json)
      → IsSafe (games_of w)
      → IsFresh c w
      → KeptAll (games_of w).games (handle_parsed c lib w s r)
  unfolding send
  handle_parsed-KeptAll w s (ParseResult.failed e) v fresh = refl-Kept (games_of w).games
  handle_parsed-KeptAll w s (ParseResult.parsed m) v fresh =
      if-KeptAll (games_of w).games (m.action == "auth") _ _
        (same-Kept (handle_auth-SameGames c lib w s m.payload))
        (dispatch_as-KeptAll w s (session_player w s) m.action m.payload v fresh)

  event-KeptAll :
      (w : World) (e : Event)
      → IsSafe (games_of w)
      → IsFresh c w
      → KeptAll (games_of w).games (handle_event lib c w e)
  unfolding handle_event on_accept handle_message
  event-KeptAll w (Event.accepted session) v fresh = refl-Kept (games_of w).games
  event-KeptAll w (Event.received s raw) v fresh =
      bind-KeptAll (games_of w).games (parse_message lib raw) _
        λ r. handle_parsed-KeptAll w s r v fresh
  event-KeptAll w (Event.failed s) v fresh = on_session_error-KeptAll c w s v

module _ {Json : Type 0} (lib : JsonLibrary Json) where
  Run-Kept :
      {w w' : World}
      → IsSafe (games_of w)
      → Run lib w w'
      → Kept (games_of w).games (games_of w').games
  Run-Kept {w} v Run.here = refl-Kept (games_of w).games
  Run-Kept {w} {w'} v (Run.next {v = before} c e run fresh done) =
      let last =
        subst (KeptAll (games_of before).games) done
          (event-KeptAll lib c before e (Run-IsSafe lib v run) fresh) in
      trans-Kept (games_of w).games (games_of before).games (games_of w').games (Run-Kept v run)
        last

  -- A game that is over is found under its identifier ever after, over with the same winner, the same
  -- reason and the same boards, whatever connections are accepted and lost and whatever messages are
  -- received, as long as new identifiers are new; before, each game stands under its own identifier and
  -- whoever is in the table of players plays in the game that it names.
  pub Run-SameResult :
      (w w' : World) (id : String) (g : Game)
      → IsSafe (games_of w)
      → get_game (games_of w) id ≡ some g
      → is_finished g ≡ true
      → Run lib w w'
      → (g' : Game) × (get_game (games_of w') id ≡ some g') × SameResult g g'
  unfolding get_game
  Run-SameResult w w' id g v there over run = Run-Kept v run id g there over
