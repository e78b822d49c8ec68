-- ===== src/Handler/Playing.antt =====
-- MessageHandler.cpp: the requests of those who play a game or watch it.
pub mod Surrender
pub mod Shooting
pub mod Fleet
use sea_battle.Base.{
  Bool, true, false, not, ◌||◌, List, String, Option, none, some, if◌then◌else◌, ℤ, pos, Throws, ok,
  ◌>>=◌,
}
use sea_battle.Types.{SessionRef, ShotResult, ShotResultInfo, ShipPlacement}
use sea_battle.Players.{Player}
use sea_battle.Players.Stats.{record_shot}
use sea_battle.Players.Friends.{is_friend}
use sea_battle.Game.Match.{
  Game, is_placing, is_battle, is_player_turn, is_finished, get_player_nickname, get_opponent_guid,
  are_both_players_ready, get_board_fog_of_war, place_ships, start_battle, shoot_at, surrender,
  add_spectator,
}
use sea_battle.Game.Match.Play.{is_miss}
use sea_battle.Game.Manager.{get_game, get_game_by_player}
use sea_battle.Protocol.Messages.{Message}
use sea_battle.Protocol.Payload.{JsonLibrary, extract_string, extract_ships, extract_coordinates}
use sea_battle.Handler.{
  World, Context, on_player, set_game, games_of, send, send_error, send_to_player, given,
}
use sea_battle.Handler.Ending.{tell_spectators, notify_game_over}

abbrev pub is_carried_out : ShotResult → Bool
is_carried_out ShotResult.already_shot = false
is_carried_out ShotResult.invalid_coordinates = false
is_carried_out _ = true

abbrev pub is_hit : ShotResult → Bool
is_hit ShotResult.hit = true
is_hit ShotResult.kill = true
is_hit _ = false

abbrev pub count_shot : Bool → Player → Player
count_shot hit p = record p { stats = record_shot hit p.stats }

module _ (c : Context) where
  -- `handleSpectate` from `addSpectator` on.
  abbrev pub watch : World → SessionRef → Game → Throws World
  watch w s g =
      let g' = add_spectator c.alive g s in
      let guid1 = g.player1.guid in
      let guid2 = g.player2.guid in
      do
        fog1 ← get_board_fog_of_war g' guid1
        fog2 ← get_board_fog_of_war g' guid2
        ok (
            send c (set_game w g') s (
              Message.spectate_response true guid1 (get_player_nickname g guid1) guid2
                (get_player_nickname g guid2) g.current_turn_guid fog1 fog2))

  abbrev pub watch_found : World → SessionRef → Player → Option Game → Throws World
  watch_found w s player none = ok (send_error c w s (pos 2001))
  watch_found w s player (some g) =
      if not (is_friend player.friends g.player1.guid || is_friend player.friends g.player2.guid)
      then ok (send_error c w s (pos 2007))
      else watch w s g

  abbrev pub watch_named : World → SessionRef → Player → Option String → Throws World
  watch_named w s player none = ok (send_error c w s (pos 2001))
  watch_named w s player (some id) = watch_found w s player (get_game (games_of w) id)

  unfoldable pub notify_battle_start : Game → World → World
  notify_battle_start g w =
      send_to_player c g.player2.guid (Message.battle_start g.current_turn_guid)
        (send_to_player c g.player1.guid (Message.battle_start g.current_turn_guid) w)

  abbrev pub refuse_ships : World → SessionRef → String → World
  refuse_ships w s text = send c w s (Message.place_ships_response false text)

  abbrev pub begin_if_ready : Game → World → World
  begin_if_ready g w =
      if are_both_players_ready g
      then notify_battle_start (start_battle g) (set_game w (start_battle g))
      else w

  -- `handlePlaceShips`, with what `placeShips` returned.
  abbrev pub ships_placed : World → SessionRef → Player → Game × Bool → World
  ships_placed w s player (g, false) =
      refuse_ships (set_game w g) s "Невалидная расстановка кораблей"
  ships_placed w s player (g, true) = begin_if_ready g (
      send_to_player c (get_opponent_guid g player.guid) (Message.player_ready player.guid)
        (send c (set_game w g) s (Message.place_ships_response true "")))

  abbrev pub place_read :
      World → SessionRef → Player → Game → Option (List ShipPlacement) → Throws World
  place_read w s player g none = ok (refuse_ships w s "Невалидный формат кораблей")
  place_read w s player g (some ships) = do
    placed ← place_ships g player.guid ships
    ok (ships_placed w s player placed)

  -- The messages about a shot that was carried out, and the counters of the shooter.
  unfoldable pub report_shot : World → SessionRef → Player → ℤ × ℤ → Game → ShotResultInfo → World
  report_shot w s player (x, y) g info =
      let counted = on_player (count_shot (is_hit info.result)) player.guid w in
      tell_spectators c g (Message.spectate_update player.guid x y info.result info.next_turn_guid)
        (send_to_player c (get_opponent_guid g player.guid)
          (Message.opponent_shot x y info.result (is_miss info.result) info.killed_ship_cells
            info.surrounding_misses)
          (send c counted s (Message.shot_result info)))

  abbrev pub end_if_finished : Game → World → Throws World
  end_if_finished g w = if is_finished g then notify_game_over c g w else ok w

  abbrev pub shot_taken : World → SessionRef → Player → ℤ × ℤ → Game × ShotResultInfo → Throws World
  shot_taken w s player cell (g, info) =
      if not (is_carried_out info.result)
      then ok (send_error c (set_game w g) s (pos 2004))
      else end_if_finished g (report_shot (set_game w g) s player cell g info)

  abbrev pub shoot_read : World → SessionRef → Player → Game → Option (ℤ × ℤ) → Throws World
  shoot_read w s player g none = ok (send_error c w s (pos 2004))
  shoot_read w s player g (some (x, y)) = do
    taken ← shoot_at g player.guid x y
    shot_taken w s player (x, y) taken

  abbrev pub surrender_found : World → SessionRef → Player → Option Game → Throws World
  surrender_found w s player none = ok (send_error c w s (pos 2001))
  surrender_found w s player (some g) =
      if is_finished g
      then ok (send_error c w s (pos 2001))
      else notify_game_over c (surrender g player.guid) (set_game w (surrender g player.guid))

  unfoldable pub handle_surrender : World → SessionRef → Player → Throws World
  handle_surrender w s player =
      surrender_found w s player (get_game_by_player (games_of w) player.guid)

  module _ {Json : Type 0} (lib : JsonLibrary Json) where
    unfoldable pub handle_spectate : World → SessionRef → Player → Json → Throws World
    handle_spectate w s player payload =
        watch_named w s player (given (extract_string lib payload "game_id"))

    abbrev pub place_found : World → SessionRef → Player → Json → Option Game → Throws World
    place_found w s player payload none = ok (send_error c w s (pos 2001))
    place_found w s player payload (some g) =
        if not (is_placing g.state)
        then ok (refuse_ships w s "Расстановка уже завершена")
        else place_read w s player g (extract_ships lib payload)

    unfoldable pub handle_place_ships : World → SessionRef → Player → Json → Throws World
    handle_place_ships w s player payload =
        place_found w s player payload (get_game_by_player (games_of w) player.guid)

    abbrev pub shoot_found : World → SessionRef → Player → Json → Option Game → Throws World
    shoot_found w s player payload none = ok (send_error c w s (pos 2001))
    shoot_found w s player payload (some g) =
        if not (is_battle g.state)
        then ok (send_error c w s (pos 2001))
        else if not (is_player_turn g player.guid)
        then ok (send_error c w s (pos 2002))
        else shoot_read w s player g (extract_coordinates lib payload)

    unfoldable pub handle_shoot : World → SessionRef → Player → Json → Throws World
    handle_shoot w s player payload =
        shoot_found w s player payload (get_game_by_player (games_of w) player.guid)
