-- ===== src/Handler/Dispatch/Unchanged/Fights.antt =====
-- MessageHandler.cpp: the sessions under the requests of players and spectators of a game.
use sea_battle.Base.{
  refl, inl, inr, Bool, true, false, List, String, Option, none, some, arith, Bool-cases, ok, throw,
  Throws, ◌>>=◌, ◌||◌, number_key, ℤ,
}
use sea_battle.Types.{SessionRef}
use sea_battle.Players.{Player}
use sea_battle.Game.Match.{
  Game, is_finished, place_ships, shoot_at, get_board_full_state, get_board_fog_of_war,
}
use sea_battle.Protocol.Payload.{JsonLibrary}
use sea_battle.Handler.{World, Context, send, send_error, send_to_player}
use sea_battle.Handler.Ending.{notify_game_over, settle}
use sea_battle.Types.{ShipPlacement, ShotResultInfo}
use sea_battle.Players.Friends.{is_friend}
use sea_battle.Game.Match.{add_spectator, is_placing, is_battle, is_player_turn}
use sea_battle.Handler.Playing.{ships_placed, place_read, shot_taken, is_carried_out, shoot_read}
use sea_battle.Handler.Ending.Settled.{hall_after}
use sea_battle.Handler.Playing.{
  watch_named, watch_found, place_found, shoot_found, surrender_found, notify_battle_start,
  report_shot,
}
use sea_battle.Handler.Dispatch.Unchanged.Meetings.{Keeps, KeepsAll}

module _ (c : Context) where
  bind-KeepsAll :
      {A : Type 0} (w : World) (t : Throws A) (f : A → Throws World)
      → ((a : A) → KeepsAll w (f a))
      → KeepsAll w (t >>= f)
  bind-KeepsAll w (ok a) f h = h a
  bind-KeepsAll w (throw e) f h = tt

  notify_game_over-Keeps : (g : Game) (w : World) → KeepsAll w (notify_game_over c g w)
  unfolding notify_game_over settle
  notify_game_over-Keeps g w = bind-KeepsAll w (get_board_full_state g g.player1.guid) _ λ b1.
      bind-KeepsAll w (get_board_full_state g g.player2.guid) _ λ b2.
        let (_, registry, player_of) = hall_after c g b1 b2 (settle g w) in (registry, player_of)

  watch_found-Keeps :
      (w : World) (s : SessionRef) (p : Player) (game : Option Game)
      → KeepsAll w (watch_found c w s p game)
  unfolding send send_error
  watch_found-Keeps w s p none = (refl, refl)
  watch_found-Keeps w s p (some g) =
      elim (Bool-cases (is_friend p.friends g.player1.guid || is_friend p.friends g.player2.guid)) [
        | inr stranger ↦ rw stranger (refl, refl)
        | inl friend ↦ rw friend (
            bind-KeepsAll w (get_board_fog_of_war (add_spectator c.alive g s) g.player1.guid) _
              λ f1.
                bind-KeepsAll w (get_board_fog_of_war (add_spectator c.alive g s) g.player2.guid) _
                  λ f2. (refl, refl))
      ]

  pub watch_named-Keeps :
      (w : World) (s : SessionRef) (p : Player) (id : Option String)
      → KeepsAll w (watch_named c w s p id)
  unfolding send send_error
  watch_named-Keeps w s p none = (refl, refl)
  watch_named-Keeps w s p (some id) = watch_found-Keeps w s p _

  ships_placed-Keeps :
      (w : World) (s : SessionRef) (p : Player) (placed : Game × Bool)
      → Keeps w (ships_placed c w s p placed)
  unfolding send send_to_player notify_battle_start
  ships_placed-Keeps w s p (g, false) = (refl, refl)
  ships_placed-Keeps w s p (g, true) = ground arith

  place_read-Keeps :
      (w : World) (s : SessionRef) (p : Player) (g : Game) (ships : Option (List ShipPlacement))
      → KeepsAll w (place_read c w s p g ships)
  unfolding send
  place_read-Keeps w s p g none = (refl, refl)
  place_read-Keeps w s p g (some ships) =
      bind-KeepsAll w (place_ships g p.guid ships) _ λ placed. ships_placed-Keeps w s p placed

  shot_taken-Keeps :
      (w : World) (s : SessionRef) (p : Player) (cell : ℤ × ℤ) (out : Game × ShotResultInfo)
      → KeepsAll w (shot_taken c w s p cell out)
  unfolding send send_error report_shot send_to_player
  shot_taken-Keeps w s p cell (g, info) = elim (Bool-cases (is_carried_out info.result)) [
    | inr refused ↦ rw refused (refl, refl)
    | inl carried ↦ rw carried elim (Bool-cases (is_finished g)) [
      | inr going ↦ rw going (refl, refl)
      | inl over ↦ rw over (notify_game_over-Keeps g _)
    ]
  ]

  shoot_read-Keeps :
      (w : World) (s : SessionRef) (p : Player) (g : Game) (cell : Option (ℤ × ℤ))
      → KeepsAll w (shoot_read c w s p g cell)
  unfolding send send_error
  shoot_read-Keeps w s p g none = (refl, refl)
  shoot_read-Keeps w s p g (some (x, y)) =
      bind-KeepsAll w (shoot_at g p.guid x y) _ λ out. shot_taken-Keeps w s p (x, y) out

  pub surrender_found-Keeps :
      (w : World) (s : SessionRef) (p : Player) (game : Option Game)
      → KeepsAll w (surrender_found c w s p game)
  unfolding send send_error
  surrender_found-Keeps w s p none = (refl, refl)
  surrender_found-Keeps w s p (some g) = elim (Bool-cases (is_finished g)) [
    | inl over ↦ rw over (refl, refl)
    | inr going ↦ rw going (notify_game_over-Keeps _ _)
  ]

module _ (c : Context) {Json : Type 0} (lib : JsonLibrary Json) where
  pub place_found-Keeps :
      (w : World) (s : SessionRef) (p : Player) (payload : Json) (game : Option Game)
      → KeepsAll w (place_found c lib w s p payload game)
  unfolding send send_error
  place_found-Keeps w s p payload none = (refl, refl)
  place_found-Keeps w s p payload (some g) = elim (Bool-cases (is_placing g.state)) [
    | inr late ↦ rw late (refl, refl)
    | inl placing ↦ rw placing (place_read-Keeps c w s p g _)
  ]

  pub shoot_found-Keeps :
      (w : World) (s : SessionRef) (p : Player) (payload : Json) (game : Option Game)
      → KeepsAll w (shoot_found c lib w s p payload game)
  unfolding send send_error
  shoot_found-Keeps w s p payload none = (refl, refl)
  shoot_found-Keeps w s p payload (some g) = elim (Bool-cases (is_battle g.state)) [
    | inr early ↦ rw early (refl, refl)
    | inl battle ↦ rw battle elim (Bool-cases (is_player_turn g p.guid)) [
      | inr other ↦ rw other (refl, refl)
      | inl mine ↦ rw mine (shoot_read-Keeps c w s p g _)
    ]
  ]
