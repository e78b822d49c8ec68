-- ===== src/Handler/Playing/Fleet.antt =====
-- MessageHandler.cpp, `handlePlaceShips`: placing ships, and the start of the battle.
use sea_battle.Base.{
  ◌≡◌, refl, ap, ◌∙◌, ◌&&◌, inl, inr, Bool, true, false, List, String, some, if◌then◌else◌, arith,
  Bool-cases, ok, find, assign, find-assign, string_key,
}
use sea_battle.Types.{GameState, SessionRef, ShipPlacement}
use sea_battle.Players.{Player}
use sea_battle.Game.Rules.{validate_placement}
use sea_battle.Game.Match.{
  Game, GamePlayer, is_placing, start_battle, are_both_players_ready, set_game_player,
  get_game_player,
}
use sea_battle.Game.Match.Invariant.{IsPlayerGuid}
use sea_battle.Game.Match.Steps.{deployed_player, place_ships-eq}
use sea_battle.Game.Manager.{get_game_by_player}
use sea_battle.Protocol.Payload.{JsonLibrary, extract_ships}
use sea_battle.Handler.{World, Context, players_of, games_of, send, send_to_player}
use sea_battle.Handler.Playing.{handle_place_ships, ships_placed, notify_battle_start}

-- The game after a placement that was accepted: the battle starts when both players are ready.
abbrev pub when_ready : Game → Game
when_ready g =
    if g.player1.ready && g.player2.ready then record g { state = GameState.battle } else g

start_battle-eq :
    (g : Game)
    → is_placing g.state ≡ true
    → are_both_players_ready g ≡ true
    → start_battle g ≡ record g { state = GameState.battle }
unfolding start_battle are_both_players_ready
start_battle-eq g placing ready = rw placing (ground arith)

set_game_player-state :
    (g : Game) (guid : String) (q : GamePlayer) → (set_game_player g guid q).state ≡ g.state
unfolding set_game_player
set_game_player-state g guid q = ground arith

set_game_player-id :
    (g : Game) (guid : String) (q : GamePlayer) → (set_game_player g guid q).id ≡ g.id
unfolding set_game_player
set_game_player-id g guid q = ground arith

module _ (c : Context) (w : World) (s : SessionRef) (p : Player) where
  placed_game :
      (g : Game)
      → is_placing g.state ≡ true
      → let w' = ships_placed c w s p (g, true) in
        (find (games_of w').games g.id ≡ some (when_ready g)) × (players_of w' ≡ players_of w)
  unfolding send send_to_player notify_battle_start are_both_players_ready
  placed_game g placing =
      let started = record g { state = GameState.battle } in
      let once = assign w.hall.games.games g.id g in
      elim (Bool-cases (are_both_players_ready g)) [
        | inl ready ↦
            rw (ready, start_battle-eq g placing ready)
              (ground (arith, find-assign once g.id started g.id), refl)
        | inr waiting ↦
            rw waiting (ground (arith, find-assign w.hall.games.games g.id g g.id), refl)
      ]

  refused_game :
      (g : Game)
      → let w' = ships_placed c w s p (g, false) in
        (find (games_of w').games g.id ≡ some g) × (players_of w' ≡ players_of w)
  unfolding send
  refused_game g = (ground (arith, find-assign w.hall.games.games g.id g g.id), refl)

  after_placing :
      (g g' : Game) (valid : Bool)
      → g'.id ≡ g.id
      → is_placing g'.state ≡ true
      → let w' = ships_placed c w s p (if valid then (g', true) else (g, false)) in
        (find (games_of w').games g.id ≡ some (if valid then when_ready g' else g))
        × (players_of w' ≡ players_of w)
  after_placing g g' true same placing = rw (← same) (placed_game g' placing)
  after_placing g g' false same placing = refused_game g

-- A placement of ships in a game that is placing, for one of its players: the request is carried out
-- without an exception. When `validatePlacement` accepts the ships, the player has them and is ready,
-- and the battle starts exactly when both players are ready then; otherwise the game is as before.
pub handle_place_ships-game :
    (c : Context) {Json : Type 0} (lib : JsonLibrary Json) (w : World) (s : SessionRef) (p : Player)
    (g : Game) (payload : Json) (ships : List ShipPlacement)
    → get_game_by_player (games_of w) p.guid ≡ some g
    → IsPlayerGuid g p.guid
    → is_placing g.state ≡ true
    → extract_ships lib payload ≡ some ships
    → (q : GamePlayer) × (get_game_player g p.guid ≡ ok q)
      × (w' : World) × (handle_place_ships c lib w s p payload ≡ ok w')
      × (find (games_of w').games g.id
          ≡ some (
              if (validate_placement ships).valid
              then when_ready (set_game_player g p.guid (deployed_player q ships))
              else g))
      × (players_of w' ≡ players_of w)
unfolding handle_place_ships
handle_place_ships-game c lib w s p g payload ships plays player placing read =
    let (q, found, made) = place_ships-eq g p.guid ships player in
    let g' = set_game_player g p.guid (deployed_player q ships) in
    let valid = (validate_placement ships).valid in
    let (game, players) =
      after_placing c w s p g g' valid (set_game_player-id g p.guid (deployed_player q ships)) (
        ap (λ s. is_placing s) (set_game_player-state g p.guid (deployed_player q ships))
        ∙ placing) in
    (
      q,
      found,
      ships_placed c w s p (if valid then (g', true) else (g, false)),
      rw (plays, placing, read) (rw (made, placing) refl),
      game,
      players,
    )
