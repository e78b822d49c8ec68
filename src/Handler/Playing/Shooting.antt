-- ===== src/Handler/Playing/Shooting.antt =====
-- MessageHandler.cpp, `handleShoot`: what a shot that is carried out does to players and game.
use sea_battle.Base.{
  suc, ap, ◌≡◌, refl, ◌∙◌, inl, inr, true, not, String, ◌==◌, Option, some, if◌then◌else◌, arith,
  Bool-cases, ok, ℤ, find, assign, find-assign, string_key,
}
use sea_battle.Types.{SessionRef, ShotResult, ShotResultInfo}
use sea_battle.Players.{Player}
use sea_battle.Players.Stats.{PlayerStats, record_shot}
use sea_battle.Players.Directory.{get_player, find-update, when_found}
use sea_battle.Game.Board.{Board, shoot}
use sea_battle.Game.Match.{
  Game, is_battle, is_finished, is_player_turn, get_opponent_guid, shoot_at, after_shot,
  switch_turn, finish_game, notify_spectators, cleanup_spectators,
}
use sea_battle.Game.Match.Invariant.{IsGame, IsPlayerGuid}
use sea_battle.Game.Match.Turns.{opponent_shot, struck, shoot_at-eq, shoot_at-IsGame}
use sea_battle.Game.Match.Play.{target_board, shoot_at-TurnRules}
use sea_battle.Game.Manager.{get_game_by_player}
use sea_battle.Protocol.Payload.{JsonLibrary, extract_coordinates}
use sea_battle.Handler.{World, Context, set_game, players_of, games_of, send, send_to_player}
use sea_battle.Handler.Ending.Settled.{winner_after, loser_after, notify_game_over-Settled}
use sea_battle.Handler.Playing.{
  handle_shoot, report_shot, count_shot, is_hit, is_carried_out, end_if_finished,
}

-- A shot that is carried out: at a cell of the board that was not shot at before.
abbrev pub Carried : ShotResult → Type 0
Carried ShotResult.already_shot = ⊥
Carried ShotResult.invalid_coordinates = ⊥
Carried _ = Unit

-- The counters after a shot: one shot more, and one hit more when it hits or kills.
abbrev pub counted : ShotResult → PlayerStats → PlayerStats
counted ShotResult.hit s = record s { shots_fired = suc s.shots_fired; shots_hit = suc s.shots_hit }
counted ShotResult.kill s = record s {
  shots_fired = suc s.shots_fired;
  shots_hit = suc s.shots_hit;
}
counted _ s = record s { shots_fired = suc s.shots_fired }

abbrev pub shooter_after : ShotResult → Player → Player
shooter_after r p = record p { stats = counted r p.stats }

Carried_lem : (r : ShotResult) → Carried r → is_carried_out r ≡ true
Carried_lem ShotResult.already_shot c = absurd c
Carried_lem ShotResult.invalid_coordinates c = absurd c
Carried_lem r c = refl

count_shot-eq :
    (r : ShotResult) (o : Option Player)
    → when_found (count_shot (is_hit r)) o ≡ when_found (shooter_after r) o
unfolding record_shot
count_shot-eq ShotResult.hit o = refl
count_shot-eq r o = refl

-- A player after a shot that left the game `g`: the shot counts for the shooter; when the game is over
-- it counts for both, and both are free.
abbrev pub player_after : String → ShotResult → Game → String → Option Player → Option Player
player_after shooter result g guid before =
    let counted = if shooter == guid then when_found (shooter_after result) before else before in
    if not (is_finished g)
    then counted
    else if shooter == guid
    then when_found winner_after counted
    else if get_opponent_guid g shooter == guid
    then when_found loser_after counted
    else counted

-- What a shot that is carried out leaves.
pub record Shot (shooter : String) (g : Game) (info : ShotResultInfo) (w w' : World) : Type 0 where
  pub players :
      (guid : String)
      → get_player (players_of w') guid
        ≡ player_after shooter info.result g guid (get_player (players_of w) guid)
  pub kept :
      (h : Game) × (find (games_of w').games g.id ≡ some h)
      × (h.state ≡ g.state)
      × (h.winner_guid ≡ g.winner_guid)
      × (h.player1 ≡ g.player1)
      × (h.player2 ≡ g.player2)
  pub queue : w'.hall.queue ≡ w.hall.queue
  pub registry : w'.registry ≡ w.registry
  pub player_of : w'.player_of ≡ w.player_of

module _ (c : Context) (w : World) (s : SessionRef) (p : Player) (cell : ℤ × ℤ) (g : Game)
    (info : ShotResultInfo) where
  abbrev reported : World
  reported = report_shot c (set_game w g) s p cell g info

  reported_player :
      (guid : String)
      → get_player (players_of reported) guid ≡ (
          if p.guid == guid
          then when_found (shooter_after info.result) (get_player (players_of w) guid)
          else get_player (players_of w) guid)
  unfolding report_shot send send_to_player get_player
  reported_player guid =
      find-update (count_shot (is_hit info.result)) w.hall.players p.guid guid
      ∙ ap (λ o. if p.guid == guid then o else find w.hall.players guid)
          (count_shot-eq info.result (find w.hall.players guid))

  reported_game : find (games_of reported).games g.id ≡ some (notify_spectators c.alive g).0
  unfolding report_shot send send_to_player notify_spectators cleanup_spectators
  reported_game =
      let kept = (notify_spectators c.alive g).0 in
      ground (arith, find-assign (assign w.hall.games.games g.id g) g.id kept g.id)

  end-Shot :
      IsGame g
      → IsPlayerGuid g p.guid
      → (is_finished g ≡ true → g.winner_guid ≡ some p.guid)
      → (w' : World) × (end_if_finished c g reported ≡ ok w') × Shot p.guid g info w w'
  unfolding report_shot send send_to_player notify_spectators cleanup_spectators
  end-Shot sound plays wins = elim (Bool-cases (is_finished g)) [
    | inr going ↦ (
      reported,
      rw going refl,
      record {
        players = λ guid. reported_player guid ∙ rw going refl;
        kept = (_, reported_game, refl, refl, refl, refl);
        queue = refl;
        registry = refl;
        player_of = refl;
      },
    )
    | inl over ↦
        let (w', done, e) =
          notify_game_over-Settled c g reported p.guid sound.distinct (wins over) plays in
        (
          w',
          rw over done,
          record {
            players = λ guid. ground (arith, e.players guid, reported_player guid, over);
            kept = e.kept;
            queue = e.queue;
            registry = e.registry;
            player_of = e.player_of;
          },
        )
  ]

after_shot-guids :
    (h : Game) (shooter : String) (x y : ℤ) (b : Board) (r : ShotResult)
    → let h' = (after_shot h shooter x y b r).0 in
      (h'.player1.guid ≡ h.player1.guid) × (h'.player2.guid ≡ h.player2.guid)
unfolding after_shot switch_turn finish_game
after_shot-guids h shooter x y b r = ground arith

-- The shooter still plays the game.
shot-IsPlayerGuid :
    (g g' : Game) (shooter : String) (x y : ℤ) (info : ShotResultInfo)
    → IsGame g
    → is_battle g.state ≡ true
    → g.current_turn_guid ≡ shooter
    → shoot_at g shooter x y ≡ ok (g', info)
    → IsPlayerGuid g' shooter
shot-IsPlayerGuid g g' shooter x y info sound battle turn done =
    let made = shoot_at-eq g shooter x y sound in
    let next : (opponent_shot g shooter x y).0 ≡ g' = ground arith in
    let plays = sound.turn in
    rw (← next) elim (Bool-cases (shooter == g.player1.guid)) [
      | inl first ↦ rw first ground (
        arith,
        after_shot-guids (record g { player2 = struck g.player2 (x, y) }) shooter x y
            (shoot g.player2.board (x, y)).0 (shoot g.player2.board (x, y)).1,
      )
      | inr second ↦ rw second ground (
        arith,
        after_shot-guids (record g { player1 = struck g.player1 (x, y) }) shooter x y
            (shoot g.player1.board (x, y)).0 (shoot g.player1.board (x, y)).1,
      )
    ]

-- A shot in a battle by the player whose turn it is, at coordinates of the board that were not shot at
-- before: the request is carried out. The shooter has one shot more in his statistics, and one hit more
-- when it hits or kills; when it ends the game, the shooter has a win more, his opponent a loss, and
-- both are online without a game; nobody else is touched, and the game is kept as `shoot` left it.
pub handle_shoot-Shot :
    (c : Context) {Json : Type 0} (lib : JsonLibrary Json) (w : World) (s : SessionRef) (p : Player)
    (g : Game) (payload : Json) (x y : ℤ)
    → get_game_by_player (games_of w) p.guid ≡ some g
    → IsGame g
    → is_battle g.state ≡ true
    → g.current_turn_guid ≡ p.guid
    → extract_coordinates lib payload ≡ some (x, y)
    → Carried (shoot (target_board g p.guid) (x, y)).1
    → (out : Game × ShotResultInfo) × (shoot_at g p.guid x y ≡ ok out)
      × (w' : World) × (handle_shoot c lib w s p payload ≡ ok w')
      × Shot p.guid out.0 out.1 w w'
unfolding handle_shoot is_player_turn
handle_shoot-Shot c lib w s p g payload x y plays sound battle turn coords carried =
    let (out, taken, rules) = shoot_at-TurnRules g p.guid x y sound battle turn in
    let (g', info) = out in
    let player = shot-IsPlayerGuid g g' p.guid x y info sound battle turn taken in
    let (result, _, _, over, winner) = rules in
    let (w', done, shot) =
      end-Shot c w s p (x, y) g' info (shoot_at-IsGame g g' p.guid x y info sound taken) player
        (λ e. ground arith) in
    let mine : (g.current_turn_guid == p.guid) ≡ true = ground arith in
    (
      out,
      taken,
      w',
      rw
          (
            plays,
            battle,
            mine,
            coords,
            taken,
            result,
            Carried_lem (shoot (target_board g p.guid) (x, y)).1 carried,
          )
          done,
      shot,
    )
