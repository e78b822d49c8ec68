-- ===== src/Handler/Results/Fights.antt =====
-- MessageHandler.cpp: the results of games under the requests of players and spectators.
use sea_battle.Base.{
  ◌≡◌, refl, sym, ap, ◌∙◌, inl, inr, Bool, true, false, ◌||◌, List, String, Option, none, some,
  arith, Bool-cases, ok, throw, Throws, ◌>>=◌, number_key, string_key, find, ℤ,
}
use sea_battle.Types.{SessionRef, ShipPlacement, ShotResultInfo}
use sea_battle.Players.{Player}
use sea_battle.Players.Friends.{is_friend}
use sea_battle.Game.Match.{
  Game, is_finished, is_placing, is_battle, is_player_turn, add_spectator, cleanup_spectators,
  start_battle, surrender, place_ships, shoot_at, are_both_players_ready, notify_spectators,
  get_board_fog_of_war,
}
use sea_battle.Game.Match.Invariant.{IsPlayerGuid}
use sea_battle.Game.Match.Reach.{SameResult}
use sea_battle.Game.Manager.{get_game}
use sea_battle.Protocol.Payload.{JsonLibrary}
use sea_battle.Handler.{World, Context, games_of, set_game, send, send_error, send_to_player}
use sea_battle.Handler.Playing.{
  watch_named, watch_found, ships_placed, place_read, place_found, notify_battle_start, report_shot,
  shot_taken, shoot_read, shoot_found, surrender_found, is_carried_out,
}
use sea_battle.Handler.Safe.Games.{
  IsSafe, SameFrame, Framed, shoot_at-Framed, place_ships-Framed, surrender-SameFrame,
  start_battle-SameFrame, notify_spectators-SameFrame, set_game-IsSafe,
}
use sea_battle.Handler.Safe.Endings.{Stored}
use sea_battle.Handler.Safe.Fights.{Found}
use sea_battle.Handler.Results.Kept.{
  Games, Kept, KeptAll, refl-Kept, trans-Kept, trans-KeptAll, set_game-Kept,
}
use sea_battle.Handler.Results.Endings.{
  bind-KeptAll, notified-SameResult, before-SameResult, notify_game_over-KeptAll, finish-KeptAll,
}

-- A call that returns a game and more, and what follows it.
frame-KeptAll :
    {A : Type 0} (gs : Games) (g : Game) (t : Throws (Game × A)) (f : Game × A → Throws World)
    → Framed g t
    → ((g' : Game) (a : A) → SameFrame g g' → KeptAll gs (f (g', a)))
    → KeptAll gs (t >>= f)
frame-KeptAll gs g (ok (g', a)) f same k = k g' a same
frame-KeptAll gs g (throw e) f same k = tt

placing_goes_on : (g : Game) → is_placing g.state ≡ true → is_finished g ≡ false
unfolding is_finished
placing_goes_on g placing = ground arith

battle_goes_on : (g : Game) → is_battle g.state ≡ true → is_finished g ≡ false
unfolding is_finished
battle_goes_on g battle = ground arith

started-SameResult : (g : Game) → is_finished g ≡ true → SameResult g (start_battle g)
unfolding start_battle is_finished
started-SameResult g over = ground arith

watched-SameResult :
    (alive : SessionRef → Bool) (g : Game) (s : SessionRef)
    → is_finished g ≡ true
    → SameResult g (add_spectator alive g s)
unfolding add_spectator cleanup_spectators is_finished
watched-SameResult alive g s over = (over, refl, refl, refl, refl)

module _ (c : Context) where
  watch_found-KeptAll :
      (w : World) (s : SessionRef) (p : Player) (id : String) (found : Option Game)
      → IsSafe (games_of w)
      → find (games_of w).games id ≡ found
      → KeptAll (games_of w).games (watch_found c w s p found)
  unfolding send send_error add_spectator cleanup_spectators is_finished
  watch_found-KeptAll w s p id none v e = refl-Kept (games_of w).games
  watch_found-KeptAll w s p id (some g) v e =
      elim (Bool-cases (is_friend p.friends g.player1.guid || is_friend p.friends g.player2.guid)) [
        | inr stranger ↦ rw stranger (refl-Kept (games_of w).games)
        | inl friend ↦
            let g' = add_spectator c.alive g s in
            rw friend (
              bind-KeptAll _ (get_board_fog_of_war g' g.player1.guid) _ λ fog1.
                bind-KeptAll _ (get_board_fog_of_war g' g.player2.guid) _ λ fog2.
                  set_game-Kept w g g' (ap (λ i. find (games_of w).games i) (v.named id g e) ∙ e)
                    refl (watched-SameResult c.alive g s))
      ]

  pub watch_named-KeptAll :
      (w : World) (s : SessionRef) (p : Player) (id : Option String)
      → IsSafe (games_of w)
      → KeptAll (games_of w).games (watch_named c w s p id)
  unfolding send send_error get_game
  watch_named-KeptAll w s p none v = refl-Kept (games_of w).games
  watch_named-KeptAll w s p (some id) v =
      watch_found-KeptAll w s p id (find (games_of w).games id) v refl

  -- A game that goes on is stored again.
  going-Kept :
      (w : World) (g g' : Game)
      → Stored w g
      → SameFrame g g'
      → is_finished g ≡ false
      → Kept (games_of w).games (games_of (set_game w g')).games
  going-Kept w g g' stored frame going = set_game-Kept w g g' stored frame.0 (λ over. cc)

  ships_placed-Kept :
      (w : World) (s : SessionRef) (p : Player) (g g' : Game) (accepted : Bool)
      → IsSafe (games_of w)
      → Stored w g
      → SameFrame g g'
      → is_finished g ≡ false
      → Kept (games_of w).games (games_of (ships_placed c w s p (g', accepted))).games
  unfolding send send_to_player notify_battle_start start_battle
  ships_placed-Kept w s p g g' false v stored frame going = going-Kept w g g' stored frame going
  ships_placed-Kept w s p g g' true v stored frame going =
      let (safe, there) = set_game-IsSafe w g g' v stored frame in
      let kept = going-Kept w g g' stored frame going in
      elim (Bool-cases (are_both_players_ready g')) [
        | inr waiting ↦ rw waiting kept
        | inl ready ↦ rw ready (
            trans-Kept _ _ _ kept (
              set_game-Kept (set_game w g') g' (start_battle g') there (start_battle-SameFrame g').0
                (started-SameResult g')))
      ]

  place_read-KeptAll :
      (w : World) (s : SessionRef) (p : Player) (g : Game) (ships : Option (List ShipPlacement))
      → IsSafe (games_of w)
      → Stored w g
      → IsPlayerGuid g p.guid
      → is_finished g ≡ false
      → KeptAll (games_of w).games (place_read c w s p g ships)
  unfolding send
  place_read-KeptAll w s p g none v stored plays going = refl-Kept (games_of w).games
  place_read-KeptAll w s p g (some ships) v stored plays going =
      frame-KeptAll _ g (place_ships g p.guid ships) _ (place_ships-Framed g p.guid ships plays)
        λ g' accepted frame. ships_placed-Kept w s p g g' accepted v stored frame going

  shot_taken-KeptAll :
      (w : World) (s : SessionRef) (p : Player) (cell : ℤ × ℤ) (g g' : Game) (info : ShotResultInfo)
      → IsSafe (games_of w)
      → Stored w g
      → SameFrame g g'
      → is_finished g ≡ false
      → KeptAll (games_of w).games (shot_taken c w s p cell (g', info))
  unfolding send send_error report_shot send_to_player
  shot_taken-KeptAll w s p cell g g' info v stored frame going =
      let (safe, there) = set_game-IsSafe w g g' v stored frame in
      let first = going-Kept w g g' stored frame going in
      let told = (notify_spectators c.alive g').0 in
      let same = notify_spectators-SameFrame c.alive g' in
      let (_, told_there) = set_game-IsSafe (set_game w g') g' told safe there same in
      let second =
        set_game-Kept (set_game w g') g' told there same.0 (notified-SameResult c.alive g') in
      let kept = trans-Kept _ _ _ first second in
      elim (Bool-cases (is_carried_out info.result)) [
        | inr refused ↦ rw refused first
        | inl carried ↦ rw carried elim (Bool-cases (is_finished g')) [
          | inr goes ↦ rw goes kept
          | inl over ↦ rw over (
              trans-KeptAll (games_of w).games (report_shot c (set_game w g') s p cell g' info) _
                kept
                (notify_game_over-KeptAll c told g' (report_shot c (set_game w g') s p cell g' info)
                  told_there (sym same.0) (before-SameResult c.alive g')))
        ]
      ]

  shoot_read-KeptAll :
      (w : World) (s : SessionRef) (p : Player) (g : Game) (cell : Option (ℤ × ℤ))
      → IsSafe (games_of w)
      → Stored w g
      → IsPlayerGuid g p.guid
      → is_finished g ≡ false
      → KeptAll (games_of w).games (shoot_read c w s p g cell)
  unfolding send send_error
  shoot_read-KeptAll w s p g none v stored plays going = refl-Kept (games_of w).games
  shoot_read-KeptAll w s p g (some (x, y)) v stored plays going =
      frame-KeptAll _ g (shoot_at g p.guid x y) _ (shoot_at-Framed g p.guid x y plays)
        λ g' info frame. shot_taken-KeptAll w s p (x, y) g g' info v stored frame going

  pub surrender_found-KeptAll :
      (w : World) (s : SessionRef) (p : Player) (game : Option Game)
      → IsSafe (games_of w)
      → Found c w p game
      → KeptAll (games_of w).games (surrender_found c w s p game)
  unfolding send send_error
  surrender_found-KeptAll w s p none v found = refl-Kept (games_of w).games
  surrender_found-KeptAll w s p (some g) v (stored, plays) = elim (Bool-cases (is_finished g)) [
    | inl over ↦ rw over (refl-Kept (games_of w).games)
    | inr going ↦
        rw going
          (finish-KeptAll c g (surrender g p.guid) w v stored (surrender-SameFrame g p.guid) going)
  ]

  module _ {Json : Type 0} (lib : JsonLibrary Json) where
    pub place_found-KeptAll :
        (w : World) (s : SessionRef) (p : Player) (payload : Json) (game : Option Game)
        → IsSafe (games_of w)
        → Found c w p game
        → KeptAll (games_of w).games (place_found c lib w s p payload game)
    unfolding send send_error
    place_found-KeptAll w s p payload none v found = refl-Kept (games_of w).games
    place_found-KeptAll w s p payload (some g) v (stored, plays) =
        elim (Bool-cases (is_placing g.state)) [
          | inr late ↦ rw late (refl-Kept (games_of w).games)
          | inl placing ↦
              rw placing (place_read-KeptAll w s p g _ v stored plays (placing_goes_on g placing))
        ]

    pub shoot_found-KeptAll :
        (w : World) (s : SessionRef) (p : Player) (payload : Json) (game : Option Game)
        → IsSafe (games_of w)
        → Found c w p game
        → KeptAll (games_of w).games (shoot_found c lib w s p payload game)
    unfolding send send_error
    shoot_found-KeptAll w s p payload none v found = refl-Kept (games_of w).games
    shoot_found-KeptAll w s p payload (some g) v (stored, plays) =
        elim (Bool-cases (is_battle g.state)) [
          | inr early ↦ rw early (refl-Kept (games_of w).games)
          | inl battle ↦ rw battle elim (Bool-cases (is_player_turn g p.guid)) [
            | inr other ↦ rw other (refl-Kept (games_of w).games)
            | inl mine ↦
                rw mine (shoot_read-KeptAll w s p g _ v stored plays (battle_goes_on g battle))
          ]
        ]
