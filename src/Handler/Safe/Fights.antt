-- ===== src/Handler/Safe/Fights.antt =====
-- MessageHandler.cpp: the requests of players in a game and of its spectators.
use sea_battle.Base.{
  ◌≡◌, refl, sym, ap, ◌∙◌, inl, inr, Bool, true, false, ◌||◌, List, String, Option, none, some,
  Bool-cases, ok, throw, Throws, ◌>>=◌, number_key, string_key, find, ℤ,
}
use sea_battle.Types.{SessionRef, ShipPlacement, ShotResultInfo}
use sea_battle.Players.{Player}
use sea_battle.Players.Friends.{is_friend}
use sea_battle.Game.Match.{
  Game, is_finished, is_placing, is_battle, is_player_turn, add_spectator, cleanup_spectators,
  start_battle, surrender, place_ships, shoot_at, are_both_players_ready, notify_spectators,
}
use sea_battle.Game.Match.Invariant.{IsPlayerGuid}
use sea_battle.Game.Manager.{get_game}
use sea_battle.Protocol.Payload.{JsonLibrary}
use sea_battle.Handler.{World, Context, games_of, set_game, send, send_error, send_to_player}
use sea_battle.Handler.Playing.{
  watch_named, watch_found, ships_placed, place_read, place_found, notify_battle_start, report_shot,
  shot_taken, shoot_read, shoot_found, surrender_found, is_carried_out,
}
use sea_battle.Handler.Safe.Games.{
  IsSafe, SameFrame, Framed, shoot_at-Framed, place_ships-Framed, start_battle-SameFrame,
  surrender-SameFrame, add_spectator-SameFrame, notify_spectators-SameFrame, set_game-IsSafe,
  fog_of_war_found,
}
use sea_battle.Handler.Safe.Endings.{Fine, Stored, notify_game_over-Fine, finish-Fine}

-- A call that returns a game and more, and what follows it.
frame-Fine :
    {A : Type 0} (g : Game) (t : Throws (Game × A)) (f : Game × A → Throws World)
    → Framed g t
    → ((g' : Game) (a : A) → SameFrame g g' → Fine (f (g', a)))
    → Fine (t >>= f)
frame-Fine g (ok (g', a)) f same k = k g' a same
frame-Fine g (throw e) f same k = absurd same

module _ (c : Context) where
  watch_found-Fine :
      (w : World) (s : SessionRef) (p : Player) (id : String) (found : Option Game)
      → IsSafe (games_of w)
      → find (games_of w).games id ≡ found
      → Fine (watch_found c w s p found)
  unfolding send send_error add_spectator cleanup_spectators
  watch_found-Fine w s p id none v e = v
  watch_found-Fine w s p id (some g) v e =
      elim (Bool-cases (is_friend p.friends g.player1.guid || is_friend p.friends g.player2.guid)) [
        | inr stranger ↦ rw stranger v
        | inl friend ↦
            let g' = add_spectator c.alive g s in
            let (fog1, found1) = fog_of_war_found g' g.player1.guid (inl refl) in
            let (fog2, found2) = fog_of_war_found g' g.player2.guid (inr refl) in
            let (safe, _) =
              set_game-IsSafe w g g' v (ap (λ i. find (games_of w).games i) (v.named id g e) ∙ e)
                (add_spectator-SameFrame c.alive g s) in
            rw (friend, found1, found2) safe
      ]

  pub watch_named-Fine :
      (w : World) (s : SessionRef) (p : Player) (id : Option String)
      → IsSafe (games_of w)
      → Fine (watch_named c w s p id)
  unfolding send send_error get_game
  watch_named-Fine w s p none v = v
  watch_named-Fine w s p (some id) v = watch_found-Fine w s p id (find (games_of w).games id) v refl

  ships_placed-IsSafe :
      (w : World) (s : SessionRef) (p : Player) (g g' : Game) (accepted : Bool)
      → IsSafe (games_of w)
      → Stored w g
      → SameFrame g g'
      → IsSafe (games_of (ships_placed c w s p (g', accepted)))
  unfolding send send_to_player notify_battle_start
  ships_placed-IsSafe w s p g g' false v stored same = (set_game-IsSafe w g g' v stored same).0
  ships_placed-IsSafe w s p g g' true v stored same =
      let (safe, there) = set_game-IsSafe w g g' v stored same in
      elim (Bool-cases (are_both_players_ready g')) [
        | inr waiting ↦ rw waiting safe
        | inl ready ↦
            rw ready
              (set_game-IsSafe (set_game w g') g' (start_battle g') safe there
                (start_battle-SameFrame g')).0
      ]

  place_read-Fine :
      (w : World) (s : SessionRef) (p : Player) (g : Game) (ships : Option (List ShipPlacement))
      → IsSafe (games_of w)
      → Stored w g
      → IsPlayerGuid g p.guid
      → Fine (place_read c w s p g ships)
  unfolding send
  place_read-Fine w s p g none v stored plays = v
  place_read-Fine w s p g (some ships) v stored plays =
      frame-Fine g (place_ships g p.guid ships) _ (place_ships-Framed g p.guid ships plays)
        λ g' accepted same. ships_placed-IsSafe w s p g g' accepted v stored same

  shot_taken-Fine :
      (w : World) (s : SessionRef) (p : Player) (cell : ℤ × ℤ) (g g' : Game) (info : ShotResultInfo)
      → IsSafe (games_of w)
      → Stored w g
      → SameFrame g g'
      → Fine (shot_taken c w s p cell (g', info))
  unfolding send send_error report_shot send_to_player
  shot_taken-Fine w s p cell g g' info v stored same =
      let (safe, there) = set_game-IsSafe w g g' v stored same in
      let kept = (notify_spectators c.alive g').0 in
      let frame = notify_spectators-SameFrame c.alive g' in
      let (told, kept_there) = set_game-IsSafe (set_game w g') g' kept safe there frame in
      elim (Bool-cases (is_carried_out info.result)) [
        | inr refused ↦ rw refused safe
        | inl carried ↦ rw carried elim (Bool-cases (is_finished g')) [
          | inr going ↦ rw going told
          | inl over ↦ rw over (
              notify_game_over-Fine c kept g' (report_shot c (set_game w g') s p cell g' info) told
                kept_there (sym frame.0, sym frame.1, sym frame.2))
        ]
      ]

  shoot_read-Fine :
      (w : World) (s : SessionRef) (p : Player) (g : Game) (cell : Option (ℤ × ℤ))
      → IsSafe (games_of w)
      → Stored w g
      → IsPlayerGuid g p.guid
      → Fine (shoot_read c w s p g cell)
  unfolding send send_error
  shoot_read-Fine w s p g none v stored plays = v
  shoot_read-Fine w s p g (some (x, y)) v stored plays =
      frame-Fine g (shoot_at g p.guid x y) _ (shoot_at-Framed g p.guid x y plays)
        λ g' info same. shot_taken-Fine w s p (x, y) g g' info v stored same

  -- What is known of the game that a player finds.
  abbrev pub Found : World → Player → Option Game → Type 0
  Found w p none = Unit
  Found w p (some g) = Stored w g × IsPlayerGuid g p.guid

  pub surrender_found-Fine :
      (w : World) (s : SessionRef) (p : Player) (game : Option Game)
      → IsSafe (games_of w)
      → Found w p game
      → Fine (surrender_found c w s p game)
  unfolding send send_error
  surrender_found-Fine w s p none v found = v
  surrender_found-Fine w s p (some g) v (stored, plays) = elim (Bool-cases (is_finished g)) [
    | inl over ↦ rw over v
    | inr going ↦
        rw going (finish-Fine c g (surrender g p.guid) w v stored (surrender-SameFrame g p.guid))
  ]

  module _ {Json : Type 0} (lib : JsonLibrary Json) where
    pub place_found-Fine :
        (w : World) (s : SessionRef) (p : Player) (payload : Json) (game : Option Game)
        → IsSafe (games_of w)
        → Found w p game
        → Fine (place_found c lib w s p payload game)
    unfolding send send_error
    place_found-Fine w s p payload none v found = v
    place_found-Fine w s p payload (some g) v (stored, plays) =
        elim (Bool-cases (is_placing g.state)) [
          | inr late ↦ rw late v
          | inl placing ↦ rw placing (place_read-Fine w s p g _ v stored plays)
        ]

    pub shoot_found-Fine :
        (w : World) (s : SessionRef) (p : Player) (payload : Json) (game : Option Game)
        → IsSafe (games_of w)
        → Found w p game
        → Fine (shoot_found c lib w s p payload game)
    unfolding send send_error
    shoot_found-Fine w s p payload none v found = v
    shoot_found-Fine w s p payload (some g) v (stored, plays) =
        elim (Bool-cases (is_battle g.state)) [
          | inr early ↦ rw early v
          | inl battle ↦ rw battle elim (Bool-cases (is_player_turn g p.guid)) [
            | inr other ↦ rw other v
            | inl mine ↦ rw mine (shoot_read-Fine w s p g _ v stored plays)
          ]
        ]
