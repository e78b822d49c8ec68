-- ===== src/Handler/Safe/Games.antt =====
-- Game.cpp and GameManager.cpp: what the calls of the handlers do to a game's players and to the tables.
use sea_battle.Base.{
  ◌≡◌, refl, ap, ◌∙◌, inl, inr, Bool, ◌&&◌, List, String, ◌==◌, none, some, arith, Bool-cases,
  Option-cases, ℤ, ok, throw, Throws, find, find-assign, string_key,
}
use sea_battle.Types.{ShotResult, ShipPlacement, SessionRef, CellInfo}
use sea_battle.Players.{Player}
use sea_battle.Players.Directory.{Directory}
use sea_battle.Game.Board.{Board, shoot}
use sea_battle.Game.Board.View.{get_full_state, get_fog_of_war}
use sea_battle.Game.Match.{
  Game, GamePlayer, is_placing, is_player, is_battle, get_game_player, get_opponent_game_player,
  set_game_player, set_opponent_game_player, place_ships, start_battle, after_shot, switch_turn,
  finish_game, shoot_at, surrender, handle_disconnect, add_spectator, cleanup_spectators,
  notify_spectators, get_board_full_state, get_board_fog_of_war, new_game,
}
use sea_battle.Game.Match.Invariant.{IsPlayerGuid}
use sea_battle.Game.Match.Steps.{place_ships-eq, deployed_player, get_game_player_some}
use sea_battle.Game.Rules.{validate_placement}
use sea_battle.Game.Manager.{Manager, create_game, get_game_by_player}
use sea_battle.Game.Manager.Players.{IsManager, create_game-IsManager}
use sea_battle.Handler.{World, games_of, set_game}

-- Whoever is in the table of players plays in the game that it names, and each game stands under its
-- own identifier.
pub record IsSafe (m : Manager) : Type 0 where
  pub players : IsManager m
  pub named : (id : String) (g : Game) → find m.games id ≡ some g → g.id ≡ id

-- A game after a call: the identifier and the players are the same.
abbrev pub SameFrame : Game → Game → Type 0
SameFrame g g' =
    (g'.id ≡ g.id) × (g'.player1.guid ≡ g.player1.guid) × (g'.player2.guid ≡ g.player2.guid)

abbrev pub Framed : {A : Type 0} → Game → Throws (Game × A) → Type 0
Framed g (ok (g', a)) = SameFrame g g'
Framed g (throw e) = ⊥

pub start_battle-SameFrame : (g : Game) → SameFrame g (start_battle g)
unfolding start_battle
start_battle-SameFrame g = ground arith

pub surrender-SameFrame : (g : Game) (guid : String) → SameFrame g (surrender g guid)
unfolding surrender finish_game
surrender-SameFrame g guid = ground arith

pub handle_disconnect-SameFrame :
    (g : Game) (guid : String) → SameFrame g (handle_disconnect g guid)
unfolding handle_disconnect finish_game
handle_disconnect-SameFrame g guid = ground arith

pub add_spectator-SameFrame :
    (alive : SessionRef → Bool) (g : Game) (s : SessionRef) → SameFrame g (add_spectator alive g s)
unfolding add_spectator cleanup_spectators
add_spectator-SameFrame alive g s = (refl, refl, refl)

pub notify_spectators-SameFrame :
    (alive : SessionRef → Bool) (g : Game) → SameFrame g (notify_spectators alive g).0
unfolding notify_spectators cleanup_spectators
notify_spectators-SameFrame alive g = (refl, refl, refl)

after_shot-SameFrame :
    (h : Game) (shooter : String) (x y : ℤ) (b : Board) (r : ShotResult)
    → SameFrame h (after_shot h shooter x y b r).0
unfolding after_shot switch_turn finish_game
after_shot-SameFrame h shooter x y b r = ground arith

opponent_frame :
    (g : Game) (shooter : String)
    → IsPlayerGuid g shooter
    → (q : GamePlayer) × (get_opponent_game_player g shooter ≡ ok q)
      × ((b : Board) → SameFrame g (set_opponent_game_player g shooter (record q { board = b })))
unfolding get_opponent_game_player set_opponent_game_player
opponent_frame g shooter plays = elim (Bool-cases (shooter == g.player1.guid)) [
  | inl first ↦ (g.player2, rw first refl, λ b. rw first (refl, refl, refl))
  | inr second ↦ (g.player1, ground (arith, plays), λ b. rw second (refl, refl, refl))
]

pub trans-SameFrame : (g h k : Game) → SameFrame g h → SameFrame h k → SameFrame g k
trans-SameFrame g h k a b = ground arith

pub shoot_at-Framed :
    (g : Game) (shooter : String) (x y : ℤ)
    → IsPlayerGuid g shooter
    → Framed g (shoot_at g shooter x y)
unfolding shoot_at
shoot_at-Framed g shooter x y plays = elim (Bool-cases (is_battle g.state)) [
  | inr peace ↦ rw peace (refl, refl, refl)
  | inl battle ↦ rw battle elim (Bool-cases (g.current_turn_guid == shooter)) [
    | inr other ↦ rw other (refl, refl, refl)
    | inl mine ↦
        let (q, found, frame) = opponent_frame g shooter plays in
        let (b, r) = shoot q.board (x, y) in
        let h = set_opponent_game_player g shooter (record q { board = b }) in
        rw (mine, found)
          (trans-SameFrame g h (after_shot h shooter x y b r).0 (frame b)
            (after_shot-SameFrame h shooter x y b r))
  ]
]

deployed-SameFrame :
    (g : Game) (guid : String) (p : GamePlayer) (ships : List ShipPlacement)
    → get_game_player g guid ≡ ok p
    → SameFrame g (set_game_player g guid (deployed_player p ships))
unfolding set_game_player get_game_player
deployed-SameFrame g guid p ships found = elim (Bool-cases (guid == g.player1.guid)) [
  | inl first ↦ rw first (refl, ground arith, refl)
  | inr other ↦ rw other (refl, refl, ground arith)
]

pub place_ships-Framed :
    (g : Game) (guid : String) (ships : List ShipPlacement)
    → IsPlayerGuid g guid
    → Framed g (place_ships g guid ships)
place_ships-Framed g guid ships plays =
    let (p, found, made) = place_ships-eq g guid ships plays in
    rw made elim (Bool-cases (is_placing g.state && (validate_placement ships).valid)) [
      | inl accepted ↦ rw accepted (deployed-SameFrame g guid p ships found)
      | inr refused ↦ rw refused (refl, refl, refl)
    ]

-- A game that is stored again after a call.
pub set_game-IsSafe :
    (w : World) (g g' : Game)
    → IsSafe (games_of w)
    → find (games_of w).games g.id ≡ some g
    → SameFrame g g'
    → IsSafe (games_of (set_game w g')) × (find (games_of (set_game w g')).games g'.id ≡ some g')
unfolding is_player
set_game-IsSafe w g g' v stored (same, first, second) =
    let m = games_of w in
    (
      record {
        players = λ guid id there.
            let (h, found, plays) = v.players guid id there in
            elim (Bool-cases (g'.id == id)) [
              | inl this ↦ (g', ground (arith, find-assign m.games g'.id g' id), ground arith)
              | inr that ↦ (h, ground (arith, find-assign m.games g'.id g' id), plays)
            ];
        named = λ id h found. ground (arith, find-assign m.games g'.id g' id, v.named id h);
      },
      ground (arith, find-assign m.games g'.id g' g'.id),
    )

pub create_game-IsSafe :
    (id : String) (heads : Bool) (m : Manager) (d : Directory) (p1 p2 : Player)
    → IsSafe m
    → find m.games id ≡ none
    → IsSafe (create_game id heads m d p1 p2).0
unfolding create_game new_game
create_game-IsSafe id heads m d p1 p2 v fresh = record {
  players = create_game-IsManager id heads m d p1 p2 v.players fresh;
  named = λ other h found.
      let new = new_game id (p1.guid, p1.nickname) (p2.guid, p2.nickname) heads in
      ground (arith, find-assign m.games id new other, v.named other h);
}

-- The game that a player finds is stored under its identifier, and he plays it.
pub get_game_by_player_lem :
    (m : Manager) (guid : String) (g : Game)
    → IsSafe m
    → get_game_by_player m guid ≡ some g
    → (find m.games g.id ≡ some g) × IsPlayerGuid g guid
unfolding get_game_by_player is_player
get_game_by_player_lem m guid g v e = elim (Option-cases (find m.player_to_game guid)) [
  | inl nowhere ↦ let missing : none ≡ some g = rw nowhere at e in cc
  | inr (id, there) ↦
      let stored : find m.games id ≡ some g = rw there at e in
      let (h, found, plays) = v.players guid id there in
      (ap (λ i. find m.games i) (v.named id g stored) ∙ stored, ground arith)
]

module _ (g : Game) (guid : String) (plays : IsPlayerGuid g guid) where
  pub full_state_found : (cells : List CellInfo) × (get_board_full_state g guid ≡ ok cells)
  unfolding get_board_full_state
  full_state_found =
      let (p, found) = get_game_player_some g guid plays in (get_full_state p.board, rw found refl)

  pub fog_of_war_found : (cells : List CellInfo) × (get_board_fog_of_war g guid ≡ ok cells)
  unfolding get_board_fog_of_war
  fog_of_war_found =
      let (p, found) = get_game_player_some g guid plays in (get_fog_of_war p.board, rw found refl)
