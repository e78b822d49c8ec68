-- ===== src/Lobby/Meetings.antt =====
-- Lobby.cpp: two players meet, by the queue or by an invitation, and are in a game together.
use sea_battle.Base.{
  ◌≡◌, refl, inl, inr, Bool, true, false, ◌&&◌, ◌||◌, String, Option, none, some, arith,
  Option-cases, ◌==◌, if◌then◌else◌, string_key, find,
}
use sea_battle.Types.{PlayerStatus}
use sea_battle.Players.{Player, set_status, set_current_game_id, is_online_status}
use sea_battle.Players.Directory.{Directory, get_player, update, find-update, when_found}
use sea_battle.Game.Match.{Game}
use sea_battle.Game.Manager.{Manager, create_game, get_game_by_player}
use sea_battle.Game.Manager.Players.{IsManager, create_game_lem}
use sea_battle.Lobby.{
  Hall, open_game, start_game, try_match_players, finish_match_players, is_ready,
}
use sea_battle.Lobby.Queue.{try_match}

abbrev pub playing : String → Player → Player
playing id p = record p { status = PlayerStatus.in_game; current_game_id = some id }

-- Two players have got a game: everybody finds by his GUID the game that he plays in, and the two have
-- the status `InGame` and this game.
abbrev pub InGame : String → Hall → Player → Player → Hall × Option Game → Type 0
InGame id l p1 p2 (l', none) = ⊥
InGame id l p1 p2 (l', some game) =
    (guid : String)
    → (get_game_by_player l'.games guid ≡ (
        if p1.guid == guid || p2.guid == guid then some game else get_game_by_player l.games guid))
      × (get_player l'.players guid ≡ (
          if p1.guid == guid || p2.guid == guid
          then when_found (playing id) (get_player l.players guid)
          else get_player l.players guid))

create_game-players :
    (id : String) (heads : Bool) (m : Manager) (d : Directory) (p1 p2 : Player) (guid : String)
    → find (create_game id heads m d p1 p2).1 guid ≡ (
        if p1.guid == guid || p2.guid == guid
        then when_found (playing id) (find d guid)
        else find d guid)
unfolding create_game set_status set_current_game_id
create_game-players id heads m d p1 p2 guid = elim (Option-cases (find d guid)) [
  | inl nobody ↦ ground (
    arith,
    find-update (playing id) d p1.guid guid,
    find-update (playing id) (update (playing id) d p1.guid) p2.guid guid,
  )
  | inr (p, found) ↦ ground (
    arith,
    find-update (playing id) d p1.guid guid,
    find-update (playing id) (update (playing id) d p1.guid) p2.guid guid,
  )
]

pub open_game-InGame :
    (id : String) (heads : Bool) (l : Hall) (p1 p2 : Player)
    → IsManager l.games
    → find l.games.games id ≡ none
    → InGame id l p1 p2 (open_game id heads l p1 p2)
unfolding open_game get_player
open_game-InGame id heads l p1 p2 v fresh guid = (
  (create_game_lem id heads l.games l.players p1 p2 guid v fresh).1,
  create_game-players id heads l.games l.players p1 p2 guid,
)

abbrev pub has_game : Option Game → Bool
has_game none = false
has_game (some g) = true

abbrev pub both_ready : Directory → Option (String × String) → Bool
both_ready d none = false
both_ready d (some (guid1, guid2)) = is_ready (get_player d guid1) && is_ready (get_player d guid2)

start_game_lem :
    (id : String) (heads : Bool) (l : Hall) (o1 o2 : Option Player)
    → ((start_game id heads l o1 o2).0.queue ≡ l.queue)
      × (has_game (start_game id heads l o1 o2).1 ≡ (is_ready o1 && is_ready o2))
unfolding open_game
start_game_lem id heads l none o2 = (refl, refl)
start_game_lem id heads l (some p1) none = (refl, ground arith)
start_game_lem id heads l (some p1) (some p2) = ground arith

finish_match_players_lem :
    (id : String) (heads : Bool) (l : Hall) (pair : Option (String × String))
    → ((finish_match_players id heads l pair).0.queue ≡ l.queue)
      × (has_game (finish_match_players id heads l pair).1 ≡ both_ready l.players pair)
finish_match_players_lem id heads l none = (refl, refl)
finish_match_players_lem id heads l (some (guid1, guid2)) =
    start_game_lem id heads l (get_player l.players guid1) (get_player l.players guid2)

-- `tryMatchPlayers` opens a game exactly when the queue matches two players and both are still online
-- when they are looked at again; whether it does or not, the queue is the one that `tryMatch` leaves,
-- so that a pair that gets no game has lost its places.
pub try_match_players_lem :
    (id : String) (heads : Bool) (between : Directory → Directory) (l : Hall)
    → let (queue, pair) = try_match (get_player l.players) l.queue in
      let (l', game) = try_match_players id heads between l in
      (l'.queue ≡ queue) × (has_game game ≡ both_ready (between l.players) pair)
unfolding try_match_players
try_match_players_lem id heads between l =
    finish_match_players_lem id heads
      (record l {
        queue = (try_match (get_player l.players) l.queue).0;
        players = between l.players;
      })
      (try_match (get_player l.players) l.queue).1

start_game-InGame :
    (id : String) (heads : Bool) (l : Hall) (p1 p2 : Player)
    → IsManager l.games
    → find l.games.games id ≡ none
    → is_online_status p1.status ≡ true
    → is_online_status p2.status ≡ true
    → InGame id l p1 p2 (start_game id heads l (some p1) (some p2))
start_game-InGame id heads l p1 p2 v fresh online1 online2 =
    rw (online1, online2) (open_game-InGame id heads l p1 p2 v fresh)

-- When two players of the queue are matched and both are online, there is a new game and both are in
-- it: they find it by their GUIDs and have the status `InGame`; nobody else is touched.
pub matched_players-InGame :
    (id : String) (heads : Bool) (l : Hall) (guid1 guid2 : String) (p1 p2 : Player)
    → IsManager l.games
    → find l.games.games id ≡ none
    → (try_match (get_player l.players) l.queue).1 ≡ some (guid1, guid2)
    → get_player l.players guid1 ≡ some p1
    → get_player l.players guid2 ≡ some p2
    → is_online_status p1.status ≡ true
    → is_online_status p2.status ≡ true
    → InGame id l p1 p2 (try_match_players id heads (λ d. d) l)
unfolding try_match_players
matched_players-InGame id heads l guid1 guid2 p1 p2 v fresh matched found1 found2 online1 online2 =
    rw (matched, found1, found2)
      (start_game-InGame id heads
        (record l { queue = (try_match (get_player l.players) l.queue).0 }) p1 p2 v fresh online1
        online2)
