-- ===== src/Handler/Safe/Lobby.antt =====
-- Lobby.cpp: the tables of games after a match and after an accepted invitation.
use sea_battle.Base.{
  ℕ, ◌≡◌, refl, Bool, true, false, String, ◌==◌, Option, none, some, if◌then◌else◌, arith, find,
  find-assign, string_key, not, ◌||◌,
}
use sea_battle.Players.{Player, is_online_status}
use sea_battle.Players.Directory.{get_player}
use sea_battle.Game.Match.{Game}
use sea_battle.Game.Manager.{Manager, create_game}
use sea_battle.Lobby.{
  Hall, open_game, start_game, finish_match_players, try_match_players, finish_accept, leave_queue,
  remove_from_queue, accept_invite,
}
use sea_battle.Lobby.Queue.{try_match}
use sea_battle.Lobby.Invites.{accept_invite as accept_in_table}
use sea_battle.Handler.Safe.Games.{IsSafe, create_game-IsSafe}

-- The games after a game may have been opened under an identifier: they are safe, and no other
-- identifier is used for it.
abbrev pub Opened : String → Manager → Manager → Type 0
Opened id m m' =
    IsSafe m'
    × ((other : String) → (id == other) ≡ false → find m'.games other ≡ find m.games other)

if-Opened :
    (id : String) (m : Manager) (b : Bool) (x y : Hall × Option Game)
    → Opened id m x.0.games
    → Opened id m y.0.games
    → Opened id m (if b then x else y).0.games
if-Opened id m true x y h k = h
if-Opened id m false x y h k = k

module _ (id : String) (heads : Bool) where
  open_game-Opened :
      (l : Hall) (p1 p2 : Player)
      → IsSafe l.games
      → find l.games.games id ≡ none
      → Opened id l.games (open_game id heads l p1 p2).0.games
  unfolding open_game create_game
  open_game-Opened l p1 p2 v fresh = (
    create_game-IsSafe id heads l.games l.players p1 p2 v fresh,
    λ other differ. ground (
      arith,
      find-assign l.games.games id (create_game id heads l.games l.players p1 p2).2 other,
    ),
  )

  start_game-Opened :
      (l : Hall) (o1 o2 : Option Player)
      → IsSafe l.games
      → find l.games.games id ≡ none
      → Opened id l.games (start_game id heads l o1 o2).0.games
  start_game-Opened l none o2 v fresh = (v, λ other differ. refl)
  start_game-Opened l (some p1) none v fresh = (v, λ other differ. refl)
  start_game-Opened l (some p1) (some p2) v fresh =
      if-Opened id l.games (not (is_online_status p1.status) || not (is_online_status p2.status))
        (l, none) (open_game id heads l p1 p2) (v, λ other differ. refl)
        (open_game-Opened l p1 p2 v fresh)

  finish_match-Opened :
      (l : Hall) (pair : Option (String × String))
      → IsSafe l.games
      → find l.games.games id ≡ none
      → Opened id l.games (finish_match_players id heads l pair).0.games
  finish_match-Opened l none v fresh = (v, λ other differ. refl)
  finish_match-Opened l (some (guid1, guid2)) v fresh =
      start_game-Opened l (get_player l.players guid1) (get_player l.players guid2) v fresh

  pub try_match_players-Opened :
      (l : Hall)
      → IsSafe l.games
      → find l.games.games id ≡ none
      → Opened id l.games (try_match_players id heads (λ d. d) l).0.games
  unfolding try_match_players
  try_match_players-Opened l v fresh =
      finish_match-Opened (record l { queue = (try_match (get_player l.players) l.queue).0 }) _ v
        fresh

  finish_accept-Opened :
      (l : Hall) (pair : Option (String × String)) (from to : Option Player)
      → IsSafe l.games
      → find l.games.games id ≡ none
      → Opened id l.games (finish_accept id heads l pair from to).0.games
  unfolding leave_queue remove_from_queue
  finish_accept-Opened l none from to v fresh = (v, λ other differ. refl)
  finish_accept-Opened l (some pair) none to v fresh = (v, λ other differ. refl)
  finish_accept-Opened l (some pair) (some p1) none v fresh = (v, λ other differ. refl)
  finish_accept-Opened l (some pair) (some p1) (some p2) v fresh =
      if-Opened id l.games (not (is_online_status p1.status) || not (is_online_status p2.status))
        (l, none) (open_game id heads (leave_queue l p1.guid p2.guid) p1 p2)
        (v, λ other differ. refl) (open_game-Opened (leave_queue l p1.guid p2.guid) p1 p2 v fresh)

  pub accept_invite-Opened :
      (second now : ℕ) (l : Hall) (invite : String) (from to : Option Player)
      → IsSafe l.games
      → find l.games.games id ≡ none
      → Opened id l.games (accept_invite second now id heads l invite from to).0.games
  unfolding accept_invite
  accept_invite-Opened second now l invite from to v fresh =
      finish_accept-Opened (record l { invites = (accept_in_table second now l.invites invite).0 })
        _ from to v fresh
