-- ===== src/Lobby.antt =====
-- server/src/lobby: the queue of waiting players, invitations, and the lobby (Lobby.cpp) that turns
-- a match or an accepted invitation into a game.
pub mod Queue
pub mod Invites
pub mod Meetings
pub mod Invited
use sea_battle.Base.{
  ℕ, Bool, true, false, not, ◌&&◌, ◌||◌, List, [], ◌∷◌, String, Option, none, some, if◌then◌else◌,
}
use sea_battle.Players.{Player, is_online_status}
use sea_battle.Players.Directory.{Directory, get_player}
use sea_battle.Lobby.Queue.{add_player, remove_player, try_match, is_in_queue, get_queue_size}
use sea_battle.Lobby.Invites.{
  InviteTable, GameInvite, create_invite, decline_invite, cancel_invite, remove_invites_for_player,
  get_invite, get_invites_for_player, get_invites_from_player, has_active_invite,
}
use sea_battle.Lobby.Invites.{accept_invite as accept_in_table, cleanup_expired as cleanup_table}
use sea_battle.Game.Match.{Game}
use sea_battle.Game.Manager.{Manager, create_game}

-- The lobby with what it reaches through pointers: the games and the players.
pub record Hall : Type 0 where
  pub queue : List String
  pub invites : InviteTable
  pub games : Manager
  pub players : Directory

abbrev pub is_ready : Option Player → Bool
is_ready none = false
is_ready (some p) = is_online_status p.status

unfoldable pub add_to_queue : Hall → Option String → Hall
add_to_queue l none = l
add_to_queue l (some guid) =
    if is_ready (get_player l.players guid)
    then record l { queue = add_player (get_player l.players) l.queue (some guid) }
    else l

unfoldable pub remove_from_queue : Hall → String → Hall
remove_from_queue l guid = record l { queue = remove_player (get_player l.players) l.queue guid }

-- The call of `createGame` at the end of both ways to a game.
unfoldable pub open_game : String → Bool → Hall → Player → Player → Hall × Option Game
open_game id heads l p1 p2 =
    let (games, players, game) = create_game id heads l.games l.players p1 p2 in
    (record l { games = games; players = players }, some game)

-- What `tryMatchPlayers` and `acceptInvite` do with two players: null pointers and players who are
-- not online get no game.
abbrev pub start_game : String → Bool → Hall → Option Player → Option Player → Hall × Option Game
start_game id heads l (some p1) (some p2) =
    if not (is_online_status p1.status) || not (is_online_status p2.status)
    then (l, none)
    else open_game id heads l p1 p2
start_game id heads l _ _ = (l, none)

abbrev pub finish_match_players :
    String → Bool → Hall → Option (String × String) → Hall × Option Game
finish_match_players id heads l none = (l, none)
finish_match_players id heads l (some (guid1, guid2)) =
    start_game id heads l (get_player l.players guid1) (get_player l.players guid2)

-- `between` is what other threads do to the players after `tryMatch` has let go of its mutex and
-- before the statuses are read again.
unfoldable pub try_match_players :
    String → Bool → (Directory → Directory) → Hall → Hall × Option Game
try_match_players id heads between l =
    let (queue, pair) = try_match (get_player l.players) l.queue in
    finish_match_players id heads (record l { queue = queue; players = between l.players }) pair

-- Both players leave the queue when they get a game by invitation.
unfoldable pub leave_queue : Hall → String → String → Hall
leave_queue l guid1 guid2 = remove_from_queue (remove_from_queue l guid1) guid2

abbrev pub finish_accept :
    String
    → Bool
    → Hall
    → Option (String × String)
    → Option Player
    → Option Player
    → Hall × Option Game
finish_accept id heads l none from to = (l, none)
finish_accept id heads l (some pair) (some p1) (some p2) =
    if not (is_online_status p1.status) || not (is_online_status p2.status)
    then (l, none)
    else open_game id heads (leave_queue l p1.guid p2.guid) p1 p2
finish_accept id heads l (some pair) _ _ = (l, none)

module _ (second now : ℕ) where
  unfoldable pub send_invite : Hall → String → String → String → Hall × String
  send_invite l id from to =
      let (invites, made) = create_invite second now l.invites id from to in
      (record l { invites = invites }, made)

  unfoldable pub accept_invite :
      String → Bool → Hall → String → Option Player → Option Player → Hall × Option Game
  accept_invite id heads l invite from to =
      let (invites, pair) = accept_in_table second now l.invites invite in
      finish_accept id heads (record l { invites = invites }) pair from to

  unfoldable pub cleanup_expired_invites : Hall → Hall
  cleanup_expired_invites l = record l { invites = cleanup_table second now l.invites }

unfoldable pub decline : Hall → String → Hall × Bool
decline l id =
    let (invites, done) = decline_invite l.invites id in (record l { invites = invites }, done)

unfoldable pub cancel : Hall → String → String → Hall × Bool
cancel l id from =
    let (invites, done) = cancel_invite l.invites id from in (record l { invites = invites }, done)

unfoldable pub handle_player_disconnect : Hall → String → Hall
handle_player_disconnect l guid = record l {
  queue = remove_player (get_player l.players) l.queue guid;
  invites = remove_invites_for_player l.invites guid;
}
