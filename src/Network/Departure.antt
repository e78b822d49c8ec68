-- ===== src/Network/Departure.antt =====
-- server/src/network/Server.cpp, `onPlayerDisconnect`: what happens to the lobby, the games and the
-- players when the session of a player has gone.
use sea_battle.Base.{
  ◌≡◌, refl, true, false, not, String, Option, none, some, arith, if◌then◌else◌, string_key, find,
  find-assign,
}
use sea_battle.Players.{Player, set_status, set_session, set_current_game_id}
use sea_battle.Players.Directory.{
  Directory, get_player, set_player_offline, find-update, when_found,
}
use sea_battle.Players.Directory.Nicknames.{logged_out}
use sea_battle.Game.Match.{
  Game, is_player, is_finished, get_opponent_guid, handle_disconnect, finish_game,
}
use sea_battle.Game.Manager.{Manager, on_game, get_game_by_player}
use sea_battle.Lobby.Queue.{is_in_queue}
use sea_battle.Lobby.Queue.Matching.{remove_player-is_in_queue}
use sea_battle.Lobby.Invites.{remove_invites_for_player}
use sea_battle.Lobby.{Hall, handle_player_disconnect}

-- The game under way, by its identifier, is ended by the disconnection; it is also returned, for the
-- callback.
abbrev pub end_found : Hall → String → String → Option Game → Hall × Option Game
end_found l guid id none = (l, none)
end_found l guid id (some g) =
    if not (is_finished g)
    then (
      record l { games = (on_game (λ g. handle_disconnect g guid) l.games id).0 },
      some (handle_disconnect g guid),
    )
    else (l, none)

abbrev pub end_game_of : Hall → String → Option String → Hall × Option Game
end_game_of l guid none = (l, none)
end_game_of l guid (some id) = end_found l guid id (find l.games.games id)

unfoldable pub on_player_disconnect : Hall → String → Hall × Option Game
on_player_disconnect l guid =
    let left = handle_player_disconnect l guid in
    let (ended, game) = end_game_of left guid (find left.games.player_to_game guid) in
    (record ended { players = set_player_offline ended.players guid }, game)

opponent_wins :
    (g : Game) (guid : String)
    → is_player g guid ≡ true
    → is_finished g ≡ false
    → (is_finished (handle_disconnect g guid) ≡ true)
      × ((handle_disconnect g guid).winner_guid ≡ some (get_opponent_guid g guid))
      × ((handle_disconnect g guid).game_over_reason ≡ "disconnect")
unfolding is_player is_finished handle_disconnect finish_game get_opponent_guid
opponent_wins g guid plays going = ground arith

offline :
    (d : Directory) (guid : String)
    → find (set_player_offline d guid) guid ≡ when_found logged_out (find d guid)
unfolding set_player_offline set_status set_session set_current_game_id
offline d guid = ground (arith, find-update logged_out d guid guid)

on_game_found :
    (f : Game → Game) (m : Manager) (guid id : String) (g : Game)
    → find m.player_to_game guid ≡ some id
    → find m.games id ≡ some g
    → get_game_by_player (on_game f m id).0 guid ≡ some (f g)
unfolding get_game_by_player on_game
on_game_found f m guid id g there known =
    rw (on_game, known, there) (ground (arith, find-assign m.games id (f g) id))

-- What is left of a player who has gone.
abbrev pub Gone : Hall → String → Hall → Type 0
Gone l guid l' =
    (find l'.players guid ≡ when_found logged_out (find l.players guid))
    × (is_in_queue (get_player l.players) l'.queue guid ≡ false)
    × (l'.invites ≡ remove_invites_for_player l.invites guid)

-- When a player in a game under way disconnects, the game ends with the reason `disconnect` and the
-- opponent as its winner, and is found as such by the GUID of the player; he is offline without a
-- session and a game, and in the queue no more, and the invitations from him and to him are dropped.
pub on_player_disconnect-Gone :
    (l : Hall) (guid id : String) (g : Game)
    → ((w : String) (p : Player) → get_player l.players w ≡ some p → p.guid ≡ w)
    → find l.games.player_to_game guid ≡ some id
    → find l.games.games id ≡ some g
    → is_player g guid ≡ true
    → is_finished g ≡ false
    → let (l', game) = on_player_disconnect l guid in
      Gone l guid l'
      × (get_game_by_player l'.games guid ≡ some (handle_disconnect g guid))
      × (game ≡ some (handle_disconnect g guid))
      × (is_finished (handle_disconnect g guid) ≡ true)
      × ((handle_disconnect g guid).winner_guid ≡ some (get_opponent_guid g guid))
      × ((handle_disconnect g guid).game_over_reason ≡ "disconnect")
unfolding on_player_disconnect handle_player_disconnect
on_player_disconnect-Gone l guid id g own there known plays going =
    let (over, winner, reason) = opponent_wins g guid plays going in
    rw (there, known, going)
      (
        (
          offline l.players guid,
          ground (arith, remove_player-is_in_queue (get_player l.players) own l.queue guid guid),
          refl,
        ),
        on_game_found (λ g. handle_disconnect g guid) l.games guid id g there known,
        refl,
        over,
        winner,
        reason,
      )
