-- ===== src/Handler/Departure/Left.antt =====
-- Server.cpp: when the connection of a player in a game is lost.
use sea_battle.Base.{
  suc, ap, sym, [], ◌∷◌, keep_entries, ◌≡◌, ◌≢◌, refl, ◌∙◌, inl, inr, true, false, String, ◌==◌,
  none, some, if◌then◌else◌, arith, ok, string_key, number_key, find,
}
use sea_battle.Types.{SessionRef, PlayerStatus}
use sea_battle.Players.{Player, set_status, set_session, set_current_game_id}
use sea_battle.Players.Directory.{
  Directory, get_player, set_player_offline, find-update, when_found,
}
use sea_battle.Players.Directory.Nicknames.{logged_out}
use sea_battle.Game.Match.{Game, get_opponent_guid, is_finished, handle_disconnect, finish_game}
use sea_battle.Game.Match.Invariant.{IsPlayerGuid}
use sea_battle.Game.Manager.{on_game}
use sea_battle.Lobby.{handle_player_disconnect}
use sea_battle.Lobby.Queue.{is_in_queue}
use sea_battle.Lobby.Queue.Matching.{remove_player-is_in_queue}
use sea_battle.Lobby.Invites.{GameInvite, InviteTable, remove_invites_for_player}
use sea_battle.Network.Registry.{remove_session, get_session, get_session_by_player_guid}
use sea_battle.Network.Registry.Bindings.{remove_session_lem}
use sea_battle.Network.Departure.{end_game_of}
use sea_battle.Handler.{World, Context, with_hall, set_game, players_of, games_of}
use sea_battle.Handler.Ending.Settled.{winner_after, loser_after}
use sea_battle.Handler.Ending.Settled.{Settled}
use sea_battle.Handler.Ending.Forfeit.{forfeit, forfeit-winner, forfeit-Settled}
use sea_battle.Handler.Departure.{on_player_disconnect, on_session_error}

-- A player who has lost by leaving: offline, without session and game, and with one game more.
abbrev pub gone_after : Player → Player
gone_after p = record p {
  status = PlayerStatus.offline;
  session = none;
  current_game_id = none;
  stats = record p.stats { losses = suc p.stats.losses; games_played = suc p.stats.games_played };
}

-- An invitation that is neither from the player nor to him.
abbrev pub IsOther : String → GameInvite → Type 0
IsOther guid i = (i.from_guid ≢ guid) × (i.to_guid ≢ guid)

-- What the loss of a player's connection leaves behind: he is offline without session and game and
-- has a loss more, his opponent is online without a game and has a win more, nobody else is touched;
-- he is not in the queue, the invitations from him and to him are dropped and all others kept, and
-- the game is kept.
pub record Left (g : Game) (guid : String) (w w' : World) : Type 0 where
  pub players :
      (other : String)
      → get_player (players_of w') other ≡ (
          if guid == other
          then when_found gone_after (get_player (players_of w) other)
          else if get_opponent_guid g guid == other
          then when_found winner_after (get_player (players_of w) other)
          else get_player (players_of w) other)
  pub game :
      (h : Game) × (find (games_of w').games g.id ≡ some h)
      × (is_finished h ≡ true)
      × (h.winner_guid ≡ some (get_opponent_guid g guid))
  pub queue : is_in_queue (get_player (players_of w)) w'.hall.queue guid ≡ false
  pub invites : (id : String) (i : GameInvite) → find w'.hall.invites id ≡ some i → IsOther guid i
  pub others :
      (id : String) (i : GameInvite)
      → find w.hall.invites id ≡ some i
      → IsOther guid i
      → find w'.hall.invites id ≡ some i
  pub registry : w'.registry ≡ w.registry

left_invites :
    (m : InviteTable) (guid id : String) (i : GameInvite)
    → find (remove_invites_for_player m guid) id ≡ some i
    → IsOther guid i
unfolding remove_invites_for_player keep_entries find
left_invites [] guid id i found = cc
left_invites ((a, j) ∷ m) guid id i found = ground (arith, left_invites m guid id i)

other_invites :
    (m : InviteTable) (guid id : String) (i : GameInvite)
    → find m id ≡ some i
    → IsOther guid i
    → find (remove_invites_for_player m guid) id ≡ some i
unfolding remove_invites_for_player keep_entries find
other_invites [] guid id i found other = cc
other_invites ((a, j) ∷ m) guid id i found other = ground (arith, other_invites m guid id i)

offline :
    (d : Directory) (guid other : String)
    → get_player (set_player_offline d guid) other
      ≡ (if guid == other then when_found logged_out (get_player d other) else get_player d other)
unfolding set_player_offline set_status set_session set_current_game_id get_player
offline d guid other = find-update logged_out d guid other

players_left :
    (d d1 : Directory) (guid opponent other : String)
    → opponent ≢ guid
    → get_player d1 other ≡ (
        if opponent == other
        then when_found winner_after (get_player d other)
        else if guid == other
        then when_found loser_after (get_player d other)
        else get_player d other)
    → get_player (set_player_offline d1 guid) other ≡ (
        if guid == other
        then when_found gone_after (get_player d other)
        else if opponent == other
        then when_found winner_after (get_player d other)
        else get_player d other)
players_left d d1 guid opponent other differ settled =
    ground (arith, offline d1 guid other, settled)

module _ (c : Context) (w : World) (guid : String) (g : Game)
    (own : (v : String) (p : Player) → get_player (players_of w) v ≡ some p → p.guid ≡ v)
    (plays : find (games_of w).player_to_game guid ≡ some g.id)
    (known : find (games_of w).games g.id ≡ some g) (differ : g.player1.guid ≢ g.player2.guid)
    (player : IsPlayerGuid g guid) (going : is_finished g ≡ false) where
  apart : get_opponent_guid g guid ≢ guid
  unfolding get_opponent_guid
  apart = λ e. elim player [ inl first ↦ ground arith | inr second ↦ ground arith ]

  Settled-Left :
      (told : World)
      → Settled
          (forfeit g guid "disconnect")
          (get_opponent_guid g guid)
          guid
          (with_hall w (handle_player_disconnect w.hall guid))
          told
      → Left g guid w (
          with_hall told (record told.hall { players = set_player_offline told.hall.players guid }))
  unfolding handle_player_disconnect finish_game is_finished
  Settled-Left told e =
      let (h, kept, state, winner, _, _) = e.kept in
      let (over, is_winner, _) = forfeit-winner g guid "disconnect" player in
      record {
        players = λ other.
            players_left (players_of w) (players_of told) guid (get_opponent_guid g guid) other
              apart (e.players other);
        game = (h, kept, rw (is_finished, state) over, winner ∙ is_winner);
        queue = rw e.queue (
            ground (
              arith,
              remove_player-is_in_queue (get_player (players_of w)) own w.hall.queue guid guid,
            ));
        invites = λ id i found.
            left_invites w.hall.invites guid id i (ap (λ m. find m id) (sym e.invites) ∙ found);
        others = λ id i found other.
            ap (λ m. find m id) e.invites ∙ other_invites w.hall.invites guid id i found other;
        registry = e.registry;
      }

  ends_by_forfeit : handle_disconnect g guid ≡ forfeit g guid "disconnect"
  unfolding handle_disconnect is_finished
  ends_by_forfeit = rw going refl

  game_ended :
      let left = handle_player_disconnect w.hall guid in
      let g' = forfeit g guid "disconnect" in
      end_game_of left guid (find left.games.player_to_game guid)
      ≡ ((set_game (with_hall w left) g').hall, some g')
  unfolding handle_player_disconnect on_game finish_game
  game_ended = rw (plays, known, going, known, ends_by_forfeit) refl

  -- When the server learns that the player of a game under way has gone, the callback for the end of
  -- the game included: nothing is thrown; he is offline without session and game and has a loss more,
  -- his opponent is online without a game and has a win more, nobody else is touched; the game is over
  -- and the opponent its winner; he waits in the queue no more, the invitations from him and to him
  -- are dropped, and all others are kept.
  pub on_player_disconnect-Left :
      (w' : World) × (on_player_disconnect c w guid ≡ ok w') × Left g guid w w'
  unfolding on_player_disconnect
  on_player_disconnect-Left =
      let left = with_hall w (handle_player_disconnect w.hall guid) in
      let (told, done, e) = forfeit-Settled c left g guid "disconnect" differ player in
      (
        with_hall told (record told.hall { players = set_player_offline told.hall.players guid }),
        rw (game_ended, done) refl,
        Settled-Left told e,
      )

-- When the connection of a session has failed whose player is in a game under way: nothing is thrown;
-- the session is not in the table any more, nor is its player bound to one; he is offline without
-- session and game and has a loss more, his opponent is online without a game and has a win more, and
-- nobody else is touched; the game is over and the opponent its winner; the player waits in the queue
-- no more; the invitations from him and to him are dropped, and all others are kept.
pub on_session_error-Left :
    (c : Context) (w : World) (s : SessionRef) (guid : String) (g : Game)
    → ((v : String) (p : Player) → get_player (players_of w) v ≡ some p → p.guid ≡ v)
    → get_session w.registry (c.session_id s) ≡ some s
    → find w.player_of s ≡ some guid
    → (guid == "") ≡ false
    → find (games_of w).player_to_game guid ≡ some g.id
    → find (games_of w).games g.id ≡ some g
    → g.player1.guid ≢ g.player2.guid
    → IsPlayerGuid g guid
    → is_finished g ≡ false
    → let registry = (remove_session (λ r. find w.player_of r) w.registry (c.session_id s)).0 in
      (w' : World) × (on_session_error c w s ≡ ok w')
      × Left g guid (record w { registry = registry }) w'
      × (get_session w'.registry (c.session_id s) ≡ none)
      × (get_session_by_player_guid w'.registry guid ≡ none)
unfolding on_session_error
on_session_error-Left c w s guid g own there bound named plays known differ player going =
    let owner = λ (r : SessionRef). find w.player_of r in
    let id = c.session_id s in
    let (removed, unbound, callback) =
      remove_session_lem owner w.registry id id s guid there bound in
    let w1 = record w { registry = (remove_session owner w.registry id).0 } in
    let (w', done, left) =
      on_player_disconnect-Left c w1 guid g own plays known differ player going in
    (
      w',
      rw (callback, named) done,
      left,
      rw left.registry (removed ∙ ground arith),
      rw left.registry unbound,
    )
