-- ===== src/Handler/Account.antt =====
-- MessageHandler.cpp: logging in, the lists of players and friends, and the statistics.
pub mod Login
use sea_battle.Base.{
  Bool, true, false, not, ◌&&◌, List, [], ◌∷◌, String, ◌==◌, Option, none, some, eqb, if◌then◌else◌,
  pos, number_key, string_key, assign,
}
use sea_battle.Types.{SessionRef, PlayerStatus, FriendInfo}
use sea_battle.Players.{Player, set_nickname, set_session, is_online}
use sea_battle.Players.Friends.{add_friend, remove_friend, get_friends}
use sea_battle.Players.Directory.{
  Directory, get_player, update, find_or_create_player, player_exists, set_player_online,
  get_online_players,
}
use sea_battle.Game.Nickname.{is_valid_nickname}
use sea_battle.Network.Registry.{bind_player_to_session}
use sea_battle.Protocol.Messages.{Message}
use sea_battle.Protocol.Payload.{JsonLibrary, extract_string}
use sea_battle.Handler.{
  World, Context, with_hall, on_player, session_player, players_of, error_text, send, send_error,
  broadcast_message_except, bytes, given, first_given,
}

-- The player of the GUID in the request, who gets the nickname in it.
abbrev pub renamed : Directory → String → Option Player → Directory × Option Player
renamed d nickname none = (d, none)
renamed d nickname (some p) =
    if not (p.nickname == nickname)
    then (update (set_nickname nickname) d p.guid, some (set_nickname nickname p))
    else (d, some p)

abbrev pub reconnect : Directory → String → Option String → Directory × Option Player
reconnect d nickname none = (d, none)
reconnect d nickname (some guid) = renamed d nickname (get_player d guid)

-- `player->getSession().lock() == session`, for a session that is alive.
abbrev pub is_session : Option SessionRef → SessionRef → Bool
is_session none s = false
is_session (some r) s = eqb r s

abbrev pub with_players : World → Directory → World
with_players w d = with_hall w (record w.hall { players = d })

-- The loop of `handleGetFriends`: the friends who are in the directory.
abbrev pub with_info : String → Option Player → List FriendInfo → List FriendInfo
with_info guid none rest = rest
with_info guid (some p) rest =
    record { guid = guid; nickname = p.nickname; status = p.status } ∷ rest

unfoldable pub friend_infos : Directory → List String → List FriendInfo
friend_infos d [] = []
friend_infos d (guid ∷ guids) = with_info guid (get_player d guid) (friend_infos d guids)

abbrev pub stats_target : World → Player → Option String → Option Player
stats_target w player none = some player
stats_target w player (some guid) = get_player (players_of w) guid

module _ (c : Context) where
  abbrev pub auth_error : World → SessionRef → String → World
  auth_error w s text = send c w s (Message.auth_error (pos 1001) text)

  -- The changes of a login that is accepted.
  abbrev pub bind_session : World → SessionRef → String → World
  bind_session w s guid = record w {
    hall = record w.hall {
      players =
          (set_player_online (update (set_session (some s)) w.hall.players guid) guid (some s)).0;
    };
    registry = bind_player_to_session w.registry guid (some (c.session_id s));
    player_of = assign w.player_of s guid;
  }

  -- The end of `handleAuth`, with the player who was found or made.
  abbrev pub log_in : World → SessionRef → Player → World
  log_in w s p =
      if is_online p && not (is_session p.session s)
      then auth_error w s "Аккаунт уже используется"
      else broadcast_message_except c
          (Message.player_status_changed p.guid PlayerStatus.online none) (c.session_id s)
          (send c (bind_session w s p.guid) s (Message.auth_response true p.guid p.nickname))

  abbrev pub log_in_new : World → SessionRef → Directory × Player × Bool → World
  log_in_new w s (d, p, was_created) =
      if not was_created && is_online p
      then auth_error (with_players w d) s "Никнейм уже занят"
      else log_in (with_players w d) s p

  abbrev pub auth_found : World → SessionRef → String → Directory × Option Player → World
  auth_found w s nickname (d, some p) = log_in (with_players w d) s p
  auth_found w s nickname (d, none) = log_in_new w s (find_or_create_player (c.fresh 0) d nickname)

  abbrev pub auth_named : World → SessionRef → Option String → Option String → World
  auth_named w s none guid = auth_error w s "Никнейм не указан"
  auth_named w s (some nickname) guid =
      if not (is_valid_nickname (bytes nickname))
      then auth_error w s (error_text (pos 1001))
      else auth_found w s nickname (reconnect (players_of w) nickname (given guid))

  abbrev pub auth_as : World → SessionRef → Option Player → Option String → Option String → World
  auth_as w s (some p) nickname guid = auth_error w s "Уже авторизован"
  auth_as w s none nickname guid = auth_named w s (given nickname) guid

  unfoldable pub handle_get_players : World → SessionRef → World
  handle_get_players w s = send c w s (Message.player_list (get_online_players (players_of w)))

  -- `player` is the player of the session, in the next handlers too.
  abbrev pub befriend : World → SessionRef → Player → Option String → World
  befriend w s player none = send_error c w s (pos 3001)
  befriend w s player (some guid) =
      if guid == player.guid
      then send_error c w s (pos 5002)
      else if not (player_exists (players_of w) guid)
      then send_error c w s (pos 3001)
      else if not (add_friend player.friends guid).1
      then send_error c w s (pos 5001)
      else send c
          (on_player (λ p. record p { friends = (add_friend p.friends guid).0 }) player.guid w) s
          (Message.success "add_friend")

  abbrev pub unfriend : World → SessionRef → Player → Option String → World
  unfriend w s player none = send_error c w s (pos 3001)
  unfriend w s player (some guid) =
      send c
        (on_player (λ p. record p { friends = (remove_friend p.friends guid).0 }) player.guid w) s
        (Message.success "remove_friend")

  unfoldable pub handle_get_friends : World → SessionRef → Player → World
  handle_get_friends w s player =
      send c w s (Message.friend_list (friend_infos (players_of w) (get_friends player.friends)))

  abbrev pub show_stats : World → SessionRef → Option Player → World
  show_stats w s none = send_error c w s (pos 3001)
  show_stats w s (some p) = send c w s (Message.stats_response p.guid p.nickname p.stats)

  module _ {Json : Type 0} (lib : JsonLibrary Json) where
    unfoldable pub handle_auth : World → SessionRef → Json → World
    handle_auth w s payload =
        auth_as w s (session_player w s) (extract_string lib payload "nickname")
          (extract_string lib payload "guid")

    unfoldable pub handle_add_friend : World → SessionRef → Player → Json → World
    handle_add_friend w s player payload =
        befriend w s player (
          first_given (extract_string lib payload "guid")
            (extract_string lib payload "friend_guid"))

    unfoldable pub handle_remove_friend : World → SessionRef → Player → Json → World
    handle_remove_friend w s player payload =
        unfriend w s player (given (extract_string lib payload "friend_guid"))

    unfoldable pub handle_get_stats : World → SessionRef → Player → Json → World
    handle_get_stats w s player payload = show_stats w s (
        stats_target w player (
          first_given (extract_string lib payload "guid")
            (extract_string lib payload "player_guid")))
