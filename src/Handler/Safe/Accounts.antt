-- ===== src/Handler/Safe/Accounts.antt =====
-- MessageHandler.cpp: logging in, friends, statistics and new invitations, by what they do to the games.
use sea_battle.Base.{
  ◌≡◌, refl, inl, inr, not, ◌&&◌, String, Option, none, some, arith, Bool-cases, number_key,
  string_key,
}
use sea_battle.Types.{SessionRef}
use sea_battle.Players.{Player, is_online}
use sea_battle.Players.Directory.{Directory, find_or_create_player}
use sea_battle.Game.Nickname.{is_valid_nickname}
use sea_battle.Lobby.{send_invite}
use sea_battle.Protocol.Payload.{JsonLibrary}
use sea_battle.Handler.{
  World, Context, games_of, session_player, send, send_error, send_to_player, given, bytes,
  broadcast_message_except,
}
use sea_battle.Handler.Account.{
  handle_auth, befriend, unfriend, show_stats, log_in, auth_found, auth_named, auth_as, is_session,
  with_players,
}
use sea_battle.Handler.Meeting.{invite_found, invite_target}

abbrev pub SameGames : World → World → Type 0
SameGames w w' = games_of w' ≡ games_of w

module _ (c : Context) where
  pub befriend-SameGames :
      (w : World) (s : SessionRef) (p : Player) (target : Option String)
      → SameGames w (befriend c w s p target)
  unfolding send send_error
  befriend-SameGames w s p none = refl
  befriend-SameGames w s p (some guid) = ground arith

  pub unfriend-SameGames :
      (w : World) (s : SessionRef) (p : Player) (target : Option String)
      → SameGames w (unfriend c w s p target)
  unfolding send send_error
  unfriend-SameGames w s p none = refl
  unfriend-SameGames w s p (some guid) = refl

  pub show_stats-SameGames :
      (w : World) (s : SessionRef) (target : Option Player) → SameGames w (show_stats c w s target)
  unfolding send send_error
  show_stats-SameGames w s none = refl
  show_stats-SameGames w s (some p) = refl

  invite_found-SameGames :
      (w : World) (s : SessionRef) (p : Player) (guid : String) (target : Option Player)
      → SameGames w (invite_found c w s p guid target)
  unfolding send send_error send_to_player send_invite
  invite_found-SameGames w s p guid none = refl
  invite_found-SameGames w s p guid (some q) = ground arith

  pub invite_target-SameGames :
      (w : World) (s : SessionRef) (p : Player) (target : Option String)
      → SameGames w (invite_target c w s p target)
  unfolding send send_error
  invite_target-SameGames w s p none = refl
  invite_target-SameGames w s p (some guid) = invite_found-SameGames w s p guid _

  log_in-SameGames : (w : World) (s : SessionRef) (p : Player) → SameGames w (log_in c w s p)
  unfolding send broadcast_message_except
  log_in-SameGames w s p = elim (Bool-cases (is_online p && not (is_session p.session s))) [
    | inl taken ↦ rw taken refl
    | inr free ↦ rw free refl
  ]

  auth_found-SameGames :
      (w : World) (s : SessionRef) (nickname : String) (found : Directory × Option Player)
      → SameGames w (auth_found c w s nickname found)
  unfolding send
  auth_found-SameGames w s nickname (d, some p) = log_in-SameGames (with_players w d) s p
  auth_found-SameGames w s nickname (d, none) =
      let (d', p, created) = find_or_create_player (c.fresh 0) d nickname in
      elim (Bool-cases (not created && is_online p)) [
        | inl taken ↦ rw taken refl
        | inr free ↦ rw free (log_in-SameGames (with_players w d') s p)
      ]

  auth_named-SameGames :
      (w : World) (s : SessionRef) (nickname guid : Option String)
      → SameGames w (auth_named c w s nickname guid)
  unfolding send
  auth_named-SameGames w s none guid = refl
  auth_named-SameGames w s (some nickname) guid =
      elim (Bool-cases (is_valid_nickname (bytes nickname))) [
        | inr bad ↦ rw bad refl
        | inl good ↦ rw good (auth_found-SameGames w s nickname _)
      ]

  auth_as-SameGames :
      (w : World) (s : SessionRef) (p : Option Player) (nickname guid : Option String)
      → SameGames w (auth_as c w s p nickname guid)
  unfolding send
  auth_as-SameGames w s (some p) nickname guid = refl
  auth_as-SameGames w s none nickname guid = auth_named-SameGames w s (given nickname) guid

  pub handle_auth-SameGames :
      {Json : Type 0} (lib : JsonLibrary Json) (w : World) (s : SessionRef) (payload : Json)
      → SameGames w (handle_auth c lib w s payload)
  unfolding handle_auth
  handle_auth-SameGames lib w s payload = auth_as-SameGames w s (session_player w s) _ _
