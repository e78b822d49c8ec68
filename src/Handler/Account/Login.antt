-- ===== src/Handler/Account/Login.antt =====
-- MessageHandler.cpp, `handleAuth`: after a login the session, the player and the table of sessions
-- agree.
use sea_battle.Base.{
  ◌≡◌, ◌≢◌, true, pos, if◌then◌else◌, ◌⊎◌, refl, ap, ◌∙◌, inl, inr, Bool, false, not, ◌&&◌, String,
  ◌==◌, Option, none, some, arith, Bool-cases, find, assign, find-assign, contains, keys,
  string_key, number_key,
}
use sea_battle.Types.{SessionRef, PlayerStatus}
use sea_battle.Players.{Player, set_nickname, set_session, set_status, is_online}
use sea_battle.Players.Directory.{Directory, get_player, update, find-update, set_player_online}
use sea_battle.Players.Directory.Nicknames.{
  IsDirectory, find_or_create_player-IsDirectory, find_or_create_player-real, AllOwn-find,
}
use sea_battle.Game.Nickname.{is_valid_nickname}
use sea_battle.Network.Registry.{bind_player_to_session}
use sea_battle.Protocol.Payload.{JsonLibrary, extract_string}
use sea_battle.Handler.{
  World, Context, error_text, session_player, players_of, send, broadcast_message_except, bytes,
  given,
}
use sea_battle.Handler.Account.{
  handle_auth, auth_error, auth_named, auth_found, log_in, log_in_new, is_session, with_players,
  renamed, reconnect,
}

-- What a login leaves: the player of the session is online on this session, and the table of sessions
-- leads from his GUID to the number of this session.
pub record LoggedIn (c : Context) (w : World) (s : SessionRef) (nickname : String) : Type 0 where
  pub player : Player
  pub authenticated : session_player w s ≡ some player
  pub online : player.status ≡ PlayerStatus.online
  pub on_session : player.session ≡ some s
  pub bound : find w.registry.player_to_session player.guid ≡ some (c.session_id s)
  pub named : player.nickname ≡ nickname

-- A player of the nickname is in the directory and not offline.
abbrev pub InUse : World → String → Type 0
InUse w nickname =
    (p : Player) × (get_player (players_of w) p.guid ≡ some p)
    × (p.nickname ≡ nickname)
    × (p.status ≢ PlayerStatus.offline)

-- A login that was refused, for one of the two reasons that there are.
abbrev pub Refused : World → SessionRef → String → Type 0
Refused w s nickname =
    (session_player w s ≡ none) × ((is_valid_nickname (bytes nickname) ≡ false) ⊎ InUse w nickname)

abbrev pub Decided : Context → World → SessionRef → String → Type 0
Decided c w s nickname = Refused w s nickname ⊎ LoggedIn c w s nickname

online_in_use :
    (p : Player) (b : Bool) → (is_online p && b) ≡ true → p.status ≢ PlayerStatus.offline
unfolding is_online
online_in_use p b online = ground arith

empty_invalid : is_valid_nickname (bytes "") ≡ false
unfolding is_valid_nickname bytes
empty_invalid = refl

abbrev online_on : SessionRef → Player → Player
online_on s p = record p { status = PlayerStatus.online; session = some s }

online_player :
    (d : Directory) (p : Player) (s : SessionRef)
    → find d p.guid ≡ some p
    → find (set_player_online (update (set_session (some s)) d p.guid) p.guid (some s)).0 p.guid
      ≡ some (online_on s p)
unfolding set_player_online set_session set_status
online_player d p s there =
    let first = update (set_session (some s)) d p.guid in
    let once : find first p.guid ≡ some (record p { session = some s }) =
      ground (arith, find-update (set_session (some s)) d p.guid p.guid) in
    rw (set_player_online, once)
      (ground (
        arith,
        find-update (λ q. set_status PlayerStatus.online (set_session (some s) q)) first p.guid
            p.guid,
      ))

module _ (c : Context) where
  -- A player as he stands in the directory, whose GUID is not empty.
  abbrev Stands : World → Player → Type 0
  Stands w p = (get_player (players_of w) p.guid ≡ some p) × ((p.guid == "") ≡ false)

  log_in_lem :
      (w : World) (s : SessionRef) (p : Player) (nickname : String)
      → Stands w p
      → p.nickname ≡ nickname
      → (is_online p && not (is_session p.session s)) ≡ false
      → LoggedIn c (log_in c w s p) s nickname
  unfolding get_player session_player send broadcast_message_except bind_player_to_session
      set_player_online set_session set_status
  log_in_lem w s p nickname (there, real) named free =
      rw (free, real)
        record {
          player = online_on s p;
          authenticated =
              let mine : find (assign w.player_of s p.guid) s ≡ some p.guid =
                ground (arith, find-assign w.player_of s p.guid s) in
              rw mine (online_player w.hall.players p s there);
          online = refl;
          on_session = refl;
          bound =
              ground
                (arith, find-assign w.registry.player_to_session p.guid (c.session_id s) p.guid);
          named = named;
        }

  log_in-Decided :
      (w : World) (s : SessionRef) (p : Player) (nickname : String)
      → find w.player_of s ≡ none
      → Stands w p
      → p.nickname ≡ nickname
      → Decided c (log_in c w s p) s nickname
  unfolding session_player send
  log_in-Decided w s p nickname nobody stands named =
      elim (Bool-cases (is_online p && not (is_session p.session s))) [
        | inl taken ↦
            let busy = online_in_use p (not (is_session p.session s)) taken in
            inl (rw (taken, nobody) (refl, inr (p, stands.0, named, busy)))
        | inr free ↦ inr (log_in_lem w s p nickname stands named free)
      ]

  log_in_new-Decided :
      (w : World) (s : SessionRef) (d : Directory) (p : Player) (created : Bool) (nickname : String)
      → find w.player_of s ≡ none
      → Stands (with_players w d) p
      → p.nickname ≡ nickname
      → Decided c (log_in_new c w s (d, p, created)) s nickname
  unfolding session_player send
  log_in_new-Decided w s d p created nickname nobody stands named =
      elim (Bool-cases (not created && is_online p)) [
        | inl taken ↦
            let busy : p.status ≢ PlayerStatus.offline =
              online_in_use p (not created) (ground arith) in
            inl (rw (taken, nobody) (refl, inr (p, stands.0, named, busy)))
        | inr free ↦ rw free (log_in-Decided (with_players w d) s p nickname nobody stands named)
      ]

  -- The state before: the client has no player yet, the directory is sound, no GUID is empty, and the
  -- next new one is not in use.
  pub record IsReady (w : World) (s : SessionRef) : Type 0 where
    pub nobody : find w.player_of s ≡ none
    pub sound : IsDirectory (players_of w)
    pub no_empty : contains (keys (players_of w)) "" ≡ false
    pub real : (c.fresh 0 == "") ≡ false
    pub new : contains (keys (players_of w)) (c.fresh 0) ≡ false

  auth_found-Decided :
      (w : World) (s : SessionRef) (nickname : String) (found : Option Player)
      → IsReady w s
      → ((p : Player) → found ≡ some p → Stands w p)
      → Decided c (auth_found c w s nickname (renamed (players_of w) nickname found)) s nickname
  unfolding get_player set_nickname
  auth_found-Decided w s nickname none v stands =
      let d = players_of w in
      let (d', p, created, made, _, named, there, _) =
        find_or_create_player-IsDirectory (c.fresh 0) d nickname v.sound v.new in
      let real = find_or_create_player-real (c.fresh 0) d nickname v.sound v.no_empty v.real in
      rw made (log_in_new-Decided w s d' p created nickname v.nobody (there, rw made at real) named)
  auth_found-Decided w s nickname (some p) v stands = elim (Bool-cases (p.nickname == nickname)) [
    | inl same ↦ rw same (log_in-Decided w s p nickname v.nobody (stands p refl) (ground arith))
    | inr other ↦
        let (there, real) = stands p refl in
        rw other (
          log_in-Decided (with_players w (update (set_nickname nickname) (players_of w) p.guid)) s
            (set_nickname nickname p) nickname v.nobody
            (
              ground
                  (arith, find-update (set_nickname nickname) (players_of w) p.guid p.guid, there),
              real,
            )
            refl)
  ]

  reconnected-Decided :
      (w : World) (s : SessionRef) (nickname : String) (guid : Option String)
      → IsReady w s
      → Decided c (auth_found c w s nickname (reconnect (players_of w) nickname guid)) s nickname
  unfolding get_player
  reconnected-Decided w s nickname none v = auth_found-Decided w s nickname none v (λ p e. cc)
  reconnected-Decided w s nickname (some guid) v =
      auth_found-Decided w s nickname (get_player (players_of w) guid) v λ p e.
        let (own, listed) = AllOwn-find (players_of w) guid p v.sound.own e in
        let none_empty = v.no_empty in (ap (λ g. find (players_of w) g) own ∙ e, ground arith)

  checked-Decided :
      (w : World) (s : SessionRef) (nickname : String) (guid : Option String) (valid : Bool)
      → is_valid_nickname (bytes nickname) ≡ valid
      → IsReady w s
      → let answer =
          if not valid
          then auth_error c w s (error_text (pos 1001))
          else auth_found c w s nickname (reconnect (players_of w) nickname guid) in
        Decided c answer s nickname
  unfolding session_player send
  checked-Decided w s nickname guid false bad v = inl (rw v.nobody (refl, inl bad))
  checked-Decided w s nickname guid true good v = reconnected-Decided w s nickname guid v

  named-Decided :
      (w : World) (s : SessionRef) (nickname : String) (guid : Option String)
      → IsReady w s
      → Decided c (auth_named c w s (some nickname) guid) s nickname
  named-Decided w s nickname guid v = checked-Decided w s nickname (given guid) _ refl v

  given-Decided :
      (w : World) (s : SessionRef) (nickname : String) (guid : Option String)
      → IsReady w s
      → Decided c (auth_named c w s (given (some nickname)) guid) s nickname
  unfolding session_player send
  given-Decided w s nickname guid v = elim (Bool-cases (nickname == "")) [
    | inl empty ↦
        let nothing : nickname ≡ "" = ground arith in
        inl (rw (empty, v.nobody) (refl, inl (rw nothing empty_invalid)))
    | inr real ↦ rw real (named-Decided w s nickname guid v)
  ]

-- A login with a nickname in its payload, whether it has a GUID too or not, on a session without a
-- player and in a sound directory in which no GUID is empty and the next new one is not in use: either
-- the session has a player with this nickname who is online on this session, and the table of sessions
-- leads from his GUID to the number of the session; or it still has no player, and that only because
-- the nickname is not valid or a player with this nickname is in the directory and not offline.
pub handle_auth-Decided :
    (c : Context) {Json : Type 0} (lib : JsonLibrary Json) (w : World) (s : SessionRef)
    (payload : Json) (nickname : String)
    → IsReady c w s
    → extract_string lib payload "nickname" ≡ some nickname
    → Decided c (handle_auth c lib w s payload) s nickname
unfolding handle_auth session_player
handle_auth-Decided c lib w s payload nickname v named =
    rw (named, v.nobody) (given-Decided c w s nickname (extract_string lib payload "guid") v)
