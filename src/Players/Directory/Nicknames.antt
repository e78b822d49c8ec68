-- ===== src/Players/Directory/Nicknames.antt =====
-- PlayerManager.cpp: a nickname belongs to one player, and logging in and out.
use sea_battle.Base.{
  ◌≡◌, refl, Bool, true, false, not, ◌||◌, List, [], ◌∷◌, map, Option, none, some, String, ◌==◌,
  arith, length, if◌then◌else◌, string_key, contains, Distinct, find, assign, values_where, keys,
  find-assign, assign-Distinct, inl, inr, Bool-cases, Option-cases,
}
use sea_battle.Types.{PlayerStatus, SessionRef}
use sea_battle.Players.{
  Player, new_player, set_status, set_session, set_current_game_id, to_player_info,
}
use sea_battle.Players.Directory.{
  Directory, update, get_player, get_player_by_nickname, find_or_create_player, player_exists,
  set_player_online, set_player_offline, get_online_players, get_online_count, nicknames,
  find-update, when_found,
}

-- Every entry stands under its player's GUID.
abbrev pub AllOwn : Directory → Type 0
AllOwn [] = Unit {0}
AllOwn ((g, p) ∷ d) = (p.guid ≡ g) × AllOwn d

pub record IsDirectory (d : Directory) : Type 0 where
  pub keys_once : Distinct (keys d)
  pub own : AllOwn d
  pub nicknames_once : Distinct (nicknames d)

by_nickname_none :
    (d : Directory) (n : String)
    → get_player_by_nickname d n ≡ none
    → contains (nicknames d) n ≡ false
unfolding get_player_by_nickname nicknames contains
by_nickname_none [] n e = refl
by_nickname_none ((g, p) ∷ d) n e = ground (arith, by_nickname_none d n)

by_nickname_some :
    (d : Directory) (n : String) (q : Player)
    → Distinct (keys d)
    → AllOwn d
    → get_player_by_nickname d n ≡ some q
    → (q.nickname ≡ n)
      × (contains (nicknames d) n ≡ true)
      × (find d q.guid ≡ some q)
      × (contains (keys d) q.guid ≡ true)
unfolding get_player_by_nickname nicknames contains find
by_nickname_some [] n q k o e = ground arith
by_nickname_some ((g, p) ∷ d) n q k o e = elim (Bool-cases (p.nickname == n)) [
  | inl here ↦ let same : p ≡ q = ground arith in ground arith
  | inr there ↦
      let (named, listed, found, known) = by_nickname_some d n q k.1 o.1 (ground arith) in
      (named, ground arith, ground arith, ground arith)
]

nicknames-assign :
    (d : Directory) (g : String) (q : Player) (c : String)
    → contains (keys d) g ≡ false
    → contains (nicknames (assign d g q)) c ≡ (q.nickname == c || contains (nicknames d) c)
unfolding nicknames contains assign
nicknames-assign [] g q c n = refl
nicknames-assign ((b, p) ∷ d) g q c n = ground (arith, nicknames-assign d g q c)

assign-own :
    (d : Directory) (g : String) (q : Player)
    → contains (keys d) g ≡ false
    → q.guid ≡ g
    → AllOwn d
    → AllOwn (assign d g q)
unfolding contains assign
assign-own [] g q n e o = (e, tt)
assign-own ((b, p) ∷ d) g q n e o = ground (arith, assign-own d g q)

assign-nicknames :
    (d : Directory) (g : String) (q : Player)
    → contains (keys d) g ≡ false
    → contains (nicknames d) q.nickname ≡ false
    → Distinct (nicknames d)
    → Distinct (nicknames (assign d g q))
unfolding contains assign nicknames
assign-nicknames [] g q n m u = (refl, tt)
assign-nicknames ((b, p) ∷ d) g q n m u =
    ground (arith, assign-nicknames d g q, nicknames-assign d g q p.nickname)

-- `findOrCreatePlayer`, with a new GUID: no two players ever have the same nickname; the player that
-- it returns has the nickname asked for and is the one in the directory under his GUID; it creates
-- him exactly when nobody had the nickname.
pub find_or_create_player-IsDirectory :
    (guid : String) (d : Directory) (nickname : String)
    → IsDirectory d
    → contains (keys d) guid ≡ false
    → (d' : Directory) × (p : Player) × (created : Bool) × (find_or_create_player guid d nickname
        ≡ (d', p, created))
      × IsDirectory d'
      × (p.nickname ≡ nickname)
      × (get_player d' p.guid ≡ some p)
      × (created ≡ not (contains (nicknames d) nickname))
unfolding find_or_create_player get_player new_player
find_or_create_player-IsDirectory guid d nickname v fresh =
    elim (Option-cases (get_player_by_nickname d nickname)) [
      | inl unknown ↦
          let free = by_nickname_none d nickname unknown in
          (
            assign d guid (new_player guid nickname),
            new_player guid nickname,
            true,
            rw (find_or_create_player, unknown),
            record {
              keys_once = assign-Distinct d guid (new_player guid nickname) v.keys_once;
              own = assign-own d guid (new_player guid nickname) fresh refl v.own;
              nicknames_once =
                  assign-nicknames d guid (new_player guid nickname) fresh free v.nicknames_once;
            },
            refl,
            ground (arith, find-assign d guid (new_player guid nickname) guid),
            rw free,
          )
      | inr (p, known) ↦
          let (named, listed, found, _) = by_nickname_some d nickname p v.keys_once v.own known in
          (d, p, false, rw (find_or_create_player, known), v, named, found, rw listed)
    ]

-- The GUID of the player that it returns is not empty, when no GUID is.
pub find_or_create_player-real :
    (guid : String) (d : Directory) (nickname : String)
    → IsDirectory d
    → contains (keys d) "" ≡ false
    → (guid == "") ≡ false
    → ((find_or_create_player guid d nickname).1.guid == "") ≡ false
unfolding find_or_create_player new_player
find_or_create_player-real guid d nickname v none_empty real =
    elim (Option-cases (get_player_by_nickname d nickname)) [
      | inl unknown ↦ rw (find_or_create_player, unknown) real
      | inr (p, known) ↦
          let (_, _, _, listed) = by_nickname_some d nickname p v.keys_once v.own known in
          rw (find_or_create_player, known) (ground arith)
    ]

pub AllOwn-find :
    (d : Directory) (guid : String) (p : Player)
    → AllOwn d
    → find d guid ≡ some p
    → (p.guid ≡ guid) × (contains (keys d) guid ≡ true)
unfolding find contains
AllOwn-find [] guid p o e = ground arith
AllOwn-find ((g, q) ∷ d) guid p o e = ground (arith, AllOwn-find d guid p o.1)

module _ (f : Player → Player) (same_guid : (p : Player) → (f p).guid ≡ p.guid)
    (same_name : (p : Player) → (f p).nickname ≡ p.nickname) where
  keys-update : (d : Directory) (guid : String) → keys (update f d guid) ≡ keys d
  unfolding update
  keys-update [] guid = refl
  keys-update ((g, p) ∷ d) guid = ground (arith, keys-update d guid)

  own-update : (d : Directory) (guid : String) → AllOwn d → AllOwn (update f d guid)
  unfolding update
  own-update [] guid o = tt
  own-update ((g, p) ∷ d) guid o = ground (arith, own-update d guid o.1, same_guid p)

  nicknames-update : (d : Directory) (guid : String) → nicknames (update f d guid) ≡ nicknames d
  unfolding update nicknames
  nicknames-update [] guid = refl
  nicknames-update ((g, p) ∷ d) guid = ground (arith, nicknames-update d guid, same_name p)

  pub update-IsDirectory :
      (d : Directory) (guid : String) → IsDirectory d → IsDirectory (update f d guid)
  update-IsDirectory d guid v = record {
    keys_once = rw (keys-update d guid) v.keys_once;
    own = own-update d guid v.own;
    nicknames_once = rw (nicknames-update d guid) v.nicknames_once;
  }

-- What the directory knows of a player after he logged in on a session.
abbrev pub logged_in : Option SessionRef → Player → Player
logged_in session p = record p { status = PlayerStatus.online; session = session }

abbrev pub logged_out : Player → Player
logged_out p = record p { status = PlayerStatus.offline; session = none; current_game_id = none }

-- Logging in, which succeeds exactly for a known player, makes him online on the given session, and
-- logging out afterwards makes him offline without a session and a game; nobody else is touched, and
-- the directory stays sound.
pub log_in_and_out :
    (d : Directory) (guid c : String) (session : Option SessionRef)
    → IsDirectory d
    → let (d', done) = set_player_online d guid session in
      let d'' = set_player_offline d' guid in
      (done ≡ player_exists d guid)
      × IsDirectory d''
      × (find d' c ≡ (if guid == c then when_found (logged_in session) (find d c) else find d c))
      × (find d'' c ≡ (if guid == c then when_found logged_out (find d c) else find d c))
unfolding set_player_online set_player_offline player_exists set_status set_session
    set_current_game_id
log_in_and_out d guid c session v = elim (Option-cases (find d guid)) [
  | inl unknown ↦
      rw (set_player_online, player_exists, unknown)
        (
          refl,
          update-IsDirectory logged_out (λ p. refl) (λ p. refl) d guid v,
          ground (arith, unknown),
          ground (arith, find-update logged_out d guid c, unknown),
        )
  | inr (p, known) ↦
      rw (set_player_online, player_exists, known)
        (
          refl,
          update-IsDirectory logged_out (λ p. refl) (λ p. refl) _ guid
              (update-IsDirectory (logged_in session) (λ p. refl) (λ p. refl) d guid v),
          ground (arith, find-update (logged_in session) d guid c),
          ground (
            arith,
            find-update (logged_in session) d guid c,
            find-update logged_out (update (logged_in session) d guid) guid c,
          ),
        )
]

length-map_infos : (ps : List Player) → length (map to_player_info ps) ≡ length ps
length-map_infos [] = refl
length-map_infos (p ∷ ps) = ground (arith, length-map_infos ps)

-- `getOnlineCount` is the length of `getOnlinePlayers`.
pub get_online_count-eq_length :
    (d : Directory) → get_online_count d ≡ length (get_online_players d)
unfolding get_online_count get_online_players values_where
get_online_count-eq_length [] = refl
get_online_count-eq_length ((g, p) ∷ d) = ground (arith, get_online_count-eq_length d)
