-- ===== src/Players/Directory.antt =====
-- server/src/player/PlayerManager.cpp: the directory of all players by GUID. The map owns the player
-- objects and never drops one, so a `shared_ptr<Player>` that it hands out is the player's GUID, and
-- a call through the pointer is `update`. Each method holds the mutex, so it is one step. The GUID
-- that `GuidGenerator::generate` returns is an argument.
pub mod Nicknames
use sea_battle.Base.{
  ℕ, suc, ◌+◌, ◌≤◌, ◌≡◌, ◌≢◌, refl, Bool, true, false, not, ◌&&◌, ◌||◌, List, [], ◌∷◌, map, Option,
  none, some, String, String_discrete, holds, ◌==◌, arith, length, if◌then◌else◌, string_key,
  contains, Distinct, find, assign, values_where, any_value, keys, find-assign, assign-Distinct,
  contains-keys-assign, inl, inr, Bool-cases, Option-cases,
}
use sea_battle.Types.{PlayerStatus, PlayerInfo, SessionRef}
use sea_battle.Players.{
  Player, new_player, set_status, set_session, set_current_game_id, is_online, to_player_info,
}

abbrev pub Directory : Type 0
Directory = List (String × Player)

-- A call through the `shared_ptr` of a player.
unfoldable pub update : (Player → Player) → Directory → String → Directory
update f [] guid = []
update f ((g, p) ∷ d) guid = if g == guid then (g, f p) ∷ d else (g, p) ∷ update f d guid

unfoldable pub get_player : Directory → String → Option Player
get_player d guid = find d guid

-- The first player of the loop with the nickname.
unfoldable pub get_player_by_nickname : Directory → String → Option Player
get_player_by_nickname [] nickname = none
get_player_by_nickname ((g, p) ∷ d) nickname =
    if p.nickname == nickname then some p else get_player_by_nickname d nickname

module _ (guid : String) where
  unfoldable pub create_player : Directory → String → Directory × Option Player
  create_player d nickname =
      if any_value (λ p. p.nickname == nickname && is_online p) d
      then (d, none)
      else (assign d guid (new_player guid nickname), some (new_player guid nickname))

  -- Returns the directory, the player and `wasCreated`.
  unfoldable pub find_or_create_player : Directory → String → Directory × Player × Bool
  find_or_create_player d nickname = elim (get_player_by_nickname d nickname) [
    | some p ↦ (d, p, false)
    | none ↦ (assign d guid (new_player guid nickname), new_player guid nickname, true)
  ]

unfoldable pub player_exists : Directory → String → Bool
player_exists d guid = elim (find d guid) [ some _ ↦ true | none ↦ false ]

unfoldable pub set_player_online : Directory → String → Option SessionRef → Directory × Bool
set_player_online d guid session = elim (find d guid) [
  | none ↦ (d, false)
  | some _ ↦ (update (λ p. set_status PlayerStatus.online (set_session session p)) d guid, true)
]

unfoldable pub set_player_offline : Directory → String → Directory
set_player_offline d guid =
    update (λ p. set_current_game_id none (set_status PlayerStatus.offline (set_session none p))) d
      guid

unfoldable pub get_online_players : Directory → List PlayerInfo
get_online_players d = map to_player_info (values_where is_online d)

unfoldable pub get_all_players : Directory → List PlayerInfo
get_all_players [] = []
get_all_players ((g, p) ∷ d) = to_player_info p ∷ get_all_players d

unfoldable pub get_player_count : Directory → ℕ
get_player_count d = length d

unfoldable pub get_online_count : Directory → ℕ
get_online_count [] = 0
get_online_count ((g, p) ∷ d) = if is_online p then suc (get_online_count d) else get_online_count d

abbrev pub when_found : (Player → Player) → Option Player → Option Player
when_found f none = none
when_found f (some p) = some (f p)

pub find-update :
    (f : Player → Player) (d : Directory) (guid c : String)
    → find (update f d guid) c ≡ (if guid == c then when_found f (find d c) else find d c)
unfolding find update
find-update f [] guid c = ground arith
find-update f ((g, p) ∷ d) guid c = ground (arith, find-update f d guid c)

-- The nicknames, one of each entry.
unfoldable pub nicknames : Directory → List String
nicknames [] = []
nicknames ((g, p) ∷ d) = p.nickname ∷ nicknames d
