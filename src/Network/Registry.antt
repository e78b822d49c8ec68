-- ===== src/Network/Registry.antt =====
-- server/src/network/SessionManager.cpp: the sessions by number, and the session of each player. A
-- `SessionPtr` is the number of the session object; what the methods ask of the object (its player and
-- whether it is open) is an argument. Each method holds the mutex, so it is one step.
pub mod Bindings
pub mod Abstract
use sea_battle.Base.{
  ℕ, suc, ◌+◌, ◌%◌, ◌^◌, Bool, true, false, not, ◌&&◌, ◌||◌, List, [], ◌∷◌, ◌++◌, map, String,
  String_discrete, holds, ◌==◌, Option, none, some, eqb, length, if◌then◌else◌, string_key,
  number_key, find, assign, remove, keys, keep_if,
}
use sea_battle.Types.{SessionRef}

pub record Registry : Type 0 where
  pub sessions : List (ℕ × SessionRef)
  pub player_to_session : List (String × ℕ)
  pub next_session_id : ℕ

abbrev pub new_registry : Registry
new_registry = record { sessions = []; player_to_session = []; next_session_id = 1 }

-- Returns the number that the session gets by `setId`; `next_session_id_` is a `uint64_t`. The argument
-- is none for a null pointer.
unfoldable pub add_session : Registry → Option SessionRef → Registry × Option ℕ
add_session r none = (r, none)
add_session r (some session) = (
  record r {
    sessions = assign r.sessions r.next_session_id session;
    next_session_id = (r.next_session_id + 1) % 2 ^ 64;
  },
  some r.next_session_id,
)

-- What `removeSession` does with a session of the table, by the GUID of its player.
abbrev pub remove_bound : Registry → ℕ → Option String → Registry × Option String
remove_bound r id none = (record r { sessions = remove r.sessions id }, none)
remove_bound r id (some guid) = (
  record r { sessions = remove r.sessions id; player_to_session = remove r.player_to_session guid },
  if guid == "" then none else some guid,
)

abbrev pub remove_found :
    (SessionRef → Option String) → Registry → ℕ → Option SessionRef → Registry × Option String
remove_found player_of r id none = (r, none)
remove_found player_of r id (some session) = remove_bound r id (player_of session)

-- `player_of` is the GUID of a session's player. Returns the GUID for which the disconnect callback is
-- called, if it is set.
unfoldable pub remove_session :
    (SessionRef → Option String) → Registry → ℕ → Registry × Option String
remove_session player_of r id = remove_found player_of r id (find r.sessions id)

unfoldable pub get_session : Registry → ℕ → Option SessionRef
get_session r id = find r.sessions id

abbrev pub session_at : Registry → Option ℕ → Option SessionRef
session_at r none = none
session_at r (some id) = find r.sessions id

unfoldable pub get_session_by_player_guid : Registry → String → Option SessionRef
get_session_by_player_guid r guid = session_at r (find r.player_to_session guid)

-- `id` is the number of the session, none for a null pointer.
unfoldable pub bind_player_to_session : Registry → String → Option ℕ → Registry
bind_player_to_session r guid none = r
bind_player_to_session r guid (some id) =
    if guid == "" then r else record r { player_to_session = assign r.player_to_session guid id }

unfoldable pub unbind_player : Registry → String → Registry
unbind_player r guid = record r { player_to_session = remove r.player_to_session guid }

-- The methods that send return the sessions to which they send.
module _ (is_open : SessionRef → Bool) where
  unfoldable pub broadcast : List (ℕ × SessionRef) → List SessionRef
  broadcast [] = []
  broadcast ((id, s) ∷ rest) = if is_open s then s ∷ broadcast rest else broadcast rest

  unfoldable pub broadcast_except : List (ℕ × SessionRef) → ℕ → List SessionRef
  broadcast_except [] excluded = []
  broadcast_except ((id, s) ∷ rest) excluded =
      if not (eqb id excluded) && is_open s
      then s ∷ broadcast_except rest excluded
      else broadcast_except rest excluded

  abbrev pub send_to : Option SessionRef → List SessionRef → List SessionRef
  send_to none rest = rest
  send_to (some s) rest = if is_open s then s ∷ rest else rest

  unfoldable pub broadcast_to_players : Registry → List String → List SessionRef
  broadcast_to_players r [] = []
  broadcast_to_players r (guid ∷ guids) =
      send_to (get_session_by_player_guid r guid) (broadcast_to_players r guids)

-- Every session is closed too.
unfoldable pub close_all : Registry → Registry
close_all r = record r { sessions = []; player_to_session = [] }

unfoldable pub get_session_count : Registry → ℕ
get_session_count r = length r.sessions

unfoldable pub get_authenticated_count : Registry → ℕ
get_authenticated_count r = length r.player_to_session
