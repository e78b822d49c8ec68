-- ===== src/Network/Registry/Bindings.antt =====
-- SessionManager.cpp: whom a message reaches.
use sea_battle.Base.{
  ℕ, ◌≡◌, refl, Bool, false, List, [], ◌∷◌, String, ◌==◌, Option, none, some, eqb, arith,
  if◌then◌else◌, string_key, number_key, find, assign, remove, find-assign, find-remove,
}
use sea_battle.Types.{SessionRef}
use sea_battle.Network.Registry.{
  Registry, add_session, remove_session, get_session, get_session_by_player_guid,
  bind_player_to_session, broadcast, broadcast_except,
}

-- After a new session was added and a player was bound to it, the session is found by its number and
-- by the player's GUID; the sessions of all other numbers are found as before.
pub add_and_bind :
    (r : Registry) (s : SessionRef) (guid : String) (other : ℕ)
    → (guid == "") ≡ false
    → let (r1, id) = add_session r (some s) in
      let r2 = bind_player_to_session r1 guid id in
      (get_session_by_player_guid r2 guid ≡ some s)
      × (get_session r2 other
          ≡ (if eqb r.next_session_id other then some s else get_session r other))
unfolding add_session bind_player_to_session get_session get_session_by_player_guid
add_and_bind r s guid other named =
    let bound : find (assign r.player_to_session guid r.next_session_id) guid
        ≡ some r.next_session_id =
      ground (arith, find-assign r.player_to_session guid r.next_session_id guid) in
    rw (named, bound)
      (
        ground (arith, find-assign r.sessions r.next_session_id s r.next_session_id),
        ground (arith, find-assign r.sessions r.next_session_id s other),
      )

-- Removing a session that is in the table: no session has its number any more and all others stay; the
-- player of the session is bound to no session any more, even if he was bound to another one by then,
-- and the disconnect callback gets his GUID if it is not empty.
pub remove_session_lem :
    (player_of : SessionRef → Option String) (r : Registry) (id other : ℕ) (s : SessionRef)
    (guid : String)
    → get_session r id ≡ some s
    → player_of s ≡ some guid
    → let (r', callback) = remove_session player_of r id in
      (get_session r' other ≡ (if eqb id other then none else get_session r other))
      × (get_session_by_player_guid r' guid ≡ none)
      × (callback ≡ (if guid == "" then none else some guid))
unfolding remove_session get_session get_session_by_player_guid
remove_session_lem player_of r id other s guid there player =
    let unbound : find (remove r.player_to_session guid) guid ≡ none =
      ground (arith, find-remove r.player_to_session guid guid) in
    rw (there, player, unbound) (ground (arith, find-remove r.sessions id other), refl, refl)

-- `broadcastExcept` sends to the sessions that `broadcast` sends to, but for those with the number.
pub broadcast_except-eq :
    (is_open : SessionRef → Bool) (sessions : List (ℕ × SessionRef)) (excluded : ℕ)
    → broadcast_except is_open sessions excluded ≡ broadcast is_open (remove sessions excluded)
unfolding broadcast_except broadcast remove
broadcast_except-eq is_open [] excluded = refl
broadcast_except-eq is_open ((id, s) ∷ rest) excluded =
    ground (arith, broadcast_except-eq is_open rest excluded)
