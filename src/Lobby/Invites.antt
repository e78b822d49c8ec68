-- ===== src/Lobby/Invites.antt =====
-- server/src/lobby/InviteManager.cpp: invitations by their identifiers. Each method holds the mutex,
-- so it is one step. `now` is what the steady clock shows, in ticks, and `second` is the number of
-- ticks in a second; the identifier that `GuidGenerator::generate` returns is an argument.
pub mod Active
use sea_battle.Base.{
  ℕ, ◌-◌, ◌*◌, Bool, true, false, not, ◌&&◌, ◌||◌, List, [], ◌∷◌, String, String_discrete, holds,
  ◌==◌, Option, none, some, ltb, length, if◌then◌else◌, string_key, find, assign, remove,
  keep_entries, values_where, any_value,
}
use sea_battle.Types.{invite_timeout}

pub record GameInvite : Type 0 where
  pub id : String
  pub from_guid : String
  pub to_guid : String
  pub created_at : ℕ

abbrev pub InviteTable : Type 0
InviteTable = List (String × GameInvite)

abbrev pub new_invite : ℕ → String → String → String → GameInvite
new_invite now id from to = record { id = id; from_guid = from; to_guid = to; created_at = now }

module _ (second now : ℕ) where
  unfoldable pub is_expired : GameInvite → Bool
  is_expired i = ltb (invite_timeout * second) (now - i.created_at)

  abbrev pub is_active : String → String → GameInvite → Bool
  is_active from to i = i.from_guid == from && i.to_guid == to && not (is_expired i)

  -- Returns the new identifier, or the empty text.
  unfoldable pub create_invite : InviteTable → String → String → String → InviteTable × String
  create_invite invites id from to =
      if any_value (is_active from to) invites
      then (invites, "")
      else (assign invites id (new_invite now id from to), id)

  unfoldable pub get_invite : InviteTable → String → Option GameInvite
  get_invite invites id = elim (find invites id) [
    | some i ↦ if is_expired i then none else some i
    | none ↦ none
  ]

  unfoldable pub accept_invite : InviteTable → String → InviteTable × Option (String × String)
  accept_invite invites id = elim (find invites id) [
    | none ↦ (invites, none)
    | some i ↦
        if is_expired i
        then (remove invites id, none)
        else (remove invites id, some (i.from_guid, i.to_guid))
  ]

  unfoldable pub get_invites_for_player : InviteTable → String → List GameInvite
  get_invites_for_player invites guid =
      values_where (λ i. i.to_guid == guid && not (is_expired i)) invites

  unfoldable pub get_invites_from_player : InviteTable → String → List GameInvite
  get_invites_from_player invites guid =
      values_where (λ i. i.from_guid == guid && not (is_expired i)) invites

  unfoldable pub cleanup_expired : InviteTable → InviteTable
  cleanup_expired invites = keep_entries (λ i. not (is_expired i)) invites

  unfoldable pub has_active_invite : InviteTable → String → String → Bool
  has_active_invite invites from to = any_value (is_active from to) invites

unfoldable pub decline_invite : InviteTable → String → InviteTable × Bool
decline_invite invites id = elim (find invites id) [
  | some i ↦ (remove invites id, true)
  | none ↦ (invites, false)
]

unfoldable pub cancel_invite : InviteTable → String → String → InviteTable × Bool
cancel_invite invites id from = elim (find invites id) [
  | some i ↦ if i.from_guid == from then (remove invites id, true) else (invites, false)
  | none ↦ (invites, false)
]

unfoldable pub remove_invites_for_player : InviteTable → String → InviteTable
remove_invites_for_player invites guid =
    keep_entries (λ i. not (i.from_guid == guid || i.to_guid == guid)) invites

unfoldable pub get_invite_count : InviteTable → ℕ
get_invite_count invites = length invites
