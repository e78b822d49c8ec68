-- ===== src/Players/Friends.antt =====
-- server/src/player/FriendList.cpp: the friends of a player, a `std::set` of GUIDs.
use sea_battle.Base.{
  ℕ, ◌≡◌, refl, Bool, false, not, ◌&&◌, ◌||◌, List, [], String, ◌==◌, arith, length, if◌then◌else◌,
  string_key, contains, insert, erase, Distinct, contains-insert, insert-Distinct, contains-erase,
  erase-Distinct, inl, inr, Bool-cases,
}

pub record FriendList : Type 0 where
  pub owner_guid : String
  pub friends : List String

unfoldable pub new_friend_list : String → FriendList
new_friend_list owner = record { owner_guid = owner; friends = [] }

unfoldable pub add_friend : FriendList → String → FriendList × Bool
add_friend l guid =
    if guid == l.owner_guid
    then (l, false)
    else (record l { friends = insert guid l.friends }, not (contains l.friends guid))

unfoldable pub remove_friend : FriendList → String → FriendList × Bool
remove_friend l guid = (record l { friends = erase guid l.friends }, contains l.friends guid)

unfoldable pub is_friend : FriendList → String → Bool
is_friend l guid = contains l.friends guid

unfoldable pub get_friends : FriendList → List String
get_friends l = l.friends

unfoldable pub friends_size : FriendList → ℕ
friends_size l = length l.friends

-- Nobody is a friend of himself, and no friend is listed twice.
pub record IsFriendList (l : FriendList) : Type 0 where
  pub no_self : is_friend l l.owner_guid ≡ false
  pub once : Distinct l.friends

pub data Call : Type 0 where
  add : String → Call
  drop : String → Call

abbrev pub call : FriendList → Call → FriendList × Bool
call l (add guid) = add_friend l guid
call l (drop guid) = remove_friend l guid

-- The specification: what a call makes of the set of friends, and what it returns.
abbrev pub changed : FriendList → Call → String → Bool
changed l (add guid) friend = (guid == friend && not (guid == l.owner_guid)) || is_friend l friend
changed l (drop guid) friend = not (guid == friend) && is_friend l friend

abbrev pub effective : FriendList → Call → Bool
effective l (add guid) = not (guid == l.owner_guid) && not (is_friend l guid)
effective l (drop guid) = is_friend l guid

-- Adding and removing friends changes the set of friends as asked, except that a player does not
-- become his own friend; the call returns whether anything changed, and the list stays sound.
pub call-IsFriendList :
    (l : FriendList) (c : Call) (friend : String)
    → IsFriendList l
    → IsFriendList (call l c).0
      × ((call l c).0.owner_guid ≡ l.owner_guid)
      × (is_friend (call l c).0 friend ≡ changed l c friend)
      × ((call l c).1 ≡ effective l c)
unfolding add_friend remove_friend is_friend
call-IsFriendList l (add guid) friend v = elim (Bool-cases (guid == l.owner_guid)) [
  | inl self ↦ rw self (v, refl, ground arith, refl)
  | inr other ↦ rw other (
    record {
      no_self = ground (arith, contains-insert guid l.friends l.owner_guid, v.no_self);
      once = insert-Distinct guid l.friends v.once;
    },
    refl,
    ground (arith, contains-insert guid l.friends friend),
    refl,
  )
]
call-IsFriendList l (drop guid) friend v = (
  record {
    no_self = ground (arith, contains-erase guid l.friends l.owner_guid v.once, v.no_self);
    once = erase-Distinct guid l.friends v.once;
  },
  refl,
  ground (arith, contains-erase guid l.friends friend v.once),
  refl,
)
