-- ===== src/Tests/People.antt =====
-- Witnesses of the theorems on players, invitations, the queue and games together.
use sea_battle.Base.{
  ◌≤◌, ◌≡◌, refl, arith, Bool, true, not, ◌||◌, List, [], ◌∷◌, Option, none, some, String,
  String_discrete, ◌==◌, if◌then◌else◌, length, contains, string_key, Distinct, find, values_where,
  keep_if, for_each,
}
use sea_battle.Types.{PlayerStatus}
use sea_battle.Players.{Player, new_player, set_status}
use sea_battle.Players.Friends.{
  FriendList, new_friend_list, IsFriendList, add, call, changed, effective, is_friend,
  call-IsFriendList,
}
use sea_battle.Players.Directory.{Directory, get_player, find_or_create_player, nicknames}
use sea_battle.Players.Directory.Nicknames.{IsDirectory, find_or_create_player-IsDirectory}
use sea_battle.Lobby.Queue.{
  expired, add_player, try_match, is_in_queue, cleanup_expired, is_available, take_available,
}
use sea_battle.Lobby.Queue.Matching.{Matched, try_match-Matched, add_player-Distinct}
use sea_battle.Lobby.Invites.{InviteTable, is_active, create_invite, accept_invite, get_invite}
use sea_battle.Lobby.Invites.Active.{
  at_most_one_active, accept_invite_once, create_invite_lem, remove_invites_for_player_lem,
}
use sea_battle.Lobby.Invites.Active as Active
use sea_battle.Game.Manager.{Manager, no_games, create_game, get_game, get_game_by_player}
use sea_battle.Game.Manager.Players.{IsManager, Reach-IsManager, create_game_lem}
use sea_battle.Game.Manager.Players as Table
use sea_battle.Lobby.{Hall, try_match_players}
use sea_battle.Lobby.Meetings.{
  InGame, has_game, both_ready, try_match_players_lem, matched_players-InGame,
}

abbrev nobody : FriendList
nobody = new_friend_list "ann"

nobody-IsFriendList : IsFriendList nobody
unfolding new_friend_list is_friend contains
nobody-IsFriendList = record { no_self = refl; once = tt }

call-IsFriendList_example :
    IsFriendList (call nobody (add "bob")).0
    × ((call nobody (add "bob")).0.owner_guid ≡ nobody.owner_guid)
    × (is_friend (call nobody (add "bob")).0 "bob" ≡ changed nobody (add "bob") "bob")
    × ((call nobody (add "bob")).1 ≡ effective nobody (add "bob"))
call-IsFriendList_example = call-IsFriendList nobody (add "bob") "bob" nobody-IsFriendList

abbrev ann : Player
ann = set_status PlayerStatus.online (new_player "a" "Ann")

abbrev bob : Player
bob = set_status PlayerStatus.online (new_player "b" "Bob")

abbrev both : Directory
both = ("a", ann) ∷ ("b", bob) ∷ []

both-IsDirectory : IsDirectory both
unfolding set_status new_player contains String_discrete nicknames
both-IsDirectory = record {
  keys_once = (refl, (refl, tt));
  own = (refl, (refl, tt));
  nicknames_once = (refl, (refl, tt));
}

find_or_create_player-IsDirectory_example :
    (d' : Directory) × (p : Player) × (created : Bool) × (find_or_create_player "c" both "Cid"
      ≡ (d', p, created))
    × IsDirectory d'
    × (p.nickname ≡ "Cid")
    × (get_player d' p.guid ≡ some p)
    × (created ≡ not (contains (nicknames both) "Cid"))
unfolding contains String_discrete
find_or_create_player-IsDirectory_example =
    find_or_create_player-IsDirectory "c" both "Cid" both-IsDirectory refl

abbrev lock : String → Option Player
lock = get_player both

lock_own : (w : String) (p : Player) → lock w ≡ some p → p.guid ≡ w
unfolding get_player find set_status new_player
lock_own w p e = ground arith

abbrev waiting : List String
waiting = "a" ∷ "c" ∷ "b" ∷ []

try_match-Matched_example : Matched lock waiting (try_match lock waiting)
try_match-Matched_example = try_match-Matched lock waiting

add_player-Distinct_example :
    Distinct (add_player lock ("b" ∷ []) (some "a"))
    × (is_in_queue lock (add_player lock ("b" ∷ []) (some "a")) "b"
        ≡ ("a" == "b" || is_in_queue lock ("b" ∷ []) "b"))
unfolding contains expired get_player find String_discrete
add_player-Distinct_example = add_player-Distinct lock lock_own ("b" ∷ []) "a" "b" (refl, tt) refl

abbrev one_invite : InviteTable
one_invite = (create_invite 1 0 [] "i" "a" "b").0

at_most_one_active_example : length (values_where (is_active 1 5 "a" "b") one_invite) ≤ 1
unfolding contains
at_most_one_active_example = at_most_one_active 1 0 5 one_invite "a" "b" (
    Active.next (Active.next Active.here (Active.create "i" "a" "b" refl))
      (Active.wait (omega arith)))

accept_invite_once_example :
    ((accept_invite 1 5 one_invite "i").1 ≡ elim (get_invite 1 5 one_invite "i") [
      | some i ↦ some (i.from_guid, i.to_guid)
      | none ↦ none
    ])
    × (find (accept_invite 1 5 one_invite "i").0 "i"
        ≡ (if "i" == "i" then none else find one_invite "i"))
accept_invite_once_example = accept_invite_once 1 5 one_invite "i" "i"

abbrev first_game : Manager
first_game = (create_game "g" true no_games both ann bob).0

Reach-IsManager_example : IsManager first_game
unfolding find
Reach-IsManager_example =
    Reach-IsManager {m = first_game}
      (Table.next Table.here (Table.create "g" true both ann bob refl))

no_games-IsManager : IsManager no_games
no_games-IsManager = Reach-IsManager Table.here

create_game_lem_example :
    (get_game first_game "g" ≡ some (create_game "g" true no_games both ann bob).2)
    × (get_game_by_player first_game "a" ≡ (
        if ann.guid == "a" || bob.guid == "a"
        then some (create_game "g" true no_games both ann bob).2
        else get_game_by_player no_games "a"))
unfolding find
create_game_lem_example = create_game_lem "g" true no_games both ann bob "a" no_games-IsManager refl

abbrev hall : Hall
hall = record { queue = waiting; invites = []; games = no_games; players = both }

try_match_players_lem_example :
    ((try_match_players "g" true (λ d. d) hall).0.queue ≡ (try_match lock waiting).0)
    × (has_game (try_match_players "g" true (λ d. d) hall).1
        ≡ both_ready both (try_match lock waiting).1)
try_match_players_lem_example = try_match_players_lem "g" true (λ d. d) hall

matched_players-InGame_example : InGame "g" hall ann bob (try_match_players "g" true (λ d. d) hall)
unfolding try_match cleanup_expired take_available keep_if expired is_available get_player find
    String_discrete set_status new_player for_each
matched_players-InGame_example =
    matched_players-InGame "g" true hall "a" "b" ann bob no_games-IsManager refl refl refl refl refl
      refl
