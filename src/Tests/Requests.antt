-- ===== src/Tests/Requests.antt =====
-- Witnesses of the theorems on the requests of clients and on lost connections.
use sea_battle.Base.{
  ◌≡◌, refl, inl, inr, arith, true, false, List, [], ◌∷◌, String, String_discrete, none, some, eqb,
  ok, pos, if◌then◌else◌, find, assign, contains, string_key, number_key, for_each,
}
use native.Mathlib.Decide.{ℕ_discrete}
use sea_battle.Types.{PlayerStatus, ShotResultInfo}
use sea_battle.Players.{Player, new_player, set_status}
use sea_battle.Players.Directory.{Directory, get_player, nicknames}
use sea_battle.Players.Directory.Nicknames.{IsDirectory}
use sea_battle.Game.Match.{
  Game, is_finished, surrender, get_opponent_guid, new_game, set_game_player, start_battle,
  shoot_at,
}
use sea_battle.Game.Manager.{Manager, no_games, get_game_by_player}
use sea_battle.Network.Registry.{Registry, remove_session, get_session, get_session_by_player_guid}
use sea_battle.Protocol.Payload.{ParseResult, parse_message, extract_string, extract_coordinates}
use sea_battle.Handler.{World, Context, session_player, players_of, games_of, send}
use sea_battle.Handler.Account.{handle_auth}
use sea_battle.Handler.Account.Login.{IsReady, Decided, handle_auth-Decided}
use sea_battle.Handler.Meeting.{handle_find_game}
use sea_battle.Handler.Meeting.Matchmaking.{AllMatched, handle_find_game-AllMatched}
use sea_battle.Handler.Ending.Settled.{Settled}
use sea_battle.Handler.Playing.{handle_surrender, handle_shoot}
use sea_battle.Handler.Playing.Surrender.{handle_surrender-Settled}
use sea_battle.Handler.Playing.Shooting.{Shot, handle_shoot-Shot}
use sea_battle.Handler.Dispatch.{handle_message}
use sea_battle.Handler.Dispatch.Sessions.{OnlyOwn, is_auth, handle_message-OnlyOwn}
use sea_battle.Handler.Departure.{on_session_error}
use sea_battle.Handler.Departure.Left.{Left, on_session_error-Left}
use sea_battle.Game.Board.{
  new_board, clear, is_valid_coordinate, around, neighbours, has_adjacent_ship, can_place_ship,
  draw_cells, add_ship, place_ship, place_placement, surround_cell, get_surrounding_cells,
  mark_surrounding_as_miss, hit_first, finish_shot, shoot_cell, shoot, are_all_ships_sunk,
  find_ship, get_ship_at,
}
use sea_battle.Game.Ship.{cells_from, line_cells, new_ship, contains_cell, hit, is_sunk}
use sea_battle.Base.{insert, Cell_discrete, any, all, ◌+ℤ◌, ℤ_discrete}
use sea_battle.Protocol.Payload.{extract_int, parse_json, is_valid_message_type, is_valid_action}
use sea_battle.Tests.Json.{has_in, at_in}
use sea_battle.Game.Nickname.{
  is_valid_nickname, count_chars, next_char, is_latin_letter, is_digit, is_underscore,
  is_valid_utf8_cyrillic,
}
use sea_battle.Game.Nickname.Utf8.{encode}
use sea_battle.Handler.{bytes, broadcast_message_except}
use sea_battle.Players.{is_online, set_session}
use sea_battle.Players.Directory.{
  find_or_create_player, get_player_by_nickname, set_player_online, update,
}
use sea_battle.Players.Friends.{new_friend_list}
use sea_battle.Network.Registry.{bind_player_to_session}
use sea_battle.Types.{ShipPlacement}
use sea_battle.Game.Match.{GamePlayer, get_game_player}
use sea_battle.Game.Match.Steps.{deployed_player}
use sea_battle.Game.Rules.{validate_placement}
use sea_battle.Game.Manager.Players.{IsManager, Reach, Reach-IsManager}
use sea_battle.Lobby.Invites.{GameInvite, get_invite, is_expired}
use sea_battle.Protocol.Payload.{extract_ships, extract_each, extract_ship, extract_bool}
use sea_battle.Handler.Playing.{handle_place_ships}
use sea_battle.Handler.Playing.Fleet.{when_ready, handle_place_ships-game}
use sea_battle.Handler.Meeting.{handle_invite_response}
use sea_battle.Handler.Meeting.Accepted.{Meet, handle_invite_response-Meet}
use sea_battle.Tests.Data.{ann, bob, two_names, across}
use sea_battle.Tests.Games.{half_game, battle_game, battle_game-IsGame}
use sea_battle.Tests.Json.{Tree, Fields, trees}

abbrev context : Context
context = record {
  is_open = λ s. true;
  alive = λ s. true;
  session_id = λ s. s;
  second = 1;
  now = 5;
  fresh = λ k. if eqb k 0 then "new" else "newer";
  heads = λ k. true;
}

abbrev ann_player : Player
ann_player = set_status PlayerStatus.online (new_player ann "Ann")

abbrev bob_player : Player
bob_player = set_status PlayerStatus.online (new_player bob "Bob")

abbrev both : Directory
both = (ann, ann_player) ∷ (bob, bob_player) ∷ []

both_own : (w : String) (p : Player) → get_player both w ≡ some p → p.guid ≡ w
unfolding get_player find set_status new_player
both_own w p e = ground arith

-- Sessions 1 and 2 are Ann's and Bob's; session 3 has no player.
abbrev registry : Registry
registry = record {
  sessions = (1, 1) ∷ (2, 2) ∷ (3, 3) ∷ [];
  player_to_session = (ann, 1) ∷ (bob, 2) ∷ [];
  next_session_id = 4;
}

abbrev world : List String → Manager → World
world queue games = record {
  hall = record { queue = queue; invites = []; games = games; players = both };
  registry = registry;
  player_of = (1, ann) ∷ (2, bob) ∷ [];
  sent = [];
}

abbrev waiting : World
waiting = world (ann ∷ []) no_games

handle_find_game-AllMatched_example : AllMatched (handle_find_game context waiting 2 bob_player)
unfolding set_status new_player
handle_find_game-AllMatched_example = handle_find_game-AllMatched context waiting 2 bob_player refl

abbrev at_war : World
at_war = world [] (record {
  games = ("game", battle_game) ∷ [];
  player_to_game = (ann, "game") ∷ (bob, "game") ∷ [];
})

handle_surrender-Settled_example :
    (w' : World) × (handle_surrender context at_war 1 ann_player ≡ ok w')
    × (is_finished (surrender battle_game ann) ≡ true)
    × ((surrender battle_game ann).winner_guid ≡ some (get_opponent_guid battle_game ann))
    × ((surrender battle_game ann).game_over_reason ≡ "surrender")
    × Settled (surrender battle_game ann) (get_opponent_guid battle_game ann) ann at_war w'
unfolding get_game_by_player find String_discrete set_status new_player new_game set_game_player
    start_battle is_finished
handle_surrender-Settled_example =
    handle_surrender-Settled context at_war 1 ann_player battle_game refl two_names (inl refl) refl

on_session_error-Left_example :
    (w' : World) × (on_session_error context at_war 2 ≡ ok w')
    × Left battle_game bob
        (record at_war { registry = (remove_session (λ r. find at_war.player_of r) registry 2).0 })
        w'
    × (get_session w'.registry 2 ≡ none)
    × (get_session_by_player_guid w'.registry bob ≡ none)
unfolding get_session find String_discrete ℕ_discrete new_game set_game_player start_battle
    is_finished
on_session_error-Left_example =
    on_session_error-Left context at_war 2 bob battle_game both_own refl refl refl refl refl
      two_names (inr refl) refl

abbrev target : Tree
target =
    Tree.object
      (Fields.field "x" (Tree.number (pos 0)) (Fields.field "y" (Tree.number (pos 6)) Fields.end))

handle_shoot-Shot_example :
    (out : Game × ShotResultInfo) × (shoot_at battle_game ann (pos 0) (pos 6) ≡ ok out)
    × (w' : World) × (handle_shoot context trees at_war 1 ann_player target ≡ ok w')
    × Shot ann out.0 out.1 at_war w'
unfolding new_board clear is_valid_coordinate around neighbours has_adjacent_ship can_place_ship
    draw_cells add_ship place_ship place_placement surround_cell get_surrounding_cells
    mark_surrounding_as_miss hit_first finish_shot shoot_cell shoot are_all_ships_sunk find_ship
    get_ship_at cells_from line_cells new_ship contains_cell hit is_sunk String_discrete contains
    insert Cell_discrete any all for_each ◌+ℤ◌ ℤ_discrete new_game set_game_player start_battle
    get_game_by_player find set_status new_player extract_coordinates extract_int has_in at_in
handle_shoot-Shot_example =
    handle_shoot-Shot context trees at_war 1 ann_player battle_game target (pos 0) (pos 6) refl
      battle_game-IsGame refl refl refl tt

abbrev login : Tree
login = Tree.object (Fields.field "nickname" (Tree.text "Cid") Fields.end)

abbrev logged_in : World
logged_in = handle_auth context trees waiting 3 login

handle_message-OnlyOwn_example :
    (r : ParseResult Tree) × (parse_message trees "login" ≡ ok r)
    × OnlyOwn context 3 waiting logged_in
    × (is_auth r ≡ false
        → (logged_in.registry ≡ registry) × (logged_in.player_of ≡ waiting.player_of))
unfolding handle_message parse_message parse_json is_valid_message_type is_valid_action contains
    String_discrete has_in at_in
handle_message-OnlyOwn_example =
    handle_message-OnlyOwn context trees waiting logged_in 3 "login" refl

both-IsDirectory : IsDirectory both
unfolding set_status new_player contains String_discrete nicknames
both-IsDirectory = record {
  keys_once = (refl, (refl, tt));
  own = (refl, (refl, tt));
  nicknames_once = (refl, (refl, tt));
}

waiting-IsReady : IsReady context waiting 3
unfolding find ℕ_discrete contains String_discrete
waiting-IsReady = record {
  nobody = refl;
  sound = both-IsDirectory;
  no_empty = refl;
  real = refl;
  new = refl;
}

handle_auth-Decided_example : Decided context logged_in 3 "Cid"
unfolding extract_string has_in at_in String_discrete
handle_auth-Decided_example =
    handle_auth-Decided context trees waiting 3 login "Cid" waiting-IsReady refl

-- This login is accepted.
cid_is_in :
    session_player logged_in 3
    ≡ some (record (new_player "new" "Cid") { status = PlayerStatus.online; session = some 3 })
unfolding handle_auth session_player extract_string has_in at_in String_discrete contains find
    assign ℕ_discrete set_status new_player is_valid_nickname count_chars next_char is_latin_letter
    is_digit is_underscore is_valid_utf8_cyrillic bytes encode find_or_create_player get_player
    get_player_by_nickname is_online set_player_online update set_session send
    broadcast_message_except bind_player_to_session new_friend_list
cid_is_in = refl

abbrev one_ship : Tree
one_ship = Tree.object (
    Fields.field "x" (Tree.number (pos 0)) (
      Fields.field "y" (Tree.number (pos 0)) (
        Fields.field "size" (Tree.number (pos 4))
          (Fields.field "horizontal" (Tree.truth true) Fields.end))))

-- A list of one ship, which is no legal placement.
abbrev too_few : Tree
too_few =
    Tree.object (Fields.field "ships" (Tree.items (Fields.field "" one_ship Fields.end)) Fields.end)

abbrev placing_world : World
placing_world = world [] (record {
  games = ("game", half_game) ∷ [];
  player_to_game = (ann, "game") ∷ (bob, "game") ∷ [];
})

abbrev few_ships : List ShipPlacement
few_ships = across (pos 0) (pos 0) (pos 4) ∷ []

handle_place_ships-game_example :
    (q : GamePlayer) × (get_game_player half_game bob ≡ ok q)
    × (w' : World) × (handle_place_ships context trees placing_world 2 bob_player too_few ≡ ok w')
    × (find (games_of w').games "game"
        ≡ some (
            if (validate_placement few_ships).valid
            then when_ready (set_game_player half_game bob (deployed_player q few_ships))
            else half_game))
    × (players_of w' ≡ both)
unfolding get_game_by_player find String_discrete new_game set_game_player set_status new_player
    extract_ships extract_each extract_ship has_in at_in
handle_place_ships-game_example =
    handle_place_ships-game context trees placing_world 2 bob_player half_game too_few few_ships
      refl (inr refl) refl refl

abbrev yes : Tree
yes =
    Tree.object (
      Fields.field "invite_id" (Tree.text "i") (Fields.field "accept" (Tree.truth true) Fields.end))

abbrev from_ann : GameInvite
from_ann = record { id = "i"; from_guid = ann; to_guid = bob; created_at = 0 }

abbrev invited : World
invited = record waiting { hall = record waiting.hall { invites = ("i", from_ann) ∷ [] } }

no_games-IsManager : IsManager no_games
no_games-IsManager = Reach-IsManager Reach.here

handle_invite_response-Meet_example :
    Meet "new" ann_player bob_player invited
      (handle_invite_response context trees invited 2 bob_player yes)
unfolding find String_discrete set_status new_player extract_string extract_bool has_in at_in
    get_invite is_expired get_player
handle_invite_response-Meet_example =
    handle_invite_response-Meet context invited 2 trees ann_player bob_player yes "i" from_ann
      no_games-IsManager refl both_own refl refl refl refl refl refl

-- A nickname in Russian letters.
russian_nickname : is_valid_nickname (bytes "Игрок1") ≡ true
unfolding is_valid_nickname count_chars next_char is_latin_letter is_digit is_underscore
    is_valid_utf8_cyrillic bytes encode
russian_nickname = refl
