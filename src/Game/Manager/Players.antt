-- ===== src/Game/Manager/Players.antt =====
-- GameManager.cpp: the table of players leads to games that they play in.
use sea_battle.Base.{
  ◌≡◌, inl, inr, Bool, true, ◌||◌, String, none, some, arith, Bool-cases, Option-cases, ◌==◌,
  if◌then◌else◌, string_key, find, assign, remove, find-assign, find-remove,
}
use sea_battle.Types.{SessionRef}
use sea_battle.Players.{Player}
use sea_battle.Players.Directory.{Directory}
use sea_battle.Game.Match.{
  Game, new_game, is_player, add_spectator, remove_spectator, cleanup_spectators,
}
use sea_battle.Game.Manager.{
  Manager, no_games, create_game, get_game, get_game_by_player, remove_game, on_game,
  add_game_spectator, remove_game_spectator, game_named,
}

-- Whoever is in the table of players plays in the game that it names.
abbrev pub IsManager : Manager → Type 0
IsManager m =
    (guid id : String)
    → find m.player_to_game guid ≡ some id
    → (g : Game) × (find m.games id ≡ some g) × (is_player g guid ≡ true)

pub data Step (m : Manager) : Manager → Type 0 where
  create :
      (id : String) (heads : Bool) (d : Directory) (p1 p2 : Player)
      → find m.games id ≡ none
      → Step m (create_game id heads m d p1 p2).0
  drop : (id : String) → Step m (remove_game m id)
  play :
      (f : Game → Game) (id : String)
      → ((g : Game) → ((f g).player1.guid ≡ g.player1.guid) × ((f g).player2.guid ≡ g.player2.guid))
      → Step m (on_game f m id).0
  watch :
      (alive : SessionRef → Bool) (id : String) (s : SessionRef)
      → Step m (add_game_spectator alive m id s).0
  unwatch :
      (alive : SessionRef → Bool) (id : String) (s : SessionRef)
      → Step m (remove_game_spectator alive m id s)

pub data Reach (m : Manager) : Manager → Type 0 where
  here : Reach m m
  next : {h k : Manager} → Reach m h → Step h k → Reach m k

pub create_game-IsManager :
    (id : String) (heads : Bool) (m : Manager) (d : Directory) (p1 p2 : Player)
    → IsManager m
    → find m.games id ≡ none
    → IsManager (create_game id heads m d p1 p2).0
unfolding create_game is_player new_game
create_game-IsManager id heads m d p1 p2 v fresh guid id' e =
    let new = new_game id (p1.guid, p1.nickname) (p2.guid, p2.nickname) heads in
    let where1 = find-assign m.player_to_game p1.guid id guid in
    let where2 = find-assign (assign m.player_to_game p1.guid id) p2.guid id guid in
    elim (Bool-cases (p1.guid == guid || p2.guid == guid)) [
      | inl mine ↦
          let named : id ≡ id' = ground arith in
          (new, ground (arith, find-assign m.games id new id'), ground arith)
      | inr other ↦
          let (g, found, plays) = v guid id' (ground arith) in
          (g, ground (arith, find-assign m.games id new id'), plays)
    ]

remove_game-IsManager : (m : Manager) (id : String) → IsManager m → IsManager (remove_game m id)
unfolding is_player remove_game
remove_game-IsManager m id v = elim (Option-cases (find m.games id)) [
  | inl unknown ↦ rw unknown v
  | inr (g, known) ↦ rw known λ guid id' e.
      let first = find-remove m.player_to_game g.player1.guid guid in
      let both = find-remove (remove m.player_to_game g.player1.guid) g.player2.guid guid in
      let (h, found, plays) = v guid id' (ground arith) in
      (h, ground (arith, find-remove m.games id id'), plays)
]

on_game-IsManager :
    (f : Game → Game) (m : Manager) (id : String)
    → ((g : Game) → ((f g).player1.guid ≡ g.player1.guid) × ((f g).player2.guid ≡ g.player2.guid))
    → IsManager m
    → IsManager (on_game f m id).0
unfolding on_game is_player
on_game-IsManager f m id same v = elim (Option-cases (find m.games id)) [
  | inl unknown ↦ rw unknown v
  | inr (g, known) ↦ rw known λ guid id' e.
      let (h, found, plays) = v guid id' e in
      elim (Bool-cases (id == id')) [
        | inl this ↦ (f g, ground (arith, find-assign m.games id (f g) id'), ground (arith, same g))
        | inr that ↦ (h, ground (arith, find-assign m.games id (f g) id'), plays)
      ]
]

spectator_guids :
    (alive : SessionRef → Bool) (s : SessionRef) (g : Game)
    → ((add_spectator alive g s).player1 ≡ g.player1)
      × ((add_spectator alive g s).player2 ≡ g.player2)
      × ((remove_spectator alive g s).player1 ≡ g.player1)
      × ((remove_spectator alive g s).player2 ≡ g.player2)
unfolding add_spectator remove_spectator cleanup_spectators
spectator_guids alive s g = ground arith

Step-IsManager : {m m' : Manager} → Step m m' → IsManager m → IsManager m'
unfolding add_game_spectator remove_game_spectator
Step-IsManager {m} (create id heads d p1 p2 fresh) v =
    create_game-IsManager id heads m d p1 p2 v fresh
Step-IsManager {m} (drop id) v = remove_game-IsManager m id v
Step-IsManager {m} (play f id same) v = on_game-IsManager f m id same v
Step-IsManager {m} (watch alive id s) v =
    on_game-IsManager (λ g. add_spectator alive g s) m id
      (λ g. ground (arith, spectator_guids alive s g)) v
Step-IsManager {m} (unwatch alive id s) v =
    on_game-IsManager (λ g. remove_spectator alive g s) m id
      (λ g. ground (arith, spectator_guids alive s g)) v

-- Starting with no games, whatever games are created under new identifiers, played, watched and
-- removed, whoever is in the table of players is a player of the game that it names.
pub Reach-IsManager : {m : Manager} → Reach no_games m → IsManager m
unfolding find
Reach-IsManager here guid id e = ground arith
Reach-IsManager (next r s) guid id e = Step-IsManager s (Reach-IsManager r) guid id e

old_game :
    (m : Manager) (id : String) (new : Game) (guid : String)
    → IsManager m
    → find m.games id ≡ none
    → game_named (record m { games = assign m.games id new }) (find m.player_to_game guid)
      ≡ game_named m (find m.player_to_game guid)
old_game m id new guid v fresh = elim (Option-cases (find m.player_to_game guid)) [
  | inl nowhere ↦ rw nowhere
  | inr (id', there) ↦
      let (g, found, _) = v guid id' there in
      rw there (ground (arith, find-assign m.games id new id'))
]

-- A new game is found by its identifier and by both of its players, and every other player finds the
-- game that he found before.
pub create_game_lem :
    (id : String) (heads : Bool) (m : Manager) (d : Directory) (p1 p2 : Player) (guid : String)
    → IsManager m
    → find m.games id ≡ none
    → let (m', d', game) = create_game id heads m d p1 p2 in
      (get_game m' id ≡ some game)
      × (get_game_by_player m' guid
          ≡ (if p1.guid == guid || p2.guid == guid then some game else get_game_by_player m guid))
unfolding create_game get_game get_game_by_player
create_game_lem id heads m d p1 p2 guid v fresh =
    let new = new_game id (p1.guid, p1.nickname) (p2.guid, p2.nickname) heads in
    let where1 = find-assign m.player_to_game p1.guid id guid in
    let where2 = find-assign (assign m.player_to_game p1.guid id) p2.guid id guid in
    let stored : find (assign m.games id new) id ≡ some new =
      ground (arith, find-assign m.games id new id) in
    (
      stored,
      elim (Bool-cases (p1.guid == guid || p2.guid == guid)) [
        | inl mine ↦
            let named : find (assign (assign m.player_to_game p1.guid id) p2.guid id) guid
                ≡ some id =
              ground arith in
            rw (named, mine) stored
        | inr other ↦
            let kept : find (assign (assign m.player_to_game p1.guid id) p2.guid id) guid
                ≡ find m.player_to_game guid =
              ground arith in
            rw (kept, other) (old_game m id new guid v fresh)
      ],
    )
