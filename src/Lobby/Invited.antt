-- ===== src/Lobby/Invited.antt =====
-- Lobby.cpp, `acceptInvite`: when an accepted invitation becomes a game.
use sea_battle.Base.{
  ℕ, ◌≡◌, refl, Bool, true, false, ◌&&◌, String, Option, none, some, arith, find, string_key,
}
use sea_battle.Players.{Player, is_online_status}
use sea_battle.Players.Directory.{get_player}
use sea_battle.Lobby.Queue.{is_in_queue, remove_player}
use sea_battle.Lobby.Queue.Matching.{remove_player-is_in_queue}
use sea_battle.Lobby.Invites.{accept_invite as accept_in_table}
use sea_battle.Game.Manager.Players.{IsManager}
use sea_battle.Lobby.{
  Hall, accept_invite, finish_accept, open_game, leave_queue, remove_from_queue, is_ready,
}
use sea_battle.Lobby.Meetings.{InGame, has_game, open_game-InGame}

abbrev pub has_pair : Option (String × String) → Bool
has_pair none = false
has_pair (some pair) = true

finish_accept_lem :
    (id : String) (heads : Bool) (l : Hall) (pair : Option (String × String))
    (from to : Option Player)
    → (has_game (finish_accept id heads l pair from to).1
        ≡ (has_pair pair && is_ready from && is_ready to))
      × ((finish_accept id heads l pair from to).0.invites ≡ l.invites)
unfolding open_game leave_queue remove_from_queue
finish_accept_lem id heads l none from to = (refl, refl)
finish_accept_lem id heads l (some pair) none to = (refl, refl)
finish_accept_lem id heads l (some pair) (some p1) none = (ground arith, refl)
finish_accept_lem id heads l (some pair) (some p1) (some p2) = ground arith

-- `acceptInvite` opens a game exactly when the table accepts the invitation and both players given are
-- there and online; whether it does or not, the table is the one that its own `acceptInvite` leaves,
-- so that an invitation that gets no game is used up.
pub accept_invite-has_game :
    (second now : ℕ) (id : String) (heads : Bool) (l : Hall) (invite : String)
    (from to : Option Player)
    → let (invites, pair) = accept_in_table second now l.invites invite in
      let (l', game) = accept_invite second now id heads l invite from to in
      (has_game game ≡ (has_pair pair && is_ready from && is_ready to)) × (l'.invites ≡ invites)
unfolding accept_invite
accept_invite-has_game second now id heads l invite from to =
    finish_accept_lem id heads
      (record l { invites = (accept_in_table second now l.invites invite).0 })
      (accept_in_table second now l.invites invite).1 from to

-- When an invitation is accepted and both players are online, both leave the queue and are in the new
-- game: they find it by their GUIDs and have the status `InGame`; nobody else is touched.
pub invited_players-InGame :
    (second now : ℕ) (id : String) (heads : Bool) (l : Hall) (invite : String)
    (pair : String × String) (p1 p2 : Player)
    → IsManager l.games
    → find l.games.games id ≡ none
    → ((w : String) (p : Player) → get_player l.players w ≡ some p → p.guid ≡ w)
    → (accept_in_table second now l.invites invite).1 ≡ some pair
    → is_online_status p1.status ≡ true
    → is_online_status p2.status ≡ true
    → let out = accept_invite second now id heads l invite (some p1) (some p2) in
      InGame id l p1 p2 out
      × (is_in_queue (get_player l.players) out.0.queue p1.guid ≡ false)
      × (is_in_queue (get_player l.players) out.0.queue p2.guid ≡ false)
unfolding accept_invite leave_queue remove_from_queue open_game
invited_players-InGame second now id heads l invite pair p1 p2 v fresh own accepted online1
      online2 =
    let lock = get_player l.players in
    let once = remove_player lock l.queue p1.guid in
    rw (accepted, online1, online2)
      (
        open_game-InGame id heads
            (leave_queue (record l { invites = (accept_in_table second now l.invites invite).0 })
              p1.guid p2.guid)
            p1 p2 v fresh,
        ground (
          arith,
          remove_player-is_in_queue lock own once p2.guid p1.guid,
          remove_player-is_in_queue lock own l.queue p1.guid p1.guid,
        ),
        ground (arith, remove_player-is_in_queue lock own once p2.guid p2.guid),
      )
