-- ===== src/Handler/Safe/Endings.antt =====
-- MessageHandler.cpp and Server.cpp: the end of a game and the loss of a connection.
use mathlib.Core.Path.{subst}
use sea_battle.Base.{
  ◌≡◌, refl, ap, inl, inr, Bool, true, false, String, Option, none, some, if◌then◌else◌, ok, throw,
  Throws, ◌>>=◌, find, string_key, number_key, ◌∙◌, Bool-cases, sym,
}
use sea_battle.Types.{SessionRef}
use sea_battle.Game.Match.{Game, is_finished, handle_disconnect, notify_spectators}
use sea_battle.Game.Manager.{on_game}
use sea_battle.Lobby.{Hall, handle_player_disconnect}
use sea_battle.Network.Departure.{end_found, end_game_of}
use sea_battle.Network.Registry.{remove_session}
use sea_battle.Handler.{World, Context, with_hall, games_of, set_game}
use sea_battle.Handler.Ending.{notify_game_over, settle}
use sea_battle.Handler.Ending.Settled.{hall_after}
use sea_battle.Handler.Departure.{on_player_disconnect, on_session_error, tell_end, tell_gone}
use sea_battle.Handler.Safe.Games.{
  IsSafe, SameFrame, set_game-IsSafe, notify_spectators-SameFrame, handle_disconnect-SameFrame,
  full_state_found, trans-SameFrame,
}

-- A call that ended without an exception, in a state with safe games.
abbrev pub Fine : Throws World → Type 0
Fine (ok w) = IsSafe (games_of w)
Fine (throw e) = ⊥

pub if-Fine : (b : Bool) (t u : Throws World) → Fine t → Fine u → Fine (if b then t else u)
if-Fine true t u h k = h
if-Fine false t u h k = k

pub bind-Fine :
    (t : Throws World) (f : World → Throws World)
    → Fine t
    → ((w : World) → IsSafe (games_of w) → Fine (f w))
    → Fine (t >>= f)
bind-Fine (ok w) f h k = k w h
bind-Fine (throw e) f h k = absurd h

abbrev pub Stored : World → Game → Type 0
Stored w g = find (games_of w).games g.id ≡ some g

module _ (c : Context) where
  -- The end of a game is announced, which may have been stored with other spectators.
  pub notify_game_over-Fine :
      (h g : Game) (w : World)
      → IsSafe (games_of w)
      → Stored w h
      → SameFrame h g
      → Fine (notify_game_over c g w)
  unfolding notify_game_over settle
  notify_game_over-Fine h g w v stored same =
      let (b1, found1) = full_state_found g g.player1.guid (inl refl) in
      let (b2, found2) = full_state_found g g.player2.guid (inr refl) in
      let (hall, _, _) = hall_after c g b1 b2 (settle g w) in
      let kept = (notify_spectators c.alive g).0 in
      let (safe, _) =
        set_game-IsSafe (settle g w) h kept v stored
          (trans-SameFrame h g kept same (notify_spectators-SameFrame c.alive g)) in
      rw (found1, found2) (subst (λ (l : Hall). IsSafe l.games) (sym hall) safe)

  -- A game is changed, and its end is announced.
  pub finish-Fine :
      (g g' : Game) (w : World)
      → IsSafe (games_of w)
      → Stored w g
      → SameFrame g g'
      → Fine (notify_game_over c g' (set_game w g'))
  finish-Fine g g' w v stored same =
      let (safe, there) = set_game-IsSafe w g g' v stored same in
      notify_game_over-Fine g' g' (set_game w g') safe there (refl, refl, refl)

  end_found-Fine :
      (l : Hall) (guid id : String) (found : Option Game)
      → IsSafe l.games
      → find l.games.games id ≡ found
      → (w : World)
      → Fine (tell_end c (end_found l guid id found).1 (with_hall w (end_found l guid id found).0))
  unfolding on_game
  end_found-Fine l guid id none v e w = v
  end_found-Fine l guid id (some g) v e w = elim (Bool-cases (is_finished g)) [
    | inl over ↦ rw over v
    | inr going ↦
        let same = v.named id g e in
        let frame = handle_disconnect-SameFrame g guid in
        rw (going, e, ← (frame.0 ∙ same))
          (finish-Fine g (handle_disconnect g guid) (with_hall w l) v
            (ap (λ i. find l.games.games i) same ∙ e) frame)
  ]

  end_game-Fine :
      (l : Hall) (guid : String) (id : Option String)
      → IsSafe l.games
      → (w : World)
      → Fine (tell_end c (end_game_of l guid id).1 (with_hall w (end_game_of l guid id).0))
  end_game-Fine l guid none v w = v
  end_game-Fine l guid (some id) v w = end_found-Fine l guid id (find l.games.games id) v refl w

  disconnect-Fine :
      (w : World) (guid : String) → IsSafe (games_of w) → Fine (on_player_disconnect c w guid)
  unfolding on_player_disconnect handle_player_disconnect
  disconnect-Fine w guid v =
      let left = handle_player_disconnect w.hall guid in
      bind-Fine _ _ (end_game-Fine left guid (find left.games.player_to_game guid) v w)
        (λ told safe. safe)

  gone-Fine : (w : World) (gone : Option String) → IsSafe (games_of w) → Fine (tell_gone c gone w)
  gone-Fine w none v = v
  gone-Fine w (some guid) v = disconnect-Fine w guid v

  pub on_session_error-Fine :
      (w : World) (s : SessionRef) → IsSafe (games_of w) → Fine (on_session_error c w s)
  unfolding on_session_error
  on_session_error-Fine w s v =
      let (registry, gone) = remove_session (λ s. find w.player_of s) w.registry (c.session_id s) in
      gone-Fine (record w { registry = registry }) gone v
