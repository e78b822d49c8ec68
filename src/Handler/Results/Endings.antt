-- ===== src/Handler/Results/Endings.antt =====
-- MessageHandler.cpp and Server.cpp: the results of games at the end of a game or of a connection.
use sea_battle.Base.{
  ◌≡◌, refl, ap, ◌∙◌, inl, inr, Bool, true, false, String, Option, none, some, Bool-cases, ok,
  throw, Throws, ◌>>=◌, find, string_key, number_key,
}
use sea_battle.Types.{SessionRef}
use sea_battle.Game.Match.{
  Game, is_finished, handle_disconnect, notify_spectators, cleanup_spectators, get_board_full_state,
}
use sea_battle.Game.Match.Reach.{SameResult}
use sea_battle.Game.Manager.{on_game}
use sea_battle.Lobby.{Hall, handle_player_disconnect}
use sea_battle.Network.Departure.{end_found, end_game_of}
use sea_battle.Network.Registry.{remove_session}
use sea_battle.Handler.{World, Context, with_hall, games_of, set_game}
use sea_battle.Handler.Ending.{notify_game_over, settle}
use sea_battle.Handler.Ending.Settled.{hall_after}
use sea_battle.Handler.Departure.{on_player_disconnect, on_session_error, tell_end, tell_gone}
use sea_battle.Handler.Safe.Games.{IsSafe, SameFrame, handle_disconnect-SameFrame, set_game-IsSafe}
use sea_battle.Handler.Safe.Endings.{Stored}
use sea_battle.Handler.Results.Kept.{
  Games, Kept, KeptAll, refl-Kept, trans-Kept, trans-KeptAll, same-Kept, set_game-Kept,
  refl-SameResult,
}

pub bind-KeptAll :
    {A : Type 0} (gs : Games) (t : Throws A) (f : A → Throws World)
    → ((a : A) → KeptAll gs (f a))
    → KeptAll gs (t >>= f)
bind-KeptAll gs (ok a) f h = h a
bind-KeptAll gs (throw e) f h = tt

-- A call that keeps the results is followed by one that leaves the games alone.
then-KeptAll :
    (gs : Games) (t : Throws World) (f : World → World)
    → KeptAll gs t
    → ((w : World) → Kept gs (games_of w).games → Kept gs (games_of (f w)).games)
    → KeptAll gs (t >>= λ w. ok (f w))
then-KeptAll gs (ok w) f k h = h w k
then-KeptAll gs (throw e) f k h = tt

pub notified-SameResult :
    (alive : SessionRef → Bool) (g : Game)
    → is_finished g ≡ true
    → SameResult g (notify_spectators alive g).0
unfolding notify_spectators cleanup_spectators is_finished
notified-SameResult alive g over = (over, refl, refl, refl, refl)

pub before-SameResult :
    (alive : SessionRef → Bool) (g : Game)
    → is_finished (notify_spectators alive g).0 ≡ true
    → SameResult (notify_spectators alive g).0 g
unfolding notify_spectators cleanup_spectators is_finished
before-SameResult alive g over = (over, refl, refl, refl, refl)

module _ (c : Context) where
  -- The end of a game is announced; it may have been stored with other spectators.
  pub notify_game_over-KeptAll :
      (h g : Game) (w : World)
      → Stored w h
      → g.id ≡ h.id
      → (is_finished h ≡ true → SameResult h g)
      → KeptAll (games_of w).games (notify_game_over c g w)
  unfolding notify_game_over settle notify_spectators cleanup_spectators is_finished
  notify_game_over-KeptAll h g w stored same keep =
      bind-KeptAll _ (get_board_full_state g g.player1.guid) _ λ b1.
        bind-KeptAll _ (get_board_full_state g g.player2.guid) _ λ b2.
          let (hall, _, _) = hall_after c g b1 b2 (settle g w) in
          let kept = (notify_spectators c.alive g).0 in
          trans-Kept _ _ _ (set_game-Kept w h kept stored same keep)
            (same-Kept (ap (λ (l : Hall). l.games) hall))

  -- A game that is not over is changed, and its end is announced.
  pub finish-KeptAll :
      (g g' : Game) (w : World)
      → IsSafe (games_of w)
      → Stored w g
      → SameFrame g g'
      → is_finished g ≡ false
      → KeptAll (games_of w).games (notify_game_over c g' (set_game w g'))
  finish-KeptAll g g' w v stored frame going =
      let (safe, there) = set_game-IsSafe w g g' v stored frame in
      trans-KeptAll (games_of w).games (set_game w g') (notify_game_over c g' (set_game w g'))
        (set_game-Kept w g g' stored frame.0 (λ over. cc))
        (notify_game_over-KeptAll g' g' (set_game w g') there refl (refl-SameResult g'))

  end_found-KeptAll :
      (l : Hall) (guid id : String) (found : Option Game)
      → IsSafe l.games
      → find l.games.games id ≡ found
      → (w : World)
      → KeptAll l.games.games
          (tell_end c (end_found l guid id found).1 (with_hall w (end_found l guid id found).0))
  unfolding on_game
  end_found-KeptAll l guid id none v e w = refl-Kept l.games.games
  end_found-KeptAll l guid id (some g) v e w = elim (Bool-cases (is_finished g)) [
    | inl over ↦ rw over (refl-Kept l.games.games)
    | inr going ↦
        let same = v.named id g e in
        let frame = handle_disconnect-SameFrame g guid in
        rw (going, e, ← (frame.0 ∙ same))
          (finish-KeptAll g (handle_disconnect g guid) (with_hall w l) v
            (ap (λ i. find l.games.games i) same ∙ e) frame going)
  ]

  end_game-KeptAll :
      (l : Hall) (guid : String) (id : Option String)
      → IsSafe l.games
      → (w : World)
      → KeptAll l.games.games
          (tell_end c (end_game_of l guid id).1 (with_hall w (end_game_of l guid id).0))
  end_game-KeptAll l guid none v w = refl-Kept l.games.games
  end_game-KeptAll l guid (some id) v w =
      end_found-KeptAll l guid id (find l.games.games id) v refl w

  disconnect-KeptAll :
      (w : World) (guid : String)
      → IsSafe (games_of w)
      → KeptAll (games_of w).games (on_player_disconnect c w guid)
  unfolding on_player_disconnect handle_player_disconnect
  disconnect-KeptAll w guid v =
      let left = handle_player_disconnect w.hall guid in
      then-KeptAll _ _ _ (end_game-KeptAll left guid (find left.games.player_to_game guid) v w)
        (λ told kept. kept)

  gone-KeptAll :
      (w : World) (gone : Option String)
      → IsSafe (games_of w)
      → KeptAll (games_of w).games (tell_gone c gone w)
  gone-KeptAll w none v = refl-Kept (games_of w).games
  gone-KeptAll w (some guid) v = disconnect-KeptAll w guid v

  pub on_session_error-KeptAll :
      (w : World) (s : SessionRef)
      → IsSafe (games_of w)
      → KeptAll (games_of w).games (on_session_error c w s)
  unfolding on_session_error
  on_session_error-KeptAll w s v =
      let (registry, gone) = remove_session (λ s. find w.player_of s) w.registry (c.session_id s) in
      gone-KeptAll (record w { registry = registry }) gone v
