-- ===== src/Handler/Meeting/Matchmaking.antt =====
-- MessageHandler.cpp, `checkMatchmaking`: the loop ends, and nobody who can be matched is left waiting.
use sea_battle.Base.{
  ℕ, zero, suc, ◌+◌, ◌≤◌, ◌≡◌, ◌⊎◌, refl, ap, ◌∙◌, inl, inr, Bool, true, false, not, List, [], ◌∷◌,
  String, Option, none, some, length, keep_if, all, arith, Option-cases,
}
use sea_battle.Types.{SessionRef}
use sea_battle.Players.{Player}
use sea_battle.Players.Directory.{get_player}
use sea_battle.Game.Match.{Game}
use sea_battle.Lobby.{Hall, try_match_players, is_ready}
use sea_battle.Lobby.Meetings.{has_game, both_ready, try_match_players_lem}
use sea_battle.Lobby.Queue.{
  expired, is_available, cleanup_expired, take_available, finish_match, try_match,
}
use sea_battle.Lobby.Queue.Matching.{ready_ones, all-ready, Matched, try_match-Matched}
use sea_battle.Handler.{
  World, Context, with_hall, send, players_of, send_to_player, broadcast_message,
}
use sea_battle.Handler.Meeting.{
  notify_game_start, check_matchmaking, queue_length, handle_find_game, is_in_game_status,
}

module _ (lock : String → Option Player) where
  length-keep_if :
      (p : String → Bool) (queue : List String) → length (keep_if p queue) ≤ length queue
  unfolding keep_if
  length-keep_if p [] = omega arith
  length-keep_if p (w ∷ queue) = ground (arith, length-keep_if p queue)

  length-take_available :
      (n : ℕ) (queue : List String)
      → length (take_available lock n queue).0 + length (take_available lock n queue).1
        ≤ length queue
  unfolding take_available
  length-take_available zero queue = omega arith
  length-take_available (suc n) [] = omega arith
  length-take_available (suc n) (w ∷ queue) =
      ground (arith, length-take_available n queue, length-take_available (suc n) queue)

  -- A match makes the queue shorter by two.
  abbrev Shorter : ℕ → List String × Option (String × String) → Type 0
  Shorter n (queue, none) = Unit
  Shorter n (queue, some pair) = 2 + length queue ≤ n

  finish_match-Shorter :
      (n : ℕ) (available queue : List String)
      → length available + length queue ≤ n
      → Shorter n (finish_match lock (available, queue))
  finish_match-Shorter n [] queue le = tt
  finish_match-Shorter n (p ∷ []) queue le = tt
  finish_match-Shorter n (p ∷ q ∷ more) queue le = omega arith

  try_match-Shorter : (queue : List String) → Shorter (length queue) (try_match lock queue)
  unfolding try_match cleanup_expired
  try_match-Shorter queue =
      let cleaned = cleanup_expired lock queue in
      finish_match-Shorter (length queue) (take_available lock 2 cleaned).0
        (take_available lock 2 cleaned).1
        (omega (
          arith,
          length-take_available 2 cleaned,
          length-keep_if (λ w. not (expired lock w)) queue,
        ))

  Shorter-some :
      (n : ℕ) (out : List String × Option (String × String)) (pair : String × String)
      → Shorter n out
      → out.1 ≡ some pair
      → 2 + length out.0 ≤ n
  Shorter-some n (queue, none) pair le e = cc
  Shorter-some n (queue, some pair') pair le e = le

  ready_left :
      (queue : List String) (out : List String × Option (String × String))
      → Matched lock queue out
      → out.1 ≡ none
      → length (ready_ones lock out.0) ≤ 1
  ready_left queue (left, none) (few, ready, waiting) e = omega (arith, ap length ready)
  ready_left queue (left, some pair) m e = cc

  -- The two of a match are online.
  available-ready : (w : String) → is_available lock w ≡ is_ready (lock w)
  unfolding is_available
  available-ready w = elim (Option-cases (lock w)) [
    | inl gone ↦ rw (is_available, gone)
    | inr (p, there) ↦ rw (is_available, there)
  ]

  Matched-ready :
      (queue : List String) (out : List String × Option (String × String))
      → Matched lock queue out
      → (out.1 ≡ none)
        ⊎ ((pair : String × String) × (out.1 ≡ some pair)
            × (is_ready (lock pair.0) ≡ true)
            × (is_ready (lock pair.1) ≡ true))
  unfolding all
  Matched-ready queue (left, none) m = inl refl
  Matched-ready queue (left, some (p, q)) (ready, waiting) =
      let available = rw ready at (all-ready lock queue) in
      inr ((p, q), refl, ground (arith, available-ready p), ground (arith, available-ready q))

abbrev match_of : Hall → List String × Option (String × String)
match_of l = try_match (get_player l.players) l.queue

none_of : (game : Option Game) → has_game game ≡ false → game ≡ none
none_of none e = refl
none_of (some g) e = cc

some_of : (game : Option Game) → has_game game ≡ true → (g : Game) × (game ≡ some g)
some_of none e = cc
some_of (some g) e = (g, refl)

-- A match of the queue always becomes a game, when nothing comes between.
match-game :
    (id : String) (heads : Bool) (l : Hall)
    → let (l', game) = try_match_players id heads (λ d. d) l in
      ((game ≡ none) × ((match_of l).1 ≡ none))
      ⊎ ((g : Game) × (game ≡ some g) × (2 + length l'.queue ≤ length l.queue))
match-game id heads l =
    let lock = get_player l.players in
    let (left, opened) = try_match_players_lem id heads (λ d. d) l in
    let (l', game) = try_match_players id heads (λ d. d) l in
    elim (Matched-ready lock l.queue (match_of l) (try_match-Matched lock l.queue)) [
      | inl nobody ↦ inl (none_of game (opened ∙ ap (both_ready l.players) nobody), nobody)
      | inr (pair, matched, first, second) ↦
          let (g, made) =
            some_of game (opened ∙ ap (both_ready l.players) matched ∙ ground arith) in
          let le =
            Shorter-some lock (length l.queue) (match_of l) pair (try_match-Shorter lock l.queue)
              matched in
          inr (g, made, rw (left) le)
    ]

-- Nobody is left waiting who could be matched.
abbrev pub AllMatched : World → Type 0
AllMatched w = length (ready_ones (get_player (players_of w)) w.hall.queue) ≤ 1

none-AllMatched :
    (id : String) (heads : Bool) (w : World)
    → (match_of w.hall).1 ≡ none
    → AllMatched (with_hall w (try_match_players id heads (λ d. d) w.hall).0)
unfolding try_match_players
none-AllMatched id heads w nobody =
    let lock = get_player (players_of w) in
    let m = try_match-Matched lock w.hall.queue in
    rw nobody (ready_left lock w.hall.queue (match_of w.hall) m nobody)

module _ (c : Context) where
  check_matchmaking-AllMatched :
      (fuel k : ℕ) (w : World)
      → suc (queue_length w) ≤ fuel
      → AllMatched (check_matchmaking c fuel k w)
  unfolding check_matchmaking notify_game_start send_to_player broadcast_message
  check_matchmaking-AllMatched zero k w enough = absurd (omega arith)
  check_matchmaking-AllMatched (suc fuel) k w enough =
      elim (match-game (c.fresh k) (c.heads k) w.hall) [
        | inl (over, nobody) ↦
            rw (check_matchmaking, over) (none-AllMatched (c.fresh k) (c.heads k) w nobody)
        | inr (g, made, le) ↦
            rw (check_matchmaking, made)
              (check_matchmaking-AllMatched fuel (suc k) _ (omega (arith, le, enough)))
      ]

  -- After a request for a game by a player who is not in one, the loop has come to its own end, and
  -- of the players in the queue at most one is online: two who wait and are online always get a game.
  pub handle_find_game-AllMatched :
      (w : World) (s : SessionRef) (player : Player)
      → is_in_game_status player.status ≡ false
      → AllMatched (handle_find_game c w s player)
  unfolding handle_find_game send
  handle_find_game-AllMatched w s player free =
      rw free (check_matchmaking-AllMatched _ 0 _ (omega arith))
