-- ===== src/Lobby/Queue.antt =====
-- server/src/lobby/Matchmaker.cpp: the queue of the players who wait for an opponent. Each method
-- holds the mutex, so it is one step. A `weak_ptr<Player>` is the player's GUID, since the directory
-- of players keeps one object for each; `lock` is what locking the pointer returns.
pub mod Matching
use sea_battle.Base.{
  ℕ, zero, suc, Bool, true, false, not, ◌&&◌, ◌||◌, List, [], ◌∷◌, ◌++◌, String, String_discrete,
  holds, ◌==◌, Option, none, some, any, keep_if, for_each, length, if◌then◌else◌,
}
use sea_battle.Players.{Player, is_online_status}

module _ (lock : String → Option Player) where
  unfoldable pub expired : String → Bool
  expired w = elim (lock w) [ some p ↦ false | none ↦ true ]

  -- Whether the pointer locks to a player with the GUID.
  unfoldable pub is_player_with : String → String → Bool
  is_player_with guid w = elim (lock w) [ some p ↦ p.guid == guid | none ↦ false ]

  unfoldable pub cleanup_expired : List String → List String
  cleanup_expired queue = keep_if (λ w. not (expired w)) queue

  -- The argument is none for a null pointer.
  unfoldable pub add_player : List String → Option String → List String
  add_player queue none = queue
  add_player queue (some guid) =
      let queue' = cleanup_expired queue in
      if any (is_player_with guid) queue' then queue' else queue' ++ guid ∷ []

  unfoldable pub remove_player : List String → String → List String
  remove_player queue guid = keep_if (λ w. not (expired w || is_player_with guid w)) queue

  -- The player is there, with status `Online`.
  unfoldable pub is_available : String → Bool
  is_available w = elim (lock w) [ some p ↦ is_online_status p.status | none ↦ false ]

  -- The loop of `tryMatch`, while fewer than `n` players are missing: the players that it takes, and
  -- the queue after it.
  unfoldable pub take_available : ℕ → List String → List String × List String
  take_available zero queue = ([], queue)
  take_available (suc n) [] = ([], [])
  take_available (suc n) (w ∷ queue) =
      let taken = take_available n queue in
      let passed = take_available (suc n) queue in
      if is_available w
      then (w ∷ taken.0, taken.1)
      else if expired w
      then passed
      else (passed.0, w ∷ passed.1)

  -- The end of `tryMatch`.
  abbrev pub finish_match : List String × List String → List String × Option (String × String)
  finish_match (p ∷ q ∷ more, queue) = (queue, some (p, q))
  finish_match (available, queue) = (for_each (λ q p. p ∷ q) queue available, none)

  unfoldable pub try_match : List String → List String × Option (String × String)
  try_match queue = finish_match (take_available 2 (cleanup_expired queue))

  unfoldable pub is_in_queue : List String → String → Bool
  is_in_queue queue guid = any (is_player_with guid) queue

  unfoldable pub get_queue_size : List String → ℕ
  get_queue_size queue = length (keep_if (λ w. not (expired w)) queue)

unfoldable pub clear_queue : List String → List String
clear_queue queue = []
