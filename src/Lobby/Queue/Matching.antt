-- ===== src/Lobby/Queue/Matching.antt =====
-- Matchmaker.cpp: who is matched, and that a player waits in one place only.
use sea_battle.Base.{
  ℕ, zero, suc, ◌≤◌, ◌≡◌, ◌⊎◌, refl, ap, inl, inr, true, false, not, ◌&&◌, ◌||◌, List, [], ◌∷◌,
  ◌++◌, String, ◌==◌, Option, none, some, any, all, keep_if, for_each, length, arith, Bool-cases,
  Option-cases, contains, string_key, Distinct, contains-append,
}
use sea_battle.Players.{Player}
use sea_battle.Lobby.Queue.{
  expired, is_player_with, cleanup_expired, add_player, remove_player, is_available, take_available,
  finish_match, try_match, is_in_queue,
}

module _ (lock : String → Option Player) where
  -- The players of a queue who can be matched now, and those who cannot.
  abbrev pub ready_ones : List String → List String
  ready_ones queue = keep_if (is_available lock) queue

  abbrev pub waiting_ones : List String → List String
  waiting_ones queue = keep_if (λ w. not (is_available lock w) && not (expired lock w)) queue

  -- What a match is, first come first served.
  abbrev pub Matched : List String → List String × Option (String × String) → Type 0
  Matched queue (queue', some (p, q)) =
      (ready_ones queue ≡ p ∷ q ∷ ready_ones queue') × (waiting_ones queue ≡ waiting_ones queue')
  Matched queue (queue', none) =
      (length (ready_ones queue) ≤ 1)
      × (ready_ones queue ≡ ready_ones queue')
      × (waiting_ones queue ≡ waiting_ones queue')

  available-expired : (w : String) → is_available lock w ≡ true → expired lock w ≡ false
  unfolding is_available expired
  available-expired w e = elim (Option-cases (lock w)) [
    | inl gone ↦ ground (arith, gone)
    | inr (p, there) ↦ rw (expired, there)
  ]

  ready-cleanup : (queue : List String) → ready_ones (cleanup_expired lock queue) ≡ ready_ones queue
  unfolding keep_if cleanup_expired
  ready-cleanup [] = refl
  ready-cleanup (w ∷ queue) = ground (arith, ready-cleanup queue, available-expired w)

  waiting-cleanup :
      (queue : List String) → waiting_ones (cleanup_expired lock queue) ≡ waiting_ones queue
  unfolding keep_if cleanup_expired
  waiting-cleanup [] = refl
  waiting-cleanup (w ∷ queue) = ground (arith, waiting-cleanup queue)

  -- What the loop took, and what it left.
  abbrev Taken : ℕ → List String → List String × List String → Type 0
  Taken n queue (available, queue') =
      (ready_ones queue ≡ available ++ ready_ones queue')
      × (waiting_ones queue ≡ waiting_ones queue')
      × ((length available ≡ n) ⊎ ((ready_ones queue' ≡ []) × (length available ≤ n)))

  take_available_lem : (n : ℕ) (queue : List String) → Taken n queue (take_available lock n queue)
  unfolding take_available keep_if
  take_available_lem zero queue = (refl, refl, inl refl)
  take_available_lem (suc n) [] = (refl, refl, inr (refl, omega arith))
  take_available_lem (suc n) (w ∷ queue) = elim (Bool-cases (is_available lock w)) [
    | inl ready ↦
        let (took, left, done) = take_available_lem n queue in
        rw ready (ap (λ q. w ∷ q) took, left, ground arith)
    | inr unready ↦
        let (took, left, done) = take_available_lem (suc n) queue in
        elim (Bool-cases (expired lock w)) [
          | inl gone ↦ rw (unready, gone) (took, left, done)
          | inr present ↦ rw (unready, present) (ground arith)
        ]
  ]

  pub all-ready : (queue : List String) → all (is_available lock) (ready_ones queue) ≡ true
  unfolding all keep_if
  all-ready [] = refl
  all-ready (w ∷ queue) = ground (arith, all-ready queue)

  finish_match_lem :
      (queue available queue' : List String)
      → Taken 2 queue (available, queue')
      → Matched queue (finish_match lock (available, queue'))
  unfolding for_each keep_if all
  finish_match_lem queue [] queue' t = ground arith
  finish_match_lem queue (p ∷ []) queue' (took, left, done) =
      let ready : is_available lock p ≡ true = ground (arith, rw took at (all-ready queue)) in
      ground arith
  finish_match_lem queue (p ∷ q ∷ []) queue' (took, left, done) = (took, left)
  finish_match_lem queue (p ∷ q ∷ r ∷ more) queue' t = ground arith

  same_Matched :
      (queue cleaned : List String) (out : List String × Option (String × String))
      → ready_ones cleaned ≡ ready_ones queue
      → waiting_ones cleaned ≡ waiting_ones queue
      → Matched cleaned out
      → Matched queue out
  same_Matched queue cleaned (queue', none) r w m = ground arith
  same_Matched queue cleaned (queue', some (p, q)) r w m = ground arith

  -- `tryMatch` takes the first two players of the queue who are online, and then they wait no more;
  -- if there are not two of them, it matches nobody. All others keep their places: those who are
  -- online among each other, and those who are there and not online among each other.
  pub try_match-Matched : (queue : List String) → Matched queue (try_match lock queue)
  unfolding try_match
  try_match-Matched queue =
      let cleaned = cleanup_expired lock queue in
      same_Matched queue cleaned (try_match lock queue) (ready-cleanup queue)
        (waiting-cleanup queue)
        (finish_match_lem cleaned (take_available lock 2 cleaned).0
          (take_available lock 2 cleaned).1 (take_available_lem 2 cleaned))

  -- The pointer of a player leads to the player with this GUID.
  module _ (own : (w : String) (p : Player) → lock w ≡ some p → p.guid ≡ w) where
    is_player_with-eq :
        (guid w : String) → is_player_with lock guid w ≡ (not (expired lock w) && (w == guid))
    unfolding is_player_with expired
    is_player_with-eq guid w = elim (Option-cases (lock w)) [
      | inl gone ↦ rw (is_player_with, expired, gone)
      | inr (p, there) ↦ rw (is_player_with, expired, there, own w p there)
    ]

    contains-cleanup :
        (queue : List String) (c : String)
        → contains (cleanup_expired lock queue) c ≡ (contains queue c && not (expired lock c))
    unfolding cleanup_expired keep_if contains
    contains-cleanup [] c = refl
    contains-cleanup (w ∷ queue) c = ground (arith, contains-cleanup queue c)

    is_in_queue-eq :
        (queue : List String) (guid : String)
        → is_in_queue lock queue guid ≡ (contains queue guid && not (expired lock guid))
    unfolding is_in_queue any contains
    is_in_queue-eq [] guid = refl
    is_in_queue-eq (w ∷ queue) guid =
        ground (arith, is_in_queue-eq queue guid, is_player_with-eq guid w)

    cleanup-Distinct :
        (queue : List String) → Distinct queue → Distinct (cleanup_expired lock queue)
    unfolding cleanup_expired keep_if
    cleanup-Distinct [] d = tt
    cleanup-Distinct (w ∷ queue) d =
        ground (arith, cleanup-Distinct queue d.1, contains-cleanup queue w)

    append-Distinct :
        (queue : List String) (guid : String)
        → contains queue guid ≡ false
        → Distinct queue
        → Distinct (queue ++ guid ∷ [])
    unfolding contains
    append-Distinct [] guid n d = (refl, tt)
    append-Distinct (w ∷ queue) guid n d =
        ground (arith, append-Distinct queue guid, contains-append queue (guid ∷ []) w)

    -- Entering the queue, for a player whose object lives: he is in it afterwards, at the end unless
    -- he was in it already; nobody else enters or leaves; and no player waits in two places.
    pub add_player-Distinct :
        (queue : List String) (guid c : String)
        → Distinct queue
        → expired lock guid ≡ false
        → Distinct (add_player lock queue (some guid))
          × (is_in_queue lock (add_player lock queue (some guid)) c
              ≡ (guid == c || is_in_queue lock queue c))
    unfolding add_player contains is_in_queue
    add_player-Distinct queue guid c d alive =
        let cleaned = cleanup_expired lock queue in
        let known = is_in_queue-eq cleaned guid in
        let before = is_in_queue-eq queue c in
        let live = contains-cleanup queue c in
        elim (Bool-cases (any (is_player_with lock guid) cleaned)) [
          | inl there ↦ rw there (
            cleanup-Distinct queue d,
            ground (arith, known, is_in_queue-eq cleaned c, before, live),
          )
          | inr new ↦ rw new (
            append-Distinct cleaned guid (ground (arith, known)) (cleanup-Distinct queue d),
            ground (
              arith,
              known,
              is_in_queue-eq (cleaned ++ guid ∷ []) c,
              before,
              live,
              contains-append cleaned (guid ∷ []) c,
            ),
          )
        ]

    -- Leaving the queue takes out the player and nobody else who is there.
    pub remove_player-is_in_queue :
        (queue : List String) (guid c : String)
        → is_in_queue lock (remove_player lock queue guid) c
          ≡ (not (guid == c) && is_in_queue lock queue c)
    unfolding remove_player is_in_queue any keep_if
    remove_player-is_in_queue [] guid c = ground arith
    remove_player-is_in_queue (w ∷ queue) guid c = ground (
      arith,
      remove_player-is_in_queue queue guid c,
      is_player_with-eq guid w,
      is_player_with-eq c w,
    )
