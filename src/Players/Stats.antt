-- ===== src/Players/Stats.antt =====
-- server/src/player/PlayerStats.cpp: the counters of a player. The counters are ints; they are
-- modelled without a bound, since each call adds at most one.
use sea_battle.Base.{
  ℕ, suc, ◌+◌, ◌≤◌, ◌≡◌, refl, Bool, List, [], ◌∷◌, arith, eqb, length, for_each, if◌then◌else◌,
}

pub record PlayerStats : Type 0 where
  pub games_played : ℕ
  pub wins : ℕ
  pub losses : ℕ
  pub shots_fired : ℕ
  pub shots_hit : ℕ

abbrev pub no_stats : PlayerStats
no_stats = record { games_played = 0; wins = 0; losses = 0; shots_fired = 0; shots_hit = 0 }

unfoldable pub record_win : PlayerStats → PlayerStats
record_win s = record s { wins = suc s.wins; games_played = suc s.games_played }

unfoldable pub record_loss : PlayerStats → PlayerStats
record_loss s = record s { losses = suc s.losses; games_played = suc s.games_played }

unfoldable pub record_shot : Bool → PlayerStats → PlayerStats
record_shot hit s = record s {
  shots_fired = suc s.shots_fired;
  shots_hit = if hit then suc s.shots_hit else s.shots_hit;
}

-- What is shown in percent, over the doubles of the machine: `percent a b` is (a / b) * 100.0.
module _ {Double : Type 0} (no_percent : Double) (percent : ℕ → ℕ → Double) where
  unfoldable pub get_winrate : PlayerStats → Double
  get_winrate s = if eqb s.games_played 0 then no_percent else percent s.wins s.games_played

  unfoldable pub get_accuracy : PlayerStats → Double
  get_accuracy s = if eqb s.shots_fired 0 then no_percent else percent s.shots_hit s.shots_fired

-- A call of one of the three methods.
pub data Event : Type 0 where
  win : Event
  loss : Event
  shot : Bool → Event

abbrev pub apply : PlayerStats → Event → PlayerStats
apply s win = record_win s
apply s loss = record_loss s
apply s (shot hit) = record_shot hit s

abbrev pub run : List Event → PlayerStats
run events = for_each apply no_stats events

run_from :
    (events : List Event) (s : PlayerStats)
    → s.games_played ≡ s.wins + s.losses
    → s.shots_hit ≤ s.shots_fired
    → let s' = for_each apply s events in
      (s'.games_played ≡ s'.wins + s'.losses)
      × (s'.shots_hit ≤ s'.shots_fired)
      × (s'.games_played + s'.shots_fired ≡ s.games_played + s.shots_fired + length events)
unfolding for_each record_win record_loss record_shot
run_from [] s e l = (e, l, omega arith)
run_from (win ∷ events) s e l = ground (arith, run_from events (record_win s) (ground arith) l)
run_from (loss ∷ events) s e l = ground (arith, run_from events (record_loss s) (ground arith) l)
run_from (shot hit ∷ events) s e l =
    ground (arith, run_from events (record_shot hit s) e (ground arith))

-- After any calls on new statistics: the games are the wins and the losses, no more shots hit than
-- were fired, and games and shots together are the number of calls, so that no counter exceeds it.
pub run_lem :
    (events : List Event)
    → ((run events).games_played ≡ (run events).wins + (run events).losses)
      × ((run events).shots_hit ≤ (run events).shots_fired)
      × ((run events).games_played + (run events).shots_fired ≡ length events)
run_lem events = ground (arith, run_from events no_stats refl (omega arith))
