-- ===== src/Tests/Runs.antt =====
-- Witnesses of the theorems on the server as a whole.
use Prim.Native.String.{[] as end_of_text, ◌∷◌ as with_char}
use sea_battle.Base.{
  ℕ, zero, suc, ◌≡◌, refl, sym, ap, ◌∙◌, true, length, String, some, find, string_key, number_key,
}
use sea_battle.Game.Nickname.Utf8.{encode}
use sea_battle.Handler.{World, Context, bytes}
use sea_battle.Handler.Server.{Event, IsFresh, Run, Reached, handle_event, on_accept, new_world}
use sea_battle.Handler.Safe.Runs.{Handled, Reached-Handled}
use sea_battle.Players.{new_player}
use sea_battle.Players.Directory.{Directory}
use sea_battle.Game.Match.{Game, surrender, new_game, finish_game, is_finished}
use sea_battle.Game.Match.Reach.{SameResult}
use sea_battle.Game.Manager.{Manager, no_games, create_game, get_game}
use sea_battle.Handler.{games_of, set_game}
use sea_battle.Handler.Safe.Games.{IsSafe, create_game-IsSafe, set_game-IsSafe, surrender-SameFrame}
use sea_battle.Handler.Safe.Runs.{no_games-IsSafe, event-Outcome}
use sea_battle.Handler.Results.Runs.{Run-SameResult}
use sea_battle.Handler.Dispatch.{handle_message}
use sea_battle.Protocol.Payload.{parse_message}
use sea_battle.Base.{
  throw, number_out_of_range, arith, ◌≢◌, [], ◌∷◌, String_discrete, assign, find-assign,
}
use sea_battle.Tests.Data.{ann, bob}
use sea_battle.Tests.Json.{trees}

-- Identifiers of different lengths.
unfoldable name : ℕ → String
name zero = end_of_text
name (suc k) = with_char "a" (name k)

length-name : (k : ℕ) → length (bytes (name k)) ≡ k
unfolding name bytes encode
length-name zero = refl
length-name (suc k) = ap (λ n. suc n) (length-name k)

abbrev context : Context
context = record {
  is_open = λ s. true;
  alive = λ s. true;
  session_id = λ s. 1;
  second = 1;
  now = 5;
  fresh = name;
  heads = λ k. true;
}

name-distinct : (i j : ℕ) → name i ≡ name j → i ≡ j
name-distinct i j same = sym (length-name i) ∙ ap (λ s. length (bytes s)) same ∙ length-name j

abbrev connected : World
connected = on_accept new_world (some 3)

new_world-IsFresh : IsFresh context new_world
unfolding find
new_world-IsFresh = record { no_game = λ k. refl; distinct = name-distinct }

connected-IsFresh : IsFresh context connected
unfolding find on_accept
connected-IsFresh = record { no_game = λ k. refl; distinct = name-distinct }

connected-Reached : Reached trees connected
unfolding handle_event
connected-Reached = Run.next context (Event.accepted (some 3)) Run.here new_world-IsFresh refl

Reached-Handled_example : Handled (handle_event trees context connected (Event.received 3 "login"))
unfolding String_discrete
Reached-Handled_example =
    Reached-Handled trees context connected (Event.received 3 "login") connected-Reached
      connected-IsFresh

-- A game that Ann has given up.
abbrev people : Directory
people = (ann, new_player ann "Ann") ∷ (bob, new_player bob "Bob") ∷ []

abbrev opened : Manager × Directory × Game
opened = create_game "g" true no_games people (new_player ann "Ann") (new_player bob "Bob")

abbrev during : World
during = record connected {
  hall = record { queue = []; invites = []; games = opened.0; players = opened.1 };
}

abbrev given_up : Game
given_up = surrender opened.2 ann

abbrev afterwards : World
afterwards = set_game during given_up

opened-IsSafe : IsSafe opened.0
unfolding find
opened-IsSafe =
    create_game-IsSafe "g" true no_games people (new_player ann "Ann") (new_player bob "Bob")
      no_games-IsSafe refl

afterwards-IsSafe : IsSafe (games_of afterwards)
unfolding find create_game new_game String_discrete assign
afterwards-IsSafe =
    (set_game-IsSafe during opened.2 given_up opened-IsSafe refl
      (surrender-SameFrame opened.2 ann)).0

longer : (k : ℕ) → "g" ≢ name (suc (suc k))
unfolding bytes encode
longer k same =
    let lengths : 1 ≡ suc (suc k) = ap (λ s. length (bytes s)) same ∙ length-name (suc (suc k)) in
    omega arith

abbrev later : Context
later = record context { fresh = λ k. name (suc (suc k)) }

afterwards-IsFresh : IsFresh later afterwards
unfolding find create_game new_game surrender finish_game String_discrete
afterwards-IsFresh = record {
  no_game = λ k.
      let n = name (suc (suc k)) in
      let before = opened.0.games in
      ground (arith, find-assign before "g" given_up n, find-assign [] "g" opened.2 n, longer k);
  distinct =
      λ i j same. let lengths = name-distinct (suc (suc i)) (suc (suc j)) same in omega arith;
}

lost : Handled (handle_event trees later afterwards (Event.failed 3))
lost = event-Outcome trees later afterwards (Event.failed 3) afterwards-IsSafe afterwards-IsFresh

Run-SameResult_example :
    (g' : Game) × (get_game (games_of lost.0) "g" ≡ some g') × SameResult given_up g'
unfolding find create_game new_game String_discrete surrender finish_game is_finished get_game
    assign
Run-SameResult_example =
    Run-SameResult trees afterwards lost.0 "g" given_up afterwards-IsSafe refl refl
      (Run.next later (Event.failed 3) Run.here afterwards-IsFresh lost.1)

-- A number that no double can hold is not caught.
huge_number :
    handle_event trees later afterwards (Event.received 3 "1e999") ≡ throw number_out_of_range
unfolding handle_event handle_message parse_message String_discrete
huge_number = refl
