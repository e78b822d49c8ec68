-- ===== src/Handler/Safe/Runs.antt =====
-- Server.cpp and MessageHandler.cpp: any sequence of connections, messages and failures.
use mathlib.Core.Path.{subst}
use sea_battle.Base.{
  Option, none, ◌>>=◌, ◌≡◌, refl, ok, throw, Throws, number_key, string_key, find,
}
use sea_battle.Game.Manager.{no_games}
use sea_battle.Game.Manager.Players.{Reach, Reach-IsManager}
use sea_battle.Protocol.Payload.{JsonLibrary}
use sea_battle.Handler.{World, Context, games_of}
use sea_battle.Types.{SessionRef}
use sea_battle.Protocol.Payload.{parse_message, parse_read}
use sea_battle.Handler.Dispatch.{handle_parsed, handle_message}
use sea_battle.Handler.Departure.{on_session_error}
use sea_battle.Handler.Server.{Event, IsFresh, Run, Reached, handle_event, on_accept}
use sea_battle.Handler.Safe.Games.{IsSafe}
use sea_battle.Handler.Safe.Endings.{Fine, on_session_error-Fine}
use sea_battle.Handler.Safe.Requests.{handle_parsed-Fine}

pub no_games-IsSafe : IsSafe no_games
unfolding find
no_games-IsSafe = record { players = Reach-IsManager Reach.here; named = λ id g found. cc }

-- What was handled: there is a next state, and its games are safe.
abbrev pub Handled : Throws World → Type 0
Handled t = (w' : World) × (t ≡ ok w') × IsSafe (games_of w')

Fine-Handled : (t : Throws World) → Fine t → Handled t
Fine-Handled (ok w) v = (w, refl, v)
Fine-Handled (throw e) v = absurd v

module _ {Json : Type 0} (lib : JsonLibrary Json) where
  -- What the JSON library makes of the text of a message.
  abbrev pub read_text : Event → Throws (Option Json)
  read_text (Event.received s raw) = lib.parse raw
  read_text e = ok none

  -- An exception of the library leaves the handler as it is; otherwise the event is handled.
  abbrev pub Outcome : Throws (Option Json) → Throws World → Type 0
  Outcome (ok read) t = Handled t
  Outcome (throw e) t = t ≡ throw e

  message-Outcome :
      (c : Context) (w : World) (s : SessionRef) (text : Throws (Option Json))
      → IsSafe (games_of w)
      → IsFresh c w
      → Outcome text
          ((text >>= λ read. ok (parse_read lib read)) >>= λ r. handle_parsed c lib w s r)
  message-Outcome c w s (ok read) v fresh =
      Fine-Handled (handle_parsed c lib w s (parse_read lib read))
        (handle_parsed-Fine c lib w s (parse_read lib read) v fresh)
  message-Outcome c w s (throw e) v fresh = refl

  pub event-Outcome :
      (c : Context) (w : World) (e : Event)
      → IsSafe (games_of w)
      → IsFresh c w
      → Outcome (read_text e) (handle_event lib c w e)
  unfolding handle_event on_accept handle_message parse_message
  event-Outcome c w (Event.accepted session) v fresh = (on_accept w session, refl, v)
  event-Outcome c w (Event.received s raw) v fresh = message-Outcome c w s (lib.parse raw) v fresh
  event-Outcome c w (Event.failed s) v fresh =
      Fine-Handled (on_session_error c w s) (on_session_error-Fine c w s v)

  Outcome-IsSafe :
      (text : Throws (Option Json)) (t : Throws World) (w : World)
      → Outcome text t
      → t ≡ ok w
      → IsSafe (games_of w)
  Outcome-IsSafe (ok read) t w (w', made, safe) done =
      let same : w' ≡ w = cc in subst (λ (w : World). IsSafe (games_of w)) same safe
  Outcome-IsSafe (throw e) t w failed done = cc

  pub Run-IsSafe : {w w' : World} → IsSafe (games_of w) → Run lib w w' → IsSafe (games_of w')
  Run-IsSafe v Run.here = v
  Run-IsSafe {w} {w'} v (Run.next {v = before} c e run fresh done) =
      Outcome-IsSafe (read_text e) (handle_event lib c before e) w'
        (event-Outcome c before e (Run-IsSafe v run) fresh) done

  Reached-IsSafe : {w : World} → Reached lib w → IsSafe (games_of w)
  Reached-IsSafe run = Run-IsSafe no_games-IsSafe run

  -- Whatever connections were accepted and lost and whatever messages were handled before, as long as
  -- the identifiers that the handler gets are different and none is that of a game: a message whose text
  -- makes the JSON library throw something else than a parse error ends with this exception; every
  -- other message, every connection and every failure is handled without an exception, and afterwards
  -- whoever is in the table of players plays in the game that it names, and each game stands under its
  -- own identifier.
  pub Reached-Handled :
      (c : Context) (w : World) (e : Event)
      → Reached lib w
      → IsFresh c w
      → Outcome (read_text e) (handle_event lib c w e)
  Reached-Handled c w e run fresh = event-Outcome c w e (Reached-IsSafe run) fresh
