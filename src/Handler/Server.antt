-- ===== src/Handler/Server.antt =====
-- server/src/network/Server.cpp: the server as a whole. It starts with nothing, and what happens to it
-- is one of three things, each of which is a callback of the asio library.
use sea_battle.Base.{ℕ, ◌≡◌, [], String, Option, none, Throws, ok, string_key, number_key, find}
use sea_battle.Types.{SessionRef}
use sea_battle.Game.Manager.{no_games}
use sea_battle.Network.Registry.{new_registry, add_session}
use sea_battle.Protocol.Payload.{JsonLibrary}
use sea_battle.Handler.{World, Context, games_of}
use sea_battle.Handler.Dispatch.{handle_message}
use sea_battle.Handler.Departure.{on_session_error}

-- `Server::Server`.
abbrev pub new_world : World
new_world = record {
  hall = record { queue = []; invites = []; games = no_games; players = [] };
  registry = new_registry;
  player_of = [];
  sent = [];
}

-- The callback of `doAccept`, with no session when there was an error.
unfoldable pub on_accept : World → Option SessionRef → World
on_accept w session = record w { registry = (add_session w.registry session).0 }

pub data Event : Type 0 where
  accepted : Option SessionRef → Event
  received : SessionRef → String → Event
  failed : SessionRef → Event

-- The identifiers that a callback gets are new: none is that of a game, and all are different.
pub record IsFresh (c : Context) (w : World) : Type 0 where
  pub no_game : (k : ℕ) → find (games_of w).games (c.fresh k) ≡ none
  pub distinct : (i j : ℕ) → c.fresh i ≡ c.fresh j → i ≡ j

module _ {Json : Type 0} (lib : JsonLibrary Json) where
  unfoldable pub handle_event : Context → World → Event → Throws World
  handle_event c w (Event.accepted session) = ok (on_accept w session)
  handle_event c w (Event.received s raw) = handle_message c lib w s raw
  handle_event c w (Event.failed s) = on_session_error c w s

  -- Whatever happens one after the other.
  pub data Run (w : World) : World → Type 0 where
    here : Run w w
    next :
        {v v' : World} (c : Context) (e : Event)
        → Run w v
        → IsFresh c v
        → handle_event c v e ≡ ok v'
        → Run w v'

  -- The states that the server can come to.
  abbrev pub Reached : World → Type 0
  Reached w = Run new_world w
