-- ===== src/Network/Session/Writing.antt =====
-- Session.cpp: writes one at a time, in the order of the calls of `send`.
use sea_battle.Base.{
  ℕ, ◌≡◌, refl, Bool, true, false, List, [], ◌∷◌, ◌++◌, map, Option, none, some, length,
}
use sea_battle.Protocol.Frame.{pack_message}
use sea_battle.Network.Session.{Writer, send, close, handle_error, write_done}

pub data Step (w : Writer) : Writer → Type 0 where
  send_message : (message : List ℕ) → Step w (send w message)
  done :
      (bytes : List ℕ) {size : ℕ}
      → w.in_flight ≡ some size
      → length bytes ≡ size
      → Step w (write_done bytes w)

pub data Reach (w : Writer) : Writer → Type 0 where
  here : Reach w w
  next : {u v : Writer} → Reach w u → Step u v → Reach w v

abbrev pub is_some : Option ℕ → Bool
is_some none = false
is_some (some size) = true

abbrev pub size_of : Option ℕ → List ℕ
size_of none = []
size_of (some size) = size ∷ []

abbrev pub sizes : List (List ℕ) → List ℕ
sizes frames = map (λ f. length f) frames

-- The size of the frame of a message.
abbrev pub frame_size : List ℕ → ℕ
frame_size message = length (pack_message message)

pub record IsWriter (w : Writer) : Type 0 where
  pub opened : w.is_open ≡ true
  pub one_write : w.is_writing ≡ is_some w.in_flight
  pub idle : w.in_flight ≡ none → w.write_queue ≡ []
  pub in_order :
      sizes w.written ++ size_of w.in_flight ++ sizes w.write_queue ≡ map frame_size w.sent_messages

-- A session that is closed stays closed, and takes no message, and an error on it is not reported.
pub closed_session :
    (w : Writer) (message : List ℕ)
    → w.is_open ≡ false
    → (send w message ≡ w) × (handle_error w ≡ (w, false)) × ((close w).is_open ≡ false)
unfolding send handle_error close
closed_session w message shut = rw shut (refl, refl, refl)
