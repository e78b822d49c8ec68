-- ===== src/Network/Registry/Abstract.antt =====
-- SessionManager.cpp against what the table of sessions promises: two maps, as functions, and a
-- counter.
use sea_battle.Base.{
  ℕ, ◌+◌, ◌%◌, ◌^◌, ◌≡◌, refl, ap, ◌∙◌, inl, inr, List, [], ◌∷◌, String, ◌==◌, Option, none, some,
  eqb, if◌then◌else◌, arith, Bool-cases, Option-cases, for_each, string_key, number_key, find,
  find-assign, find-remove,
}
use sea_battle.Types.{SessionRef}
use sea_battle.Network.Registry.{
  Registry, new_registry, add_session, remove_session, get_session, get_session_by_player_guid,
  bind_player_to_session, unbind_player, close_all, session_at,
}

-- The specification: the session of each number, the number of each player's session, and the number
-- that comes next.
pub record Table : Type 0 where
  pub session_of : ℕ → Option SessionRef
  pub number_of : String → Option ℕ
  pub next : ℕ

abbrev pub empty_table : Table
empty_table = record { session_of = λ id. none; number_of = λ guid. none; next = 1 }

abbrev pub set_number : ℕ → Option SessionRef → Table → Table
set_number id s t = record t {
  session_of = λ other. if eqb id other then s else t.session_of other;
}

abbrev pub set_player : String → Option ℕ → Table → Table
set_player guid id t = record t {
  number_of = λ other. if guid == other then id else t.number_of other;
}

pub data Call : Type 0 where
  add : Option SessionRef → Call
  drop : ℕ → Call
  bind : String → Option ℕ → Call
  unbind : String → Call
  close : Call

module _ (player_of : SessionRef → Option String) where
  abbrev pub call : Registry → Call → Registry
  call r (add s) = (add_session r s).0
  call r (drop id) = (remove_session player_of r id).0
  call r (bind guid id) = bind_player_to_session r guid id
  call r (unbind guid) = unbind_player r guid
  call r close = close_all r

  abbrev drop_player : Option String → Table → Table
  drop_player none t = t
  drop_player (some guid) t = set_player guid none t

  abbrev drop_session : ℕ → Option SessionRef → Table → Table
  drop_session id none t = t
  drop_session id (some s) t = drop_player (player_of s) (set_number id none t)

  -- What a call promises.
  abbrev pub promised : Table → Call → Table
  promised t (add none) = t
  promised t (add (some s)) = record (set_number t.next (some s) t) { next = (t.next + 1) % 2 ^ 64 }
  promised t (drop id) = drop_session id (t.session_of id) t
  promised t (bind guid none) = t
  promised t (bind guid (some id)) = if guid == "" then t else set_player guid (some id) t
  promised t (unbind guid) = set_player guid none t
  promised t close = record empty_table { next = t.next }

  -- The table that a state stands for.
  abbrev pub StandsFor : Registry → Table → Type 0
  StandsFor r t =
      ((id : ℕ) → find r.sessions id ≡ t.session_of id)
      × ((guid : String) → find r.player_to_session guid ≡ t.number_of guid)
      × (r.next_session_id ≡ t.next)

  drop-StandsFor :
      (r : Registry) (t : Table) (id : ℕ) (found : Option SessionRef)
      → find r.sessions id ≡ found
      → StandsFor r t
      → StandsFor (remove_session player_of r id).0 (drop_session id found t)
  unfolding remove_session
  drop-StandsFor r t id none e h = rw e h
  drop-StandsFor r t id (some s) e (sessions, players, next) =
      rw e elim (Option-cases (player_of s)) [
        | inl nobody ↦ rw nobody (
          λ other. ground (arith, find-remove r.sessions id other, sessions other),
          players,
          next,
        )
        | inr (guid, owner) ↦ rw owner (
          λ other. ground (arith, find-remove r.sessions id other, sessions other),
          λ other. ground (arith, find-remove r.player_to_session guid other, players other),
          next,
        )
      ]

  call-StandsFor :
      (r : Registry) (t : Table) (c : Call) → StandsFor r t → StandsFor (call r c) (promised t c)
  unfolding add_session bind_player_to_session unbind_player close_all find
  call-StandsFor r t (add none) h = h
  call-StandsFor r t (add (some s)) (sessions, players, next) = (
    λ id. ground (arith, find-assign r.sessions r.next_session_id s id, sessions id, next),
    players,
    rw next refl,
  )
  call-StandsFor r t (drop id) h = drop-StandsFor r t id (t.session_of id) (h.0 id) h
  call-StandsFor r t (bind guid none) h = h
  call-StandsFor r t (bind guid (some id)) (sessions, players, next) =
      elim (Bool-cases (guid == "")) [
        | inl empty ↦ rw empty (sessions, players, next)
        | inr real ↦ rw real (
          sessions,
          λ other. ground (arith, find-assign r.player_to_session guid id other, players other),
          next,
        )
      ]
  call-StandsFor r t (unbind guid) (sessions, players, next) = (
    sessions,
    λ other. ground (arith, find-remove r.player_to_session guid other, players other),
    next,
  )
  call-StandsFor r t close (sessions, players, next) = (λ id. refl, λ guid. refl, next)

  calls-StandsFor :
      (calls : List Call) (r : Registry) (t : Table)
      → StandsFor r t
      → StandsFor (for_each call r calls) (for_each promised t calls)
  unfolding for_each
  calls-StandsFor [] r t h = h
  calls-StandsFor (c ∷ calls) r t h =
      calls-StandsFor calls (call r c) (promised t c) (call-StandsFor r t c h)

  abbrev pub run : List Call → Registry
  run calls = for_each call new_registry calls

  abbrev pub promised_run : List Call → Table
  promised_run calls = for_each promised empty_table calls

  abbrev pub session_via : Table → Option ℕ → Option SessionRef
  session_via t none = none
  session_via t (some id) = t.session_of id

  session_via_lem :
      (r : Registry) (t : Table) (id : Option ℕ)
      → StandsFor r t
      → session_at r id ≡ session_via t id
  session_via_lem r t none h = refl
  session_via_lem r t (some id) h = h.0 id

  -- After any calls on a new table of sessions, in any order, each session is found by its number and
  -- by the GUID of the player bound to it as in the two maps of the specification, which the calls
  -- change point by point, and the next number is the specification's.
  pub run-promised :
      (calls : List Call) (id : ℕ) (guid : String)
      → (get_session (run calls) id ≡ (promised_run calls).session_of id)
        × (get_session_by_player_guid (run calls) guid
            ≡ session_via (promised_run calls) ((promised_run calls).number_of guid))
        × ((run calls).next_session_id ≡ (promised_run calls).next)
  unfolding get_session get_session_by_player_guid find
  run-promised calls id guid =
      let h = calls-StandsFor calls new_registry empty_table (λ id. refl, λ guid. refl, refl) in
      (
        h.0 id,
        ap (session_at (run calls)) (h.1 guid)
            ∙ session_via_lem (run calls) (promised_run calls) _ h,
        h.2,
      )
