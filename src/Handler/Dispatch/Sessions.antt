-- ===== src/Handler/Dispatch/Sessions.antt =====
-- MessageHandler.cpp: what a message changes in the table of sessions and in the players of sessions.
use sea_battle.Base.{
  ◌⊎◌, Throws-cases, assign, string_key, ◌≡◌, refl, inl, inr, Bool, false, not, ◌&&◌, String, ◌==◌,
  Option, none, some, eqb, arith, Bool-cases, ok, throw, Throws, find, find-assign, number_key,
}
use sea_battle.Types.{SessionRef}
use sea_battle.Players.{Player, is_online}
use sea_battle.Players.Directory.{Directory, find_or_create_player}
use sea_battle.Network.Registry.{bind_player_to_session}
use sea_battle.Protocol.Payload.{JsonLibrary, ParseResult, parse_message}
use sea_battle.Handler.{
  World, Context, session_player, send, send_error, broadcast_message_except, bytes, given,
}
use sea_battle.Game.Nickname.{is_valid_nickname}
use sea_battle.Handler.Account.{
  handle_auth, auth_as, auth_named, auth_found, log_in, is_session, with_players,
}
use sea_battle.Handler.Dispatch.{dispatch_as, handle_parsed, handle_message}
use sea_battle.Handler.Dispatch.Unchanged.{Keeps, KeepsAll, dispatch-Keeps}

abbrev pub is_auth : {Json : Type 0} → ParseResult Json → Bool
is_auth (ParseResult.failed e) = false
is_auth (ParseResult.parsed m) = m.action == "auth"

module _ (c : Context) where
  -- What a message of the session `s` may change of the sessions: whose player `s` has, and the session
  -- bound to this player, which is then `s` itself.
  abbrev pub OnlyOwn : SessionRef → World → World → Type 0
  OnlyOwn s w w' =
      (w'.registry.sessions ≡ w.registry.sessions)
      × (w'.registry.next_session_id ≡ w.registry.next_session_id)
      × ((r : SessionRef) → eqb s r ≡ false → find w'.player_of r ≡ find w.player_of r)
      × ((v : String)
          → (find w'.registry.player_to_session v ≡ find w.registry.player_to_session v)
            ⊎ ((find w'.player_of s ≡ some v)
                × (find w'.registry.player_to_session v ≡ some (c.session_id s))))

  same-OnlyOwn : (s : SessionRef) (w : World) → OnlyOwn s w w
  same-OnlyOwn s w = (refl, refl, λ r other. refl, λ v. inl refl)

  Keeps-OnlyOwn : (s : SessionRef) (w w' : World) → Keeps w w' → OnlyOwn s w w'
  Keeps-OnlyOwn s w w' (registry, player_of) = (
    rw registry refl,
    rw registry refl,
    λ r other. rw player_of refl,
    λ v. inl (rw registry refl),
  )

  bind-OnlyOwn :
      (w : World) (s : SessionRef) (guid v : String)
      → let bound = (bind_player_to_session w.registry guid (some (c.session_id s))) in
        (find bound.player_to_session v ≡ find w.registry.player_to_session v)
        ⊎ ((find (assign w.player_of s guid) s ≡ some v)
            × (find bound.player_to_session v ≡ some (c.session_id s)))
  unfolding bind_player_to_session
  bind-OnlyOwn w s guid v =
      let written = find-assign w.registry.player_to_session guid (c.session_id s) v in
      let mine = find-assign w.player_of s guid s in
      elim (Bool-cases (guid == "")) [
        | inl empty ↦ rw empty (inl refl)
        | inr real ↦ rw real elim (Bool-cases (guid == v)) [
          | inl same ↦ inr (ground (arith, mine), ground (arith, written))
          | inr other ↦ inl (ground (arith, written))
        ]
      ]

  log_in-OnlyOwn : (w : World) (s : SessionRef) (p : Player) → OnlyOwn s w (log_in c w s p)
  unfolding send broadcast_message_except bind_player_to_session
  log_in-OnlyOwn w s p = elim (Bool-cases (is_online p && not (is_session p.session s))) [
    | inl taken ↦ rw taken (refl, refl, λ r other. refl, λ v. inl refl)
    | inr free ↦ rw free (
      ground arith,
      ground arith,
      λ r other. ground (arith, find-assign w.player_of s p.guid r),
      bind-OnlyOwn w s p.guid,
    )
  ]

  auth_found-OnlyOwn :
      (w : World) (s : SessionRef) (nickname : String) (found : Directory × Option Player)
      → OnlyOwn s w (auth_found c w s nickname found)
  unfolding send
  auth_found-OnlyOwn w s nickname (d, some p) = log_in-OnlyOwn (with_players w d) s p
  auth_found-OnlyOwn w s nickname (d, none) =
      let (d', p, created) = find_or_create_player (c.fresh 0) d nickname in
      elim (Bool-cases (not created && is_online p)) [
        | inl taken ↦ rw taken (refl, refl, λ r other. refl, λ v. inl refl)
        | inr free ↦ rw free (log_in-OnlyOwn (with_players w d') s p)
      ]

  auth_named-OnlyOwn :
      (w : World) (s : SessionRef) (nickname guid : Option String)
      → OnlyOwn s w (auth_named c w s nickname guid)
  unfolding send
  auth_named-OnlyOwn w s none guid = (refl, refl, λ r other. refl, λ v. inl refl)
  auth_named-OnlyOwn w s (some nickname) guid =
      elim (Bool-cases (is_valid_nickname (bytes nickname))) [
        | inr bad ↦ rw bad (refl, refl, λ r other. refl, λ v. inl refl)
        | inl good ↦ rw good (auth_found-OnlyOwn w s nickname _)
      ]

  auth_as-OnlyOwn :
      (w : World) (s : SessionRef) (p : Option Player) (nickname guid : Option String)
      → OnlyOwn s w (auth_as c w s p nickname guid)
  unfolding send
  auth_as-OnlyOwn w s (some p) nickname guid = (refl, refl, λ r other. refl, λ v. inl refl)
  auth_as-OnlyOwn w s none nickname guid = auth_named-OnlyOwn w s (given nickname) guid

module _ (c : Context) {Json : Type 0} (lib : JsonLibrary Json) where
  -- What a message may change, by what the parser made of it.
  abbrev Bounded : SessionRef → ParseResult Json → World → Throws World → Type 0
  Bounded s r w (ok w') = OnlyOwn c s w w' × (is_auth r ≡ false → Keeps w w')
  Bounded s r w (throw e) = Unit

  dispatch_as-KeepsAll :
      (w : World) (s : SessionRef) (p : Option Player) (action : String) (payload : Json)
      → KeepsAll w (dispatch_as c lib w s p action payload)
  unfolding send send_error
  dispatch_as-KeepsAll w s none action payload = (refl, refl)
  dispatch_as-KeepsAll w s (some p) action payload = dispatch-Keeps c lib w s p action payload

  Bounded-KeepsAll :
      (w : World) (s : SessionRef) (r : ParseResult Json) (t : Throws World)
      → KeepsAll w t
      → Bounded s r w t
  Bounded-KeepsAll w s r (ok w') k = (Keeps-OnlyOwn c s w w' k, λ other. k)
  Bounded-KeepsAll w s r (throw e) k = tt

  handle_parsed-Bounded :
      (w : World) (s : SessionRef) (r : ParseResult Json)
      → Bounded s r w (handle_parsed c lib w s r)
  unfolding handle_auth send
  handle_parsed-Bounded w s (ParseResult.failed e) =
      ((refl, refl, λ r other. refl, λ v. inl refl), λ other. (refl, refl))
  handle_parsed-Bounded w s (ParseResult.parsed m) = elim (Bool-cases (m.action == "auth")) [
    | inl login ↦ rw login (auth_as-OnlyOwn c w s (session_player w s) _ _, λ other. cc)
    | inr other ↦ rw other (
        Bounded-KeepsAll w s (ParseResult.parsed m) _
          (dispatch_as-KeepsAll w s (session_player w s) m.action m.payload))
  ]

  -- A message that is handled without an exception was read by the parser. It changes nothing of the
  -- sessions but, when it is a login, whose player the session is that it came from, and the session
  -- bound to this player: the table of sessions by number and the next number stay, and so do the
  -- players of all other sessions; a GUID is bound as before, or it is that of the player whom the
  -- session then has, and is bound to the number of the session.
  pub handle_message-OnlyOwn :
      (w w' : World) (s : SessionRef) (raw : String)
      → handle_message c lib w s raw ≡ ok w'
      → (r : ParseResult Json) × (parse_message lib raw ≡ ok r)
        × OnlyOwn c s w w'
        × (is_auth r ≡ false → Keeps w w')
  unfolding handle_message
  handle_message-OnlyOwn w w' s raw done = elim (Throws-cases (parse_message lib raw)) [
    | inl (r, read) ↦
        let made : handle_parsed c lib w s r ≡ ok w' = rw read at done in
        let bounded = handle_parsed-Bounded w s r in
        let known : Bounded s r w (ok w') = rw made at bounded in (r, read, known.0, known.1)
    | inr (e, failed) ↦ let no : throw e ≡ ok w' = rw failed at done in cc
  ]
