-- ===== src/Protocol/Builder/Parsed.antt =====
-- MessageBuilder.cpp against MessageParser.cpp: what is built is what is parsed.
use sea_battle.Base.{
  ◌≡◌, refl, ◌∙◌, inl, inr, true, false, List, ◌∷◌, String, String_discrete, ◌==◌, Option, none,
  some, if◌then◌else◌, arith, Bool-cases, string_key, contains, ℤ,
}
use sea_battle.Protocol.Messages.{Message}
use sea_battle.Protocol.Payload.{
  JsonLibrary, ParseResult, ParseError, parse_json, is_valid_message_type, is_valid_action,
}
use sea_battle.Protocol.Builder.{
  build, build_auth_response, build_auth_error, build_player_list, build_friend_list,
  build_stats_response, build_player_status_changed, build_invite_received, build_invite_response,
  build_game_started, build_find_game_response, build_place_ships_response, build_player_ready,
  build_battle_start, build_shot_result, build_opponent_shot, build_game_over,
  build_spectate_response, build_spectate_update, build_error, build_success,
}
use sea_battle.Protocol.Builder.Values.{JsonWriter, set_at, set_if, create_base}
use sea_battle.Protocol.Builder.Shape.{IsJson, IsSent, is_error, type_of, action_of}

different :
    (("type" == "action") ≡ false)
    × (("type" == "payload") ≡ false)
    × (("action" == "payload") ≡ false)
    × (("action" == "type") ≡ false)
    × (("payload" == "type") ≡ false)
    × (("payload" == "action") ≡ false)
unfolding String_discrete
different = (refl, refl, refl, refl, refl, refl)

same : (s : String) → (s == s) ≡ true
same s = ground arith

module _ {Json Double : Type 0} (lib : JsonLibrary Json) (w : JsonWriter Json Double)
    (json : IsJson lib w) where
  -- A value with this type and action, which has a payload if `full`.
  record IsEnvelope (type action : String) (msg : Json) : Type 0 where
    object : lib.is_object msg ≡ true
    typed : (lib.has msg "type" ≡ true) × (lib.at msg "type" ≡ w.of_string type)
    named : (lib.has msg "action" ≡ true) × (lib.at msg "action" ≡ w.of_string action)

  abbrev Sendable : String → String → Json → Type 0
  Sendable type action msg = IsEnvelope type action msg × (lib.has msg "payload" ≡ true)

  head-IsEnvelope :
      (type action : String)
      → IsEnvelope type action
          (w.set (w.set w.null "type" (w.of_string type)) "action" (w.of_string action))
  head-IsEnvelope type action =
      let t = w.of_string type in
      let a = w.of_string action in
      let typed = json.set_is w.object "type" t json.object_is in
      rw (json.set_null "type" t) record {
        object = json.set_is _ "action" a typed;
        typed = (
          ground (
            arith,
            json.has_set (w.set w.object "type" t) "action" a "type" typed,
            json.has_set w.object "type" t "type" json.object_is,
            same "type",
          ),
          json.at_other (w.set w.object "type" t) "action" a "type" typed different.3
                (ground (arith, json.has_set w.object "type" t "type" json.object_is, same "type"))
              ∙ json.at_same w.object "type" t json.object_is,
        );
        named = (
          ground (
            arith,
            json.has_set (w.set w.object "type" t) "action" a "action" typed,
            same "action",
          ),
          json.at_same (w.set w.object "type" t) "action" a typed,
        );
      }

  set_payload-IsEnvelope :
      (type action : String) (msg v : Json)
      → IsEnvelope type action msg
      → Sendable type action (w.set msg "payload" v)
  set_payload-IsEnvelope type action msg v e =
      let (has_type, is_type) = e.typed in
      let (has_action, is_action) = e.named in
      (
        record {
          object = json.set_is msg "payload" v e.object;
          typed = (
            ground (arith, json.has_set msg "payload" v "type" e.object),
            json.at_other msg "payload" v "type" e.object different.4 has_type ∙ is_type,
          );
          named = (
            ground (arith, json.has_set msg "payload" v "action" e.object),
            json.at_other msg "payload" v "action" e.object different.5 has_action ∙ is_action,
          );
        },
        ground (arith, json.has_set msg "payload" v "payload" e.object, same "payload"),
      )

  set_at-Sendable :
      {type action : String} {msg : Json} (path : List String) (v : Json)
      → Sendable type action msg
      → Sendable type action (set_at lib w msg ("payload" ∷ path) v)
  unfolding set_at
  set_at-Sendable {type} {action} {msg} path v (e, _) = set_payload-IsEnvelope type action msg _ e

  set_if-Sendable :
      {A : Type 0} {type action : String} {msg : Json} (path : List String) (write : A → Json)
      (value : Option A)
      → Sendable type action msg
      → Sendable type action (set_if lib w ("payload" ∷ path) write value msg)
  set_if-Sendable path write none e = e
  set_if-Sendable path write (some a) e = set_at-Sendable path (write a) e

  base-Sendable : (type action : String) → Sendable type action (create_base lib w type action)
  unfolding create_base
  base-Sendable type action =
      set_payload-IsEnvelope type action _ w.object (head-IsEnvelope type action)

  build_error-Sendable :
      (code : ℤ) (text : String) → Sendable "response" "error" (build_error lib w code text)
  unfolding build_error set_at
  build_error-Sendable code text =
      set_payload-IsEnvelope "response" "error" _ _
        (set_payload-IsEnvelope "response" "error" _ _ (head-IsEnvelope "response" "error")).0

  ruleset steps = (base-Sendable, set_at-Sendable, set_if-Sendable, build_error-Sendable)

  build-Sendable : (m : Message) → Sendable (type_of m) (action_of m) (build lib w m)
  unfolding build build_auth_response build_auth_error build_player_list build_friend_list
      build_stats_response build_player_status_changed build_invite_received build_invite_response
      build_game_started build_find_game_response build_place_ships_response build_player_ready
      build_battle_start build_shot_result build_opponent_shot build_game_over
      build_spectate_response build_spectate_update build_success
  build-Sendable (Message.place_ships_response true error) = search steps
  build-Sendable (Message.place_ships_response false error) = elim (Bool-cases (error == "")) [
    | inl nothing ↦ rw nothing (search steps)
    | inr some_text ↦ rw some_text (search steps)
  ]
  build-Sendable (Message.spectate_response true guid1 name1 guid2 name2 turn fog1 fog2) =
      search steps depth 12
  build-Sendable (Message.spectate_response false guid1 name1 guid2 name2 turn fog1 fog2) =
      search steps depth 12
  build-Sendable m = search steps depth 12

  parse-Sendable :
      (type action : String) (msg : Json)
      → Sendable type action msg
      → is_valid_message_type type ≡ true
      → parse_json lib msg ≡ (
          if is_valid_action action
          then ParseResult.parsed
              (record { type = type; action = action; payload = lib.at msg "payload" })
          else ParseResult.failed (ParseError.unknown_action action))
  unfolding parse_json
  parse-Sendable type action msg (e, full) valid =
      let (has_type, is_type) = e.typed in
      let (has_action, is_action) = e.named in
      rw
        (
          has_type,
          is_type,
          json.string_is type,
          json.string_of type,
          has_action,
          is_action,
          json.string_is action,
          json.string_of action,
          valid,
          full,
        )
        (ground arith)

  valid_or_error :
      (m : Message)
      → IsSent m
      → is_valid_action (action_of m) ≡ (if is_error m then false else true)
  unfolding is_valid_action contains String_discrete
  valid_or_error (Message.success action) sent = elim sent [
    | inl add ↦ rw add refl
    | inr (inl remove) ↦ rw remove refl
    | inr (inr cancel) ↦ rw cancel refl
  ]
  valid_or_error m sent = refl

  error_action : (m : Message) → is_error m ≡ true → action_of m ≡ "error"
  error_action (Message.error code message) error = refl
  error_action m error = cc

  type_of-valid : (m : Message) → is_valid_message_type (type_of m) ≡ true
  unfolding is_valid_message_type contains String_discrete
  type_of-valid (Message.error code message) = refl
  type_of-valid m = refl

  -- Every message that the server sends, when the library reads back the value that it printed, is
  -- parsed with its type, its action and the payload that was built; but an error message, which has
  -- the action `error`, is refused, since the parser does not know this action. What the server confirms
  -- are the three requests to add a friend, to remove one and to cancel a search.
  pub build-parse :
      (m : Message)
      → IsSent m
      → parse_json lib (build lib w m) ≡ (
          if is_error m
          then ParseResult.failed (ParseError.unknown_action "error")
          else ParseResult.parsed (record {
            type = type_of m;
            action = action_of m;
            payload = lib.at (build lib w m) "payload";
          }))
  build-parse m sent =
      let made =
        parse-Sendable (type_of m) (action_of m) (build lib w m) (build-Sendable m)
          (type_of-valid m) in
      let known = valid_or_error m sent in
      elim (Bool-cases (is_error m)) [
        | inl error ↦ rw error (rw (known, error, error_action m error) at made)
        | inr regular ↦ rw regular (rw (known, regular) at made)
      ]
