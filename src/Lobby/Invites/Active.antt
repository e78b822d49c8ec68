-- ===== src/Lobby/Invites/Active.antt =====
-- InviteManager.cpp: between two players there is at most one active invitation in each direction, and
-- an invitation is accepted at most once.
use sea_battle.Base.{
  ℕ, ◌≤◌, ◌≡◌, refl, inl, inr, Bool, true, false, ◌||◌, [], ◌∷◌, String, String_discrete, ◌==◌,
  none, some, length, arith, Bool-cases, Option-cases, if◌then◌else◌, string_key, contains, find,
  assign, remove, keep_entries, values_where, any_value, keys, find-remove,
  length-values_where-assign, length-values_where-remove, length-values_where-keep_entries,
  length-values_where_mono, length-values_where_none, any_value-assign,
}
use sea_battle.Lobby.Invites.{
  GameInvite, InviteTable, new_invite, is_expired, is_active, create_invite, get_invite,
  accept_invite, get_invites_for_player, get_invites_from_player, cleanup_expired,
  has_active_invite, decline_invite, cancel_invite, remove_invites_for_player,
}

module _ (second : ℕ) where
  -- A call, or the passing of time, from one time and table to the next.
  pub data Step : ℕ × InviteTable → ℕ × InviteTable → Type 0 where
    wait : {now later : ℕ} {m : InviteTable} → now ≤ later → Step (now, m) (later, m)
    create :
        {now : ℕ} {m : InviteTable} (id from to : String)
        → contains (keys m) id ≡ false
        → Step (now, m) (now, (create_invite second now m id from to).0)
    accept :
        {now : ℕ} {m : InviteTable} (id : String)
        → Step (now, m) (now, (accept_invite second now m id).0)
    decline :
        {now : ℕ} {m : InviteTable} (id : String) → Step (now, m) (now, (decline_invite m id).0)
    cancel :
        {now : ℕ} {m : InviteTable} (id from : String)
        → Step (now, m) (now, (cancel_invite m id from).0)
    forget :
        {now : ℕ} {m : InviteTable} (guid : String)
        → Step (now, m) (now, remove_invites_for_player m guid)
    clean : {now : ℕ} {m : InviteTable} → Step (now, m) (now, cleanup_expired second now m)

  pub data Reach : ℕ × InviteTable → ℕ × InviteTable → Type 0 where
    here : {s : ℕ × InviteTable} → Reach s s
    next : {s t u : ℕ × InviteTable} → Reach s t → Step t u → Reach s u

  abbrev pub AtMostOne : ℕ × InviteTable → Type 0
  AtMostOne (now, m) =
      (from to : String) → length (values_where (is_active second now from to) m) ≤ 1

  later_active :
      (now later : ℕ) (from to : String) (i : GameInvite)
      → now ≤ later
      → is_active second later from to i ≡ true
      → is_active second now from to i ≡ true
  unfolding is_expired
  later_active now later from to i le a = ground arith

  after_wait :
      (now later : ℕ) (m : InviteTable) → now ≤ later → AtMostOne (now, m) → AtMostOne (later, m)
  after_wait now later m le one from to = omega (
    arith,
    one from to,
    length-values_where_mono (is_active second later from to) (is_active second now from to) m
        (λ i a. later_active now later from to i le a),
  )

  after_remove :
      (now : ℕ) (m : InviteTable) (id : String) → AtMostOne (now, m) → AtMostOne (now, remove m id)
  after_remove now m id one from to =
      omega (arith, one from to, length-values_where-remove (is_active second now from to) m id)

  after_keep :
      (now : ℕ) (keep : GameInvite → Bool) (m : InviteTable)
      → AtMostOne (now, m)
      → AtMostOne (now, keep_entries keep m)
  after_keep now keep m one from to =
      omega
        (arith, one from to, length-values_where-keep_entries (is_active second now from to) keep m)

  count_new :
      (now : ℕ) (m : InviteTable) (id from to from' to' : String)
      → contains (keys m) id ≡ false
      → any_value (is_active second now from to) m ≡ false
      → length (values_where (is_active second now from' to') m) ≤ 1
      → length
          (values_where (is_active second now from' to') (assign m id (new_invite now id from to)))
        ≤ 1
  count_new now m id from to from' to' fresh new one =
      let added =
        length-values_where-assign (is_active second now from' to') m id (new_invite now id from to)
          fresh in
      let none_yet = length-values_where_none (is_active second now from to) m new in
      elim (String_discrete from from') [
        | no n ↦ ground (arith, added)
        | yes p ↦ elim (String_discrete to to') [
          | no n ↦ ground (arith, added)
          | yes q ↦
              let same : length (values_where (is_active second now from' to') m) ≡ 0 =
                rw (p, q) at none_yet in
              ground (arith, added)
        ]
      ]

  after_create :
      (now : ℕ) (m : InviteTable) (id from to : String)
      → contains (keys m) id ≡ false
      → AtMostOne (now, m)
      → AtMostOne (now, (create_invite second now m id from to).0)
  unfolding create_invite
  after_create now m id from to fresh one from' to' =
      elim (Bool-cases (any_value (is_active second now from to) m)) [
        | inl old ↦ rw old (one from' to')
        | inr new ↦ rw new (count_new now m id from to from' to' fresh new (one from' to'))
      ]

  after_accept :
      (now : ℕ) (m : InviteTable) (id : String)
      → AtMostOne (now, m)
      → AtMostOne (now, (accept_invite second now m id).0)
  unfolding accept_invite
  after_accept now m id one = elim (Option-cases (find m id)) [
    | inl unknown ↦ rw (accept_invite, unknown) one
    | inr (i, known) ↦ elim (Bool-cases (is_expired second now i)) [
      | inl old ↦ rw (accept_invite, known, old) (after_remove now m id one)
      | inr new ↦ rw (accept_invite, known, new) (after_remove now m id one)
    ]
  ]

  after_decline :
      (now : ℕ) (m : InviteTable) (id : String)
      → AtMostOne (now, m)
      → AtMostOne (now, (decline_invite m id).0)
  unfolding decline_invite
  after_decline now m id one = elim (Option-cases (find m id)) [
    | inl unknown ↦ rw (decline_invite, unknown) one
    | inr (i, known) ↦ rw (decline_invite, known) (after_remove now m id one)
  ]

  after_cancel :
      (now : ℕ) (m : InviteTable) (id from : String)
      → AtMostOne (now, m)
      → AtMostOne (now, (cancel_invite m id from).0)
  unfolding cancel_invite
  after_cancel now m id from one = elim (Option-cases (find m id)) [
    | inl unknown ↦ rw (cancel_invite, unknown) one
    | inr (i, known) ↦ elim (Bool-cases (i.from_guid == from)) [
      | inl own ↦ rw (cancel_invite, known, own) (after_remove now m id one)
      | inr other ↦ rw (cancel_invite, known, other) one
    ]
  ]

  Step-AtMostOne : {s t : ℕ × InviteTable} → Step s t → AtMostOne s → AtMostOne t
  unfolding remove_invites_for_player cleanup_expired
  Step-AtMostOne (wait {now} {later} {m} le) one = after_wait now later m le one
  Step-AtMostOne (create {now} {m} id from to fresh) one = after_create now m id from to fresh one
  Step-AtMostOne (accept {now} {m} id) one = after_accept now m id one
  Step-AtMostOne (decline {now} {m} id) one = after_decline now m id one
  Step-AtMostOne (cancel {now} {m} id from) one = after_cancel now m id from one
  Step-AtMostOne (forget {now} {m} guid) one = after_keep now _ m one
  Step-AtMostOne (clean {now} {m}) one = after_keep now _ m one

  Reach-AtMostOne : {s t : ℕ × InviteTable} → Reach s t → AtMostOne s → AtMostOne t
  Reach-AtMostOne here one = one
  Reach-AtMostOne (next r s) one = Step-AtMostOne s (Reach-AtMostOne r one)

  -- Whatever invitations are made, accepted, declined, cancelled, dropped or run out in whatever
  -- order, starting with none: from one player to another there is never more than one active
  -- invitation.
  pub at_most_one_active :
      (now later : ℕ) (m : InviteTable) (from to : String)
      → Reach (now, []) (later, m)
      → length (values_where (is_active second later from to) m) ≤ 1
  unfolding values_where
  at_most_one_active now later m from to r = Reach-AtMostOne r (λ f t. omega arith) from to

  -- An invitation is accepted exactly when it is in the table and has not run out; `getInvite` knows
  -- it before, nobody knows it afterwards, and all other invitations stay.
  pub accept_invite_once :
      (now : ℕ) (m : InviteTable) (id other : String)
      → ((accept_invite second now m id).1 ≡ elim (get_invite second now m id) [
        | some i ↦ some (i.from_guid, i.to_guid)
        | none ↦ none
      ])
        × (find (accept_invite second now m id).0 other
            ≡ (if id == other then none else find m other))
  unfolding accept_invite get_invite
  accept_invite_once now m id other = elim (Option-cases (find m id)) [
    | inl unknown ↦ rw (accept_invite, get_invite, unknown) (refl, ground (arith, unknown))
    | inr (i, known) ↦ elim (Bool-cases (is_expired second now i)) [
      | inl old ↦ rw (accept_invite, get_invite, known, old) (refl, find-remove m id other)
      | inr new ↦ rw (accept_invite, get_invite, known, new) (refl, find-remove m id other)
    ]
  ]

  -- `createInvite` with a new identifier that is not empty: it returns the empty text exactly when
  -- there was an active invitation already, and afterwards there is one.
  pub create_invite_lem :
      (now : ℕ) (m : InviteTable) (id from to : String)
      → contains (keys m) id ≡ false
      → (id == "") ≡ false
      → (((create_invite second now m id from to).1 == "") ≡ has_active_invite second now m from to)
        × (has_active_invite second now (create_invite second now m id from to).0 from to ≡ true)
  unfolding create_invite has_active_invite is_expired
  create_invite_lem now m id from to fresh named = ground (
    arith,
    any_value-assign (is_active second now from to) m id (new_invite now id from to) fresh,
  )

abbrev pub concerns : String → GameInvite → Bool
concerns guid i = i.from_guid == guid || i.to_guid == guid

-- After a player has left, there is no invitation from him or to him.
pub remove_invites_for_player_lem :
    (second now : ℕ) (m : InviteTable) (guid : String)
    → (get_invites_for_player second now (remove_invites_for_player m guid) guid ≡ [])
      × (get_invites_from_player second now (remove_invites_for_player m guid) guid ≡ [])
unfolding get_invites_for_player get_invites_from_player remove_invites_for_player values_where
    keep_entries
remove_invites_for_player_lem second now [] guid = (refl, refl)
remove_invites_for_player_lem second now ((a, i) ∷ m) guid =
    ground (arith, remove_invites_for_player_lem second now m guid)
