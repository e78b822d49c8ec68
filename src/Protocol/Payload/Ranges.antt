-- ===== src/Protocol/Payload/Ranges.antt =====
-- MessageParser.cpp: what is read from a payload is in range for the board and the rules.
use sea_battle.Base.{
  ◌≡◌, refl, inl, inr, Bool, true, ◌&&◌, List, [], ◌∷◌, Option, none, some, all, length, arith,
  Option-cases, ℤ, pos, leb_ℤ,
}
use sea_battle.Types.{ShipPlacement}
use sea_battle.Game.Board.{is_valid_coordinate}
use sea_battle.Protocol.Payload.{
  JsonLibrary, extract_int, extract_ship, extract_each, extract_ships, both_coordinates,
  extract_coordinates,
}

abbrev pub in_range : ShipPlacement → Bool
in_range s = is_valid_coordinate (s.x, s.y) && leb_ℤ (pos 1) s.size && leb_ℤ s.size (pos 4)

module _ {Json : Type 0} (lib : JsonLibrary Json) where
  both_coordinates_lem :
      (o1 o2 : Option ℤ) (c : ℤ × ℤ)
      → both_coordinates lib o1 o2 ≡ some c
      → is_valid_coordinate c ≡ true
  unfolding is_valid_coordinate
  both_coordinates_lem none o2 c e = ground arith
  both_coordinates_lem (some x) none c e = ground arith
  both_coordinates_lem (some x) (some y) (u, v) e = ground arith

  -- The coordinates that are read from a payload are on the board.
  pub extract_coordinates_lem :
      (payload : Json) (c : ℤ × ℤ)
      → extract_coordinates lib payload ≡ some c
      → is_valid_coordinate c ≡ true
  unfolding extract_coordinates
  extract_coordinates_lem payload c e =
      both_coordinates_lem (extract_int lib payload "x") (extract_int lib payload "y") c e

  extract_ship_lem :
      (json : Json) (s : ShipPlacement) → extract_ship lib json ≡ some s → in_range s ≡ true
  unfolding extract_ship is_valid_coordinate
  extract_ship_lem json s e = ground arith

  extract_each_lem :
      (jsons : List Json) (ships : List ShipPlacement)
      → extract_each lib jsons ≡ some ships
      → (all in_range ships ≡ true) × (length ships ≡ length jsons)
  unfolding extract_each all
  extract_each_lem [] ships e =
      let none_left : [] ≡ ships = ground arith in rw (← none_left) (refl, refl)
  extract_each_lem (json ∷ rest) ships e = elim (Option-cases (extract_ship lib json)) [
    | inl bad ↦ ground (arith, bad)
    | inr (s, good) ↦ elim (Option-cases (extract_each lib rest)) [
      | inl bad ↦ ground (arith, good, bad)
      | inr (others, fine) ↦
          let made : s ∷ others ≡ ships = ground (arith, good, fine) in
          let ranged = extract_ship_lem json s good in
          let (ranges, count) = extract_each_lem rest others fine in rw (← made) (ground arith)
    ]
  ]

  -- The ships that are read from a payload are as many as the payload lists, and each starts on the
  -- board and has a size from 1 to 4.
  pub extract_ships_lem :
      (payload : Json) (ships : List ShipPlacement)
      → extract_ships lib payload ≡ some ships
      → (all in_range ships ≡ true)
        × (length ships ≡ length (lib.elements (lib.at payload "ships")))
  unfolding extract_ships
  extract_ships_lem payload ships e =
      extract_each_lem (lib.elements (lib.at payload "ships")) ships (ground arith)
