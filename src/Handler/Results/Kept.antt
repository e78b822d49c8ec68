-- ===== src/Handler/Results/Kept.antt =====
-- The table of games (GameManager.hpp) before and after a call: what is kept of the games that are over.
use mathlib.Core.Path.{subst}
use sea_battle.Base.{
  ◌≡◌, refl, ap, ◌∙◌, inl, inr, Bool, true, false, List, String, ◌==◌, none, some, if◌then◌else◌,
  arith, Bool-cases, ok, throw, Throws, find, find-assign, string_key,
}
use sea_battle.Game.Match.{Game, is_finished}
use sea_battle.Game.Match.Reach.{SameResult}
use sea_battle.Game.Manager.{Manager}
use sea_battle.Handler.{World, games_of, set_game}
use sea_battle.Handler.Safe.Lobby.{Opened}
use sea_battle.Handler.Safe.Endings.{Stored}

abbrev pub Games : Type 0
Games = List (String × Game)

-- A game that is over is still there, and over with the same result.
abbrev pub Kept : Games → Games → Type 0
Kept before after =
    (id : String) (g : Game)
    → find before id ≡ some g
    → is_finished g ≡ true
    → (g' : Game) × (find after id ≡ some g') × SameResult g g'

abbrev pub KeptAll : Games → Throws World → Type 0
KeptAll before (ok w) = Kept before (games_of w).games
KeptAll before (throw e) = Unit

pub refl-SameResult : (g : Game) → is_finished g ≡ true → SameResult g g
refl-SameResult g over = (over, refl, refl, refl, refl)

pub refl-Kept : (gs : Games) → Kept gs gs
refl-Kept gs id g there over = (g, there, refl-SameResult g over)

pub same-Kept : {m m' : Manager} → m' ≡ m → Kept m.games m'.games
same-Kept {m} {m'} same id g there over =
    (g, ap (λ m. find m.games id) same ∙ there, refl-SameResult g over)

pub trans-SameResult : (g h k : Game) → SameResult g h → SameResult h k → SameResult g k
trans-SameResult g h k before after = ground arith

pub trans-Kept : (a b c : Games) → Kept a b → Kept b c → Kept a c
trans-Kept a b c first second id g there over =
    let (h, found, result) = first id g there over in
    let (k, found', result') = second id h found result.0 in
    (k, found', trans-SameResult g h k result result')

pub Opened-Kept :
    (id : String) (m m' : Manager) → find m.games id ≡ none → Opened id m m' → Kept m.games m'.games
Opened-Kept id m m' fresh (safe, others) other g there over = elim (Bool-cases (id == other)) [
  | inl same ↦ let gone : none ≡ some g = ground arith in cc
  | inr differ ↦ (g, others other differ ∙ there, refl-SameResult g over)
]

pub set_game-Kept :
    (w : World) (h h' : Game)
    → Stored w h
    → h'.id ≡ h.id
    → (is_finished h ≡ true → SameResult h h')
    → Kept (games_of w).games (games_of (set_game w h')).games
set_game-Kept w h h' stored same keep id g there over =
    let written = find-assign (games_of w).games h'.id h' id in
    elim (Bool-cases (h'.id == id)) [
      | inl this ↦
          let is : h ≡ g = ground arith in
          (
            h',
            ground (arith, written),
            subst (λ (x : Game). SameResult x h') is (keep (ap is_finished is ∙ over)),
          )
      | inr that ↦ (g, ground (arith, written), refl-SameResult g over)
    ]

pub if-KeptAll :
    (gs : Games) (b : Bool) (t u : Throws World)
    → KeptAll gs t
    → KeptAll gs u
    → KeptAll gs (if b then t else u)
if-KeptAll gs true t u h k = h
if-KeptAll gs false t u h k = k

pub trans-KeptAll :
    (a : Games) (w : World) (t : Throws World)
    → Kept a (games_of w).games
    → KeptAll (games_of w).games t
    → KeptAll a t
trans-KeptAll a w (ok w') first second =
    trans-Kept a (games_of w).games (games_of w').games first second
trans-KeptAll a w (throw e) first second = tt
