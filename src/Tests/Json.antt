-- ===== src/Tests/Json.antt =====
-- A small JSON library, and the messages of the server in it.
use sea_battle.Base.{
  Throws, ok, throw, number_out_of_range, ◌≡◌, refl, arith, Bool, true, false, ◌||◌, List, [], ◌∷◌,
  String, ◌==◌, string_key, Option, none, some, ℤ, pos, if◌then◌else◌, ℕ,
}
use sea_battle.Types.{ShotResult}
use sea_battle.Protocol.Messages.{Message}
use sea_battle.Protocol.Payload.{JsonLibrary, ParseResult, parse_json}
use sea_battle.Protocol.Builder.{build}
use sea_battle.Protocol.Builder.Values.{JsonWriter}
use sea_battle.Protocol.Builder.Shape.{IsJson}
use sea_battle.Protocol.Builder.Parsed.{build-parse}

mutual
  pub data Tree : Type 0 where
    null : Tree
    text : String → Tree
    number : ℤ → Tree
    truth : Bool → Tree
    items : Fields → Tree
    object : Fields → Tree

  pub data Fields : Type 0 where
    end : Fields
    field : String → Tree → Fields → Fields

unfoldable pub has_in : Fields → String → Bool
has_in end key = false
has_in (field k t fs) key = k == key || has_in fs key

unfoldable pub at_in : Fields → String → Tree
at_in end key = null
at_in (field k t fs) key = if k == key then t else at_in fs key

unfoldable pub set_in : Fields → String → Tree → Fields
set_in end key t = field key t end
set_in (field k u fs) key t = if k == key then field k t fs else field k u (set_in fs key t)

abbrev is_object : Tree → Bool
is_object (object fs) = true
is_object _ = false

abbrev tree_has : Tree → String → Bool
tree_has (object fs) key = has_in fs key
tree_has _ key = false

abbrev tree_at : Tree → String → Tree
tree_at (object fs) key = at_in fs key
tree_at _ key = null

abbrev tree_set : Tree → String → Tree → Tree
tree_set null key t = object (set_in end key t)
tree_set (object fs) key t = object (set_in fs key t)
tree_set other key t = other

abbrev is_text : Tree → Bool
is_text (text s) = true
is_text _ = false

abbrev is_number : Tree → Bool
is_number (number n) = true
is_number _ = false

abbrev is_truth : Tree → Bool
is_truth (truth t) = true
is_truth _ = false

abbrev is_items : Tree → Bool
is_items (items fs) = true
is_items _ = false

abbrev text_of : Tree → String
text_of (text s) = s
text_of _ = ""

abbrev number_of : Tree → ℤ
number_of (number n) = n
number_of _ = pos 0

abbrev truth_of : Tree → Bool
truth_of (truth t) = t
truth_of _ = false

abbrev all_items : Fields → List Tree
all_items end = []
all_items (field k t fs) = t ∷ all_items fs

abbrev elements_of : Tree → List Tree
elements_of (items fs) = all_items fs
elements_of _ = []

abbrev as_items : List Tree → Fields
as_items [] = end
as_items (t ∷ ts) = field "" t (as_items ts)

-- The only texts that it reads are those of some requests.
abbrev pub request : String → Fields → Tree
request action payload = object (
    field "type" (text "request")
      (field "action" (text action) (field "payload" (object payload) end)))

abbrev read : String → Throws (Option Tree)
read raw =
    if raw == "shoot"
    then ok (some (request "shoot" (field "x" (number (pos 0)) (field "y" (number (pos 6)) end))))
    else if raw == "login"
    then ok (some (request "auth" (field "nickname" (text "Cid") end)))
    else if raw == "1e999"
    then throw number_out_of_range
    else ok none

abbrev pub trees : JsonLibrary Tree
trees = record {
  parse = read;
  has = tree_has;
  at = tree_at;
  is_string = is_text;
  is_number_integer = is_number;
  is_boolean = is_truth;
  is_array = is_items;
  is_object = is_object;
  get_string = text_of;
  get_int = number_of;
  get_bool = truth_of;
  elements = elements_of;
  empty_object = object end;
}

abbrev pub tree_writer : JsonWriter Tree ℕ
tree_writer = record {
  null = null;
  object = object end;
  array = λ ts. items (as_items ts);
  set = tree_set;
  of_string = text;
  of_int = number;
  of_bool = truth;
  of_double = λ n. number (pos n);
  no_percent = 0;
  percent = λ a b. a;
}

has_set :
    (fs : Fields) (k : String) (t : Tree) (other : String)
    → has_in (set_in fs k t) other ≡ (k == other || has_in fs other)
unfolding has_in set_in
has_set end k t other = refl
has_set (field key u fs) k t other = ground (arith, has_set fs k t other)

at_same : (fs : Fields) (k : String) (t : Tree) → at_in (set_in fs k t) k ≡ t
unfolding at_in set_in
at_same end k t = ground arith
at_same (field key u fs) k t = ground (arith, at_same fs k t)

at_other :
    (fs : Fields) (k : String) (t : Tree) (other : String)
    → (k == other) ≡ false
    → at_in (set_in fs k t) other ≡ at_in fs other
unfolding at_in set_in
at_other end k t other differ = ground arith
at_other (field key u fs) k t other differ = ground (arith, at_other fs k t other)

tree_has_set :
    (j : Tree) (k : String) (t : Tree) (other : String)
    → is_object j ≡ true
    → tree_has (tree_set j k t) other ≡ (k == other || tree_has j other)
tree_has_set (object fs) k t other e = has_set fs k t other
tree_has_set j k t other e = cc

tree_at_same :
    (j : Tree) (k : String) (t : Tree) → is_object j ≡ true → tree_at (tree_set j k t) k ≡ t
tree_at_same (object fs) k t e = at_same fs k t
tree_at_same j k t e = cc

tree_at_other :
    (j : Tree) (k : String) (t : Tree) (other : String)
    → is_object j ≡ true
    → (k == other) ≡ false
    → tree_has j other ≡ true
    → tree_at (tree_set j k t) other ≡ tree_at j other
tree_at_other (object fs) k t other e differ there = at_other fs k t other differ
tree_at_other j k t other e differ there = cc

tree_set_is :
    (j : Tree) (k : String) (t : Tree) → is_object j ≡ true → is_object (tree_set j k t) ≡ true
tree_set_is (object fs) k t e = refl
tree_set_is j k t e = cc

pub trees-IsJson : IsJson trees tree_writer
trees-IsJson = record {
  object_is = refl;
  set_null = λ k v. refl;
  set_is = tree_set_is;
  has_set = tree_has_set;
  at_same = tree_at_same;
  at_other = tree_at_other;
  string_is = λ s. refl;
  string_of = λ s. refl;
}

abbrev shot_message : Message
shot_message = Message.opponent_shot (pos 0) (pos 6) ShotResult.kill false (some []) none

build-parse_example :
    parse_json trees (build trees tree_writer shot_message)
    ≡ ParseResult.parsed (record {
      type = "event";
      action = "opponent_shot";
      payload = trees.at (build trees tree_writer shot_message) "payload";
    })
build-parse_example = build-parse trees tree_writer trees-IsJson shot_message tt
