-- ===== src/Prelude/Json.antt =====
-- JSON documents as Python's json module parses them.
use Prim.Native.String.{String}
use text.Mathlib.Text.{◌==◌ as str_eq}
use tvc.Prelude.{ℕ, Bool, true, not, ◌&&◌, Option, none, some, if◌then◌else◌, is_some}
use tvc.Prelude.Int.{ℤ}

-- What json.load makes of a document, before the pairs of an object become a dict. A float may be a
-- NaN or an infinity; a bool is not an integer.
mutual
  pub data Json : Type 0 where
    null : Json
    boolean : Bool → Json
    integer : ℤ → Json
    float : ℕ → Json
    string : String → Json
    array : Items → Json
    object : Members → Json

  pub data Items : Type 0 where
    no_item : Items
    item : Json → Items → Items

  pub data Members : Type 0 where
    no_member : Members
    member : String → Json → Members → Members

abbrev pub value_at : String → Members → Option Json
value_at key no_member = none
value_at key (member k v rest) = if str_eq k key then some v else value_at key rest

-- No object of the document has a key twice: _unique_object of sim/scenario.py and `unique` of
-- ground/link.py.
unfoldable mutual
  pub is_unique : Json → Bool
  is_unique (array items) = unique_items items
  is_unique (object members) = unique_members members
  is_unique _ = true

  pub unique_items : Items → Bool
  unique_items no_item = true
  unique_items (item v rest) = is_unique v && unique_items rest

  pub unique_members : Members → Bool
  unique_members no_member = true
  unique_members (member k v rest) =
      is_unique v && not (is_some (value_at k rest)) && unique_members rest

-- data[key], for a key that is there.
abbrev pub field : String → Members → Json
field key members = elim (value_at key members) [ none ↦ null | some v ↦ v ]
