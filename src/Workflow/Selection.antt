-- ===== src/Workflow/Selection.antt =====
-- `selectNextCandidate` of workflow.service.ts and the menu that it reads (`fetchMenu`).
pub mod Best
use gusto_backend.Common.{
  ℕ, String, Bool, true, false, Option, none, some, List, [], ◌∷◌, ◌++◌, ◌==◌, leb, str_eq,
  if◌then◌else◌,
}
use gusto_backend.Hacker.Mapping.{or_else, collect}
use gusto_backend.Hacker.Sorting.{sort_by}
use gusto_backend.Hacker.Filler.{contains}

-- `MenuItemSchema`; prices are whole paise.
pub record MenuItem : Type 0 where
  pub item_id : String
  pub restaurant_id : String
  pub name : String
  pub price : ℕ
  pub description : Option String

-- `RankedMenuItemSchema`; of the score, a number from 0 to 1, only the order is used.
pub record RankedMenuItem : Type 0 where
  pub item_id : String
  pub match_score : ℕ

-- An item of get_restaurant_menu; a field is `none` where it has not the schema's type.
pub record RawItem : Type 0 where
  pub id : Option String
  pub name : Option String
  pub price : Option ℕ
  pub description : Option (Option String)  -- `some none` where it is absent

abbrev positive_price : Option ℕ → Option ℕ
positive_price none = none
positive_price (some n) = if n == 0 then none else some n

-- `MenuItemSchema.safeParse`
unfoldable pub parse_menu_item : String → RawItem → Option MenuItem
parse_menu_item restaurant raw = elim raw.id [
  | none ↦ none
  | some id ↦ elim raw.name [
    | none ↦ none
    | some name ↦ elim (positive_price raw.price) [
      | none ↦ none
      | some price ↦ elim raw.description [
        | none ↦ none
        | some description ↦ some (record {
          item_id = id;
          restaurant_id = restaurant;
          name = name;
          price = price;
          description = description;
        })
      ]
    ]
  ]
]

-- `data?.categories?.flatMap((c) => c.items ?? []) ?? []`
abbrev pub flat_map_items : List (Option (List RawItem)) → List RawItem
flat_map_items [] = []
flat_map_items (c ∷ cs) = or_else c [] ++ flat_map_items cs

abbrev pub raw_items : Option (Option (List (Option (List RawItem)))) → List RawItem
raw_items none = []
raw_items (some categories) = flat_map_items (or_else categories [])

-- What `fetchMenu` makes of an answer.
unfoldable pub menu_of : String → Option (Option (List (Option (List RawItem)))) → List MenuItem
unfolding parse_menu_item
menu_of restaurant body = collect (parse_menu_item restaurant) (raw_items body)

-- `menuById.get(id)`: a later item of the same id replaces an earlier one.
unfoldable pub menu_by_id : List MenuItem → String → Option MenuItem
menu_by_id [] id = none
menu_by_id (item ∷ items) id =
    let later = menu_by_id items id in
    elim later [
      | some found ↦ some found
      | none ↦ if str_eq item.item_id id then some item else none
    ]

-- `(a, b) => b.matchScore - a.matchScore`
abbrev pub better_first : RankedMenuItem → RankedMenuItem → Bool
better_first a b = leb b.match_score a.match_score

-- The loop over the sorted ranking.
unfoldable pub first_eligible : List MenuItem → List String → List RankedMenuItem → Option MenuItem
first_eligible menu rejected [] = none
first_eligible menu rejected (r ∷ rs) =
    let next = first_eligible menu rejected rs in
    if contains rejected r.item_id
    then next
    else elim (menu_by_id menu r.item_id) [ some item ↦ some item | none ↦ next ]

unfoldable pub select_next_candidate :
    List MenuItem → List RankedMenuItem → List String → Option MenuItem
unfolding first_eligible menu_by_id sort_by
select_next_candidate menu ranked rejected =
    first_eligible menu rejected (sort_by better_first ranked)
