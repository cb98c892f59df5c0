-- ===== src/Table/Columns.antt =====
-- frontend/src/app/shared/models/column.model.ts: the class `Column`, and the columns of the table
-- (frontend/src/app/shared/components/crud-table/crud-table.component.ts).
-- `get_value` is the virtual method `getValue`, `V` the type of what it returns.
pub mod Laws
use asl_bissieux.Prelude.{
  ℕ, Bool, true, false, ◌&&◌, ◌||◌, not, List, [], ◌∷◌, ◌++◌, map, Option, none, some,
  if◌then◌else◌, ltb, filter, find?, any, length, get_or, is_some,
}
use asl_bissieux.Prelude.Int.{ℤ, pos, negsuc}
use asl_bissieux.Prelude.Strings.{String, str_eq}

pub record Column {ℓ} (T V : Type ℓ) : Type ℓ where
  pub name : String
  pub label : String
  pub hidden : Bool
  pub can_filter : Bool
  pub filter_func : V → String → Bool
  pub default_sort : Bool
  pub can_sort : Bool
  pub sort_func : V → V → ℤ
  pub render : V → String
  pub route_to : Option (T → String)
  pub get_value : T → V

-- `Partial<Column>`: what the caller of the constructor gives.
pub record Options {ℓ} (T V : Type ℓ) : Type ℓ where
  pub label : Option String
  pub hidden : Option Bool
  pub can_filter : Option Bool
  pub filter_func : Option (V → String → Bool)
  pub default_sort : Option Bool
  pub can_sort : Option Bool
  pub sort_func : Option (V → V → ℤ)
  pub render : Option (V → String)
  pub route_to : Option (T → String)

-- The sort function of a column that has none: `1` where `a < b`. `===` and `<` of JavaScript on
-- values of any type are parameters.
unfoldable pub default_compare {ℓ} : {V : Type ℓ} (same less : V → V → Bool) → V → V → ℤ
default_compare same less a b = if same a b then pos 0 else if less a b then pos 1 else negsuc 0

-- So are the cast of a value to a text and the search in the lower-case text.
module _ {ℓ} {T V : Type ℓ} (same less : V → V → Bool) (to_string : V → String)
    (contains : V → String → Bool) where
  -- The constructor.
  unfoldable pub new_column : String → Options T V → (T → V) → Column T V
  unfolding default_compare
  new_column name options get_value = record {
    name = name;
    label = get_or options.label name;
    hidden = get_or options.hidden false;
    can_filter = get_or options.can_filter false;
    filter_func = get_or options.filter_func contains;
    default_sort = get_or options.default_sort false;
    can_sort = get_or options.can_sort false;
    sort_func = get_or options.sort_func (default_compare same less);
    render = get_or options.render to_string;
    route_to = options.route_to;
    get_value = get_value;
  }

-- `new Set(…)` spread into an array: the first of each name.
unfoldable pub distinct : List String → List String
distinct [] = []
distinct (x ∷ xs) = x ∷ filter (λ y. not (str_eq y x)) (distinct xs)

-- `showActions$`; the two functions count as they are given.
unfoldable pub show_actions : Bool → Bool → Bool → Bool → ℕ → Bool
show_actions can_edit edit_func can_delete delete_func row_actions =
    can_edit || can_delete || edit_func || delete_func || ltb 0 row_actions

module _ {ℓ} {T V : Type ℓ} where
  -- `columns$`
  unfoldable pub shown_columns : Bool → List (Column T V) → List String → Bool → List String
  unfolding distinct
  shown_columns can_select columns custom actions = distinct (
      (if can_select then "_select_" ∷ [] else [])
      ++ (map (λ c. c.name) (filter (λ c. not c.hidden) columns)
          ++ (custom ++ (if actions then "_actions_" ∷ [] else []))))

  abbrev pub name_or_empty : Option (Column T V) → String
  name_or_empty none = ""
  name_or_empty (some c) = c.name

  -- The loops that choose `sort.active`, of a table whose source is not paged.
  unfoldable pub default_active : List (Column T V) → String
  default_active columns =
      let first = name_or_empty (find? (λ c. c.can_sort && c.default_sort) columns) in
      if str_eq first "" then name_or_empty (find? (λ c. c.can_sort) columns) else first
