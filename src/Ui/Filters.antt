-- ===== src/Ui/Filters.antt =====
-- The filters of the pages: `FilterConfig` of ui/config.go and the functions of ui/helpers.go.
use inbox.Prelude.{String, ◌==◌, ◌<>◌, Option, none, some, List, [], ◌∷◌, if◌then◌else◌}
use inbox.Effect.{Fallible, value}
use inbox.Ui.Labels.{filter_key, get_or}

pub record FilterConfig : Type 0 where
  pub label : String
  pub tag_prefix : String
  pub options : List String

-- a map of strings, the newest entry first
abbrev pub Values : Type 0
Values = List (String × String)

-- `values[key]`, "" on a missing key
abbrev pub value_at : Values → String → String
value_at m key = get_or m key ""

-- What a request holds: the query parameters, and the signals of "datastar", which are none if that
-- parameter is absent or no JSON object. A signal is absent, or gives a string or an error.
pub record FilterRequest : Type 0 where
  pub query : String → String
  pub signals : Option (String → Option (Fallible String))

abbrev pub signal_value : Option (Fallible String) → String
signal_value (some (value v)) = v
signal_value _ = ""

abbrev pub put_value : String → String → Values → Values
put_value key v values = if v == "" then values else (key, v) ∷ values

-- one round of either loop per filter
abbrev pub read_from : (String → String) → List FilterConfig → Values → Values
read_from source [] values = values
read_from source (f ∷ filters) values =
    read_from source filters
      (put_value (filter_key f.tag_prefix) (source (filter_key f.tag_prefix)) values)

unfoldable pub read_filter_values : List FilterConfig → FilterRequest → Values
unfolding filter_key
read_filter_values filters r = elim r.signals [
  | some raw ↦ read_from (λ key. signal_value (raw key)) filters []
  | none ↦ read_from r.query filters []
]

-- the tags of the active filters
unfoldable pub filter_tags : List FilterConfig → Values → List String
unfolding filter_key
filter_tags [] values = []
filter_tags (f ∷ filters) values =
    let rest = filter_tags filters values in
    let v = value_at values (filter_key f.tag_prefix) in
    if v == "" then rest else (f.tag_prefix <> v) ∷ rest

-- `activeFilters[f.Label] = v` for each active filter
unfoldable pub active_filters : List FilterConfig → Values → Values → Values
unfolding filter_key
active_filters [] values active = active
active_filters (f ∷ filters) values active =
    active_filters filters values
      (put_value f.label (value_at values (filter_key f.tag_prefix)) active)

-- the entries between the braces; neither key nor value is escaped
unfoldable signal_entries : List FilterConfig → Values → String
unfolding filter_key
signal_entries [] active = ""
signal_entries (f ∷ []) active =
    "\"" <> filter_key f.tag_prefix <> "\":\"" <> value_at active f.label <> "\""
signal_entries (f ∷ g ∷ filters) active =
    "\""
    <> filter_key f.tag_prefix
    <> "\":\""
    <> value_at active f.label
    <> "\","
    <> signal_entries (g ∷ filters) active

unfoldable pub build_filter_signals_json : List FilterConfig → Values → String
unfolding signal_entries
build_filter_signals_json filters active = "{" <> signal_entries filters active <> "}"
