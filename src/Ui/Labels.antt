-- ===== src/Ui/Labels.antt =====
-- The labels of ui/helpers.go.
pub mod Names
pub mod Ages
use Prim.Native.Char.{code}
use inbox.Prelude.{
  ℕ, ◌*◌, ◌-◌, ltb, nat_eq, String, ◌<>◌, ◌&&◌, ◌==◌, Option, none, some, List, [], ◌∷◌,
  if◌then◌else◌,
}
use inbox.Proto.{Time}
use inbox.Ui.Durations.{hour, whole_units, whole_days}
use inbox.Html.Decimal.{decimal}

-- `eventLabels`
abbrev event_labels : List (String × String)
event_labels =
    ("inbox.v1.ItemCreated", "Created")
    ∷ ("inbox.v1.ItemClaimed", "Claimed")
    ∷ ("inbox.v1.ItemReleased", "Released")
    ∷ ("inbox.v1.ItemClosed", "Closed")
    ∷ ("inbox.v1.CommentAppended", "Comment")
    ∷ ("inbox.v1.ItemReassigned", "Reassigned")
    ∷ ("inbox.v1.TagsChanged", "Tags changed")
    ∷ []

-- a lookup in a map with a default
abbrev pub get_or : List (String × String) → String → String → String
get_or [] key default = default
get_or ((k, v) ∷ m) key default = let rest = get_or m key default in if k == key then v else rest

unfoldable pub event_label : String → String
event_label data_type = get_or event_labels data_type data_type

abbrev pub minute : Time
minute = 60000000000

-- `time.Since(t)`, 0 for a time to come: at most the largest int64
abbrev longest : Time
longest = 9223372036854775807

abbrev pub since : Time → Time → Time
since now t = if ltb longest (now - t) then longest else now - t

-- an age as a number and its unit
pub data Age : Type 0 where
  just_now : Age
  minutes hours days : ℕ → Age

unfoldable pub format_age : Time → Time → Age
format_age now t =
    let d = since now t in
    if ltb d minute
    then just_now
    else if ltb d hour
    then minutes (whole_units minute d)
    else if ltb d (24 * hour)
    then hours (whole_units hour d)
    else days (whole_days d)

-- the text of an age
unfoldable pub age_text : Age → String
age_text just_now = "just now"
age_text (minutes n) = decimal n <> "m ago"
age_text (hours n) = decimal n <> "h ago"
age_text (days n) = decimal n <> "d ago"

unfoldable pub status_badge_variant : String → String
status_badge_variant status =
    if status == "open"
    then "badge-info"
    else if status == "claimed"
    then "badge-warning"
    else if status == "closed"
    then "badge-success"
    else "badge-neutral"

-- a prefix without a ':' at its end
unfoldable pub filter_key : String → String
filter_key String.[] = ""
filter_key (String.◌∷◌ c s) =
    let rest = filter_key s in if nat_eq (code c) 58 && s == "" then "" else String.◌∷◌ c rest

-- the text after the last ':'
unfoldable pub after_last : String → Option String
after_last String.[] = none
after_last (String.◌∷◌ c s) =
    let rest = after_last s in
    elim rest [ some t ↦ some t | none ↦ if nat_eq (code c) 58 then some s else none ]

unfoldable pub actor_display_name : String → String
unfolding after_last
actor_display_name actor = elim (after_last actor) [ none ↦ actor | some name ↦ name ]
