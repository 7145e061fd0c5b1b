-- ===== src/Ui/Detail.antt =====
-- The detail drawer: ui/detail.go, with the interfaces of ui/provider.go.
use inbox.Prelude.{String, Bool, ◌==◌, Option, none, some, List, [], ◌∷◌, if◌then◌else◌}
use inbox.Effect.{Fallible, value, failure}
use inbox.External.{Env}
use inbox.Inbox.Item.{Item}
use inbox.Inbox.Tagging.{tag_value}

pub record RenderContext (Set Any : Type 0) : Type 0 where
  pub item : Item Set Any
  pub actor : String
  pub base_path : String

pub record Link : Type 0 where
  pub label : String
  pub url : String

-- `RenderResult`; a drawer's size is a string.
pub record RenderResult (Component : Type 0) : Type 0 where
  pub content : Component
  pub size : String
  pub links : List Link

pub record WorkflowState : Type 0 where
  pub status : String
  pub label : String

-- A `ContentProvider`, with the two further interfaces if it implements them.
pub record Provider (Set Any Component : Type 0) : Type 0 where
  pub render : RenderContext Set Any → Component
  pub render_rich : Option (RenderContext Set Any → RenderResult Component)
  pub workflow_status : Option (Item Set Any → Fallible WorkflowState)

pub record DetailData (Set Any Component : Type 0) : Type 0 where
  pub item : Item Set Any
  pub actor : String
  pub is_claimant : Bool
  pub base_path : String
  pub content : Option Component
  pub drawer_size : String
  pub links : List Link
  pub workflow_state : Option WorkflowState

abbrev pub Providers : Type 0 → Type 0 → Type 0 → Type 0
Providers Set Any Component = List (String × Provider Set Any Component)

abbrev state_of : Fallible WorkflowState → Option WorkflowState
state_of (value st) = some st
state_of (failure text) = none

module _ {Set Any Component : Type 0} where
  abbrev find_provider : Providers Set Any Component → String → Option (Provider Set Any Component)
  find_provider [] type = none
  find_provider ((t, p) ∷ providers) type =
      let rest = find_provider providers type in if t == type then some p else rest

  abbrev or_else :
      Option (Provider Set Any Component)
      → Option (Provider Set Any Component)
      → Option (Provider Set Any Component)
  or_else (some p) other = some p
  or_else none other = other

  -- the provider of the payload type, or the default one
  unfoldable pub provider_for :
      Providers Set Any Component → String → Option (Provider Set Any Component)
  provider_for providers type = or_else (find_provider providers type) (find_provider providers "")

  abbrev pub with_status :
      Option (Item Set Any → Fallible WorkflowState)
      → DetailData Set Any Component
      → DetailData Set Any Component
  with_status none detail = detail
  with_status (some f) detail = record detail { workflow_state = state_of (f detail.item) }

  abbrev pub with_content :
      Provider Set Any Component
      → RenderContext Set Any
      → DetailData Set Any Component
      → DetailData Set Any Component
  with_content p rc detail = elim p.render_rich [
    | none ↦ record detail { content = some (p.render rc) }
    | some rich ↦ record detail {
      content = some ((rich rc).content);
      drawer_size = (rich rc).size;
      links = (rich rc).links;
    }
  ]

  abbrev pub provided :
      Option (Provider Set Any Component)
      → RenderContext Set Any
      → DetailData Set Any Component
      → DetailData Set Any Component
  provided none rc detail = detail
  provided (some p) rc detail = with_status p.workflow_status (with_content p rc detail)

module _ {S Set Any Foreign Component : Type 0} (env : Env S Set Any Foreign)
    (providers : Providers Set Any Component) (base_path : String) where
  unfoldable pub build_detail_data : Item Set Any → String → DetailData Set Any Component
  unfolding tag_value provider_for
  build_detail_data item actor =
      provided (provider_for providers item.proto.payload_type)
        (record { item = item; actor = actor; base_path = base_path })
        (record {
          item = item;
          actor = actor;
          is_claimant = tag_value env item "assignee" == actor;
          base_path = base_path;
          content = none;
          drawer_size = "";
          links = [];
          workflow_state = none;
        })
