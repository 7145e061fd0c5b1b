-- ===== src/Tests/Pages.antt =====
-- The pages and actions of the interface on the sample store.
use inbox.Prelude.{
  if◌then◌else◌, ◌==◌, ℕ, String, ◌≡◌, refl, arith, eq_iff, ◌<>◌, true, none, some, List, [], ◌∷◌,
  last?,
}
use inbox.Effect.{Outcome}
use inbox.Proto.{item_claimed}
use inbox.Proto.Service.{ProtoIdentity}
use inbox.Inbox.Errors.{Error}
use inbox.Inbox.Item.{actor_from_ctx, new_proto_event, item_from_entity}
use inbox.Inbox.Lifecycle.{claim}
use inbox.Inbox.Status.{status_open, status_claimed}
use inbox.Inbox.Tagging.{tag_value}
use inbox.Service.Convert.{ctx_with_identity}
use inbox.Service.Handler.{claim_item}
use inbox.Effect.Blocks.{Safe}
use inbox.Ui.Actions.{
  handle_claim, handle_release, handle_close, handle_comment, handle_detail, handle_detail_reload,
  handle_row_reload,
}
use inbox.Ui.Actions.Panics.{actions-Safe}
use inbox.Ui.Actions.Shown.{handle_claim-shows}
use inbox.Ui.Convert.{actor_str, identity_to_proto}
use inbox.Ui.Convert.RoundTrip.{ctx_with_identity-identity_to_proto}
use inbox.Ui.Detail.{DetailData, Providers}
use inbox.Ui.Labels.{since, days, format_age}
use inbox.Ui.Labels.Ages.{Fits, format_age-Fits}
use inbox.Effect.{Fallible, value, failure}
use inbox.Inbox.Get.{list_by_tags}
use inbox.Service.Handler.{list_items}
use inbox.Ui.Filters.{FilterConfig, FilterRequest}
use inbox.Ui.Queue.{QueueData, or_empty, handle_queue, handle_my_work}
use inbox.Ui.Queue.Tagged.{Filtered, queue-AllTagged}
use inbox.Sample.Memory.{Memory, build_tag, sample}
use inbox.Sample.Laws.{sample-StoreLaws}
use inbox.Sample.TagSets.{sample-TagLaws, sample-IdentityLaws}
use inbox.Sample.Requests.{ann, stock, claimed_invoice}

-- a nanosecond before the end of 365 days
format_age-Fits_example : Fits (since 31536000000000004 5) (days 365)
unfolding format_age inbox.Ui.Durations.whole_days
format_age-Fits_example = format_age-Fits 31536000000000004 5

abbrev sent_ann : ProtoIdentity
sent_ann = record {
  tenant_id = "t";
  workspace_id = "w";
  principal_id = "ann";
  principal_type = "user";
  roles = [];
}

ctx_with_identity-identity_to_proto_example :
    ◌≡◌ {A = Outcome Error String} (actor_from_ctx (some ann)) (actor_str (some ann))
unfolding ctx_with_identity identity_to_proto
ctx_with_identity-identity_to_proto_example =
    ctx_with_identity-identity_to_proto sample sample-IdentityLaws ann sent_ann (some ann)
      (λ e. ground (arith, eq_iff "user" "", e)) refl refl

abbrev shown_detail : DetailData (List String) ℕ String
shown_detail = record {
  item = claimed_invoice;
  actor = "user:ann";
  is_claimant = true;
  base_path = "/inbox";
  content = none;
  drawer_size = "";
  links = [];
  workflow_state = none;
}

handle_claim-shows_example :
    (claimed_invoice.id ≡ "a")
    × (claimed_invoice.proto.status ≡ status_claimed)
    × (last? claimed_invoice.proto.events
        ≡ some
            (record (new_proto_event sample
              (ann.principal_type <> ":" <> ann.principal_id)
              (item_claimed (ann.principal_type <> ":" <> ann.principal_id))) { at = some 10 }))
    × (shown_detail.item ≡ claimed_invoice)
    × (shown_detail.actor ≡ "user:ann")
    × ◌≡◌ {A = String} "Item claimed" "Item claimed"
unfolding handle_claim claim_item claim item_from_entity tag_value
handle_claim-shows_example =
    handle_claim-shows sample [] "/inbox" sample-StoreLaws sample-IdentityLaws ann 10 "a" stock
      shown_detail claimed_invoice "Item claimed" (λ e. ground (arith, eq_iff "user" "", e)) refl

abbrev by_team : FilterConfig
by_team = record { label = "Team"; tag_prefix = "team:"; options = "x" ∷ [] }

-- the query parameter of the filter
abbrev query_of : String → String
query_of key = if key == "team" then "x" else ""

abbrev team_request : FilterRequest
team_request = record { query = λ key. query_of key; signals = none }

abbrev no_time : String → Fallible ℕ
no_time t = failure "no time"

abbrev status_tag : String → Fallible String
status_tag = build_tag "status"

-- after a claim of one of the two invoices
abbrev one_claimed : Memory
one_claimed = (claim sample (some ann) 10 "a" stock).1

abbrev in_queue : QueueData (List String) ℕ
in_queue = record {
  items = [];
  filters = by_team ∷ [];
  active = ("Team", "x") ∷ [];
  base_path = "/inbox";
  stream_reload_url = "/inbox/";
  next_cursor = none;
  priority_counts = [];
}

abbrev in_work : QueueData (List String) ℕ
in_work = record in_queue {
  active = [];
  items = claimed_invoice ∷ [];
  stream_reload_url = "/inbox/mywork";
}

queue-AllTagged_example :
    Filtered sample sample-TagLaws
      (by_team ∷ [])
      "/inbox"
      no_time
      status_tag
      team_request
      (or_empty (status_tag status_open) ∷ [])
      in_queue.items
    × Filtered sample sample-TagLaws
        (by_team ∷ [])
        "/inbox"
        no_time
        status_tag
        team_request
        (or_empty (status_tag status_claimed)
          ∷ or_empty (sample.tags.build "assignee" "user:ann")
          ∷ [])
        in_work.items
unfolding handle_queue handle_my_work list_items list_by_tags item_from_entity claim tag_value
queue-AllTagged_example =
    queue-AllTagged sample sample-TagLaws (by_team ∷ []) "/inbox" no_time status_tag (some ann)
      team_request "" "user:ann" one_claimed in_queue in_work refl refl refl

abbrev no_providers : Providers (List String) ℕ String
no_providers = []

actions-Safe_example :
    Safe (handle_claim sample no_providers "/inbox" (some ann) 10 "a" stock)
    × Safe (handle_release sample no_providers "/inbox" (some ann) 10 "a" stock)
    × Safe (handle_close sample no_providers "/inbox" (some ann) 10 "a" "" stock)
    × Safe (handle_comment sample no_providers "/inbox" (some ann) 10 "a" (value "paid?") stock)
    × Safe (handle_detail sample no_providers "/inbox" (some ann) "a" stock)
    × Safe (handle_detail_reload sample no_providers "/inbox" (some ann) "a" stock)
    × Safe (handle_row_reload sample no_providers "/inbox" (some ann) "a" stock)
actions-Safe_example = actions-Safe sample no_providers "/inbox" ann 10 "a" "" (value "paid?") stock
