-- ===== src/Ui/Queue.antt =====
-- The pages of ui/queue.go, ui/mywork.go and ui/search.go: what they ask the service for and the data
-- that they render. The client calls the handler of the service.
pub mod Counts
pub mod Requested
pub mod Tagged
use inbox.Prelude.{
  ℕ, ◌+◌, pos, String, ◌==◌, ◌<>◌, Option, none, some, List, [], ◌∷◌, if◌then◌else◌,
}
use inbox.Effect.{Fallible, value, failure, Outcome, ok, err, panic, Exec, pure, lift, ◌>>=◌, ◌>>◌}
use inbox.Proto.{Time}
use inbox.Proto.Service.{ProtoIdentity, InboxItem, ListItemsRequest, ListItemsResponse}
use inbox.External.{Context, Env}
use inbox.Inbox.Item.{Item}
use inbox.Inbox.Status.{status_open, status_claimed}
use inbox.Inbox.Tagging.{tag_value}
use inbox.Service.Convert.{ConnectError}
use inbox.Service.Handler.{list_items, search_items}
use inbox.Ui.Convert.{actor_str, identity_to_proto, from_proto_slice}
use inbox.Ui.Filters.{
  FilterConfig, Values, FilterRequest, read_filter_values, filter_tags, active_filters,
}

abbrev pub Counts : Type 0
Counts = List (String × ℕ)

-- `counts[p]++`
unfoldable pub increment : String → Counts → Counts
increment p [] = (p, 1) ∷ []
increment p ((q, n) ∷ counts) =
    let rest = increment p counts in if q == p then (q, n + 1) ∷ counts else (q, n) ∷ rest

pub record QueueData (Set Any : Type 0) : Type 0 where
  pub items : List (Item Set Any)
  pub filters : List FilterConfig
  pub active : Values
  pub base_path : String
  pub stream_reload_url : String
  pub next_cursor : Option Time
  pub priority_counts : Counts

pub record SearchData (Set Any : Type 0) : Type 0 where
  pub query : String
  pub items : List (Item Set Any)
  pub base_path : String

-- The answer: the data of the page, or `http.Error` of a failed call.
pub data Answer (Data : Type 0) : Type 0 where
  shows : Data → Answer Data
  internal_error : ConnectError → Answer Data

-- what follows a call of the client
abbrev pub answer :
    {A B : Type 0} → (A → B) → Outcome ConnectError A → Outcome ConnectError (Answer B)
answer f (ok a) = ok (shows (f a))
answer f (err e) = ok (internal_error e)
answer f (panic text) = panic text

abbrev pub answers :
    {S A B : Type 0} → (A → B) → Exec S ConnectError A → Exec S ConnectError (Answer B)
answers f call s = let (r, s') = call s in (answer f r, s')

abbrev parsed_cursor : Fallible Time → Option Time
parsed_cursor (value t) = some t
parsed_cursor (failure text) = none

-- the text of the parameter "cursor", read with `parse`
abbrev cursor_of : (String → Fallible Time) → String → Option Time
cursor_of parse c = if c == "" then none else parsed_cursor (parse c)

-- `t, _ := f()` of a function that gives "" with an error
abbrev pub or_empty : Fallible String → String
or_empty (value t) = t
or_empty (failure text) = ""

module _ {S Set Any Foreign : Type 0} (env : Env S Set Any Foreign) where
  -- the loop over the items of a page
  unfoldable pub count_priorities : List (Item Set Any) → Counts → Counts
  unfolding increment tag_value
  count_priorities [] counts = counts
  count_priorities (item ∷ items) counts =
      let p = tag_value env item "priority" in
      count_priorities items (if p == "" then counts else increment p counts)

  -- `filters` and `base_path` are of the configuration; `parse` is `time.Parse` of RFC 3339 and
  -- `status` is `tags.Status`.
  module _ (filters : List FilterConfig) (base_path : String) (parse : String → Fallible Time)
      (status : String → Fallible String) where
    -- the page of items that a queue asks for
    abbrev list_request : ProtoIdentity → List String → String → ListItemsRequest
    list_request who tags cursor = record {
      identity = some who;
      tags = tags;
      page_size = pos 50;
      cursor = cursor_of parse cursor;
    }

    unfoldable pub queue_data : Values → ListItemsResponse Any → QueueData Set Any
    unfolding from_proto_slice count_priorities active_filters
    queue_data values resp =
        let items = from_proto_slice env resp.items in
        record {
          items = items;
          filters = filters;
          active = active_filters filters values [];
          base_path = base_path;
          stream_reload_url = base_path <> "/";
          next_cursor = resp.next_cursor;
          priority_counts = count_priorities items [];
        }

    unfoldable pub handle_queue :
        Context → FilterRequest → String → Exec S ConnectError (Answer (QueueData Set Any))
    unfolding identity_to_proto read_filter_values filter_tags queue_data list_items
    handle_queue ctx r cursor = do
      let values = read_filter_values filters r
      let tags = or_empty (status status_open) ∷ filter_tags filters values
      who ← lift (identity_to_proto ctx)
      answers (queue_data values) (list_items env (list_request who tags cursor))

    unfoldable pub mywork_data : ListItemsResponse Any → QueueData Set Any
    unfolding from_proto_slice
    mywork_data resp = record {
      items = from_proto_slice env resp.items;
      filters = filters;
      active = [];
      base_path = base_path;
      stream_reload_url = base_path <> "/mywork";
      next_cursor = resp.next_cursor;
      priority_counts = [];
    }

    unfoldable pub handle_my_work :
        Context → FilterRequest → String → Exec S ConnectError (Answer (QueueData Set Any))
    unfolding actor_str identity_to_proto read_filter_values filter_tags mywork_data list_items
    handle_my_work ctx r cursor = do
      actor ← lift (actor_str ctx)
      let values = read_filter_values filters r
      let tags =
          or_empty (status status_claimed)
          ∷ or_empty (env.tags.build "assignee" actor)
          ∷ filter_tags filters values
      who ← lift (identity_to_proto ctx)
      answers mywork_data (list_items env (list_request who tags cursor))

  abbrev search_data : String → String → List (InboxItem Any) → SearchData Set Any
  search_data base_path query pbs = record {
    query = query;
    items = from_proto_slice env pbs;
    base_path = base_path;
  }

  unfoldable pub search_with :
      String → Context → String → Exec S ConnectError (Answer (SearchData Set Any))
  unfolding identity_to_proto from_proto_slice search_items
  search_with base_path ctx query = do
    who ← lift (identity_to_proto ctx)
    answers (search_data base_path query)
        (search_items env (record { identity = some who; query = query; page_size = pos 50 }))

  -- `query` is what `readSearchQuery` finds.
  unfoldable pub handle_search :
      String → Context → String → Exec S ConnectError (Answer (SearchData Set Any))
  unfolding search_with
  handle_search base_path ctx query =
      if query == ""
      then pure (shows (search_data base_path query []))
      else search_with base_path ctx query
