-- ===== src/Ui/Queue/Tagged.antt =====
-- Which items the queue and the work of an actor show.
use mathlib.Core.List.{Memᴰ}
use inbox.Prelude.{
  String, ◌<>◌, ◌≡◌, ◌≢◌, [], refl, sym, ◌∙◌, ap, subst, true, false, some, List, ◌∷◌, All, is_nil,
}
use inbox.Effect.{Fallible, Outcome, ok, err, panic}
use inbox.Effect.Blocks.{continue-ok, ok-same}
use inbox.Proto.{Time}
use inbox.Proto.Service.{ListItemsRequest, ListItemsResponse}
use inbox.External.{Context, Env}
use inbox.External.Tags.{TagLaws}
use inbox.Inbox.Status.{status_open, status_claimed}
use inbox.Inbox.Item.{Item}
use inbox.Inbox.Get.Filter.{list_by_tags-filters}
use inbox.Service.Convert.{ConnectError}
use inbox.Service.Handler.{list_items}
use inbox.Service.Paging.{opts_of, list_items-ok}
use inbox.Ui.Convert.{actor_str, identity_to_proto, from_proto_slice}
use inbox.Ui.Convert.RoundTrip.{from_proto_slice-to_proto_slice}
use inbox.Ui.Filters.{FilterConfig, FilterRequest, read_filter_values, filter_tags}
use inbox.Ui.Labels.{filter_key}
use inbox.Ui.Queue.{
  QueueData, shows, answer, or_empty, list_request, queue_data, mywork_data, handle_queue,
  handle_my_work,
}
use inbox.Ui.Queue.Requested.{requested, filter_tags-active}

shows-same : {D : Type 0} {a b : D} → shows a ≡ shows b → a ≡ b
shows-same h = cc

answer-shows :
    {A B : Type 0} (f : A → B) (r : Outcome ConnectError A) {b : B}
    → answer f r ≡ ok (shows b)
    → (a : A) × (r ≡ ok a) × (f a ≡ b)
answer-shows f (ok a) h = (a, refl, shows-same (ok-same h))
answer-shows f (err e) h = cc
answer-shows f (panic text) h = cc

module _ {S Set Any Foreign : Type 0} (env : Env S Set Any Foreign) (laws : TagLaws env.tags) where
  -- All items have the tags of the set that the tags of a request make.
  abbrev pub AllTagged : List String → List (Item Set Any) → Type 0
  AllTagged tags items =
      (req : Set) × (env.tags.must_new tags ≡ some req)
      × All (λ i. env.tags.has_all i.tags req ≡ true) items

  list_items-AllTagged :
      (req : ListItemsRequest) (s : S) (resp : ListItemsResponse Any)
      → is_nil req.tags ≡ false
      → (list_items env req s).0 ≡ ok resp
      → AllTagged req.tags (from_proto_slice env resp.items)
  list_items-AllTagged req s resp some_tag h =
      let (items, listed, cursor, shown) = list_items-ok env req s resp h in
      let (set, entities, made, read, tagged, _, _) =
        list_by_tags-filters env req.tags (opts_of env req) s items some_tag listed in
      let same : from_proto_slice env resp.items ≡ items =
        ap (from_proto_slice env) shown ∙ from_proto_slice-to_proto_slice env laws items in
      (set, made, subst (All (λ i. env.tags.has_all i.tags set ≡ true)) (sym same) tagged)

  module _ (filters : List FilterConfig) (base_path : String) (parse : String → Fallible Time)
      (status : String → Fallible String) where
    queue-filter_tags :
        (ctx : Context) (r : FilterRequest) (cursor actor : String) (s : S)
        (queue work : QueueData Set Any)
        → ◌≡◌ {A = Outcome ConnectError String} (actor_str ctx) (ok actor)
        → (handle_queue env filters base_path parse status ctx r cursor s).0 ≡ ok (shows queue)
        → (handle_my_work env filters base_path parse status ctx r cursor s).0 ≡ ok (shows work)
        → AllTagged
            (or_empty (status status_open) ∷ filter_tags filters (read_filter_values filters r))
            queue.items
          × AllTagged
              (or_empty (status status_claimed)
                ∷ or_empty (env.tags.build "assignee" actor)
                ∷ filter_tags filters (read_filter_values filters r))
              work.items
    unfolding handle_queue handle_my_work queue_data mywork_data
    queue-filter_tags ctx r cursor actor s queue work known h h' =
        let (who, sent, _, h1) = continue-ok (identity_to_proto ctx) _ s h in
        let (resp, listed, same) = answer-shows _ _ h1 in
        let (actor', known', _, h2) = continue-ok (actor_str ctx) _ s h' in
        let (who', sent', _, h3) = continue-ok (identity_to_proto ctx) _ s h2 in
        let (resp', listed', same') = answer-shows _ _ h3 in
        let values = read_filter_values filters r in
        let by : actor' ≡ actor = ok-same (sym known' ∙ known) in
        (
          subst (AllTagged _) (ap (λ d. d.items) same) (
              list_items-AllTagged
                (list_request env filters base_path parse status who
                  (or_empty (status status_open) ∷ filter_tags filters values) cursor)
                s resp refl listed),
          subst (AllTagged _) (ap (λ d. d.items) same') (
              subst
                (λ a.
                  AllTagged
                    (or_empty (status status_claimed)
                      ∷ or_empty (env.tags.build "assignee" a)
                      ∷ filter_tags filters values)
                    (from_proto_slice env resp'.items))
                by
                (list_items-AllTagged
                  (list_request env filters base_path parse status who'
                    (or_empty (status status_claimed)
                      ∷ or_empty (env.tags.build "assignee" actor')
                      ∷ filter_tags filters values)
                    cursor)
                  s resp' refl listed')),
        )

    -- Items that are filtered by tags: the fixed ones, and for each filter that has a value in the
    -- request its prefix with that value.
    pub record Filtered (r : FilterRequest) (fixed : List String) (items : List (Item Set Any))
        : Type 0 where
      pub tags : List String
      pub has_fixed : All (λ t. Memᴰ t tags) fixed
      pub has_active :
          (f : FilterConfig)
          → Memᴰ f filters
          → requested r (filter_key f.tag_prefix) ≢ ""
          → Memᴰ (f.tag_prefix <> requested r (filter_key f.tag_prefix)) tags
      pub tagged : AllTagged tags items

    -- The queue shows only items that have the tag of the status "open", and the work of an actor only
    -- items that have the tag of the status "claimed" and the assignee tag of the actor. In both, they
    -- also have the tag of each filter with a value in the request: the prefix of the filter with the
    -- value, which is a signal if there are signals, and else a query parameter.
    pub queue-AllTagged :
        (ctx : Context) (r : FilterRequest) (cursor actor : String) (s : S)
        (queue work : QueueData Set Any)
        → ◌≡◌ {A = Outcome ConnectError String} (actor_str ctx) (ok actor)
        → (handle_queue env filters base_path parse status ctx r cursor s).0 ≡ ok (shows queue)
        → (handle_my_work env filters base_path parse status ctx r cursor s).0 ≡ ok (shows work)
        → Filtered r (or_empty (status status_open) ∷ []) queue.items
          × Filtered r
              (or_empty (status status_claimed) ∷ or_empty (env.tags.build "assignee" actor) ∷ [])
              work.items
    queue-AllTagged ctx r cursor actor s queue work known h h' =
        let (in_queue, in_work) = queue-filter_tags ctx r cursor actor s queue work known h h' in
        (
          record {
            tags = _;
            has_fixed = (Memᴰ.head refl, tt);
            has_active = λ f m v. Memᴰ.tail (filter_tags-active filters r f m v);
            tagged = in_queue;
          },
          record {
            tags = _;
            has_fixed = (Memᴰ.head refl, (Memᴰ.tail (Memᴰ.head refl), tt));
            has_active = λ f m v. Memᴰ.tail (Memᴰ.tail (filter_tags-active filters r f m v));
            tagged = in_work;
          },
        )
