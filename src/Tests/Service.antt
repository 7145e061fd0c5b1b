-- ===== src/Tests/Service.antt =====
-- Requests to the handler on the sample store.
use mathlib.Core.List.{Memᴰ}
use inbox.Prelude.{
  ℕ, pos, ◌<>◌, ◌≡◌, ◌≢◌, refl, ◌⊎◌, arith, String, none, some, List, [], ◌∷◌, last?,
}
use inbox.Effect.{err}
use inbox.Effect.Blocks.{Safe}
use inbox.Proto.{item_claimed}
use inbox.Proto.Service.{
  InboxItem, ListItemsRequest, ListItemsResponse, CloseItemRequest, ItemRequest, CreateItemRequest,
  ReassignItemRequest, CommentOnItemRequest, AddEventRequest, TagItemRequest, UntagItemRequest,
}
use inbox.Inbox.Errors.{terminal_status, invalid_transition}
use inbox.Inbox.Status.{status_closed, status_claimed}
use inbox.Inbox.Item.{Item, new_proto_event, item_from_entity}
use inbox.Inbox.Get.{list_by_tags}
use inbox.Inbox.Lifecycle.{claim, close}
use inbox.Service.Convert.{of_inbox, code_failed_precondition}
use inbox.Service.Handler
use inbox.Service.Handler.{list_items, claim_item, close_item, release_item}
use inbox.Service.Paging.{Full, list_items-next_cursor, list_items-ends_early}
use inbox.Service.Panics.{handler-Safe}
use inbox.Service.Statuses.{after_close, closed_item_codes, type_or_user, claim_item-records}
use inbox.Sample.Memory.{Memory, sample}
use inbox.Sample.Laws.{sample-StoreLaws}
use inbox.Sample.TagSets.{sample-IdentityLaws}
use inbox.Sample.Requests.{ann, from_ann, entity, stock, afterwards, found_invoice, claimed_invoice}

abbrev shown : Item (List String) ℕ → InboxItem ℕ
shown item = record {
  id = item.id;
  item = item.proto;
  tags = item.tags;
  created_at = some item.created_at;
  updated_at = some item.updated_at;
}

abbrev first_of_team : ListItemsRequest
first_of_team = record {
  identity = some from_ann;
  tags = "team:x" ∷ [];
  page_size = pos 1;
  cursor = none;
}

abbrev one_shown : ListItemsResponse ℕ
one_shown = record { items = shown found_invoice ∷ []; next_cursor = some 2 }

list_items-next_cursor_example :
    ((Full first_of_team.page_size one_shown.items)
      × (i : InboxItem ℕ) × (last? one_shown.items ≡ some i)
      × (one_shown.next_cursor ≡ i.updated_at)
      × (one_shown.next_cursor ≢ none))
    ⊎ ((one_shown.next_cursor ≡ none) × (Full first_of_team.page_size one_shown.items → ⊥))
unfolding list_items list_by_tags item_from_entity
list_items-next_cursor_example = list_items-next_cursor sample first_of_team stock one_shown refl

-- a page of two entities, of which the tag keeps one
abbrev two_of_team : ListItemsRequest
two_of_team = record first_of_team { page_size = pos 2 }

abbrev last_shown : ListItemsResponse ℕ
last_shown = record { items = shown found_invoice ∷ []; next_cursor = none }

list_items-ends_early_example : last_shown.next_cursor ≡ none
unfolding list_items list_by_tags item_from_entity
list_items-ends_early_example =
    list_items-ends_early sample two_of_team stock last_shown 1
      (entity "a" ("status:open" ∷ "team:x" ∷ []) ∷ entity "b" ("status:open" ∷ []) ∷ [])
      ("team:x" ∷ []) (entity "b" ("status:open" ∷ [])) refl refl refl refl (omega arith) refl
      (Memᴰ.tail (Memᴰ.head refl)) refl

handler-Safe_example :
    ((req : CreateItemRequest ℕ) → Safe (Handler.create_item sample 10 "c" req stock))
    × ((req : ItemRequest) → Safe (Handler.get_item sample req stock))
    × ((req : ItemRequest) → Safe (Handler.claim_item sample 10 req stock))
    × ((req : ItemRequest) → Safe (Handler.release_item sample 10 req stock))
    × ((req : ReassignItemRequest) → Safe (Handler.reassign_item sample 10 req stock))
    × ((req : CommentOnItemRequest) → Safe (Handler.comment_on_item sample 10 req stock))
    × ((req : AddEventRequest ℕ) → Safe (Handler.add_event sample 10 req stock))
    × ((req : CloseItemRequest) → Safe (Handler.close_item sample 10 req stock))
    × ((req : TagItemRequest) → Safe (Handler.tag_item sample 10 req stock))
    × ((req : UntagItemRequest) → Safe (Handler.untag_item sample 10 req stock))
handler-Safe_example = handler-Safe sample 10 stock "c"

abbrev to_close : CloseItemRequest
to_close = record { identity = some from_ann; id = "a"; reason = "paid" }

abbrev to_free : ItemRequest
to_free = record { identity = some from_ann; id = "a" }

abbrev closed : Memory
closed = after_close sample sample-StoreLaws 10 to_close afterwards stock

closed_item_codes_example :
    (close_item sample 30 to_close closed
      ≡ (err (of_inbox code_failed_precondition (terminal_status status_closed)), closed))
    × (release_item sample 30 to_free closed ≡ (
      err (of_inbox code_failed_precondition (invalid_transition "a" status_closed status_claimed)),
      closed,
    ))
unfolding close_item close item_from_entity
closed_item_codes_example =
    closed_item_codes sample sample-StoreLaws 10 30 to_close to_close to_free stock _ afterwards
      (some ann) (some ann) refl refl refl refl refl

claim_item-records_example :
    ((shown claimed_invoice).id ≡ "a")
    × ((shown claimed_invoice).item.status ≡ status_claimed)
    × (last? (shown claimed_invoice).item.events
        ≡ some
            (record (new_proto_event sample
              (type_or_user sample from_ann <> ":" <> from_ann.principal_id)
              (item_claimed (type_or_user sample from_ann <> ":" <> from_ann.principal_id))) {
                at = some 10;
              }))
unfolding claim_item claim item_from_entity
claim_item-records_example =
    claim_item-records sample sample-StoreLaws sample-IdentityLaws 10 from_ann "a" stock
      (shown claimed_invoice) refl
