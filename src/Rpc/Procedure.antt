-- ===== src/Rpc/Procedure.antt =====
-- The procedures of `InboxService` with their paths and messages, and the two interfaces that list
-- them, in gen/inbox/v1/inboxv1connect/service.connect.go. An interface is a function of the
-- procedure.
use inbox.Prelude.{String, List}
use inbox.Effect.{Exec}
use inbox.Proto.Service.{
  InboxItem, CreateItemRequest, ItemRequest, ListItemsRequest, ListItemsResponse,
  SearchItemsRequest, ReassignItemRequest, CommentOnItemRequest, AddEventRequest, CloseItemRequest,
  TagItemRequest, UntagItemRequest,
}
use inbox.Service.Convert.{ConnectError}

pub data Procedure : Type 0 where
  create_item get_item list_items search_items claim_item release_item : Procedure
  reassign_item comment_on_item add_event close_item tag_item untag_item : Procedure

-- `InboxService…Procedure`
abbrev pub procedure_path : Procedure → String
procedure_path create_item = "/inbox.v1.InboxService/CreateItem"
procedure_path get_item = "/inbox.v1.InboxService/GetItem"
procedure_path list_items = "/inbox.v1.InboxService/ListItems"
procedure_path search_items = "/inbox.v1.InboxService/SearchItems"
procedure_path claim_item = "/inbox.v1.InboxService/ClaimItem"
procedure_path release_item = "/inbox.v1.InboxService/ReleaseItem"
procedure_path reassign_item = "/inbox.v1.InboxService/ReassignItem"
procedure_path comment_on_item = "/inbox.v1.InboxService/CommentOnItem"
procedure_path add_event = "/inbox.v1.InboxService/AddEvent"
procedure_path close_item = "/inbox.v1.InboxService/CloseItem"
procedure_path tag_item = "/inbox.v1.InboxService/TagItem"
procedure_path untag_item = "/inbox.v1.InboxService/UntagItem"

-- the request messages
abbrev pub Request : Type 0 → Procedure → Type 0
Request Any create_item = CreateItemRequest Any
Request Any get_item = ItemRequest
Request Any list_items = ListItemsRequest
Request Any search_items = SearchItemsRequest
Request Any claim_item = ItemRequest
Request Any release_item = ItemRequest
Request Any reassign_item = ReassignItemRequest
Request Any comment_on_item = CommentOnItemRequest
Request Any add_event = AddEventRequest Any
Request Any close_item = CloseItemRequest
Request Any tag_item = TagItemRequest
Request Any untag_item = UntagItemRequest

-- The response messages. One with the field `item` alone is its item, `SearchItemsResponse` is its
-- list, and those of the tags are empty.
abbrev pub Response : Type 0 → Procedure → Type 0
Response Any list_items = ListItemsResponse Any
Response Any search_items = List (InboxItem Any)
Response Any tag_item = Unit {0}
Response Any untag_item = Unit {0}
Response Any create_item = InboxItem Any
Response Any get_item = InboxItem Any
Response Any claim_item = InboxItem Any
Response Any release_item = InboxItem Any
Response Any reassign_item = InboxItem Any
Response Any comment_on_item = InboxItem Any
Response Any add_event = InboxItem Any
Response Any close_item = InboxItem Any

-- `InboxServiceHandler`
abbrev pub ServiceHandler : Type 0 → Type 0 → Type 0
ServiceHandler S Any = (p : Procedure) → Request Any p → Exec S ConnectError (Response Any p)
