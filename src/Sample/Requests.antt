-- ===== src/Sample/Requests.antt =====
-- Concrete items, identities and calls.
use inbox.Prelude.{ℕ, String, none, some, List, [], ◌∷◌, ◌==◌, if◌then◌else◌}
use inbox.Effect.{value}
use inbox.Proto.{ProtoItem, Event}
use inbox.Proto.Service.{ProtoIdentity}
use inbox.External.{Identity, StoredEntity}
use inbox.Inbox.Item.{Item, Meta}
use inbox.Inbox.History.{Call, close, comment, tag}
use inbox.Sample.Memory.{Memory}

abbrev pub ann : Identity
ann = record {
  tenant_id = "t";
  workspace_id = "w";
  principal_id = "ann";
  principal_type = "user";
  roles = [];
}

abbrev pub bob : Identity
bob = record {
  tenant_id = "t";
  workspace_id = "w";
  principal_id = "bob";
  principal_type = "user";
  roles = [];
}

-- the identity of a request, without a type
abbrev pub from_ann : ProtoIdentity
from_ann = record {
  tenant_id = "t";
  workspace_id = "w";
  principal_id = "ann";
  principal_type = "";
  roles = [];
}

abbrev pub invoice : ProtoItem ℕ
invoice = record {
  idempotency_key = "";
  title = "Invoice 12";
  description = "";
  status = "open";
  deadline = none;
  payload_type = "";
  payload = none;
  events = [];
}

abbrev pub entity : String → List String → StoredEntity ℕ
entity id tags = record {
  id = id;
  entity_type = "inbox.v1.Item";
  decoded = value invoice;
  tags = tags;
  created_at = 1;
  updated_at = 2;
}

-- two open items, one of them for a team
abbrev pub stock : Memory
stock id =
    if id == "a"
    then some (entity "a" ("status:open" ∷ "team:x" ∷ []))
    else if id == "b"
    then some (entity "b" ("status:open" ∷ []))
    else none

abbrev pub letter : Meta (List String) ℕ ℕ
letter = record {
  title = "Letter";
  description = "to answer";
  deadline = some 90;
  payload = none;
  tags = "team:x" ∷ [];
  idempotency_key = "";
  payload_any = none;
  payload_type_name = "";
}

-- a comment on the other item, and a tag and a close that come too late
abbrev pub afterwards : List (Call ℕ)
afterwards =
    record { ctx = some bob; now = 20; item_id = "b"; method = comment "seen" none }
    ∷ record { ctx = some bob; now = 21; item_id = "a"; method = tag ("late" ∷ []) }
    ∷ record { ctx = some ann; now = 22; item_id = "a"; method = close "again" }
    ∷ []

abbrev event_by : String → ℕ → String → Event ℕ
event_by actor t data_type = record {
  at = some t;
  actor = actor;
  action = "";
  detail = "";
  data_type = data_type;
  event_data = some 7;
}

-- what `Create` makes of the letter
abbrev pub new_letter : Item (List String) ℕ
new_letter = record {
  id = "c";
  proto = record {
    idempotency_key = "";
    title = "Letter";
    description = "to answer";
    status = "open";
    deadline = some 90;
    payload_type = "";
    payload = none;
    events = event_by "user:ann" 10 "inbox.v1.ItemCreated" ∷ [];
  };
  tags = "status:open" ∷ "team:x" ∷ [];
  created_at = 10;
  updated_at = 10;
}

-- the invoice as `Get` finds it
abbrev pub found_invoice : Item (List String) ℕ
found_invoice = record {
  id = "a";
  proto = invoice;
  tags = "status:open" ∷ "team:x" ∷ [];
  created_at = 1;
  updated_at = 2;
}

abbrev pub claimed_invoice : Item (List String) ℕ
claimed_invoice = record {
  id = "a";
  proto = record invoice {
    status = "claimed";
    events = event_by "user:ann" 10 "inbox.v1.ItemClaimed" ∷ [];
  };
  tags = "assignee:user:ann" ∷ "status:claimed" ∷ "team:x" ∷ [];
  created_at = 1;
  updated_at = 2;
}

-- the invoice as `bob` claims it from `found_invoice`
abbrev pub invoice_of_bob : Item (List String) ℕ
invoice_of_bob = record {
  id = "a";
  proto = record invoice {
    status = "claimed";
    events = event_by "user:bob" 11 "inbox.v1.ItemClaimed" ∷ [];
  };
  tags = "assignee:user:bob" ∷ "status:claimed" ∷ "team:x" ∷ [];
  created_at = 1;
  updated_at = 2;
}

abbrev pub released_invoice : Item (List String) ℕ
released_invoice = record {
  id = "a";
  proto = record invoice {
    events =
        event_by "user:ann" 10 "inbox.v1.ItemClaimed"
        ∷ event_by "user:ann" 11 "inbox.v1.ItemReleased"
        ∷ [];
  };
  tags = "status:open" ∷ "team:x" ∷ [];
  created_at = 1;
  updated_at = 2;
}
