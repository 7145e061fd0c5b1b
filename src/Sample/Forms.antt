-- ===== src/Sample/Forms.antt =====
-- Concrete texts for the calls of dsx and templ, pages and forms.
use inbox.Prelude.{ℕ, pos, String, Bool, ◌<>◌, true, false, none, some, List, [], ◌∷◌}
use inbox.Html.{Web}
use inbox.Html.Decimal.{decimal}
use inbox.Inbox.Item.{Item}
use inbox.Schema.{DisplayField, FormField, ItemSchema, Signals}
use inbox.Html.Document.{DsxContext}
use inbox.Token.Respond.{ClientData}
use inbox.Ui.Detail.{RenderContext, DetailData}
use inbox.Ui.Queue.{QueueData, SearchData}
use inbox.Sample.Requests.{invoice, found_invoice}

abbrev class_names : List (String × Bool) → String
class_names [] = ""
class_names ((c, b) ∷ items) =
    let rest = class_names items in elim b [ true ↦ c <> " " <> rest | false ↦ rest ]

abbrev pub sample_web : Web
sample_web = record {
  css_classes = class_names;
  get = λ url. "@get('" <> url <> "')";
  post = λ url. "@post('" <> url <> "')";
  get_form = λ url form. "@get('" <> url <> "', " <> form <> ")";
  post_form = λ url form. "@post('" <> url <> "', " <> form <> ")";
  new_signals = λ form fields. form;
  format_rfc3339 = decimal;
  format_deadline = decimal;
}

abbrev pub described : Item (List String) ℕ
described = record found_invoice {
  proto = record invoice { title = "<b>Invoice</b>"; description = "12 & 13" };
  tags = "priority:urgent" ∷ [];
}

abbrev pub other : Item (List String) ℕ
other = record described {
  id = "b";
  proto = record invoice { title = "Invoice 14"; description = "<script>" };
}

abbrev pub queue_of_one : QueueData (List String) ℕ
queue_of_one = record {
  items = described ∷ [];
  filters = record { label = "Team"; tag_prefix = "team:"; options = "x" ∷ [] } ∷ [];
  active = [];
  base_path = "/inbox";
  stream_reload_url = "/inbox/";
  next_cursor = some 7;
  priority_counts = ("urgent", 1) ∷ [];
}

abbrev pub found_one : SearchData (List String) ℕ
found_one = record { query = "invoice"; items = other ∷ []; base_path = "/inbox" }

abbrev pub drawer_of : Item (List String) ℕ → DetailData (List String) ℕ String
drawer_of item = record {
  item = item;
  actor = "user:ann";
  is_claimant = false;
  base_path = "/inbox";
  content = some "form";
  drawer_size = "";
  links = record { label = "PDF"; url = "/12.pdf" } ∷ [];
  workflow_state = none;
}

abbrev approval : FormField
approval = record {
  name = "approved";
  type = "checkbox";
  label = "Approved";
  description = "";
  placeholder = "yes";
  required = true;
  options = [];
  default_value = "true";
  accept = "";
  max_size_mb = pos 0;
  multiple = false;
}

abbrev amount : DisplayField
amount = record { label = "Amount"; value = "12"; mono = true; type = ""; variant = "" }

abbrev pub approval_form : ItemSchema
approval_form = record { display = amount ∷ []; fields = approval ∷ []; client_completable = true }

abbrev pub with_form : RenderContext (List String) ℕ
with_form = record {
  item = record found_invoice {
    proto = record invoice { payload_type = "schema.v1.ItemSchema"; payload = some 3 };
  };
  actor = "user:ann";
  base_path = "/inbox";
}

abbrev pub link_page : ClientData (List String) ℕ ItemSchema
link_page = record {
  item = with_form.item;
  schema = some approval_form;
  token = "t";
  scope = "respond";
}

abbrev pub no_context : DsxContext
no_context = record { csrf_token = ""; theme = "" }

abbrev pub marshal : Signals → String
marshal signals = "{}"
