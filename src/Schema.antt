-- ===== src/Schema.antt =====
-- cmd/inboxui/schema and cmd/inboxui/schemaprovider.go: forms described by a payload. The messages
-- are those of gen/schema/v1 with the fields that the templates read, and the functions of
-- helpers.go.
pub mod Render
pub mod Provider
pub mod Completion
use inbox.Prelude.{ℤ, String, ◌==◌, Bool, ◌||◌, Option, none, List, [], ◌∷◌, if◌then◌else◌}

pub record DisplayField : Type 0 where
  pub label : String
  pub value : String
  pub mono : Bool
  pub type : String
  pub variant : String

pub record FormField : Type 0 where
  pub name : String
  pub type : String
  pub label : String
  pub description : String
  pub placeholder : String
  pub required : Bool
  pub options : List String
  pub default_value : String
  pub accept : String
  pub max_size_mb : ℤ
  pub multiple : Bool

pub record ItemSchema : Type 0 where
  pub display : List DisplayField
  pub fields : List FormField
  pub client_completable : Bool

-- `TryParse`; `unmarshal` is `proto.Unmarshal` of the payload's bytes, nothing on an error.
unfoldable pub try_parse :
    {Any : Type 0} → (Any → Option ItemSchema) → String → Any → Option ItemSchema
try_parse unmarshal payload_type payload =
    if payload_type == "schema.v1.ItemSchema" || payload_type == "inbox.v1.ItemSchema"
    then unmarshal payload
    else none

pub data Signal : Type 0 where
  flag : Bool → Signal
  text : String → Signal

-- a map of signals, the newest entry first
abbrev pub Signals : Type 0
Signals = List (String × Signal)

abbrev pub initial : FormField → Signal
initial f = if f.type == "checkbox" then flag (f.default_value == "true") else text f.default_value

-- the fields of `BuildSignals`; `json.Marshal` of them under the key "schema" makes the text.
unfoldable signals_of : List FormField → Signals → Signals
signals_of [] signals = signals
signals_of (f ∷ fields) signals = signals_of fields ((f.name, initial f) ∷ signals)

unfoldable pub build_signals : (Signals → String) → ItemSchema → String
unfolding signals_of
build_signals marshal s = marshal (signals_of s.fields [])
