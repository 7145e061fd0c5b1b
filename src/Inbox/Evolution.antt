-- ===== src/Inbox/Evolution.antt =====
-- How the data of an item may change: the lifecycle, the content that stays, and the event log.
pub mod Store
use inbox.Prelude.{
  String, ◌≡◌, refl, ◌∙◌, true, false, [], ◌∷◌, ◌++◌, Extends, Extends-refl, Extends-trans,
}
use inbox.Proto.{Event, ProtoItem}
use inbox.Inbox.Status.{status_open, status_claimed, status_closed, is_terminal}

-- The edges of the lifecycle.
pub data StatusStep : String → String → Type 0 where
  claimed : {a b : String} → a ≡ status_open → b ≡ status_claimed → StatusStep a b
  released : {a b : String} → a ≡ status_claimed → b ≡ status_open → StatusStep a b
  closed : {a b : String} → is_terminal a ≡ false → b ≡ status_closed → StatusStep a b

pub data StatusPath (a : String) : String → Type 0 where
  stay : StatusPath a a
  move : {b c : String} → StatusPath a b → StatusStep b c → StatusPath a c

StatusPath-trans : {a b c : String} → StatusPath a b → StatusPath b c → StatusPath a c
StatusPath-trans p stay = p
StatusPath-trans p (move q st) = move (StatusPath-trans p q) st

StatusStep-terminal : {a b : String} → StatusStep a b → is_terminal a ≡ false
unfolding is_terminal
StatusStep-terminal (claimed p q) = rw p
StatusStep-terminal (released p q) = rw p
StatusStep-terminal (closed h q) = h

-- No edge leaves a terminal status.
pub StatusPath-terminal : {a b : String} → StatusPath a b → is_terminal a ≡ true → b ≡ a
StatusPath-terminal stay h = refl
StatusPath-terminal (move p st) h = cc (StatusStep-terminal st, StatusPath-terminal p h)

-- A later version of an item: its status moved along the lifecycle, its log grew, and what the
-- creator wrote is the same.
pub record Successor {Any : Type 0} (p q : ProtoItem Any) : Type 0 where
  pub path : StatusPath p.status q.status
  pub log : Extends p.events q.events
  pub idempotency_key : q.idempotency_key ≡ p.idempotency_key
  pub title : q.title ≡ p.title
  pub description : q.description ≡ p.description
  pub deadline : q.deadline ≡ p.deadline
  pub payload_type : q.payload_type ≡ p.payload_type
  pub payload : q.payload ≡ p.payload

module _ {Any : Type 0} where
  pub Successor-refl : (p : ProtoItem Any) → Successor p p
  Successor-refl p = record {
    path = stay;
    log = Extends-refl p.events;
    idempotency_key = refl;
    title = refl;
    description = refl;
    deadline = refl;
    payload_type = refl;
    payload = refl;
  }

  pub Successor-trans : {p q r : ProtoItem Any} → Successor p q → Successor q r → Successor p r
  Successor-trans e f = record {
    path = StatusPath-trans e.path f.path;
    log = Extends-trans e.log f.log;
    idempotency_key = f.idempotency_key ∙ e.idempotency_key;
    title = f.title ∙ e.title;
    description = f.description ∙ e.description;
    deadline = f.deadline ∙ e.deadline;
    payload_type = f.payload_type ∙ e.payload_type;
    payload = f.payload ∙ e.payload;
  }

  -- One more event, and a status one step on or the same.
  pub Successor-append :
      (p : ProtoItem Any) (status : String) (evt : Event Any)
      → StatusPath p.status status
      → Successor p (record p { status = status; events = p.events ++ evt ∷ [] })
  Successor-append p status evt path = record {
    path = path;
    log = record { added = evt ∷ []; grows = refl };
    idempotency_key = refl;
    title = refl;
    description = refl;
    deadline = refl;
    payload_type = refl;
    payload = refl;
  }
