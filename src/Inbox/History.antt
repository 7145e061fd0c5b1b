-- ===== src/Inbox/History.antt =====
-- Sequences of calls of the package's writing methods on existing items, one after the other.
pub mod Evolves
use inbox.Prelude.{String, Option, List, [], ◌∷◌}
use inbox.Proto.{Time, Event}
use inbox.External.{Context, Env}
use inbox.Inbox.Item.{CommentOpts}
use inbox.Inbox.Events
use inbox.Inbox.Lifecycle
use inbox.Inbox.Tagging

pub data Method (Any : Type 0) : Type 0 where
  claim release : Method Any
  close : String → Method Any
  add_event : Event Any → Method Any
  comment : String → Option CommentOpts → Method Any
  reassign : String → String → String → Method Any
  tag : List String → Method Any
  untag : String → Method Any

pub record Call (Any : Type 0) : Type 0 where
  pub ctx : Context
  pub now : Time
  pub item_id : String
  pub method : Method Any

module _ {S Set Any Foreign : Type 0} (env : Env S Set Any Foreign) where
  -- what a call leaves, whether it returns, fails or panics
  abbrev pub after : Context → Time → String → Method Any → S → S
  after ctx now id claim s = (Lifecycle.claim env ctx now id s).1
  after ctx now id release s = (Lifecycle.release env ctx now id s).1
  after ctx now id (close reason) s = (Lifecycle.close env ctx now id reason s).1
  after ctx now id (add_event evt) s = (Events.add_event env now id evt s).1
  after ctx now id (comment body opts) s = (Events.comment env ctx now id body opts s).1
  after ctx now id (reassign from to reason) s = (Events.reassign env ctx now id from to reason s).1
  after ctx now id (tag raw) s = (Tagging.tag env ctx now id raw s).1
  after ctx now id (untag old) s = (Tagging.untag env ctx now id old s).1

  abbrev pub after_call : Call Any → S → S
  after_call c s = after c.ctx c.now c.item_id c.method s

  unfoldable pub after_all : List (Call Any) → S → S
  after_all [] s = s
  after_all (c ∷ calls) s = after_all calls (after_call c s)
