-- ===== src/Inbox/Events/Outcome.antt =====
-- What a `Reassign` of events.go, which may end half way, leaves of the data.
use inbox.Prelude.{String, ◌≡◌, ◌≢◌, some, [], ◌∷◌, ◌++◌}
use inbox.Effect.{value, Outcome, ok}
use inbox.Proto.{Time, Event, ProtoItem, item_reassigned}
use inbox.External.{Env, EntityStore}
use inbox.External.Store.{StoreLaws, stored}
use inbox.Inbox.Errors.{Error}
use inbox.Inbox.Evolution.Store.{Same}
use inbox.Inbox.Item.{Item, entity_type, new_proto_event_with_detail, stamp}

module _ {S Any : Type 0} (store : EntityStore S Any) where
  -- an operation that leaves the data as it is where it does not succeed
  abbrev Atomic : {B : Type 0} → Outcome Error B × S → S → Type 0
  Atomic {B} r s = ((b : B) → r.0 ≢ ok b) → Same store s r.1

module _ {S Set Any Foreign : Type 0} (env : Env S Set Any Foreign)
    (laws : StoreLaws env.store) where
  -- The stored data of an item before and after an event is added to it.
  pub record Appended (id : String) (evt : Event Any) (s t : S) : Type 0 where
    pub found : ProtoItem Any
    pub before : stored env.store s id ≡ some (entity_type, value found)
    pub after :
        stored env.store t id
        ≡ some (entity_type, value (record found { events = found.events ++ evt ∷ [] }))

  -- the event of a `Reassign`
  abbrev pub reassigned : Time → String → String → String → String → Event Any
  reassigned now actor from to reason =
      stamp now (new_proto_event_with_detail env actor reason (item_reassigned from to reason))
