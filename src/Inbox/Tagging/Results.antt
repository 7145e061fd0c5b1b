-- ===== src/Inbox/Tagging/Results.antt =====
-- What `Tag` and `Untag` report.
use inbox.Prelude.{arith, String, ◌≡◌, refl, List, [], ◌∷◌, ◌<>◌, join}
use inbox.Effect.{Outcome, ok, err, panic, of_fallible, settle, continue}
use inbox.Proto.{Time, Event, tags_changed}
use inbox.External.{Context, Env}
use inbox.Inbox.Errors.{Error, wrapped}
use inbox.Inbox.Item.{actor_from_ctx, new_proto_event_with_detail, item_from_entity}
use inbox.Inbox.Get.{get}
use inbox.Inbox.Events.{add_event}
use inbox.Inbox.Tagging.{tag, untag}

module _ {S Set Any Foreign : Type 0} (env : Env S Set Any Foreign) where
  -- Neither `Get` nor `AddEvent` panics, so an ignored `AddEvent` always lets the caller go on.
  settle-get : (id : String) (s : S) → settle (get env id s) ≡ ok tt
  unfolding get item_from_entity
  settle-get id s = ground arith

  settle-add_event :
      (now : Time) (id : String) (evt : Event Any) (s : S)
      → settle (add_event env now id evt s).0 ≡ ok tt
  unfolding add_event
  settle-add_event now id evt s = ground (arith, settle-get id s)

  settled :
      {A : Type 0} (r : Outcome Error (Unit {0})) (k : S → Outcome Error A × S) (s : S)
      → settle (k s).0 ≡ ok tt
      → (continue r (λ _ t. (settle (k t).0, (k t).1)) s).0 ≡ r
  settled (ok tt) k s h = h
  settled (err e) k s h = refl
  settled (panic text) k s h = refl

  tag-result :
      (ctx : Context) (now : Time) (id : String) (raw : List String) (s : S) (actor : String)
      → actor_from_ctx ctx ≡ ok actor
      → (tag env ctx now id raw s).0
        ≡ of_fallible (wrapped "inbox: add tags") (env.store.add_tags id raw s).0
  unfolding tag
  tag-result ctx now id raw s actor known = rw known (
      settled _ _ _ (
        settle-add_event now id
          (new_proto_event_with_detail env actor ("+" <> join raw ", +") (tags_changed raw [])) _))

  untag-result :
      (ctx : Context) (now : Time) (id old : String) (s : S) (actor : String)
      → actor_from_ctx ctx ≡ ok actor
      → (untag env ctx now id old s).0
        ≡ of_fallible (wrapped "inbox: remove tag") (env.store.remove_tag id old s).0
  unfolding untag
  untag-result ctx now id old s actor known = rw known (
      settled _ _ _ (
        settle-add_event now id
          (new_proto_event_with_detail env actor ("-" <> old) (tags_changed [] (old ∷ []))) _))

  -- For a caller with an identity, `Tag` and `Untag` report what `AddTags` and `RemoveTag` report,
  -- whether or not the event that records the change can be written.
  pub tag_reports :
      (ctx : Context) (now : Time) (id : String) (raw : List String) (old : String) (s : S)
      (actor : String)
      → actor_from_ctx ctx ≡ ok actor
      → ((tag env ctx now id raw s).0
          ≡ of_fallible (wrapped "inbox: add tags") (env.store.add_tags id raw s).0)
        × ((untag env ctx now id old s).0
            ≡ of_fallible (wrapped "inbox: remove tag") (env.store.remove_tag id old s).0)
  tag_reports ctx now id raw old s actor known =
      (tag-result ctx now id raw s actor known, untag-result ctx now id old s actor known)
