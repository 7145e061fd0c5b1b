-- ===== src/Inbox/Tagging.antt =====
-- tags.go
pub mod Evolves
pub mod Results
use inbox.Prelude.{String, Bool, ◌<>◌, List, [], ◌∷◌, join}
use inbox.Effect.{Exec, lift, calls, ignore, ◌>>=◌, ◌>>◌}
use inbox.Proto.{Time, tags_changed}
use inbox.External.{Context, Env}
use inbox.Inbox.Errors.{Error, wrapped}
use inbox.Inbox.Item.{Item, actor_from_ctx, new_proto_event_with_detail}
use inbox.Inbox.Events.{add_event}

module _ {S Set Any Foreign : Type 0} (env : Env S Set Any Foreign) where
  unfoldable pub tag : Context → Time → String → List String → Exec S Error Unit
  unfolding add_event actor_from_ctx new_proto_event_with_detail
  tag ctx now item_id raw_tags = do
    actor ← lift (actor_from_ctx ctx)
    calls (wrapped "inbox: add tags") (env.store.add_tags item_id raw_tags)
    ignore (
        add_event env now item_id (
          new_proto_event_with_detail env actor ("+" <> join raw_tags ", +")
            (tags_changed raw_tags [])))

  unfoldable pub untag : Context → Time → String → String → Exec S Error Unit
  unfolding add_event actor_from_ctx new_proto_event_with_detail
  untag ctx now item_id old_tag = do
    actor ← lift (actor_from_ctx ctx)
    calls (wrapped "inbox: remove tag") (env.store.remove_tag item_id old_tag)
    ignore (
        add_event env now item_id
          (new_proto_event_with_detail env actor ("-" <> old_tag) (tags_changed [] (old_tag ∷ []))))

  unfoldable tags_with_prefix : Item Set Any → String → Set
  tags_with_prefix item prefix = env.tags.with_prefix item.tags prefix

  unfoldable pub tag_value : Item Set Any → String → String
  tag_value item key = env.tags.value_of item.tags key

  unfoldable pub has_tag : Item Set Any → String → Bool
  has_tag item pair = env.tags.has_all item.tags (env.tags.from_strings (pair ∷ []))
