-- ===== src/Ui/Actions.antt =====
-- The actions of ui/actions.go and `handleDetail`. The client calls the handler of the service.
pub mod Shown
pub mod Panics
use inbox.Prelude.{String, ◌==◌, Option, none, some, [], if◌then◌else◌}
use inbox.Effect.{
  Fallible, value, failure, Outcome, ok, err, panic, Exec, continue, pure, lift, ◌>>=◌, ◌>>◌,
}
use inbox.Proto.{Time}
use inbox.Proto.Service.{InboxItem}
use inbox.External.{Context, Env}
use inbox.Inbox.Item.{Item}
use inbox.Service.Convert.{ConnectError}
use inbox.Service.Handler.{get_item, claim_item, release_item, close_item, comment_on_item}
use inbox.Ui.Convert.{actor_str, identity_to_proto, from_proto}
use inbox.Ui.Detail.{DetailData, Providers, build_detail_data}

-- What is sent: the drawer, the row of the item and a toast, or a toast with an error; for a page,
-- the drawer and its width, the row, or an HTTP error; or nothing.
pub data Sent (Set Any Component : Type 0) : Type 0 where
  updated : DetailData Set Any Component → Item Set Any → String → Sent Set Any Component
  failed : ConnectError → Sent Set Any Component
  bad_signals : String → Sent Set Any Component
  drawer : DetailData Set Any Component → Option String → Sent Set Any Component
  row : Item Set Any → Sent Set Any Component
  not_found : ConnectError → Sent Set Any Component
  nothing : Sent Set Any Component

module _ {S Set Any Foreign Component : Type 0} (env : Env S Set Any Foreign)
    (providers : Providers Set Any Component) (base_path : String) where
  -- an action sends its error as a toast, so no error leaves it
  abbrev Action : Type 0
  Action = Exec S ConnectError (Sent Set Any Component)

  unfoldable pub respond_with_detail : Context → InboxItem Any → String → Action
  unfolding actor_str build_detail_data from_proto
  respond_with_detail ctx pb msg = do
    actor ← lift (actor_str ctx)
    pure (
        updated (build_detail_data env providers base_path (from_proto env pb) actor)
          (from_proto env pb) msg)

  -- `if err != nil { s.sseError(w, r, err); return }` and the response
  abbrev pub finish : Context → String → Outcome ConnectError (InboxItem Any) → Action
  finish ctx msg (ok pb) s = respond_with_detail ctx pb msg s
  finish ctx msg (err e) s = (ok (failed e), s)
  finish ctx msg (panic text) s = (panic text, s)

  abbrev pub act : Context → String → Exec S ConnectError (InboxItem Any) → Action
  act ctx msg call s = let (r, s') = call s in finish ctx msg r s'

  unfoldable pub handle_claim : Context → Time → String → Action
  unfolding identity_to_proto claim_item respond_with_detail
  handle_claim ctx now id = do
    who ← lift (identity_to_proto ctx)
    act ctx "Item claimed" (claim_item env now (record { identity = some who; id = id }))

  unfoldable pub handle_release : Context → Time → String → Action
  unfolding identity_to_proto release_item respond_with_detail
  handle_release ctx now id = do
    who ← lift (identity_to_proto ctx)
    act ctx "Item released" (release_item env now (record { identity = some who; id = id }))

  -- The error of reading the signals is dropped; `read` is what they give then.
  unfoldable pub handle_close : Context → Time → String → String → Action
  unfolding identity_to_proto close_item respond_with_detail
  handle_close ctx now id read = do
    let reason = if read == "" then "closed" else read
    who ← lift (identity_to_proto ctx)
    act ctx "Item closed"
        (close_item env now (record { identity = some who; id = id; reason = reason }))

  abbrev pub comment_with : Context → Time → String → Fallible String → Action
  comment_with ctx now id (failure text) s = (ok (bad_signals text), s)
  comment_with ctx now id (value body) s =
      continue (identity_to_proto ctx)
        (λ who. act ctx "Comment added" (
          comment_on_item env now
            (record { identity = some who; id = id; body = body; visibility = []; refs = [] })))
        s

  unfoldable pub handle_comment : Context → Time → String → Fallible String → Action
  unfolding identity_to_proto comment_on_item respond_with_detail
  handle_comment ctx now id signals = comment_with ctx now id signals

  abbrev pub sent_of :
      (Item Set Any → Sent Set Any Component)
      → (ConnectError → Sent Set Any Component)
      → Outcome ConnectError (InboxItem Any)
      → Action
  sent_of f g (ok pb) s = (ok (f (from_proto env pb)), s)
  sent_of f g (err e) s = (ok (g e), s)
  sent_of f g (panic text) s = (panic text, s)

  -- the reads of one item
  abbrev pub viewed :
      (Item Set Any → Sent Set Any Component)
      → (ConnectError → Sent Set Any Component)
      → Exec S ConnectError (InboxItem Any)
      → Action
  viewed f g call s = let (r, s') = call s in sent_of f g r s'

  abbrev pub wide : DetailData Set Any Component → Option String
  wide detail = if detail.drawer_size == "wide" then some "max-w-2xl" else none

  unfoldable pub handle_detail : Context → String → Action
  unfolding actor_str identity_to_proto build_detail_data from_proto get_item
  handle_detail ctx id = do
    actor ← lift (actor_str ctx)
    who ← lift (identity_to_proto ctx)
    viewed
        (λ item.
          let detail = build_detail_data env providers base_path item actor in
          drawer detail (wide detail))
        not_found (get_item env (record { identity = some who; id = id }))

  unfoldable pub handle_detail_reload : Context → String → Action
  unfolding actor_str identity_to_proto build_detail_data from_proto get_item
  handle_detail_reload ctx id = do
    actor ← lift (actor_str ctx)
    who ← lift (identity_to_proto ctx)
    viewed (λ item. drawer (build_detail_data env providers base_path item actor) none) not_found
        (get_item env (record { identity = some who; id = id }))

  unfoldable pub handle_row_reload : Context → String → Action
  unfolding identity_to_proto from_proto get_item
  handle_row_reload ctx id = do
    who ← lift (identity_to_proto ctx)
    viewed row (λ e. nothing) (get_item env (record { identity = some who; id = id }))
