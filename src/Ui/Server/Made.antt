-- ===== src/Ui/Server/Made.antt =====
-- The call that a request makes, by the method and the path of the request.
use inbox.Prelude.{String, ◌==◌, if◌then◌else◌, ◌≡◌, refl, ◌∙◌, subst, Option, none, some, [], All}
use inbox.Effect.{Fallible, value, failure, Outcome, Exec, pure, ◌>>=◌}
use inbox.Effect.Kept.{continue-same, kept_laws}
use inbox.Proto.{Time}
use inbox.Proto.Service.{
  InboxItem, ProtoIdentity, ItemRequest, CommentOnItemRequest, CloseItemRequest,
}
use inbox.External.{Identity, Context, Env}
use inbox.Html.{Web}
use inbox.Html.Document.{DsxContext}
use inbox.Inbox.History
use inbox.Service.Convert.{ConnectError, ctx_with_identity}
use inbox.Service.Handler.{claim_item, release_item, close_item, comment_on_item}
use inbox.Ui.Actions.{Sent, act, handle_claim, handle_release, handle_close, handle_comment}
use inbox.Ui.Config.{Config}
use inbox.Ui.Convert.{identity_to_proto}
use inbox.Ui.Detail.{Providers}
use inbox.Ui.Server.{
  Reader, Method, method_post, Route, routes, Chi, Reply, sent, run_endpoint, dispatch, serve,
}
use inbox.Ui.Server.Calls.{finish-same}
use inbox.Ui.Server.Reads.{ChiLaws, routes-GetKept, All-Mem}
use inbox.Service.Made.{
  made, claim_item-made, release_item-made, close_item-made, comment_on_item-made,
}

-- the identity of the user, as the message that is sent to the service
abbrev message_of : Identity → ProtoIdentity
message_of i = record {
  tenant_id = i.tenant_id;
  workspace_id = i.workspace_id;
  principal_id = i.principal_id;
  principal_type = i.principal_type;
  roles = i.roles;
}

module _ {S Set Any Foreign : Type 0} (env : Env S Set Any Foreign) where
  abbrev pub context_of : Identity → Outcome ConnectError Context
  context_of i = ctx_with_identity env (some (message_of i))

  module _ {Component : Type 0} (providers : Providers Set Any Component) (base_path : String)
      (i : Identity) (now : Time) (id : String) (s : S) where
    act-made :
        (msg : String) (call : Exec S ConnectError (InboxItem Any)) {t : S}
        → (call s).1 ≡ t
        → (act env providers base_path (some i) msg call s).1 ≡ t
    act-made msg call h =
        finish-same env providers base_path (some i) now id msg (call s).0 (call s).1 ∙ h

    handle_claim-made :
        (handle_claim env providers base_path (some i) now id s).1
        ≡ made env (some History.claim) (context_of i) id now s
    unfolding handle_claim identity_to_proto
    handle_claim-made =
        let req : ItemRequest = record { identity = some (message_of i); id = id } in
        act-made "Item claimed" (claim_item env now req) (claim_item-made env now req s)

    handle_release-made :
        (handle_release env providers base_path (some i) now id s).1
        ≡ made env (some History.release) (context_of i) id now s
    unfolding handle_release identity_to_proto
    handle_release-made =
        let req : ItemRequest = record { identity = some (message_of i); id = id } in
        act-made "Item released" (release_item env now req) (release_item-made env now req s)

    handle_close-made :
        (read : String)
        → (handle_close env providers base_path (some i) now id read s).1
          ≡ made env
              (some (History.close (if read == "" then "closed" else read)))
              (context_of i)
              id
              now
              s
    unfolding handle_close identity_to_proto
    handle_close-made read =
        let req : CloseItemRequest = record {
          identity = some (message_of i);
          id = id;
          reason = if read == "" then "closed" else read;
        } in
        act-made "Item closed" (close_item env now req) (close_item-made env now req s)

    handle_comment-made :
        (body : String)
        → (handle_comment env providers base_path (some i) now id (value body) s).1
          ≡ made env (some (History.comment body none)) (context_of i) id now s
    unfolding handle_comment identity_to_proto
    handle_comment-made body =
        let req : CommentOnItemRequest = record {
          identity = some (message_of i);
          id = id;
          body = body;
          visibility = [];
          refs = [];
        } in
        act-made "Comment added" (comment_on_item env now req) (comment_on_item-made env now req s)

module _ {Request S Set Any Foreign Component Page Bus : Type 0} (env : Env S Set Any Foreign)
    (web : Web) (reader : Reader Request) (dsx : DsxContext) (parse : String → Fallible Time)
    (status : String → Fallible String) (cfg : Config Request Set Any Component Page Bus) where
  abbrev comment_call : Fallible String → Option (History.Method Any)
  comment_call (value body) = some (History.comment body none)
  comment_call (failure text) = none

  -- The call that a request stands for, by its method and the pattern of its path.
  abbrev pub called_for : Method → String → Request → Option (History.Method Any)
  called_for method_post pattern r =
      if pattern == "/items/{id}/claim"
      then some History.claim
      else if pattern == "/items/{id}/release"
      then some History.release
      else if pattern == "/items/{id}/close"
      then some
          (History.close (if reader.close_signal r == "" then "closed" else reader.close_signal r))
      else if pattern == "/items/{id}/comment"
      then comment_call (reader.comment_signal r)
      else none
  called_for _ pattern r = none

  -- a route whose handler makes the call of its method and pattern
  abbrev RouteMakes : Route → Type 0
  RouteMakes route =
      (r : Request) (i : Identity) (id : String) (now : Time) (s : S)
      → (run_endpoint env web reader dsx parse status cfg route.endpoint r (some i) id now s).1
        ≡ made env (called_for route.method route.pattern r) (context_of env i) id now s

  sent-made :
      (m : Exec S ConnectError (Sent Set Any Component)) (s : S) {t : S}
      → (m s).1 ≡ t
      → ((m >>= λ answer. pure {A = Reply Set Any Component Page} (sent answer)) s).1 ≡ t
  sent-made m s h =
      continue-same (m s).0 (λ answer. pure (sent answer)) (m s).1 (λ answer. search kept_laws) ∙ h

  comment-made :
      (signals : Fallible String) (i : Identity) (id : String) (now : Time) (s : S)
      → (handle_comment env cfg.content_providers cfg.base_path (some i) now id signals s).1
        ≡ made env (comment_call signals) (context_of env i) id now s
  unfolding handle_comment
  comment-made (value body) i id now s =
      handle_comment-made env cfg.content_providers cfg.base_path i now id s body
  comment-made (failure text) i id now s = refl

  abbrev providers : Providers Set Any Component
  providers = cfg.content_providers

  routes-RouteMakes : All RouteMakes routes
  unfolding run_endpoint
  routes-RouteMakes =
      let (page, (work, (search_page, (item, (drawer, (row, _)))))) =
        routes-GetKept env web reader dsx parse status cfg in
      (
        λ r i id now s. (page refl r (some i) id now).same s,
        (
          λ r i id now s. (work refl r (some i) id now).same s,
          (
            λ r i id now s. (search_page refl r (some i) id now).same s,
            (
              λ r i id now s. (item refl r (some i) id now).same s,
              (
                λ r i id now s. (drawer refl r (some i) id now).same s,
                (
                  λ r i id now s. (row refl r (some i) id now).same s,
                  (
                    λ r i id now s.
                        sent-made (handle_claim env providers cfg.base_path (some i) now id) s
                          (handle_claim-made env providers cfg.base_path i now id s),
                    (
                      λ r i id now s.
                          sent-made (handle_release env providers cfg.base_path (some i) now id) s
                            (handle_release-made env providers cfg.base_path i now id s),
                      (
                        λ r i id now s.
                            sent-made
                              (handle_close env providers cfg.base_path (some i) now id
                                (reader.close_signal r))
                              s
                              (handle_close-made env providers cfg.base_path i now id s
                                (reader.close_signal r)),
                        (
                          λ r i id now s.
                              sent-made
                                (handle_comment env providers cfg.base_path (some i) now id
                                  (reader.comment_signal r))
                                s (comment-made (reader.comment_signal r) i id now s),
                          tt,
                        ),
                      ),
                    ),
                  ),
                ),
              ),
            ),
          ),
        ),
      )

  -- The store after a request, by the route and the parameter that are found for it.
  abbrev pub store_after : Method → Option (Route × String) → Request → Time → S → S
  store_after method none r now s = s
  store_after method (some (route, id)) r now s =
      made env (called_for method route.pattern r) (context_of env (cfg.identity_fn r)) id now s

  -- A request leaves the store as the one call leaves it that its method and its path stand for, in
  -- the context that the service makes of the user's identity: Claim, Release, Close or Comment for
  -- a POST to /items/{id}/claim, release, close or comment, on the item of the path, with the reason
  -- ("closed" for none) or the text that the request holds. Any other request, one with no route,
  -- one whose comment cannot be read and one for whose identity there is no context leave it as it
  -- is.
  pub serve-made :
      (chi : Chi Request)
      → ChiLaws chi
      → (r : Request) (now : Time) (s : S)
      → (serve env web reader dsx parse status cfg chi r now s).1
        ≡ store_after (chi.method_of r) (chi.find routes r) r now s
  unfolding serve
  serve-made chi laws r now s = go (chi.find routes r) refl
    where
      go :
          (found : Option (Route × String))
          → chi.find routes r ≡ found
          → (dispatch env web reader dsx parse status cfg found r
              (some (cfg.identity_fn r))
              now
              s).1
            ≡ store_after (chi.method_of r) found r now s
      go none e = refl
      go (some (route, id)) e =
          let (mem, same) = laws.found routes r route id e in
          subst
            (λ method.
              (run_endpoint env web reader dsx parse status cfg route.endpoint r
                (some (cfg.identity_fn r)) id now s).1
              ≡ store_after method (some (route, id)) r now s)
            same (All-Mem RouteMakes routes routes-RouteMakes mem r (cfg.identity_fn r) id now s)
