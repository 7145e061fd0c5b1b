-- ===== src/Token/Respond.antt =====
-- cmd/inboxui/token/handler.go: the page of a presigned link and its submission.
pub mod Effects
pub mod Actor
pub mod Shown
use Prim.Native.Char.{code}
use inbox.Prelude.{ℕ, String, ◌==◌, nat_eq, Option, none, some, [], if◌then◌else◌}
use inbox.Effect.{Fallible, value, failure, Outcome, ok, err, panic}
use inbox.Proto.{Time}
use inbox.External.{Identity, Context, Env}
use inbox.Inbox.Errors.{Error, is, err_terminal_status}
use inbox.Inbox.Item.{Item}
use inbox.Inbox.Get.{get}
use inbox.Inbox.Lifecycle.{close}
use inbox.Token.Signing.{Claims, scope_respond}

-- the texts before and after the first ':'
unfoldable pub cut_colon : String → Option (String × String)
cut_colon String.[] = none
cut_colon (String.◌∷◌ c s) =
    let rest = cut_colon s in
    if nat_eq (code c) 58
    then some ("", s)
    else elim rest [ none ↦ none | some (a, b) ↦ some (String.◌∷◌ c a, b) ]

-- `clientData`
pub record ClientData (Set Any Schema : Type 0) : Type 0 where
  pub item : Item Set Any
  pub schema : Option Schema
  pub token : String
  pub scope : String

-- the answer to a GET: `http.Error(w, text, status)` or the page
pub data Page (Set Any Schema : Type 0) : Type 0 where
  http_error : ℕ → String → Page Set Any Schema
  client_page : ClientData Set Any Schema → Page Set Any Schema

-- the answer to a POST: a toast with an error of the inbox or a text, or the success toast
pub data Toast : Type 0 where
  toast_error : Error → Toast
  toast_text : String → Toast
  toast_success : String → Toast

abbrev pub submitted : Toast
submitted = toast_success "Response submitted. You can close this page."

-- `verify` is the verifier at a time, `failed` what a context holds after
-- `identity.WithContext` of the result of an `identity.New` that failed.
module _ {S Set Any Foreign : Type 0} (env : Env S Set Any Foreign)
    (verify : Time → String → Fallible Claims) where
  module _ {Schema : Type 0} (try_parse : String → Any → Option Schema) where
    abbrev parse_payload : String → Option Any → Option Schema
    parse_payload type none = none
    parse_payload type (some payload) = try_parse type payload

    abbrev page_of :
        String → Claims → Outcome Error (Item Set Any) → Outcome Error (Page Set Any Schema)
    page_of tok claims (err e) = ok (http_error 404 "item not found")
    page_of tok claims (panic text) = panic text
    page_of tok claims (ok item) = ok (
        client_page (record {
          item = item;
          schema = parse_payload item.proto.payload_type item.proto.payload;
          token = tok;
          scope = claims.scope;
        }))

    abbrev page_for : S → String → Fallible Claims → Outcome Error (Page Set Any Schema)
    page_for s tok (failure text) = ok (http_error 403 "invalid or expired link")
    page_for s tok (value claims) = page_of tok claims (get env claims.item_id s)

    unfoldable pub handle_get : Time → String → S → Outcome Error (Page Set Any Schema)
    unfolding get
    handle_get now tok s =
        if tok == "" then ok (http_error 400 "missing token") else page_for s tok (verify now tok)

  -- the principal of the actor of a token, as type and id
  abbrev known_type : String → String
  known_type prefix =
      if prefix == env.principal_user then env.principal_user else env.principal_service

  abbrev pub principal_in : String → Option (String × String) → String × String
  principal_in actor none = (env.principal_service, actor)
  principal_in actor (some (prefix, rest)) =
      if prefix == "" then (env.principal_service, actor) else (known_type prefix, rest)

  unfoldable pub principal_of : String → String × String
  unfolding cut_colon
  principal_of actor = principal_in actor (cut_colon actor)

  module _ (failed : Context) where
    abbrev pub context_of : Fallible Identity → Context
    context_of (value i) = some i
    context_of (failure text) = failed

    unfoldable pub claims_context : Claims → Context
    unfolding principal_of
    claims_context claims =
        let (type, id) = principal_of claims.actor in
        context_of (env.new_identity "token" "token" id type [])

    -- An error of `Close` is shown, unless it is that the item is already terminal.
    abbrev pub close_toast : Outcome Error (Item Set Any) → Outcome Error Toast
    close_toast (ok item) = ok submitted
    close_toast (err e) = ok (if is e err_terminal_status then submitted else toast_error e)
    close_toast (panic text) = panic text

    unfoldable pub respond : Time → Claims → S → Outcome Error Toast × S
    unfolding close claims_context
    respond now claims s =
        let (r, s') =
          close env (claims_context claims) now claims.item_id "submitted via presigned link" s in
        (close_toast r, s')

    abbrev pub respond_to : Time → Fallible Claims → S → Outcome Error Toast × S
    respond_to now (failure text) s = (ok (toast_text "invalid or expired link"), s)
    respond_to now (value claims) s =
        if claims.scope == scope_respond
        then respond now claims s
        else (ok (toast_text "this link is view-only"), s)

    -- `signals` is what `ds.ReadSignals` gives for the token.
    abbrev pub verified : Time → Fallible String → S → Outcome Error Toast × S
    verified now (failure text) s = (ok (toast_text text), s)
    verified now (value tok) s = respond_to now (verify now tok) s

    unfoldable pub handle_post : Time → Fallible String → S → Outcome Error Toast × S
    unfolding respond
    handle_post now signals s = verified now signals s
