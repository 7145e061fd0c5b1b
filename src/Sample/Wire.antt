-- ===== src/Sample/Wire.antt =====
-- A concrete transport of the procedures' messages, and its laws.
use inbox.Prelude.{ℕ, ◌≡◌, refl, Option, none, some, List}
use inbox.Effect.{Exec, Outcome, ok, err, panic, map_err, continue, pure}
use inbox.Proto.Service.{
  InboxItem, CreateItemRequest, ItemRequest, ListItemsRequest, ListItemsResponse,
  SearchItemsRequest, ReassignItemRequest, CommentOnItemRequest, AddEventRequest, CloseItemRequest,
  TagItemRequest, UntagItemRequest,
}
use inbox.Service.Convert.{
  code_invalid_argument, code_internal, code_unimplemented, ConnectError, of_inbox, of_text,
}
use inbox.Rpc.Procedure.{Procedure, Request, Response}
use inbox.Rpc.Connect.{HttpResponse, answered, not_found, ClientError, Connect, ConnectLaws}
use inbox.Sample.Memory.{Memory}

pub data Message : Type 0 where
  create_item : CreateItemRequest ℕ → Message
  get_item : ItemRequest → Message
  list_items : ListItemsRequest → Message
  search_items : SearchItemsRequest → Message
  claim_item : ItemRequest → Message
  release_item : ItemRequest → Message
  reassign_item : ReassignItemRequest → Message
  comment_on_item : CommentOnItemRequest → Message
  add_event : AddEventRequest ℕ → Message
  close_item : CloseItemRequest → Message
  tag_item : TagItemRequest → Message
  untag_item : UntagItemRequest → Message

pub data Reply : Type 0 where
  item : InboxItem ℕ → Reply
  page : ListItemsResponse ℕ → Reply
  hits : List (InboxItem ℕ) → Reply
  empty : Reply
  failed : ClientError → Reply

abbrev pack : (p : Procedure) → Request ℕ p → Message
pack Procedure.create_item req = create_item req
pack Procedure.get_item req = get_item req
pack Procedure.list_items req = list_items req
pack Procedure.search_items req = search_items req
pack Procedure.claim_item req = claim_item req
pack Procedure.release_item req = release_item req
pack Procedure.reassign_item req = reassign_item req
pack Procedure.comment_on_item req = comment_on_item req
pack Procedure.add_event req = add_event req
pack Procedure.close_item req = close_item req
pack Procedure.tag_item req = tag_item req
pack Procedure.untag_item req = untag_item req

abbrev unpack : (p : Procedure) → Message → Option (Request ℕ p)
unpack Procedure.create_item (create_item req) = some req
unpack Procedure.get_item (get_item req) = some req
unpack Procedure.list_items (list_items req) = some req
unpack Procedure.search_items (search_items req) = some req
unpack Procedure.claim_item (claim_item req) = some req
unpack Procedure.release_item (release_item req) = some req
unpack Procedure.reassign_item (reassign_item req) = some req
unpack Procedure.comment_on_item (comment_on_item req) = some req
unpack Procedure.add_event (add_event req) = some req
unpack Procedure.close_item (close_item req) = some req
unpack Procedure.tag_item (tag_item req) = some req
unpack Procedure.untag_item (untag_item req) = some req
unpack p m = none

abbrev pack_reply : (p : Procedure) → Response ℕ p → Reply
pack_reply Procedure.create_item resp = item resp
pack_reply Procedure.get_item resp = item resp
pack_reply Procedure.list_items resp = page resp
pack_reply Procedure.search_items resp = hits resp
pack_reply Procedure.claim_item resp = item resp
pack_reply Procedure.release_item resp = item resp
pack_reply Procedure.reassign_item resp = item resp
pack_reply Procedure.comment_on_item resp = item resp
pack_reply Procedure.add_event resp = item resp
pack_reply Procedure.close_item resp = item resp
pack_reply Procedure.tag_item resp = empty
pack_reply Procedure.untag_item resp = empty

abbrev garbled : ClientError
garbled = record { code = code_internal; message = "unexpected message" }

abbrev unpack_reply : (p : Procedure) → Reply → Outcome ClientError (Response ℕ p)
unpack_reply p (failed e) = err e
unpack_reply Procedure.create_item (item resp) = ok resp
unpack_reply Procedure.get_item (item resp) = ok resp
unpack_reply Procedure.list_items (page resp) = ok resp
unpack_reply Procedure.search_items (hits resp) = ok resp
unpack_reply Procedure.claim_item (item resp) = ok resp
unpack_reply Procedure.release_item (item resp) = ok resp
unpack_reply Procedure.reassign_item (item resp) = ok resp
unpack_reply Procedure.comment_on_item (item resp) = ok resp
unpack_reply Procedure.add_event (item resp) = ok resp
unpack_reply Procedure.close_item (item resp) = ok resp
unpack_reply Procedure.tag_item empty = ok tt
unpack_reply Procedure.untag_item empty = ok tt
unpack_reply p reply = err garbled

abbrev sent_error : ConnectError → ClientError
sent_error (of_inbox code e) = record { code = code; message = "inbox" }
sent_error (of_text code text) = record { code = code; message = text }

abbrev reply_of : (p : Procedure) → Outcome ConnectError (Response ℕ p) → Outcome ConnectError Reply
reply_of p (ok resp) = ok (pack_reply p resp)
reply_of p (err e) = ok (failed (sent_error e))
reply_of p (panic text) = panic text

abbrev run_unary :
    (p : Procedure)
    → (Request ℕ p → Exec Memory ConnectError (Response ℕ p))
    → Option (Request ℕ p)
    → Exec Memory ConnectError Reply
run_unary p method none s =
    (ok (failed (record { code = code_invalid_argument; message = "unmarshal" })), s)
run_unary p method (some req) s = let (r, t) = method req s in (reply_of p r, t)

abbrev open_response :
    (p : Procedure) → Outcome ConnectError (HttpResponse Reply) → Outcome ClientError (Response ℕ p)
open_response p (ok (answered reply)) = unpack_reply p reply
open_response p (ok not_found) = err (record { code = code_unimplemented; message = "404" })
open_response p (err e) = err (sent_error e)
open_response p (panic text) = panic text

abbrev pub wire : Connect Memory ℕ Message Reply
wire = record {
  unary = λ p method body. run_unary p method (unpack p body);
  call_unary = λ p http url req s.
      let (r, t) = http (record { url = url; body = pack p req }) s in (open_response p r, t);
  sent_error = sent_error;
}

unpack-pack : (p : Procedure) (req : Request ℕ p) → unpack p (pack p req) ≡ some req
unpack-pack Procedure.create_item req = refl
unpack-pack Procedure.get_item req = refl
unpack-pack Procedure.list_items req = refl
unpack-pack Procedure.search_items req = refl
unpack-pack Procedure.claim_item req = refl
unpack-pack Procedure.release_item req = refl
unpack-pack Procedure.reassign_item req = refl
unpack-pack Procedure.comment_on_item req = refl
unpack-pack Procedure.add_event req = refl
unpack-pack Procedure.close_item req = refl
unpack-pack Procedure.tag_item req = refl
unpack-pack Procedure.untag_item req = refl

unpack_reply-pack_reply :
    (p : Procedure) (resp : Response ℕ p) → unpack_reply p (pack_reply p resp) ≡ ok resp
unpack_reply-pack_reply Procedure.create_item resp = refl
unpack_reply-pack_reply Procedure.get_item resp = refl
unpack_reply-pack_reply Procedure.list_items resp = refl
unpack_reply-pack_reply Procedure.search_items resp = refl
unpack_reply-pack_reply Procedure.claim_item resp = refl
unpack_reply-pack_reply Procedure.release_item resp = refl
unpack_reply-pack_reply Procedure.reassign_item resp = refl
unpack_reply-pack_reply Procedure.comment_on_item resp = refl
unpack_reply-pack_reply Procedure.add_event resp = refl
unpack_reply-pack_reply Procedure.close_item resp = refl
unpack_reply-pack_reply Procedure.tag_item resp = refl
unpack_reply-pack_reply Procedure.untag_item resp = refl

open_response-reply_of :
    (p : Procedure) (r : Outcome ConnectError (Response ℕ p)) (t : Memory)
    → let (r', t') = continue (reply_of p r) (λ reply. pure (answered reply)) t in
      ◌≡◌ {A = Outcome ClientError (Response ℕ p) × Memory}
        (open_response p r', t')
        (map_err sent_error r, t)
open_response-reply_of p (ok resp) t = rw (unpack_reply-pack_reply p resp)
open_response-reply_of p (err e) t = refl
open_response-reply_of p (panic text) t = refl

pub wire-ConnectLaws : ConnectLaws wire
wire-ConnectLaws = record {
  call-unary = λ p method http url serves req s.
      rw (serves (pack p req) s, unpack-pack p req)
        (open_response-reply_of p (method req s).0 (method req s).1);
}
