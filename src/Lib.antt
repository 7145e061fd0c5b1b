-- ===== src/Lib.antt =====
-- Verification of the inbox: work items with a lifecycle, an event log and tags, kept in an entity
-- store, served over Connect-RPC and shown in a web interface.
--
-- The parts of the program and their modules:
-- * Inbox, the package at the repository's root. Status is status.go, Errors errors.go, Item item.go
--   and inbox.go with the event constructors of create.go, Create and Tokens create.go, Get get.go,
--   Events events.go, Lifecycle lifecycle.go and Tagging tags.go. A method of `Inbox` is a function
--   of the environment, the context, the time of the call and its arguments, and then of the store:
--   Claim is `Inbox.Lifecycle.claim`, AddEvent `Inbox.Events.add_event`, Create
--   `Inbox.Create.create_item`, Get `Inbox.Get.get`, Search `Inbox.Get.search_items`. History has
--   sequences of calls of the writing methods, Evolution the relation between the versions of an
--   item, and Panics is on panics.
-- * Service, the package service/. Handler is service.go, a function per method; Convert is
--   convert.go with `mapError` and `actorStr`.
-- * Token, presigned links: Signing is cmd/inboxui/tokens.go and cmd/inboxui/token/token.go, Respond
--   is cmd/inboxui/token/handler.go.
-- * Ui, the package ui/: Labels, Durations and Filters are helpers.go, Convert the conversions of
--   handler.go, Queue is queue.go, mywork.go and search.go, Detail is detail.go and provider.go,
--   Actions is actions.go and the handler of detail.go. Render has the components of the generated
--   files: queue_templ.go, search_templ.go, mywork_templ.go, detail_templ.go and actions_templ.go.
--   Layout is layout_templ.go, Config config.go, Server the routes and the middleware of handler.go.
-- * Showcase, the demo program's site: cmd/inboxui/layout_templ.go and the options of the interface
--   in main.go.
-- * Schema, the forms of cmd/inboxui/schema: the module itself is helpers.go and the messages, Render
--   render_templ.go, Provider cmd/inboxui/schemaprovider.go. Token.Page is
--   cmd/inboxui/token/render_templ.go.
-- * Html, what the generated code of a template does: a component is the list of its steps, and
--   `render_to` runs them on a writer. Collect reads texts, links and buttons off a component.
-- * Rpc, the generated gen/inbox/v1/inboxv1connect/service.connect.go (Procedure, Client, Server) and
--   service/local.go (Local).
-- * Proto, the messages of gen/inbox/v1: a field stands for the field of the struct and its getter.
-- * External, the packages that the program calls: the entity store, tags, identity and anypb are
--   records of operations, `Env` together, and the laws that a theorem needs are records too
--   (StoreLaws, TagLaws, IdentityLaws). The jwt package is the record `Jwt` of Token.Signing, connect
--   and net/http are `Connect` with ConnectLaws, chi is `Chi` with ChiLaws, and templ and dsx are
--   `Web` and `Writer`.
-- * Sample has a store in memory and tags over plain lists that satisfy these laws, and Tests applies
--   the theorems to them. Prelude and Effect are shared helpers.
--
-- The interface calls the service through a client, and its models call the methods of the service
-- themselves, as the in-process client of Rpc.Local does; the service and the link handler call the
-- inbox, and the inbox calls the store. The only state is what the store holds, of any type
-- `S`. A function that can fail or panic returns an `Outcome`; one that writes returns the store
-- beside it, since what was written before an error stays written (`Exec`, with do blocks). Calls of
-- the store are one step each, so a method is a read and a write; theorems on overlapping calls name
-- the write and the item that was read before.
--
-- How values are modelled:
-- * A Go string is a native String; the tokenizer runs over the bytes of its UTF-8 form. A cut at a
--   ':' is one at a character, which is the same place, as ':' is one byte of its own.
-- * A time is a number of nanoseconds since Go's zero time, a duration an integer. A method takes one
--   time, though the code reads the clock in each place that needs it. A fresh UUID is an argument.
--   The verifier of a link takes the time, since a link expires. `time.Since` ends at the largest
--   int64, as in the code.
-- * An age is computed in float64: Ui.Durations rounds a quotient to 53 bits, half to
--   even, by doubling its unit. Its fuel of 96 doublings is enough for a nanosecond in hours. The
--   confidence of a write, a float32, is 0 or 1 and is a number.
-- * A page size is an integer and is converted to an `int32` where the code does it. A vector is a
--   list of bit patterns.
-- * The context of a request is the identity in it, if there is one; without one the code panics.
-- * The message of an error is kept as the parts that it is built from; `errors.Is` is a test on the
--   error. The text of another package's error is one string.
-- * Loops are structural recursion on the list or the bytes they run over. The decimal form of a
--   number n has n + 1 as its fuel, which is more than its digits.
--
-- Not modelled: nil messages where the code does not test for them, cancellation, the extraction
-- schema of gen/inbox/v1/item_entitystore.go, which is data that no code of the repository reads, the
-- messages of gen/inbox/v1 beyond their fields, the streams that dsx and datastar send, and the
-- start-up and demo data of cmd/inboxui. What the store does with the tags and times of an entity is
-- not among its laws, and neither is what it does with a repeated idempotency key.
pub mod Prelude
pub mod Effect
pub mod Proto
pub mod External
pub mod Inbox
pub mod Html
pub mod Rpc
pub mod Schema
pub mod Service
pub mod Showcase
pub mod Token
pub mod Ui
pub mod Sample
pub mod Tests
