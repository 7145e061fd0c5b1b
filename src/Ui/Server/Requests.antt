-- ===== src/Ui/Server/Requests.antt =====
-- What any sequence of requests does to an item.
use inbox.Prelude.{String, ◌≡◌, sym, subst, some, List, [], ◌∷◌, Option}
use inbox.Effect.{Fallible, value}
use inbox.Proto.{Time, ProtoItem}
use inbox.External.{Env}
use inbox.External.Store.{StoreLaws, stored}
use inbox.Html.{Web}
use inbox.Html.Document.{DsxContext}
use inbox.Inbox.Evolution.{Successor-refl}
use inbox.Inbox.History.{Method, Call, after_all}
use inbox.Inbox.History.Evolves.{HasSuccessor, after_all-keeps}
use inbox.Inbox.Item.{entity_type}
use inbox.Service.Calls.{Does, does_nothing, does_call}
use inbox.Ui.Config.{Config}
use inbox.Ui.Server.{Reader, Chi, serve}
use inbox.Ui.Server.Calls.{serve-Does}

module _ {S Set Any Foreign : Type 0} (env : Env S Set Any Foreign)
    (laws : StoreLaws env.store) where
  Does-HasSuccessor :
      {id : String} {now : Time} {called : Option (Method Any)} {s t : S} (j : String)
      (p : ProtoItem Any)
      → Does env id now called s t
      → HasSuccessor env laws s j p
      → HasSuccessor env laws t j p
  unfolding after_all
  Does-HasSuccessor j p (does_nothing e) h = subst (λ u. HasSuccessor env laws u j p) (sym e) h
  Does-HasSuccessor {id} {now} {s} j p (does_call ctx method _ e) h =
      let call : Call Any = record { ctx = ctx; now = now; item_id = id; method = method } in
      subst (λ u. HasSuccessor env laws u j p) (sym e)
        (after_all-keeps env laws (call ∷ []) s j p h)

module _ {Request S Set Any Foreign Component Page Bus : Type 0} (env : Env S Set Any Foreign)
    (web : Web) (reader : Reader Request) (dsx : DsxContext) (parse : String → Fallible Time)
    (status : String → Fallible String) (cfg : Config Request Set Any Component Page Bus)
    (chi : Chi Request) where
  -- the store after requests at their times, one after the other
  abbrev pub after_requests : List (Request × Time) → S → S
  after_requests [] s = s
  after_requests ((r, now) ∷ requests) s =
      after_requests requests (serve env web reader dsx parse status cfg chi r now s).1

  module _ (laws : StoreLaws env.store) where
    requests-keep :
        (requests : List (Request × Time)) (s : S) (id : String) (p : ProtoItem Any)
        → HasSuccessor env laws s id p
        → HasSuccessor env laws (after_requests requests s) id p
    requests-keep [] s id p h = h
    requests-keep ((r, now) ∷ requests) s id p h = requests-keep requests _ id p (
        Does-HasSuccessor env laws id p (serve-Does env web reader dsx parse status cfg chi r now s)
          h)

    -- From a store that holds an item, whatever requests any users make of the interface, the item is
    -- stored: its status has moved only along the edges of the lifecycle, its event log has only
    -- grown at the end, and its key, title, description, deadline and payload are the same.
    pub after_requests-HasSuccessor :
        (requests : List (Request × Time)) (s : S) (id : String) (p : ProtoItem Any)
        → stored env.store s id ≡ some (entity_type, value p)
        → HasSuccessor env laws (after_requests requests s) id p
    after_requests-HasSuccessor requests s id p here =
        requests-keep requests s id p (p, here, Successor-refl p)
