-- ===== src/Ui/Server/Paths.antt =====
-- The paths of the routes, and the requests for them that the pages make.
use mathlib.Core.List.{Memᴰ}
use text.Mathlib.TextLemmas.{append-nil, append_assoc}
use inbox.Prelude.{String, ◌<>◌, ◌≡◌, sym, ap, ◌∙◌, refl, Option, none, some, List, ◌⊎◌, inl, inr}
use inbox.Html.{Web}
use inbox.Rpc.Connect.{cut_prefix}
use inbox.Ui.Server.{
  Method, method_get, method_post, Route, routes, search_page, queue_page, detail, claim, release,
  close, comment,
}

-- the parts of a pattern around its parameter
abbrev around_id : String → Option (String × String)
around_id String.[] = none
around_id (String.◌∷◌ c s) =
    let rest = around_id s in
    elim (cut_prefix "{id}" (String.◌∷◌ c s)) [
      | some after ↦ some ("", after)
      | none ↦ elim rest [ none ↦ none | some (before, after) ↦ some (String.◌∷◌ c before, after) ]
    ]

-- the path that a pattern stands for
abbrev filled : Option (String × String) → String → String → String
filled none pattern id = pattern
filled (some (before, after)) pattern id = before <> id <> after

abbrev path_of : String → String → String
path_of pattern id = filled (around_id pattern) pattern id

module _ (web : Web) (action : String) where
  -- a request of a method for a URL, which the action makes alone or with the signals of a form
  pub data Calls : Method → String → Type 0 where
    by_get : {url : String} → action ≡ web.get url → Calls method_get url
    by_get_form :
        {url : String} (form : String) → action ≡ web.get_form url form → Calls method_get url
    by_post : {url : String} → action ≡ web.post url → Calls method_post url
    by_post_form :
        {url : String} (form : String) → action ≡ web.post_form url form → Calls method_post url

module _ (web : Web) (base_path : String) (ids : List String) where
  -- An action that requests the path of a route under the base path, with a query or none. The
  -- parameter of the path, if it has one, is one of the ids.
  pub record CallsRoute (action : String) : Type 0 where
    pub route : Route
    pub is_route : Memᴰ route routes
    pub id : String
    pub query : String
    pub is_id : Memᴰ id ids ⊎ (around_id route.pattern ≡ none)
    pub is_query : (query ≡ "") ⊎ ((text : String) × (query ≡ "?" <> text))
    pub calls : Calls web action route.method (base_path <> path_of route.pattern id <> query)

  no_query : (path : String) → base_path <> path ≡ base_path <> path <> ""
  no_query path = sym (append-nil (base_path <> path))

  around :
      (before id after : String)
      → base_path <> before <> id <> after ≡ base_path <> (before <> id <> after) <> ""
  around before id after =
      ap (λ url. url <> after) (append_assoc base_path before id)
      ∙ append_assoc base_path (before <> id) after
      ∙ no_query (before <> id <> after)

  pub item_action :
      (id : String) → Memᴰ id ids → CallsRoute (web.get (base_path <> "/items/" <> id))
  item_action id shown = record {
    route = record { method = method_get; pattern = "/items/{id}"; endpoint = detail };
    is_route = search (Memᴰ.head, Memᴰ.tail) depth 20;
    id = id;
    query = "";
    is_id = inl shown;
    is_query = inl refl;
    calls =
        by_get
          (ap web.get (sym (append-nil (base_path <> "/items/" <> id)) ∙ around "/items/" id ""));
  }

  pub next_action : (text : String) → CallsRoute (web.get (base_path <> "/?cursor=" <> text))
  next_action text = record {
    route = record { method = method_get; pattern = "/"; endpoint = queue_page };
    is_route = search Memᴰ.head;
    id = "";
    query = "?cursor=" <> text;
    is_id = inr refl;
    is_query = inr ("cursor=" <> text, append_assoc "?" "cursor=" text);
    calls = by_get (
        ap web.get (
          ap (λ url. url <> text) (sym (append_assoc base_path "/" "?cursor="))
          ∙ append_assoc (base_path <> "/") "?cursor=" text));
  }

  pub search_action : CallsRoute (web.get_form (base_path <> "/search") "search")
  search_action = record {
    route = record { method = method_get; pattern = "/search"; endpoint = search_page };
    is_route = search (Memᴰ.head, Memᴰ.tail) depth 20;
    id = "";
    query = "";
    is_id = inr refl;
    is_query = inl refl;
    calls = by_get_form "search" (ap (λ url. web.get_form url "search") (no_query "/search"));
  }

  pub claim_action :
      (id : String) → Memᴰ id ids → CallsRoute (web.post (base_path <> "/items/" <> id <> "/claim"))
  claim_action id shown = record {
    route = record { method = method_post; pattern = "/items/{id}/claim"; endpoint = claim };
    is_route = search (Memᴰ.head, Memᴰ.tail) depth 20;
    id = id;
    query = "";
    is_id = inl shown;
    is_query = inl refl;
    calls = by_post (ap web.post (around "/items/" id "/claim"));
  }

  pub release_action :
      (id : String)
      → Memᴰ id ids
      → CallsRoute (web.post (base_path <> "/items/" <> id <> "/release"))
  release_action id shown = record {
    route = record { method = method_post; pattern = "/items/{id}/release"; endpoint = release };
    is_route = search (Memᴰ.head, Memᴰ.tail) depth 20;
    id = id;
    query = "";
    is_id = inl shown;
    is_query = inl refl;
    calls = by_post (ap web.post (around "/items/" id "/release"));
  }

  pub close_action :
      (id : String) → Memᴰ id ids → CallsRoute (web.post (base_path <> "/items/" <> id <> "/close"))
  close_action id shown = record {
    route = record { method = method_post; pattern = "/items/{id}/close"; endpoint = close };
    is_route = search (Memᴰ.head, Memᴰ.tail) depth 20;
    id = id;
    query = "";
    is_id = inl shown;
    is_query = inl refl;
    calls = by_post (ap web.post (around "/items/" id "/close"));
  }

  pub comment_action :
      (id : String)
      → Memᴰ id ids
      → CallsRoute (web.post_form (base_path <> "/items/" <> id <> "/comment") "comment-form")
  comment_action id shown = record {
    route = record { method = method_post; pattern = "/items/{id}/comment"; endpoint = comment };
    is_route = search (Memᴰ.head, Memᴰ.tail) depth 20;
    id = id;
    query = "";
    is_id = inl shown;
    is_query = inl refl;
    calls =
        by_post_form "comment-form"
          (ap (λ url. web.post_form url "comment-form") (around "/items/" id "/comment"));
  }
