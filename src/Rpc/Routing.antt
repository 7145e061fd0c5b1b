-- ===== src/Rpc/Routing.antt =====
-- Where a request goes: through the client, the URL and the switch of the handler.
use inbox.Prelude.{
  String, ◌≡◌, ◌≢◌, ◌⊎◌, inl, inr, refl, Bool-cases, ◌==◌, eq_iff, false, List, [], ◌∷◌, All,
}
use inbox.Effect.{rethrow, pure}
use inbox.Rpc.Procedure.{
  Procedure, create_item, get_item, list_items, search_items, claim_item, release_item,
  reassign_item, comment_on_item, add_event, close_item, tag_item, untag_item, procedure_path,
  Request, ServiceHandler,
}
use inbox.Rpc.Connect.{Connect, ConnectLaws, HttpRequest, not_found, url_path}
use inbox.Rpc.Client.{call}
use inbox.Rpc.Server.{serves, serve_http}
use inbox.Rpc.Local.{new_local_client}

ne-false : (s t : String) → s ≢ t → (s == t) ≡ false
ne-false s t h = elim (Bool-cases (s == t)) [ inl e ↦ absurd (h ((eq_iff s t).0 e)) | inr e ↦ e ]

module _ {S Any Body Reply : Type 0} (connect : Connect S Any Body Reply)
    (svc : ServiceHandler S Any) where
  -- The in-process client runs the method of the service that it names, and returns its result.
  pub call-new_local_client :
      ConnectLaws connect
      → (p : Procedure) (req : Request Any p) (s : S)
      → call (new_local_client connect svc) p req s ≡ rethrow connect.sent_error (svc p req) s
  unfolding new_local_client
  call-new_local_client laws create_item =
      laws.call-unary create_item (svc create_item) _ _ (λ body s. refl)
  call-new_local_client laws get_item = laws.call-unary get_item (svc get_item) _ _ (λ body s. refl)
  call-new_local_client laws list_items =
      laws.call-unary list_items (svc list_items) _ _ (λ body s. refl)
  call-new_local_client laws search_items =
      laws.call-unary search_items (svc search_items) _ _ (λ body s. refl)
  call-new_local_client laws claim_item =
      laws.call-unary claim_item (svc claim_item) _ _ (λ body s. refl)
  call-new_local_client laws release_item =
      laws.call-unary release_item (svc release_item) _ _ (λ body s. refl)
  call-new_local_client laws reassign_item =
      laws.call-unary reassign_item (svc reassign_item) _ _ (λ body s. refl)
  call-new_local_client laws comment_on_item =
      laws.call-unary comment_on_item (svc comment_on_item) _ _ (λ body s. refl)
  call-new_local_client laws add_event =
      laws.call-unary add_event (svc add_event) _ _ (λ body s. refl)
  call-new_local_client laws close_item =
      laws.call-unary close_item (svc close_item) _ _ (λ body s. refl)
  call-new_local_client laws tag_item = laws.call-unary tag_item (svc tag_item) _ _ (λ body s. refl)
  call-new_local_client laws untag_item =
      laws.call-unary untag_item (svc untag_item) _ _ (λ body s. refl)

-- no procedure has this path
abbrev pub Unknown : String → Type 0
Unknown path = (p : Procedure) → path ≢ procedure_path p

module _ {S Any Body Reply : Type 0} (connect : Connect S Any Body Reply)
    (svc : ServiceHandler S Any) (r : HttpRequest Body) where
  serve_http-procedure :
      (p : Procedure)
      → url_path r.url ≡ procedure_path p
      → serve_http connect svc r ≡ serves connect svc p r
  unfolding serve_http
  serve_http-procedure create_item h = rw h
  serve_http-procedure get_item h = rw h
  serve_http-procedure list_items h = rw h
  serve_http-procedure search_items h = rw h
  serve_http-procedure claim_item h = rw h
  serve_http-procedure release_item h = rw h
  serve_http-procedure reassign_item h = rw h
  serve_http-procedure comment_on_item h = rw h
  serve_http-procedure add_event h = rw h
  serve_http-procedure close_item h = rw h
  serve_http-procedure tag_item h = rw h
  serve_http-procedure untag_item h = rw h

  serve_http-Unknown : Unknown (url_path r.url) → serve_http connect svc r ≡ pure not_found
  unfolding serve_http
  serve_http-Unknown h = rw (
    ne-false _ _ (h create_item),
    ne-false _ _ (h get_item),
    ne-false _ _ (h list_items),
    ne-false _ _ (h search_items),
    ne-false _ _ (h claim_item),
    ne-false _ _ (h release_item),
    ne-false _ _ (h reassign_item),
    ne-false _ _ (h comment_on_item),
    ne-false _ _ (h add_event),
    ne-false _ _ (h close_item),
    ne-false _ _ (h tag_item),
    ne-false _ _ (h untag_item),
  )

abbrev procedures : List Procedure
procedures =
    create_item ∷ get_item ∷ list_items ∷ search_items ∷ claim_item ∷ release_item ∷ reassign_item
    ∷ comment_on_item ∷ add_event ∷ close_item ∷ tag_item ∷ untag_item ∷ []

search_path :
    (path : String) (ps : List Procedure)
    → ((p : Procedure) × (path ≡ procedure_path p)) ⊎ All (λ p. path ≢ procedure_path p) ps
search_path path [] = inr tt
search_path path (p ∷ ps) = elim (Bool-cases (path == procedure_path p)) [
  | inl e ↦ inl (p, (eq_iff _ _).0 e)
  | inr e ↦ elim (search_path path ps) [
    | inl found ↦ inl found
    | inr others ↦ inr ((λ h. cc ((eq_iff _ _).1 h), others))
  ]
]

All-Unknown : {path : String} → All (λ p. path ≢ procedure_path p) procedures → Unknown path
All-Unknown {path} (h0, (h1, (h2, (h3, (h4, (h5, (h6, (h7, (h8, (h9, (h10, (h11, _)))))))))))) p =
    elim p as (λ q. path ≢ procedure_path q) [
      | create_item ↦ h0
      | get_item ↦ h1
      | list_items ↦ h2
      | search_items ↦ h3
      | claim_item ↦ h4
      | release_item ↦ h5
      | reassign_item ↦ h6
      | comment_on_item ↦ h7
      | add_event ↦ h8
      | close_item ↦ h9
      | tag_item ↦ h10
      | untag_item ↦ h11
    ]

known : (path : String) → ((p : Procedure) × (path ≡ procedure_path p)) ⊎ Unknown path
known path = elim (search_path path procedures) [
  | inl found ↦ inl found
  | inr others ↦ inr (All-Unknown others)
]

-- The handler runs the method of the procedure that the path of the request names, and answers any
-- other path with "not found", running no method.
serve_http-routes :
    {S Any Body Reply : Type 0} (connect : Connect S Any Body Reply) (svc : ServiceHandler S Any)
    (r : HttpRequest Body)
    → ((p : Procedure) × (url_path r.url ≡ procedure_path p)
        × (serve_http connect svc r ≡ serves connect svc p r))
      ⊎ (Unknown (url_path r.url) × (serve_http connect svc r ≡ pure not_found))
serve_http-routes connect svc r = elim (known (url_path r.url)) [
  | inl (p, e) ↦ inl (p, e, serve_http-procedure connect svc r p e)
  | inr h ↦ inr (h, serve_http-Unknown connect svc r h)
]
