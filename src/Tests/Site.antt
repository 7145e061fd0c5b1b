-- ===== src/Tests/Site.antt =====
-- The site of the demo program, on the sample store.
use inbox.Prelude.{[], ◌∷◌, String, ◌≡◌, refl, All, some}
use inbox.Effect.{failure}
use inbox.Showcase.Content.{content-site}
use inbox.Ui.Detail.{build_detail_data}
use inbox.Ui.Server.{method_get, method_post, serve}
use inbox.Html.Collect.{click_of, link_of, collect}
use inbox.Schema.Provider.{schema_provider_render}
use inbox.Ui.Server.Paths.{CallsRoute}
use inbox.Ui.Server.Links.{ids_of, actions-CallsRoute}
use inbox.Ui.Render.Detail.{detail_drawer}
use inbox.Ui.Render.Queue.{queue_content}
use inbox.Ui.Render.MyWork.{mywork_content}
use inbox.Ui.Render.Search.{search_content}
use inbox.Inbox.History
use inbox.Inbox.History.{after}
use inbox.Inbox.History.Evolves.{HasSuccessor}
use inbox.Sample.Laws.{sample-StoreLaws}
use inbox.Ui.Server.Requests.{after_requests, after_requests-HasSuccessor}
use inbox.Service.Convert.{ctx_with_identity}
use inbox.Ui.Server.Made.{serve-made}
use inbox.Ui.Server.Reads.{serve-same}
use inbox.Sample.Forms.{
  sample_web, approval_form, marshal, no_context, with_form, described, drawer_of, queue_of_one,
  found_one,
}
use inbox.Sample.Memory.{sample, build_tag}
use inbox.Sample.Requests.{ann, stock, invoice}
use inbox.Sample.Site.{SiteRequest, site_reader, site_chi, site_chi-ChiLaws, sample_site}

abbrev open_drawer : SiteRequest
open_drawer = record { method = method_get; pattern = "/items/{id}"; id = "a" }

serve-same_example :
    (serve sample sample_web site_reader no_context
      (λ t. failure "no time")
      (build_tag "status")
      sample_site
      site_chi
      open_drawer
      10
      stock).1
    ≡ stock
serve-same_example =
    serve-same sample sample_web site_reader no_context (λ t. failure "no time")
      (build_tag "status") sample_site site_chi site_chi-ChiLaws open_drawer 10 stock refl

content-site_example :
    (build_detail_data sample sample_site.content_providers sample_site.base_path with_form.item
      "user:ann").content
    ≡ some "form"
content-site_example =
    content-site sample sample_web marshal (λ p. some approval_form) (λ name url. url) no_context
      (λ html. "form") 0 ann (λ r. some ann) with_form.item "user:ann"

actions-CallsRoute_example :
    All
      (CallsRoute sample_web "/inbox" ((drawer_of described).item.id ∷ []))
      (collect click_of (detail_drawer sample sample_web 90 (drawer_of described)))
    × All (CallsRoute sample_web "/inbox" (with_form.item.id ∷ [])) (
        collect click_of (
          schema_provider_render {Component = String} sample_web marshal
            (λ p. some approval_form)
            with_form))
    × All
        (CallsRoute sample_web "/inbox" (ids_of queue_of_one.items))
        (collect link_of (queue_content {Component = String} sample sample_web 90 queue_of_one))
    × All
        (CallsRoute sample_web "/inbox" (ids_of queue_of_one.items))
        (collect link_of (mywork_content {Component = String} sample sample_web 90 queue_of_one))
    × All
        (CallsRoute sample_web "/inbox" (ids_of found_one.items))
        (collect link_of (search_content {Component = String} sample sample_web 90 found_one))
actions-CallsRoute_example =
    actions-CallsRoute String sample sample_web 90 marshal (λ p. some approval_form)
      (drawer_of described) with_form queue_of_one found_one

abbrev claim_request : SiteRequest
claim_request = record { method = method_post; pattern = "/items/{id}/claim"; id = "a" }

serve-made_example :
    (serve sample sample_web site_reader no_context
      (λ t. failure "no time")
      (build_tag "status")
      sample_site
      site_chi
      claim_request
      10
      stock).1
    ≡ after sample (some ann) 10 "a" History.claim stock
unfolding ctx_with_identity inbox.Inbox.Lifecycle.claim inbox.Showcase.showcase_options
serve-made_example =
    serve-made sample sample_web site_reader no_context (λ t. failure "no time")
      (build_tag "status") sample_site site_chi site_chi-ChiLaws claim_request 10 stock

after_requests-HasSuccessor_example :
    HasSuccessor sample sample-StoreLaws
      (after_requests sample sample_web site_reader no_context
        (λ t. failure "no time")
        (build_tag "status")
        sample_site
        site_chi
        ((claim_request, 10) ∷ (open_drawer, 11) ∷ [])
        stock)
      "a"
      invoice
after_requests-HasSuccessor_example =
    after_requests-HasSuccessor sample sample_web site_reader no_context (λ t. failure "no time")
      (build_tag "status") sample_site site_chi sample-StoreLaws
      ((claim_request, 10) ∷ (open_drawer, 11) ∷ []) stock "a" invoice refl
