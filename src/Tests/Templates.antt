-- ===== src/Tests/Templates.antt =====
-- The pages, the drawer and the forms of sample items.
use inbox.Prelude.{ℕ, String, ◌≡◌, refl, some, List, [], ◌∷◌, ◌++◌}
use inbox.Ui.Queue.{QueueData}
use inbox.Html.Decimal.{decimal}
use inbox.Inbox.Tagging.{tag_value}
use inbox.Html.Collect.{click_of, link_of, markup_of, collect}
use inbox.Inbox.Status.{is_terminal}
use inbox.Schema.Provider.{schema_of, schema_provider_render}
use inbox.Schema.Completion.{clicks-schema_provider_render}
use inbox.Token.Page.{client_standalone_page}
use inbox.Token.Page.Buttons.{clicks-client_standalone_page}
use inbox.Ui.Render.Queue.{queue_content, queue_table}
use inbox.Ui.Render.MyWork.{mywork_content}
use inbox.Ui.Render.Search.{search_content}
use inbox.Ui.Render.Detail.{detail_drawer}
use inbox.Ui.Render.Buttons.{offered, clicks-detail_drawer}
use inbox.Ui.Render.Rows.{pages-links}
use inbox.Ui.Render.Escaping.{markups-same}
use inbox.Sample.Memory.{sample}
use inbox.Sample.Forms.{
  sample_web, described, other, queue_of_one, found_one, drawer_of, approval_form, with_form,
  link_page, no_context, marshal,
}

clicks-detail_drawer_example :
    collect click_of (detail_drawer sample sample_web 90 (drawer_of described))
    ≡ offered sample sample_web 90 (drawer_of described)
      ++ "@post('/inbox/items/a/comment', comment-form)" ∷ []
clicks-detail_drawer_example = clicks-detail_drawer sample sample_web 90 (drawer_of described)

pages-links_example :
    (collect link_of (queue_content {Component = String} sample sample_web 90 queue_of_one)
      ≡ "@get('/inbox/items/a')" ∷ "@get('/inbox/?cursor=7')" ∷ [])
    × (collect link_of (mywork_content {Component = String} sample sample_web 90 queue_of_one)
        ≡ "@get('/inbox/items/a')" ∷ "@get('/inbox/?cursor=7')" ∷ [])
    × (collect link_of (search_content {Component = String} sample sample_web 90 found_one)
        ≡ "@get('/inbox/search', search)" ∷ "@get('/inbox/items/b')" ∷ [])
unfolding decimal
pages-links_example = pages-links String sample sample_web 90 queue_of_one found_one

abbrev queue_of_other : QueueData (List String) ℕ
queue_of_other = record queue_of_one { items = other ∷ []; next_cursor = some 9 }

markups-same_example :
    (collect markup_of (queue_table {Component = String} sample sample_web 90 queue_of_one)
      ≡ collect markup_of (queue_table {Component = String} sample sample_web 90 queue_of_other))
    × (collect markup_of (detail_drawer sample sample_web 90 (drawer_of described))
        ≡ collect markup_of (detail_drawer sample sample_web 90 (drawer_of other)))
unfolding tag_value
markups-same_example =
    markups-same sample sample_web 90 queue_of_one queue_of_other (drawer_of described)
      (drawer_of other) (record { rows = refl; next = refl })
      (record {
        description = refl;
        team = refl;
        assignee = refl;
        priority = refl;
        deadline = refl;
        links = refl;
        content = refl;
        is_open = refl;
        is_claimed = refl;
        is_claimant = refl;
        events = refl;
      })

clicks-schema_provider_render_example :
    collect click_of (
      schema_provider_render {Component = String} sample_web marshal
        (λ p. some approval_form)
        with_form)
    ≡ "@post('/inbox/items/a/close')" ∷ []
unfolding schema_of is_terminal
clicks-schema_provider_render_example =
    clicks-schema_provider_render String sample_web marshal (λ p. some approval_form) with_form

clicks-client_standalone_page_example :
    collect click_of
      (client_standalone_page {Component = String} sample_web marshal no_context link_page).children
    ≡ "@post('/respond')" ∷ []
unfolding is_terminal
clicks-client_standalone_page_example =
    clicks-client_standalone_page String sample_web marshal no_context link_page
