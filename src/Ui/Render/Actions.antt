-- ===== src/Ui/Render/Actions.antt =====
-- The buttons and the comment form of the drawer: ui/actions_templ.go, with `sectionLabel` of
-- ui/detail_templ.go.
use inbox.Prelude.{String, ◌<>◌, ◌==◌, true, [], ◌∷◌, ◌++◌, if◌then◌else◌}
use inbox.Html.{
  markup, escaped, bind, variant_neutral, variant_ghost, check_context, write, attributes, button,
  Html, Web, when,
}
use inbox.Ui.Detail.{DetailData}

-- `sectionLabel`
unfoldable pub section_label : {Component : Type 0} → String → Html Component
section_label label =
    check_context
    ∷ write (
        markup
          "<div class=\"text-[11px] uppercase tracking-widest text-base-content/30 font-semibold\">")
    ∷ write (escaped label)
    ∷ write (markup "</div>")
    ∷ []

module _ {Set Any Component : Type 0} (web : Web) where
  abbrev claim_button : DetailData Set Any Component → Html Component
  claim_button d =
      button
        (record {
          variant = variant_neutral;
          is_small = true;
          class = "";
          on_click = web.post (d.base_path <> "/items/" <> d.item.id <> "/claim");
        })
        ((markup "Claim") ∷ [])
      ∷ []

  abbrev release_button : DetailData Set Any Component → Html Component
  release_button d =
      button
        (record {
          variant = variant_ghost;
          is_small = true;
          class = "";
          on_click = web.post (d.base_path <> "/items/" <> d.item.id <> "/release");
        })
        ((markup "Release") ∷ [])
      ∷ []

  unfoldable pub action_buttons : DetailData Set Any Component → Html Component
  action_buttons d =
      check_context
        ∷ write (markup "<div class=\"flex flex-wrap gap-1.5\">")
        ∷ (if d.item.proto.status == "open"
            then claim_button d
            else if d.item.proto.status == "claimed"
            then when d.is_claimant (release_button d)
            else [])
      ++ write (markup "</div>") ∷ []

  unfoldable pub comment_form : DetailData Set Any Component → Html Component
  unfolding section_label
  comment_form d =
      check_context
        ∷ write (markup "<div data-signals=\"")
        ∷ write (escaped (web.new_signals "comment-form" (("body", "") ∷ [])))
        ∷ write (markup "\">")
        ∷ section_label "Add Comment"
      ++ write (
          markup
            "<textarea class=\"textarea textarea-bordered textarea-sm w-full mt-2.5\" placeholder=\"Write a comment...\" rows=\"2\"")
        ∷ attributes (bind "comment-form" "body")
        ∷ write (markup "></textarea><div class=\"mt-1.5\">")
        ∷ button
            (record {
              variant = variant_ghost;
              is_small = true;
              class = "";
              on_click =
                  web.post_form (d.base_path <> "/items/" <> d.item.id <> "/comment")
                    "comment-form";
            })
            ((markup "Comment") ∷ [])
        ∷ write (markup "</div></div>")
        ∷ []
