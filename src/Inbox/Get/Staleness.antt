-- ===== src/Inbox/Get/Staleness.antt =====
-- `Stale` of get.go and the last activity of an item.
use mathlib.Core.List.{Memᴰ}
use inbox.Prelude.{
  arith, ◌≤◌, ◌<◌, ℤ, negate, String, ◌≡◌, refl, sym, ◌∙◌, ap, subst, true, false, inl, inr,
  Bool-cases, Option, none, some, List, [], ◌∷◌, All, last?, last?-append, ltb, if◌then◌else◌,
}
use inbox.Effect.{ok}
use inbox.Effect.Blocks.{and_then-ok, continue-ok, pure-ok}
use inbox.Proto.{Time, Event, comment_appended}
use inbox.External.{Context, Env}
use inbox.External.Store.{wrote}
use inbox.Inbox.Item.{
  Item, ListOpts, CommentOpts, stamp, actor_from_ctx, new_proto_event_with_detail,
}
use inbox.Inbox.Events.{comment_visibility, comment_refs, add_event, comment}
use inbox.Inbox.Get.{add_duration, last_event_before, keep_stale, get, list_by_tags, stale}

-- The time of the last event, or of the creation where there is no event or it has no time.
abbrev time_or : Option Time → Time → Time
time_or none t = t
time_or (some u) t = u

abbrev last_time : {Any : Type 0} → Option (Event Any) → Time → Time
last_time none t = t
last_time (some e) t = time_or e.at t

abbrev pub last_activity : {Set Any : Type 0} → Item Set Any → Time
last_activity item = last_time (last? item.proto.events) item.created_at

-- The items whose last activity is before the cutoff, in their order.
abbrev pub older : {Set Any : Type 0} → Time → List (Item Set Any) → List (Item Set Any)
older cutoff [] = []
older cutoff (i ∷ items) =
    let rest = older cutoff items in if ltb (last_activity i) cutoff then i ∷ rest else rest

module _ {Set Any : Type 0} where
  before_iff :
      (item : Item Set Any) (cutoff : Time)
      → last_event_before item cutoff ≡ ltb (last_activity item) cutoff
  unfolding last_event_before
  before_iff item cutoff = ground arith

  before-lt :
      (item : Item Set Any) (cutoff : Time)
      → last_event_before item cutoff ≡ true
      → last_activity item < cutoff
  before-lt item cutoff h = ground (arith, before_iff item cutoff)

  lt-before :
      (item : Item Set Any) (cutoff : Time)
      → last_activity item < cutoff
      → last_event_before item cutoff ≡ true
  lt-before item cutoff h = ground (arith, before_iff item cutoff)

  keep_stale-older :
      (cutoff : Time) (items : List (Item Set Any)) → keep_stale cutoff items ≡ older cutoff items
  unfolding keep_stale
  keep_stale-older cutoff [] = refl
  keep_stale-older cutoff (i ∷ items) = rw (before_iff i cutoff, keep_stale-older cutoff items) refl

  keep_stale-All :
      (cutoff : Time) (items : List (Item Set Any))
      → All (λ i. last_activity i < cutoff) (keep_stale cutoff items)
  unfolding keep_stale
  keep_stale-All cutoff [] = tt
  keep_stale-All cutoff (i ∷ items) = elim (Bool-cases (last_event_before i cutoff)) [
    | inl old ↦ rw old (before-lt i cutoff old, keep_stale-All cutoff items)
    | inr new ↦ rw new (keep_stale-All cutoff items)
  ]

  mem-keep_stale :
      (cutoff : Time) (items : List (Item Set Any)) (i : Item Set Any)
      → Memᴰ i items
      → last_activity i < cutoff
      → Memᴰ i (keep_stale cutoff items)
  unfolding keep_stale
  mem-keep_stale cutoff [] i m h = elim m [ ]
  mem-keep_stale cutoff (x ∷ items) i (Memᴰ.head e) h =
      let old : last_event_before x cutoff ≡ true =
        lt-before x cutoff (subst (λ y. last_activity y < cutoff) e h) in
      rw old (Memᴰ.head e)
  mem-keep_stale cutoff (x ∷ items) i (Memᴰ.tail m) h =
      elim (Bool-cases (last_event_before x cutoff)) [
        | inl old ↦ rw old (Memᴰ.tail (mem-keep_stale cutoff items i m h))
        | inr new ↦ rw new (mem-keep_stale cutoff items i m h)
      ]

stamp-time :
    {Any : Type 0} (now : Time) (evt : Event Any) (t : Time)
    → evt.at ≡ none
    → last_time (some (stamp now evt)) t ≡ now
unfolding stamp
stamp-time now evt t h = ground arith

module _ {S Set Any Foreign : Type 0} (env : Env S Set Any Foreign) where
  -- A `Stale` that succeeds returns, of the items that the listing gives, exactly those whose last
  -- activity is before `now - age`, in their order and each as often as it is listed.
  pub stale_lem :
      (tags : List String) (age : ℤ) (opts : ListOpts) (now : Time) (s : S)
      (items : List (Item Set Any))
      → stale env tags age opts now s ≡ ok items
      → (listed : List (Item Set Any)) × (list_by_tags env tags opts s ≡ ok listed)
        × (items ≡ older (add_duration now (negate age)) listed)
        × All (λ i. last_activity i < add_duration now (negate age)) items
        × ((i : Item Set Any)
            → Memᴰ i listed
            → last_activity i < add_duration now (negate age)
            → Memᴰ i items)
  unfolding stale
  stale_lem tags age opts now s items h =
      let (listed, read, e) = and_then-ok (list_by_tags env tags opts s) _ h in
      let cutoff = add_duration now (negate age) in
      let same : keep_stale cutoff listed ≡ items = cc in
      (
        listed,
        read,
        sym same ∙ keep_stale-older cutoff listed,
        subst (All (λ i. last_activity i < cutoff)) same (keep_stale-All cutoff listed),
        λ i m old. subst (Memᴰ i) same (mem-keep_stale cutoff listed i m old),
      )

  add_event-last_activity :
      (now : Time) (id : String) (evt : Event Any) (s : S) (item : Item Set Any)
      → evt.at ≡ none
      → (add_event env now id evt s).0 ≡ ok item
      → last_activity item ≡ now
  unfolding add_event
  add_event-last_activity now id evt s item no_time h =
      let (found, got, e1, ok_e1) = continue-ok (get env id s) _ s h in
      let (_, e, _) = pure-ok _ (wrote env.store _ s) _ _ ok_e1 in
      ap last_activity (sym e)
      ∙ ap (λ o. last_time o found.created_at) (last?-append found.proto.events (stamp now evt))
      ∙ stamp-time now evt found.created_at no_time

  -- An item that `Comment` returns is not stale at the time of the comment, for any cutoff up to it.
  comment_refreshes :
      (ctx : Context) (now cutoff : Time) (id body : String) (opts : Option CommentOpts) (s : S)
      (item : Item Set Any)
      → cutoff ≤ now
      → (comment env ctx now id body opts s).0 ≡ ok item
      → (last_activity item ≡ now) × (last_event_before item cutoff ≡ false)
  unfolding comment
  comment_refreshes ctx now cutoff id body opts s item late h =
      let (actor, known, e1, ok_e1) = continue-ok (actor_from_ctx ctx) _ s h in
      let fresh =
        add_event-last_activity now id
          (new_proto_event_with_detail env actor body
            (comment_appended body (comment_visibility opts) (comment_refs opts)))
          s item refl ok_e1 in
      (fresh, ground (arith, before_iff item cutoff, fresh))
