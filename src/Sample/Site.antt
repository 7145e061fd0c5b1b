-- ===== src/Sample/Site.antt =====
-- A router that compares the pattern of a route, and a site on the sample store.
use mathlib.Core.List.{Memᴰ}
use inbox.Prelude.{
  ℕ, String, ◌≡◌, refl, sym, subst, Option, ◌==◌, Bool, Bool-cases, true, false, inl, inr, ◌&&◌,
  none, some, List, [], ◌∷◌, if◌then◌else◌,
}
use inbox.Effect.{value, failure}
use inbox.Showcase.{Dashboard}
use inbox.Showcase.Content.{site}
use inbox.Ui.Config.{Config}
use inbox.Ui.Server.{Reader, Method, method_get, method_post, Route, Chi}
use inbox.Ui.Server.Reads.{ChiLaws}
use inbox.Sample.Forms.{sample_web, approval_form, marshal, no_context}
use inbox.Sample.Memory.{sample}
use inbox.Sample.Requests.{ann}

-- A request: its method, and the pattern and the parameter of its path.
pub record SiteRequest : Type 0 where
  pub method : Method
  pub pattern : String
  pub id : String

abbrev pub site_reader : Reader SiteRequest
site_reader = record {
  header_accept = λ r. "text/html";
  filter_request = λ r. record { query = λ key. ""; signals = none };
  search_signal = λ r. failure "no signals";
  close_signal = λ r. "";
  comment_signal = λ r. value "paid?";
}

abbrev same_method : Method → Method → Bool
same_method method_get method_get = true
same_method method_post method_post = true
same_method _ _ = false

same_method-eq : (m n : Method) → same_method m n ≡ true → m ≡ n
same_method-eq method_get method_get h = refl
same_method-eq method_post method_post h = refl
same_method-eq m n h = cc

abbrev matches : SiteRequest → Route → Bool
matches r route = same_method route.method r.method && (route.pattern == r.pattern)

abbrev find_route : List Route → SiteRequest → Option (Route × String)
find_route [] r = none
find_route (route ∷ list) r =
    let rest = find_route list r in if matches r route then some (route, r.id) else rest

abbrev pub site_chi : Chi SiteRequest
site_chi = record { method_of = λ r. r.method; find = find_route }

and-left : (a b : Bool) → (a && b) ≡ true → a ≡ true
and-left true b h = refl
and-left false b h = h

find_route-found :
    (list : List Route) (r : SiteRequest) (route : Route) (id : String)
    → find_route list r ≡ some (route, id)
    → Memᴰ route list × (route.method ≡ r.method)
find_route-found [] r route id h = cc
find_route-found (x ∷ list) r route id h = elim (Bool-cases (matches r x)) [
  | inl e ↦
      let same : x ≡ route = cc in
      (
        Memᴰ.head (sym same),
        subst (λ x'. x'.method ≡ r.method) same (same_method-eq x.method r.method (and-left _ _ e)),
      )
  | inr e ↦ let (mem, same) = find_route-found list r route id (rw e at h) in (Memᴰ.tail mem, same)
]

pub site_chi-ChiLaws : ChiLaws site_chi
site_chi-ChiLaws = record { found = find_route-found }

-- the identity of every request is that of ann
abbrev pub sample_site : Config SiteRequest (List String) ℕ String (Dashboard String) ℕ
sample_site =
    site sample sample_web marshal (λ p. some approval_form) (λ name url. url) no_context
      (λ html. "form") 0 ann (λ r. some ann)
