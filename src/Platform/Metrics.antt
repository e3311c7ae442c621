-- ===== src/Platform/Metrics.antt =====
-- backend-core/src/observability/metrics.middleware.ts: the label of a route in the metrics.
use Prim.Native.String
use text.Mathlib.Text.{find?}
use skillhunt.Common.{
  ◌≡◌, refl, String, Bool, true, false, not, ◌&&◌, Option, none, some, ◌==◌, string_eq,
  if◌then◌else◌, truthy,
}

-- What a request shows of its route: `metricsRoute`, `route?.path` if it is a text, and `baseUrl`.
pub record RoutedRequest : Type 0 where
  pub metrics_route : Option String
  pub path : Option String
  pub base_url : Option String
  pub url : String

abbrev pub has_star : String → Bool
has_star path = elim (find? path "*") [ none ↦ false | some position ↦ true ]

abbrev pub base_of : Option String → String
base_of none = ""
base_of (some base_url) = base_url

abbrev pub path_label : RoutedRequest → Option String → String
path_label request none = "(inconnue)"
path_label request (some path) =
    if not (path == "") && not (has_star path)
    then String.◌++◌ (base_of request.base_url) path
    else "(inconnue)"

abbrev pub label : RoutedRequest → Option String → String
label request (some metrics_route) = metrics_route
label request none = path_label request request.path

unfoldable pub resolve_route : RoutedRequest → String
resolve_route request = label request (truthy request.metrics_route)

-- The label does not depend on the address that the client asked for.
pub resolve_route-url :
    (request : RoutedRequest) (url : String)
    → resolve_route (record request { url = url }) ≡ resolve_route request
unfolding resolve_route
resolve_route-url request url = refl
