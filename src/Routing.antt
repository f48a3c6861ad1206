-- ===== src/Routing.antt =====
-- The routes of gpuserver: NewRoute and its kinds of pkg/gpuserver/router/local.go, initRoutes of
-- pkg/gpuserver/router/metricserver/metricserver.go and
-- pkg/gpuserver/router/schedulerserver/schedulerserver.go, and RegisterRoutes of
-- pkg/gpuserver/router/init/register.go. The multiplexer is a library: what is registered is listed.
use Prim.Native.String.{◌++◌ as concat}
use nvidia_gpu_scheduler.Prelude.{ℕ, Bool, false, List, [], ◌∷◌, ◌++◌, String, if◌then◌else◌}

-- The handlers of both routers.
pub data Handler : Type 0 where
  get_health : Handler
  get_version : Handler
  get_gpu_pod : Handler
  get_gpu_node : Handler
  post_schedule_filter : Handler
  post_schedule_prioritize : Handler
  post_schedule_preempt : Handler

pub record LocalRoute : Type 0 where
  pub method : String
  pub path : String
  pub handler : Handler

unfoldable pub wrap : List (LocalRoute → LocalRoute) → LocalRoute → LocalRoute
wrap [] r = r
wrap (o ∷ opts) r = wrap opts (o r)

unfoldable pub new_route : String → String → Handler → List (LocalRoute → LocalRoute) → LocalRoute
unfolding wrap
new_route method path handler opts =
    wrap opts (record { method = method; path = path; handler = handler })

abbrev pub new_get_route : String → Handler → List (LocalRoute → LocalRoute) → LocalRoute
new_get_route path handler opts = new_route "GET" path handler opts

abbrev pub new_post_route : String → Handler → List (LocalRoute → LocalRoute) → LocalRoute
new_post_route path handler opts = new_route "POST" path handler opts

abbrev pub new_put_route : String → Handler → List (LocalRoute → LocalRoute) → LocalRoute
new_put_route path handler opts = new_route "PUT" path handler opts

abbrev pub new_delete_route : String → Handler → List (LocalRoute → LocalRoute) → LocalRoute
new_delete_route path handler opts = new_route "DELETE" path handler opts

abbrev pub new_options_route : String → Handler → List (LocalRoute → LocalRoute) → LocalRoute
new_options_route path handler opts = new_route "OPTIONS" path handler opts

abbrev pub new_head_route : String → Handler → List (LocalRoute → LocalRoute) → LocalRoute
new_head_route path handler opts = new_route "HEAD" path handler opts

-- path.Join of elements that are clean and not empty
abbrev pub join : String → List String → String
join first [] = first
join first (x ∷ xs) = join (concat first (concat "/" x)) xs

-- options.APIGROUP and options.APIVERSION under "/apis"
abbrev pub api_root : List String
api_root = "nvidia-gpu-scheduler" ∷ "v1" ∷ []

abbrev pub api_path : List String → String
api_path rest = join "/apis" (api_root ++ rest)

unfoldable pub metrics_routes : List LocalRoute
unfolding new_route
metrics_routes =
    new_get_route "/health" get_health []
    ∷ new_get_route (api_path []) get_version []
    ∷ new_get_route (api_path ("gpupods" ∷ [])) get_gpu_pod []
    ∷ new_get_route (api_path ("gpunodes" ∷ [])) get_gpu_node []
    ∷ []

unfoldable pub scheduler_routes : List LocalRoute
unfolding new_route
scheduler_routes =
    new_post_route (api_path ("schedule" ∷ "filter" ∷ [])) post_schedule_filter []
    ∷ new_post_route (api_path ("schedule" ∷ "prioritize" ∷ [])) post_schedule_prioritize []
    ∷ new_post_route (api_path ("schedule" ∷ "preempt" ∷ [])) post_schedule_preempt []
    ∷ []

unfoldable pub register_each : List (List LocalRoute) → List LocalRoute
register_each [] = []
register_each (routes ∷ allrouter) = routes ++ register_each allrouter

-- What the multiplexer has been given, in the order of the calls.
unfoldable pub register_routes : Bool → List LocalRoute
unfolding register_each metrics_routes scheduler_routes
register_routes enable_scheduler =
    register_each
      (if enable_scheduler then metrics_routes ∷ scheduler_routes ∷ [] else metrics_routes ∷ [])

-- What is served for a path without a route: the headers, the status, and the msg and the code of the
-- body.
pub record NotFound : Type 0 where
  pub header : List (String × String)
  pub status : ℕ
  pub msg : String
  pub code : ℕ

abbrev pub not_found_handler : NotFound
not_found_handler = record {
  header = ("Content-Type", "application/json") ∷ ("X-Content-Type-Options", "nosniff") ∷ [];
  status = 404;
  msg = "api not found";
  code = 404;
}

-- The request is logged, and the next handler serves it; the log is left out.
abbrev pub logging_middleware : Handler → Handler
logging_middleware next = next

-- The status that getHealthHandler writes.
abbrev pub get_health_handler : ℕ
get_health_handler = 200

-- The resources that the discovery of the api version tells of.
pub record ApiResource : Type 0 where
  pub name : String
  pub singular_name : String
  pub namespaced : Bool
  pub kind : String
  pub verbs : List String

abbrev pub api_resources_for_discovery : List ApiResource
api_resources_for_discovery =
    record {
      name = "gpupods";
      singular_name = "gpupod";
      namespaced = false;
      kind = "GpuPod";
      verbs = "list" ∷ "watch" ∷ [];
    }
    ∷ record {
      name = "gpunodes";
      singular_name = "gpunode";
      namespaced = false;
      kind = "GpuNode";
      verbs = "list" ∷ "watch" ∷ [];
    }
    ∷ []
