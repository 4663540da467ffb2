-- ===== src/Http/Router/Tests.antt =====
-- Routes of the administration's surface, and the theorems at them.
use licensing.Common.{ℕ, suc, ◌≡◌, refl, String, false, none, some, [], ◌∷◌, ◌+◌, ◌≢◌}
use licensing.Types.{str}
use licensing.Errors.{ok, err, malformed_uri}
use licensing.Table
use licensing.Http.{HttpMethod, HandlerRequest, Middleware}
use licensing.Http.Envelope.{ok_response, err_response}
use licensing.Http.Uri.{decode_uri_component}
use licensing.Http.Router.{
  Route, create_router, path_parts, match_from, match_segments, select, compile_route,
}
use licensing.Http.Router.Laws.{create_router_refuses}

-- A route that answers with its name and the identifier in the path, and counts its calls.
abbrev route_of : HttpMethod → String → Route ℕ
route_of method pattern = record {
  method = method;
  pattern = pattern;
  handler = λ req params n. (
    ok (ok_response (elim (Table.get "id" params) [ none ↦ str pattern | some id ↦ str id ]) 200),
    suc n,
  );
  is_public = false;
}

abbrev request_of : HttpMethod → String → HandlerRequest
request_of method path = record {
  method = method;
  path = path;
  query = [];
  headers = [];
  body = none;
  remote_addr = "10.0.0.1";
  subject = none;
}

abbrev list_route : Route ℕ
list_route = route_of HttpMethod.get "/admin/licenses"

abbrev get_route : Route ℕ
get_route = route_of HttpMethod.get "/admin/licenses/:id"

abbrev delete_route : Route ℕ
delete_route = route_of HttpMethod.delete "/admin/licenses/:id"

ne-some : {a : String} → some a ≢ none
ne-some e = cc

-- Two counting layers around the handler.
abbrev layer : ℕ → Middleware ℕ
layer k req next n = next req (n + k)

create_router_refuses_example :
    create_router
      (list_route ∷ delete_route ∷ [])
      (layer 10 ∷ [])
      (request_of HttpMethod.get "/admin/licenses/l1")
      0
    ≡ (
      ok (err_response 405 "MethodNotAllowed" "method GET not allowed for /admin/licenses/l1" []),
      0,
    )
unfolding path_parts decode_uri_component
create_router_refuses_example =
    create_router_refuses (list_route ∷ delete_route ∷ []) (layer 10 ∷ [])
      (request_of HttpMethod.get "/admin/licenses/l1") 0 (ne-some, (ne-some, (ne-some, tt)))
      (refl, (refl, tt))

-- A malformed escape throws, also where no route has the path.
malformed-create_router :
    create_router (get_route ∷ []) [] (request_of HttpMethod.get "/admin/licenses/%zz") 0
    ≡ (err malformed_uri, 0)
unfolding create_router path_parts decode_uri_component match_from match_segments select
    compile_route
malformed-create_router = refl
