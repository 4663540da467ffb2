-- ===== src/Http/Router/Laws.antt =====
-- Which route of typescript/src/http/router.ts answers a request.
use Prim.Native.String.{◌++◌ as ◌++ᵀ◌}
use licensing.Common.{
  ◌++◌, ◌≡◌, refl, ◌≢◌, String, Bool, true, false, ◌&&◌, ◌||◌, ◌==◌, none, some, List, [], ◌∷◌, map,
  filter, first, any, All, get_or, length, arith, if◌then◌else◌, inl, inr, Option-cases,
}
use licensing.Errors.{ok}
use licensing.Table
use licensing.Table.{Table}
use licensing.Http.{HttpMethod, HandlerRequest, Middleware}
use licensing.Http.Envelope.{err_response}
use licensing.Http.Uri.{decode_uri_component}
use licensing.Http.Router.{
  RouteSegment, static, param, Route, CompiledRoute, compile_route, path_parts, match_from,
  match_segments, same_method, segment_of, Choice, unknown_path, wrong_method, chosen, select,
  create_router, method_text,
}

-- No part of a path has a malformed escape.
abbrev pub Decodes : List String → Type 0
Decodes parts = All (λ part. decode_uri_component part ≢ none) parts

-- A path fits a pattern: as many parts, and the static ones the same.
abbrev pub fits : List String → List RouteSegment → Bool
fits [] [] = true
fits (part ∷ parts) (static value ∷ segments) = (value == part) && fits parts segments
fits (part ∷ parts) (param name ∷ segments) = fits parts segments
fits _ _ = false

-- The decoded parts that a pattern names, after the ones there are.
abbrev pub bindings : Table String → List RouteSegment → List String → Table String
bindings params (static value ∷ segments) (part ∷ parts) = bindings params segments parts
bindings params (param name ∷ segments) (part ∷ parts) =
    bindings (Table.set name (get_or (decode_uri_component part) "") params) segments parts
bindings params _ _ = params

match_from-fits :
    (params : Table String) (segments : List RouteSegment) (parts : List String)
    → Decodes parts
    → match_from params segments parts
      ≡ ok (if fits parts segments then some (bindings params segments parts) else none)
unfolding match_from
match_from-fits params [] [] h = refl
match_from-fits params [] (part ∷ parts) h = refl
match_from-fits params (static value ∷ segments) [] h = refl
match_from-fits params (param name ∷ segments) [] h = refl
match_from-fits params (static value ∷ segments) (part ∷ parts) h =
    ground (arith, match_from-fits params segments parts h.1)
match_from-fits params (param name ∷ segments) (part ∷ parts) h =
    elim (Option-cases (decode_uri_component part)) [
      | inl bad ↦ absurd (h.0 bad)
      | inr (value, e) ↦
          ground (arith, match_from-fits (Table.set name value params) segments parts h.1)
    ]

length-fits :
    (segments : List RouteSegment) (parts : List String)
    → fits parts segments ≡ true
    → length segments ≡ length parts
length-fits [] [] h = refl
length-fits [] (part ∷ parts) h = absurd (ground arith)
length-fits (segment ∷ segments) [] h = absurd (ground arith)
length-fits (static value ∷ segments) (part ∷ parts) h = ground (arith, length-fits segments parts)
length-fits (param name ∷ segments) (part ∷ parts) h = ground (arith, length-fits segments parts)

match_segments-fits :
    (segments : List RouteSegment) (parts : List String)
    → Decodes parts
    → match_segments segments parts
      ≡ ok (if fits parts segments then some (bindings [] segments parts) else none)
unfolding match_segments
match_segments-fits segments parts h =
    ground (arith, match_from-fits [] segments parts h, length-fits segments parts)

module _ {S : Type 0} where
  -- The first route that fits and has the method, and what is wrong where there is none.
  abbrev pub route_for : HttpMethod → List String → Bool → List (CompiledRoute S) → Choice S
  route_for method parts mismatch routes =
      let here = filter (λ route. fits parts route.segments) routes in
      elim (first (λ route. if same_method route.method method then some route else none) here) [
        | some route ↦ chosen route (bindings [] route.segments parts)
        | none ↦ if mismatch || any (λ _. true) here then wrong_method else unknown_path
      ]

  select-route_for :
      (method : HttpMethod) (parts : List String) (mismatch : Bool)
      (routes : List (CompiledRoute S))
      → Decodes parts
      → select method parts mismatch routes ≡ ok (route_for method parts mismatch routes)
  unfolding select
  select-route_for method parts mismatch [] h = ground arith
  select-route_for method parts mismatch (route ∷ routes) h = ground (
    arith,
    match_segments-fits route.segments parts h,
    select-route_for method parts mismatch routes h,
    select-route_for method parts true routes h,
  )

  -- The segments of a pattern.
  abbrev pub segments_of : Route S → List RouteSegment
  segments_of route = map segment_of (path_parts route.pattern)

  -- A route that answers a request.
  abbrev pub answers : HandlerRequest → Route S → Bool
  answers req route =
      fits (path_parts req.path) (segments_of route) && same_method route.method req.method

  route_for-none :
      (req : HandlerRequest) (mismatch : Bool) (routes : List (Route S))
      → All (λ r. answers req r ≡ false) routes
      → let parts = path_parts req.path in
        route_for req.method parts mismatch (map compile_route routes) ≡ (
          if mismatch || any (λ r. fits parts (segments_of r)) routes
          then wrong_method
          else unknown_path)
  unfolding compile_route
  route_for-none req mismatch [] h = ground arith
  route_for-none req mismatch (r ∷ routes) h =
      ground (arith, route_for-none req mismatch routes h.1, route_for-none req true routes h.1)

  -- If every part of the path decodes and no route fits both path and method, the answer is 405
  -- where some route fits the path and 404 otherwise, and neither middleware nor handler has
  -- run.
  pub create_router_refuses :
      (routes : List (Route S)) (mws : List (Middleware S)) (req : HandlerRequest) (s : S)
      → Decodes (path_parts req.path)
      → All (λ r. answers req r ≡ false) routes
      → let fit = any (λ r. fits (path_parts req.path) (segments_of r)) routes in
        let asked = method_text req.method in
        create_router routes mws req s ≡ (
          ok (
              if fit
              then err_response 405 "MethodNotAllowed"
                  ("method " ++ᵀ (asked ++ᵀ (" not allowed for " ++ᵀ req.path)))
                  []
              else err_response 404 "NotFound"
                  ("no handler for " ++ᵀ (asked ++ᵀ (" " ++ᵀ req.path)))
                  []),
          s,
        )
  unfolding create_router
  create_router_refuses routes mws req s d h =
      rw
        (
          select-route_for req.method (path_parts req.path) false (map compile_route routes) d,
          route_for-none req false routes h,
        )
        (ground arith)
