-- ===== src/Http/Router.antt =====
-- The path router: typescript/src/http/router.ts.
pub mod Laws
mod Tests
use Prim.Native.Char.{Char, code}
use Prim.Native.String.{[], ◌∷◌, ◌++◌ as ◌++ᵀ◌}
use licensing.Common.{
  ℕ, String, Bool, true, false, not, ◌==◌, Option, none, some, List, [] as []ᴸ, ◌∷◌ as ◌∷ᴸ◌, map,
  filter, if◌then◌else◌, eqb, length,
}
use licensing.Errors.{Result, ok, err, malformed_uri}
use licensing.Table
use licensing.Table.{Table}
use licensing.Http.{HttpMethod, HandlerRequest, HandlerResponse, Handler, Middleware}
use licensing.Http.Envelope.{err_response}
use licensing.Http.Uri.{decode_uri_component}

-- `RouteSegment`
pub data RouteSegment : Type 0 where
  static param : String → RouteSegment

-- `Route`, whose handler is given the parameters of the path.
pub record Route (S : Type 0) : Type 0 where
  pub method : HttpMethod
  pub pattern : String
  pub handler : HandlerRequest → Table String → S → Result HandlerResponse × S
  pub is_public : Bool

-- `CompiledRoute`
pub record CompiledRoute (S : Type 0) : Type 0 where
  pub method : HttpMethod
  pub segments : List RouteSegment
  pub handler : HandlerRequest → Table String → S → Result HandlerResponse × S
  pub is_public : Bool

-- A first part and the others, `c` before the first one.
abbrev onto_first : Char → List String → List String
onto_first c []ᴸ = (c ∷ []) ∷ᴸ []ᴸ
onto_first c (part ∷ᴸ parts) = (c ∷ part) ∷ᴸ parts

-- `s.split('/')`
unfoldable split_slash : String → List String
split_slash [] = [] ∷ᴸ []ᴸ
split_slash (c ∷ s) =
    let parts = split_slash s in if eqb (code c) 47 then [] ∷ᴸ parts else onto_first c parts

-- `s.split('/').filter((p) => p.length > 0)`
unfoldable pub path_parts : String → List String
unfolding split_slash
path_parts s = filter (λ part. not (part == "")) (split_slash s)

-- `part.startsWith(':') ? … : …`
abbrev pub segment_of : String → RouteSegment
segment_of [] = static []
segment_of (c ∷ name) = if eqb (code c) 58 then param name else static (c ∷ name)

-- `compileRoute`
unfoldable pub compile_route : {S : Type 0} → Route S → CompiledRoute S
unfolding path_parts
compile_route route = record {
  method = route.method;
  segments = map segment_of (path_parts route.pattern);
  handler = route.handler;
  is_public = route.is_public;
}

-- The loop of `matchSegments` with the parameters so far: an error is the `URIError` that
-- `decodeURIComponent` throws.
unfoldable pub match_from :
    Table String → List RouteSegment → List String → Result (Option (Table String))
match_from params []ᴸ []ᴸ = ok (some params)
match_from params (static value ∷ᴸ segments) (part ∷ᴸ parts) =
    let rest = match_from params segments parts in if value == part then rest else ok none
match_from params (param name ∷ᴸ segments) (part ∷ᴸ parts) = elim (decode_uri_component part) [
  | none ↦ err malformed_uri
  | some value ↦ match_from (Table.set name value params) segments parts
]
match_from params _ _ = ok none

-- `matchSegments`
unfoldable pub match_segments : List RouteSegment → List String → Result (Option (Table String))
unfolding match_from
match_segments segments parts =
    if eqb (length segments) (length parts) then match_from []ᴸ segments parts else ok none

abbrev pub same_method : HttpMethod → HttpMethod → Bool
same_method HttpMethod.get HttpMethod.get = true
same_method HttpMethod.post HttpMethod.post = true
same_method HttpMethod.patch HttpMethod.patch = true
same_method HttpMethod.delete HttpMethod.delete = true
same_method _ _ = false

abbrev pub method_text : HttpMethod → String
method_text HttpMethod.get = "GET"
method_text HttpMethod.post = "POST"
method_text HttpMethod.patch = "PATCH"
method_text HttpMethod.delete = "DELETE"

-- What the loop of `dispatch` comes to.
pub data Choice (S : Type 0) : Type 0 where
  unknown_path : Choice S
  wrong_method : Choice S
  chosen : CompiledRoute S → Table String → Choice S

-- `enrichedReq`
abbrev pub enriched : Bool → HandlerRequest → HandlerRequest
enriched is_public req =
    if is_public
    then record req { headers = Table.set "x-licensing-route-public" "1" req.headers }
    else req

module _ {S : Type 0} where
  -- The loop of `dispatch` with `methodMismatch` so far.
  unfoldable pub select :
      HttpMethod → List String → Bool → List (CompiledRoute S) → Result (Choice S)
  unfolding match_segments
  select method parts mismatch []ᴸ = ok (if mismatch then wrong_method else unknown_path)
  select method parts mismatch (route ∷ᴸ routes) =
      let missed = select method parts mismatch routes in
      let other = select method parts true routes in
      elim (match_segments route.segments parts) [
        | err e ↦ err e
        | ok none ↦ missed
        | ok (some params) ↦
            if same_method route.method method then ok (chosen route params) else other
      ]

  -- `middleware.reduceRight(…, final)`
  abbrev pub through : List (Middleware S) → Handler S → Handler S
  through []ᴸ final = final
  through (mw ∷ᴸ mws) final = λ req. mw req (through mws final)

  abbrev answer :
      List (Middleware S) → HandlerRequest → Result (Choice S) → S → Result HandlerResponse × S
  answer mws req (err e) s = (err e, s)
  answer mws req (ok unknown_path) s = (
    ok (
        err_response 404 "NotFound"
          ("no handler for " ++ᵀ (method_text req.method ++ᵀ (" " ++ᵀ req.path))) []ᴸ),
    s,
  )
  answer mws req (ok wrong_method) s = (
    ok (
        err_response 405 "MethodNotAllowed"
          ("method " ++ᵀ (method_text req.method ++ᵀ (" not allowed for " ++ᵀ req.path))) []ᴸ),
    s,
  )
  answer mws req (ok (chosen route params)) s =
      through mws (λ r. route.handler r params) (enriched route.is_public req) s

  -- `createRouter`
  unfoldable pub create_router : List (Route S) → List (Middleware S) → Handler S
  unfolding select compile_route path_parts
  create_router routes mws req =
      answer mws req (select req.method (path_parts req.path) false (map compile_route routes))
