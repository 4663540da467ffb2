-- ===== src/Http.antt =====
-- The HTTP layer that no framework is part of: typescript/src/http.
pub mod Envelope
pub mod RateLimit
pub mod Uri
pub mod Router
use licensing.Common.{ℕ, String, Option, List}
use licensing.Types.{JsonValue}
use licensing.Table.{Table}
use licensing.Errors.{Result}

-- `HttpMethod`
pub data HttpMethod : Type 0 where
  get post patch delete : HttpMethod

-- `HandlerRequest`. A query parameter has the values that were repeated under its name, in order;
-- the body is absent, or the JSON value that the adapter parsed.
pub record HandlerRequest : Type 0 where
  pub method : HttpMethod
  pub path : String
  pub query : Table (List String)
  pub headers : Table String
  pub body : Option JsonValue
  pub remote_addr : String
  pub subject : Option String

-- `HandlerResponse`
pub record HandlerResponse : Type 0 where
  pub status : ℕ
  pub headers : Table String
  pub body : Option JsonValue

-- `Handler`, over what it reads and writes; it may throw.
abbrev pub Handler : Type 0 → Type 0
Handler S = HandlerRequest → S → Result HandlerResponse × S

-- `Middleware`: a request and the handler that it may pass it on to.
abbrev pub Middleware : Type 0 → Type 0
Middleware S = HandlerRequest → Handler S → S → Result HandlerResponse × S
