-- ===== src/Http/Envelope.antt =====
-- Response envelopes: typescript/src/http/envelope.ts.
use licensing.Common.{true, false, ℕ, String, none, some, []}
use licensing.Types.{JsonValue, bool, str, obj, end, field}
use licensing.Table.{Table}
use licensing.Http.{HandlerResponse}

-- `ok(data, status)`
abbrev pub ok_response : JsonValue → ℕ → HandlerResponse
ok_response value status = record {
  status = status;
  headers = [];
  body = some (obj (field "success" (bool true) (field "data" value end)));
}

-- `created(data)`
abbrev pub created : JsonValue → HandlerResponse
created value = ok_response value 201

-- `noContent()`
abbrev pub no_content : HandlerResponse
no_content = record { status = 204; headers = []; body = none }

-- `err(status, code, message, headers)`; no headers where the caller gives none.
abbrev pub err_response : ℕ → String → String → Table String → HandlerResponse
err_response status code message headers = record {
  status = status;
  headers = headers;
  body = some (
      obj (
        field "success" (bool false)
          (field "error" (obj (field "code" (str code) (field "message" (str message) end))) end)));
}
