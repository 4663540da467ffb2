-- ===== src/Http/Uri/Tests.antt =====
-- Decoded components, and malformed ones.
use licensing.Common.{◌≡◌, refl, some, none}
use licensing.Http.Uri.{decode_uri_component}

decode_uri_component-escapes : decode_uri_component "a%2Fb%20%E2%82%ac" ≡ some "a/b €"
unfolding decode_uri_component
decode_uri_component-escapes = refl

decode_uri_component-malformed : decode_uri_component "%zz" ≡ none
unfolding decode_uri_component
decode_uri_component-malformed = refl

decode_uri_component-overlong : decode_uri_component "%C0%AF" ≡ none
unfolding decode_uri_component
decode_uri_component-overlong = refl
