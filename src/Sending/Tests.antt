-- ===== src/Sending/Tests.antt =====
-- src/features/request-workbench/model/request.ts: headers at concrete inputs.
use purr.Common.{
  ℕ, ◌≡◌, refl, none, some, [], ◌∷◌, String, Text, codes, lower, map, trim, trim_start, is_space,
  inl, true,
}
use purr.Request.{RequestDraft, Header, plain_header, empty_draft, create_request_body, json}
use purr.Authentication.{AuthContext}
use purr.Authentication.Binding.{Platform, get_auth_binding, bind_current}
use purr.Authentication.Inherit.{resolve_auth, resolve_loop}
use purr.Sending.{
  get_request_headers, update_request_headers, is_managed, with_content_type, with_binding,
  trace_header_preview, get_body_content_type,
}
use purr.Sending.Kept.{Holds, update_request_headers-Holds}

abbrev lower_text : Text → Text
lower_text s = map lower s

abbrev trace_id : ℕ → String
trace_id n = "trace-generated-0"

abbrev platform : Platform
platform = record { base64_utf8 = λ s. s; encode_uri_component = λ s. some s; now = 7 }

abbrev context : AuthContext
context = record {
  schema = none;
  workspace = none;
  workspace_profiles = [];
  environment = none;
  variables = none;
  variable_states = none;
}

abbrev typed : Text → Header
typed name = plain_header "header-1" name (codes "text/plain") true

abbrev draft : Header → RequestDraft
draft h = record (empty_draft (codes "purr-1")) {
  headers = h ∷ [];
  body = record (create_request_body (codes "purr-1")) { type = json };
}

abbrev edited : RequestDraft → RequestDraft
edited d =
    update_request_headers lower_text trace_id platform context 1 d
      (get_request_headers lower_text trace_id platform context 1 d true)

trimmed : trim (codes "Content-Type") ≡ codes "Content-Type"
unfolding trim trim_start is_space
trimmed = refl

update_request_headers-Holds_example :
    Holds (typed (codes "Content-Type")) (edited (draft (typed (codes "Content-Type")))).headers
update_request_headers-Holds_example =
    update_request_headers-Holds lower_text trace_id refl refl (typed (codes "Content-Type")) refl
      trimmed platform context 1 (draft (typed (codes "Content-Type"))) (inl refl)

-- The header of a hidden name with a space in front is lost.
spaced : (edited (draft (typed (codes " Content-Type")))).headers ≡ []
unfolding update_request_headers get_request_headers is_managed with_content_type with_binding
    trace_header_preview get_body_content_type get_auth_binding bind_current resolve_auth
    resolve_loop trim trim_start is_space
spaced = refl
