-- ===== src/Sending.antt =====
-- src/features/request-workbench/model/request.ts: the headers and query parameters that the editor shows,
-- with the managed ones among them, and their edits; `traceHeaderPreview` of request-tracing.ts and
-- `getBodyContentType` of request-body.ts. `toLowerCase` is a parameter.
pub mod Kept
mod Tests
use purr.Common.{
  ℕ, zero, suc, ◌+◌, Bool, true, false, ◌&&◌, ◌||◌, not, Option, none, some, List, [], ◌∷◌, ◌++◌,
  String, Text, codes, text_eq, trim, truthy, before, any, keep, map, concat, nat_eq, if◌then◌else◌,
}
use purr.Request.{
  RequestDraft, Header, plain_header, Param, empty_param, Body, BodyType, no_body, json, xml,
  form_data, url_encoded, binary, text, BinaryFile, TraceHeader, Placement, header, query, cookie,
  Graphql,
}
use purr.Request.Query
use purr.Request.Query.{apply_request_query_params_to_url}
use purr.Authentication.{Shared, AuthContext}
use purr.Authentication.Binding.{Platform, AuthBinding, Bound, get_auth_binding}
use purr.Curl.Build.{includes_text}

abbrev mime_of : Option BinaryFile → Text
mime_of none = codes "application/octet-stream"
mime_of (some f) = if truthy f.mime_type then f.mime_type else codes "application/octet-stream"

abbrev type_content : BodyType → Body → Option Text
type_content no_body body = none
type_content json body = some (codes "application/json")
type_content xml body = some (codes "application/xml")
type_content form_data body = some (codes "multipart/form-data; boundary=" ++ body.boundary)
type_content url_encoded body = some (codes "application/x-www-form-urlencoded")
type_content binary body = some (mime_of body.binary)
type_content text body = some (codes "text/plain")

unfoldable pub get_body_content_type : Body → Option Text
get_body_content_type body = type_content body.type body

abbrev pub content_type_of : Option Graphql → Body → Option Text
content_type_of none body = get_body_content_type body
content_type_of (some g) body = some (codes "application/json")

-- `s.split(";")`
abbrev push_char : ℕ → List Text → List Text
push_char c [] = (c ∷ []) ∷ []
push_char c (s ∷ ss) = (c ∷ s) ∷ ss

unfoldable pub split_semicolons : Text → List Text
split_semicolons [] = [] ∷ []
split_semicolons (c ∷ s) =
    let rest = split_semicolons s in if nat_eq c b';' then [] ∷ rest else push_char c rest

abbrev join_cookies : List Text → Text
join_cookies [] = []
join_cookies (s ∷ []) = s
join_cookies (s ∷ t ∷ ss) = s ++ (codes "; " ++ join_cookies (t ∷ ss))

abbrev pub managed_header : String → Text → Text → Bool → Header
managed_header id name value secret = record (plain_header id name value true) {
  read_only = true;
  secret = secret;
}

abbrev standard_trace_header_names : List Text
standard_trace_header_names =
    codes "traceparent"
    ∷ codes "tracestate"
    ∷ codes "b3"
    ∷ codes "x-b3-traceid"
    ∷ codes "x-b3-spanid"
    ∷ codes "x-b3-sampled"
    ∷ codes "x-b3-flags"
    ∷ []

-- `/\{\{\$(traceparent|b3|traceId|spanId)\}\}/.test(value)`
unfoldable pub is_generated : Text → Bool
unfolding includes_text
is_generated value =
    includes_text (codes "{{$traceparent}}") value
    || includes_text (codes "{{$b3}}") value
    || includes_text (codes "{{$traceId}}") value
    || includes_text (codes "{{$spanId}}") value

abbrev default_templates : Text → List TraceHeader
default_templates propagation =
    if text_eq propagation (codes "w3c")
    then record { name = codes "traceparent"; value = codes "{{$traceparent}}" } ∷ []
    else if text_eq propagation (codes "b3")
    then record { name = codes "b3"; value = codes "{{$b3}}" } ∷ []
    else []

abbrev templates_or : Option (List TraceHeader) → Text → List TraceHeader
templates_or none propagation = default_templates propagation
templates_or (some []) propagation = default_templates propagation
templates_or (some (t ∷ ts)) propagation = t ∷ ts

-- Ids are written by a template literal, of an index.
module _ (to_lower : Text → Text) (trace_id : ℕ → String) where
  abbrev pub lower_name : Header → Text
  lower_name h = to_lower h.name

  abbrev names_of : List Header → TraceHeader → Bool
  names_of headers t =
      any (λ h. Header.enabled h && text_eq (lower_name h) (to_lower t.name)) headers

  abbrev numbered : ℕ → List TraceHeader → List Header
  numbered index [] = []
  numbered index (t ∷ ts) =
      managed_header (trace_id index) t.name t.value false ∷ numbered (suc index) ts

  abbrev previewed : List Header → List TraceHeader → List Header
  previewed headers templates =
      if any (λ t. is_generated (TraceHeader.value t) && names_of headers t) templates
      then []
      else numbered 0 (keep (λ t. not (names_of headers t)) templates)

  abbrev pub preview_of : RequestDraft → Option Text → List Header
  preview_of draft none = []
  preview_of draft (some propagation) =
      if not (truthy propagation)
        || text_eq propagation (codes "off")
        || any (λ h. Header.enabled h && any (text_eq (lower_name h)) standard_trace_header_names)
            draft.headers
      then []
      else previewed draft.headers (templates_or draft.trace_header_templates propagation)

  unfoldable pub trace_header_preview : RequestDraft → List Header
  unfolding is_generated
  trace_header_preview draft = preview_of draft draft.trace_propagation

  abbrev pub trimmed_name : Header → Text
  trimmed_name h = to_lower (trim h.name)

  abbrev pub content_type_header : Text → Header
  content_type_header value = managed_header "body-content-type" (codes "Content-Type") value false

  unfoldable pub with_content_type : Option Text → List Header → List Header
  unfolding trim
  with_content_type none headers = headers
  with_content_type (some value) headers =
      content_type_header value
      ∷ keep (λ h. not (text_eq (trimmed_name h) (codes "content-type"))) headers

  abbrev pub is_cookie : Header → Bool
  is_cookie h = text_eq (lower_name h) (codes "cookie")

  -- The cookies of the headers that are not of the binding's name.
  unfoldable pub manual_cookies : Text → List Header → List Text
  unfolding split_semicolons trim before
  manual_cookies name headers =
      keep (λ part. truthy part && not (text_eq (before b'=' part) name))
        (map trim (
          concat (
            map (λ h. split_semicolons (Header.value h))
              (keep (λ h. Header.enabled h && is_cookie h) headers))))

  abbrev pub auth_header : AuthBinding → Header
  auth_header b = managed_header "auth-header" b.name b.value true

  abbrev pub cookie_header : AuthBinding → List Header → Header
  cookie_header b headers =
      managed_header "auth-header" (codes "Cookie")
        (join_cookies (manual_cookies b.name headers ++ ((b.name ++ (b'=' ∷ b.value)) ∷ []))) true

  abbrev pub placed : Placement → AuthBinding → List Header → List Header
  placed header b headers =
      auth_header b ∷ keep (λ h. not (text_eq (trimmed_name h) (to_lower b.name))) headers
  placed cookie b headers = cookie_header b headers ∷ keep (λ h. not (is_cookie h)) headers
  placed query b headers = headers

  unfoldable pub with_binding : Option AuthBinding → List Header → List Header
  unfolding manual_cookies trim
  with_binding none headers = headers
  with_binding (some b) headers = placed b.target b headers

  -- `managedNames.has(name)`
  unfoldable pub is_managed : List Header → Text → Bool
  is_managed shown name = any (λ h. Header.read_only h && text_eq (lower_name h) name) shown

  module _ (platform : Platform) (context : AuthContext) (address : ℕ) where
    abbrev pub binding_of : RequestDraft → Option AuthBinding
    binding_of draft =
        (get_auth_binding platform (record { address = address; auth = draft.auth })
          context).binding

    unfoldable pub get_request_headers : RequestDraft → Bool → List Header
    unfolding with_content_type with_binding trace_header_preview get_auth_binding
        get_body_content_type
    get_request_headers draft include_trace_preview =
        with_binding (binding_of draft)
          (with_content_type (content_type_of draft.graphql draft.body) draft.headers)
        ++ (if include_trace_preview then trace_header_preview draft else [])

    unfoldable pub update_request_headers : RequestDraft → List Header → RequestDraft
    unfolding get_request_headers is_managed
    update_request_headers draft headers =
        let shown = get_request_headers draft true in
        record draft {
          headers =
              keep (λ h. is_managed shown (lower_name h)) draft.headers
              ++ keep (λ h. not (Header.read_only h) && not (is_managed shown (lower_name h)))
                  headers;
        }

    abbrev query_param : AuthBinding → Param
    query_param b = record (empty_param "auth-query") {
      key = b.name;
      value = b.value;
      enabled = true;
      read_only = true;
      secret = true;
    }

    abbrev with_query : Placement → AuthBinding → List Param → List Param
    with_query query b params =
        query_param b ∷ keep (λ p. not (text_eq (Param.key p) b.name)) params
    with_query _ b params = params

    abbrev with_query_binding : Option AuthBinding → List Param → List Param
    with_query_binding none params = params
    with_query_binding (some b) params = with_query b.target b params

    unfoldable pub get_request_query_params : RequestDraft → List Param
    unfolding get_auth_binding
    get_request_query_params draft = with_query_binding (binding_of draft) draft.params

    abbrev is_managed_key : List Param → Text → Bool
    is_managed_key shown key = any (λ p. Param.read_only p && text_eq (Param.key p) key) shown

    abbrev edited_params : List Param → List Param → List Param → List Param
    edited_params shown own params =
        keep (λ p. is_managed_key shown (Param.key p)) own
        ++ keep (λ p. not (Param.read_only p) && not (is_managed_key shown (Param.key p))) params

    unfoldable pub update_request_query_params :
        Query.Web → RequestDraft → List Param → RequestDraft
    unfolding get_request_query_params apply_request_query_params_to_url
    update_request_query_params web draft params =
        let next = edited_params (get_request_query_params draft) draft.params params in
        record draft { params = next; url = apply_request_query_params_to_url web draft.url next }
