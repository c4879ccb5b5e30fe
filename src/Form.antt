-- ===== src/Form.antt =====
-- src/features/request-workbench/model/request-body.ts: the active fields of a body, its validation and its
-- serialisation. The parser's complaints about JSON and XML, and `URLSearchParams`, are parameters; a blob
-- is the list of what it is made of.
pub mod Whole
mod Tests
use purr.Common.{
  ℕ, Bool, true, false, ◌&&◌, ◌||◌, not, Option, none, some, List, [], ◌∷◌, ◌++◌, Text, codes,
  truthy, any, keep, map, nat_eq, is_some, if◌then◌else◌,
}
use purr.Request.{
  Body, BodyField, BodyType, no_body, json, xml, form_data, url_encoded, binary, text, BinaryFile,
  File,
}
use purr.Sending.{get_body_content_type}

abbrev pub is_active : BodyField → Bool
is_active f = f.enabled && (truthy f.key || truthy f.value || is_some f.attachment)

abbrev pub fields_of : BodyType → Body → List BodyField
fields_of form_data body = body.form_data
fields_of url_encoded body = body.url_encoded
fields_of _ body = []

unfoldable pub get_active_body_fields : Body → List BodyField
get_active_body_fields body = keep is_active (fields_of body.type body)

pub data Message : Type 0 where
  diagnostic : Text → Message
  field_name_required file_required : Message

abbrev pub is_unnamed : BodyField → Bool
is_unnamed f = not (truthy f.key)

abbrev pub lacks_file : BodyField → Bool
lacks_file f = f.is_file && not (is_some f.attachment)

abbrev as_diagnostic : Option Text → Option Message
as_diagnostic none = none
as_diagnostic (some message) = some (diagnostic message)

abbrev pub form_message : List BodyField → Option Message
form_message fields =
    if any is_unnamed fields
    then some field_name_required
    else if any lacks_file fields
    then some file_required
    else none

abbrev url_message : List BodyField → Option Message
url_message fields = if any is_unnamed fields then some field_name_required else none

-- `escapeDisposition`
abbrev pub escaped : ℕ → Text
escaped c =
    if nat_eq c 13
    then codes "%0D"
    else if nat_eq c 10
    then codes "%0A"
    else if nat_eq c 34
    then codes "%22"
    else c ∷ []

unfoldable pub escape_disposition : Text → Text
escape_disposition [] = []
escape_disposition (c ∷ s) = escaped c ++ escape_disposition s

-- `mime.replace(/[\r\n]/g, "")`
abbrev pub is_break : ℕ → Bool
is_break c = nat_eq c 13 || nat_eq c 10

unfoldable pub without_breaks : Text → Text
without_breaks [] = []
without_breaks (c ∷ s) = if is_break c then without_breaks s else c ∷ without_breaks s

-- `value.replace(/\r?\n/g, "\r\n")`
unfoldable pub with_crlf : Text → Text
with_crlf [] = []
with_crlf (c ∷ []) = if nat_eq c 10 then 13 ∷ 10 ∷ [] else c ∷ []
with_crlf (c ∷ d ∷ s) =
    let rest = with_crlf (d ∷ s) in
    if nat_eq c 10 then 13 ∷ 10 ∷ rest else if nat_eq c 13 && nat_eq d 10 then rest else c ∷ rest

pub data Chunk : Type 0 where
  text_chunk : Text → Chunk
  file_chunk : File → Chunk

pub data Payload : Type 0 where
  whole_file : File → Payload
  blob : List Chunk → (content_type : Option Text) → Payload

abbrev pub crlf : Text
crlf = 13 ∷ 10 ∷ []

abbrev pub disposition : Text → Option File → Text
disposition key none = codes "form-data; name=\"" ++ (escape_disposition key ++ codes "\"")
disposition key (some file) =
    codes "form-data; name=\""
    ++ (escape_disposition key
        ++ (codes "\"; filename=\"" ++ (escape_disposition file.name ++ codes "\"")))

abbrev pub mime : Option File → Text
mime none = codes "text/plain"
mime (some file) =
    if truthy file.media_type then file.media_type else codes "application/octet-stream"

unfoldable pub part_headers : Text → Text → Option File → Text
unfolding escape_disposition without_breaks
part_headers boundary key file =
    codes "--"
    ++ (boundary
        ++ (crlf
            ++ (codes "Content-Disposition: "
                ++ (disposition key file
                    ++ (crlf
                        ++ (codes "Content-Type: "
                            ++ (without_breaks (mime file) ++ (crlf ++ crlf))))))))

abbrev content_of : Text → Option File → Chunk
content_of value none = text_chunk (with_crlf value)
content_of value (some file) = file_chunk file

abbrev file_of : BodyField → Option File
file_of f = if f.is_file then f.attachment else none

-- The part of a field, if it is not a file field without a file.
unfoldable pub part_of : Text → BodyField → List Chunk
unfolding part_headers with_crlf
part_of boundary f =
    if lacks_file f
    then []
    else text_chunk (part_headers boundary f.key (file_of f))
      ∷ content_of f.value (file_of f)
      ∷ text_chunk crlf
      ∷ []

unfoldable pub parts_of : Text → List BodyField → List Chunk
unfolding part_of
parts_of boundary [] = text_chunk (codes "--" ++ (boundary ++ (codes "--" ++ crlf))) ∷ []
parts_of boundary (f ∷ fields) = part_of boundary f ++ parts_of boundary fields

abbrev binary_payload : Option BinaryFile → Option Payload
binary_payload none = none
binary_payload (some b) = some (whole_file b.file)

module _ (first_diagnostic : BodyType → Text → Option Text)
    (format_query : List (Text × Text) → Text) where
  abbrev message_of : BodyType → Body → List BodyField → Option Message
  message_of json body fields = as_diagnostic (first_diagnostic json body.json)
  message_of xml body fields = as_diagnostic (first_diagnostic xml body.xml)
  message_of form_data body fields = form_message fields
  message_of url_encoded body fields = url_message fields
  message_of _ body fields = none

  unfoldable pub get_request_body_validation_message : Body → Option Message
  unfolding get_active_body_fields
  get_request_body_validation_message body = message_of body.type body (get_active_body_fields body)

  abbrev pub payload_of : BodyType → Body → List BodyField → Option Payload
  payload_of no_body body fields = none
  payload_of binary body fields = binary_payload body.binary
  payload_of json body fields = some (blob (text_chunk body.json ∷ []) (get_body_content_type body))
  payload_of xml body fields = some (blob (text_chunk body.xml ∷ []) (get_body_content_type body))
  payload_of text body fields = some (blob (text_chunk body.text ∷ []) (get_body_content_type body))
  payload_of url_encoded body fields = some (
      blob (text_chunk (format_query (map (λ f. (BodyField.key f, BodyField.value f)) fields)) ∷ [])
        (get_body_content_type body))
  payload_of form_data body fields =
      some (blob (parts_of body.boundary fields) (get_body_content_type body))

  unfoldable pub serialize_request_body : Body → Option Payload
  unfolding get_active_body_fields get_body_content_type parts_of
  serialize_request_body body =
      payload_of body.type body (keep (λ f. truthy (BodyField.key f)) (get_active_body_fields body))
