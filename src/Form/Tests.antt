-- ===== src/Form/Tests.antt =====
-- src/features/request-workbench/model/request-body.ts: a form at concrete inputs.
use purr.Common.{◌≡◌, refl, Option, none, some, List, [], ◌∷◌, Text, codes, inl, true}
use purr.Request.{Body, BodyField, BodyType, File, create_request_body, empty_field, form_data}
use purr.Form.{part_headers}
use purr.Form.Whole.{count, part_headers-breaks}

abbrev first_diagnostic : BodyType → Text → Option Text
first_diagnostic t s = none

abbrev format_query : List (Text × Text) → Text
format_query es = []

abbrev picture : File
picture = record { name = codes "a\"\r\n.png"; media_type = codes "image/png"; content = 1 ∷ [] }

abbrev file_field : BodyField
file_field = record (empty_field "form-data-1") {
  key = codes "picture";
  enabled = true;
  is_file = true;
  attachment = some picture;
}

abbrev form : Option File → Body
form file = record (create_request_body (codes "purr-1")) {
  type = form_data;
  form_data = record file_field { attachment = file } ∷ empty_field "form-data-2" ∷ [];
}

part_headers-breaks_example :
    count 13 (part_headers (codes "purr-1") (codes "a\r\nb") (some picture)) ≡ 4
part_headers-breaks_example =
    part_headers-breaks 13 (codes "purr-1") (codes "a\r\nb") (some picture) (inl refl) refl
