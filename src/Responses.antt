-- ===== src/Responses.antt =====
-- Error responses: their XML, and what the exceptions of a handler become
-- (src/s3mer/common/errors.py, with ASGIResponse of src/s3mer/common/responses.py).
pub mod Escape
use Prim.Native.Char.{Char, code}
use Prim.Native.String.{◌++◌ as ◌^^◌, [] as blank, ◌∷◌ as ◌::◌}
use s3mer.Base.{
  ℕ, String, Bool, true, false, ◌==◌, Option, none, some, List, [], ◌∷◌, ◌++◌, if◌then◌else◌,
}
use s3mer.Base.Texts.{str_eq}
use s3mer.Dict
use s3mer.Dict.{Dict}
use s3mer.Errors.{
  Exn, ErrorDetails, ExnClass, operation_not_supported, kafka_connection_error, kafka_error,
  error_code,
}
use s3mer.Errors.Codes.{
  S3ErrorCode, access_denied, bucket_already_exists, bucket_already_owned_by_you, bucket_not_empty,
  internal_error, invalid_bucket_name, no_such_bucket, no_such_key, service_unavailable,
  entity_too_small,
}

-- the characters of a text, and the text of characters
unfoldable pub letters : String → List Char
letters blank = []
letters (c :: s) = c ∷ letters s

abbrev pub text_of : List Char → String
text_of [] = blank
text_of (c ∷ cs) = c :: text_of cs

-- `text.replace(old, new)` for a character `old`, by its code
unfoldable pub replace : ℕ → List Char → List Char → List Char
replace old new [] = []
replace old new (c ∷ cs) =
    let rest = replace old new cs in if code c == old then new ++ rest else c ∷ rest

-- the replacements of `_xml_escape`, in its order: & < > " '
unfoldable pub escape : List Char → List Char
unfolding replace letters
escape text = replace b'\'' (letters "&apos;") (
    replace b'"' (letters "&quot;") (
      replace b'>' (letters "&gt;")
        (replace b'<' (letters "&lt;") (replace b'&' (letters "&amp;") text))))

-- `_xml_escape`
unfoldable pub xml_escape : String → String
unfolding escape letters
xml_escape text = text_of (escape (letters text))

pub record S3ErrorResponse : Type 0 where
  pub error_code : S3ErrorCode
  pub message : Option String
  pub resource : Option String
  pub request_id : String

pub record AsgiResponse : Type 0 where
  pub content : String
  pub status_code : ℕ
  pub media_type : String
  pub headers : Dict String

-- `BOTOCORE_ERROR_MAP`
abbrev pub botocore_error_map : Dict S3ErrorCode
botocore_error_map =
    ("NoSuchBucket", no_such_bucket)
    ∷ ("NoSuchKey", no_such_key)
    ∷ ("BucketAlreadyExists", bucket_already_exists)
    ∷ ("BucketAlreadyOwnedByYou", bucket_already_owned_by_you)
    ∷ ("BucketNotEmpty", bucket_not_empty)
    ∷ ("AccessDenied", access_denied)
    ∷ ("InvalidBucketName", invalid_bucket_name)
    ∷ ("EntityTooSmall", entity_too_small)
    ∷ ("404", no_such_bucket)
    ∷ ("403", access_denied)
    ∷ []

-- `text or default`, where a text may be missing
abbrev pub text_or : Option String → String → String
text_or none default = default
text_or (some text) default = if str_eq text "" then default else text

-- `text or other`, where both may be missing
abbrev pub either_text : Option String → Option String → Option String
either_text none other = other
either_text (some text) other = if str_eq text "" then other else some text

-- the lines of `if self.resource: …`
resource_line : String → String
unfolding xml_escape
resource_line text =
    if str_eq text "" then "" else "  <Resource>" ^^ xml_escape text ^^ "</Resource>\n"

-- `to_xml`
unfoldable pub to_xml : S3ErrorResponse → String
unfolding xml_escape resource_line
to_xml r =
    "<?xml version=\"1.0\" encoding=\"UTF-8\"?>\n<Error>\n  <Code>"
    ^^ r.error_code.code
    ^^ "</Code>\n  <Message>"
    ^^ xml_escape (text_or r.message r.error_code.message)
    ^^ "</Message>\n"
    ^^ resource_line (text_or r.resource "")
    ^^ "  <RequestId>"
    ^^ r.request_id
    ^^ "</RequestId>\n</Error>"

-- `S3ErrorResponse.to_response`
unfoldable pub to_response : S3ErrorResponse → AsgiResponse
unfolding to_xml
to_response r = record {
  content = to_xml r;
  status_code = r.error_code.http_status;
  media_type = "application/xml";
  headers = ("x-amz-request-id", r.request_id) ∷ [];
}

-- `error_code_str` and `error_message`
client_code : Option ErrorDetails → String
client_code none = ""
client_code (some r) = error_code r

client_message : Exn → Option ErrorDetails → String
client_message error none = error.text
client_message error (some r) = Dict.or_else r.message error.text

-- `from_client_error`; the new identifier is an argument, as `uuid4` makes it
unfoldable pub from_client_error : String → Exn → Option String → S3ErrorResponse
unfolding client_code client_message
from_client_error new_id error resource = record {
  error_code =
      Dict.or_else (Dict.get (client_code error.response) botocore_error_map) internal_error;
  message = some (client_message error error.response);
  resource = resource;
  request_id = new_id;
}

-- `OperationNotSupportedError.to_response` without a request's identifier
not_supported : String → S3ErrorCode → Option String → String → Option String → AsgiResponse
unfolding to_response
not_supported new_id code own_resource message resource = to_response (record {
  error_code = code;
  message = some message;
  resource = either_text resource own_resource;
  request_id = new_id;
})

unavailable : String → Exn → Option String → AsgiResponse
unfolding to_response
unavailable new_id error resource = to_response (record {
  error_code = service_unavailable;
  message = some error.text;
  resource = resource;
  request_id = new_id;
})

-- `from_handler_error`
unfoldable pub from_handler_error : String → Exn → Option String → AsgiResponse
unfolding to_response from_client_error not_supported unavailable
from_handler_error new_id error resource = elim error.class [
  | operation_not_supported code own_resource ↦
      not_supported new_id code own_resource error.text (either_text own_resource resource)
  | kafka_connection_error ↦ unavailable new_id error resource
  | kafka_error ↦ unavailable new_id error resource
  | _ ↦ to_response (from_client_error new_id error resource)
]
