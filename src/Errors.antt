-- ===== src/Errors.antt =====
-- Exceptions, the declarative registry and the classifier
-- (src/s3mer/common/error_registry.py, and ErrorClassifier of src/s3mer/common/errors.py).
pub mod Codes
pub mod Classification
use s3mer.Base.{
  ℕ, String, ◌≤◌, ◌<◌, Bool, true, false, not, ◌&&◌, ◌||◌, ◌==◌, leb, ltb, Option, none, some, List,
  [], ◌∷◌, if◌then◌else◌,
}
use s3mer.Base.Texts.{str_eq, str_mem}
use Codes.{S3ErrorCode}

-- The exception classes that the program tells apart: `client_error` and `boto_core_error` are
-- botocore's, `aiohttp_client_error` aiohttp's, the `kafka` ones aiokafka's.
pub data ExnClass : Type 0 where
  client_error boto_core_error aiohttp_client_error kafka_connection_error kafka_error : ExnClass
  timeout_error connection_error os_error : ExnClass
  operation_not_supported : S3ErrorCode → Option String → ExnClass
  runtime_error key_error value_error attribute_error other : ExnClass

-- `exc.response` of a botocore error, of which the program reads
-- `["Error"]["Code"]`, `["Error"]["Message"]` and `["ResponseMetadata"]["HTTPStatusCode"]`.
pub record ErrorDetails : Type 0 where
  pub code : Option String
  pub message : Option String
  pub http_status : Option ℕ

-- `response` is `none` where `getattr(exc, "response", None)` is no dict; `text` is `str(exc)`.
pub record Exn : Type 0 where
  pub class : ExnClass
  pub response : Option ErrorDetails
  pub text : String

pub data ErrorAction : Type 0 where
  retry fallback fail : ErrorAction

pub record ErrorRule : Type 0 where
  pub action : ErrorAction
  pub codes : List String
  pub status_codes : List ℕ
  pub status_range : Option (ℕ × ℕ)
  pub predicate : Option (Exn → Bool)

-- `response.get("ResponseMetadata", {}).get("HTTPStatusCode", 0)`
abbrev pub status_code : ErrorDetails → ℕ
status_code r = elim r.http_status [ none ↦ 0 | some n ↦ n ]

-- `response.get("Error", {}).get("Code", "")`
abbrev pub error_code : ErrorDetails → String
error_code r = elim r.code [ none ↦ "" | some c ↦ c ]

abbrev nat_mem : ℕ → List ℕ → Bool
nat_mem n [] = false
nat_mem n (m ∷ ms) = n == m || nat_mem n ms

abbrev in_range : Option (ℕ × ℕ) → ℕ → Bool
in_range none n = false
in_range (some (low, high)) n = leb low n && ltb n high

abbrev matches_predicate : Option (Exn → Bool) → Exn → Bool
matches_predicate none exc = false
matches_predicate (some p) exc = p exc

abbrev matches_response : ErrorRule → Option ErrorDetails → Bool
matches_response rule none = false
matches_response rule (some r) =
    str_mem (error_code r) rule.codes
    || nat_mem (status_code r) rule.status_codes
    || in_range rule.status_range (status_code r)

-- `ErrorRule.matches`; no rule of the program sets `exception_types`
matches : ErrorRule → Exn → Bool
matches rule exc = matches_predicate rule.predicate exc || matches_response rule exc.response

abbrev http_client_error_min : ℕ
http_client_error_min = 400

abbrev http_server_error_min : ℕ
http_server_error_min = 500

abbrev pub is_client_error : ExnClass → Bool
is_client_error client_error = true
is_client_error _ = false

client_error_4xx : Exn → Bool
client_error_4xx exc = elim exc.response [
  | none ↦ false
  | some r ↦ leb http_client_error_min (status_code r) && ltb (status_code r) http_server_error_min
]

client_error_5xx : Exn → Bool
client_error_5xx exc = elim exc.response [
  | none ↦ false
  | some r ↦ leb http_server_error_min (status_code r)
]

client_error_missing_response : Exn → Bool
client_error_missing_response exc =
    is_client_error exc.class && elim exc.response [ none ↦ true | some r ↦ false ]

abbrev retry_codes : List String
retry_codes = "RequestLimitExceeded" ∷ "SlowDown" ∷ "RequestTimeout" ∷ "Throttling" ∷ []

error_registry : List ErrorRule
unfolding client_error_missing_response client_error_5xx client_error_4xx
error_registry =
    record {
      action = retry;
      codes = retry_codes;
      status_codes = 429 ∷ 503 ∷ [];
      status_range = none;
      predicate = none;
    }
    ∷ record {
      action = fail;
      codes = [];
      status_codes = [];
      status_range = none;
      predicate = some client_error_missing_response;
    }
    ∷ record {
      action = fail;
      codes = [];
      status_codes = [];
      status_range = some (http_client_error_min, http_server_error_min);
      predicate = none;
    }
    ∷ record {
      action = fallback;
      codes = [];
      status_codes = [];
      status_range = none;
      predicate = some client_error_5xx;
    }
    ∷ record {
      action = fail;
      codes = [];
      status_codes = [];
      status_range = none;
      predicate = some client_error_4xx;
    }
    ∷ []

classify_from_registry : Exn → List ErrorRule → Option ErrorAction
unfolding matches
classify_from_registry exc [] = none
classify_from_registry exc (rule ∷ rules) =
    if matches rule exc then some rule.action else classify_from_registry exc rules

-- the tuple of `isinstance` in `classify`; TimeoutError and ConnectionError are OSErrors
abbrev is_transient : ExnClass → Bool
is_transient timeout_error = true
is_transient aiohttp_client_error = true
is_transient boto_core_error = true
is_transient connection_error = true
is_transient os_error = true
is_transient kafka_connection_error = true
is_transient kafka_error = true
is_transient _ = false

abbrev action_or_fail : Option ErrorAction → ErrorAction
action_or_fail none = fail
action_or_fail (some action) = action

-- `ErrorClassifier.classify`
unfoldable pub classify : Exn → ErrorAction
unfolding classify_from_registry error_registry
classify exc =
    if is_client_error exc.class
    then action_or_fail (classify_from_registry exc error_registry)
    else if is_transient exc.class
    then retry
    else fallback
