-- ===== src/Errors/Classification.antt =====
-- What the classifier decides, as a table that does not mention the registry.
use s3mer.Base.{◌≡◌, Bool, ◌||◌, ◌==◌, leb, Option, none, some, arith, if◌then◌else◌}
use s3mer.Base.Texts.{str_eq}
use s3mer.Errors.{
  client_error, timeout_error, connection_error, os_error, aiohttp_client_error, boto_core_error,
  kafka_connection_error, kafka_error, Exn, ErrorDetails, ErrorAction, retry, fallback, fail,
  status_code, error_code, classify,
}

-- A response asks for patience by its code or by status 429 or 503.
abbrev pub is_throttled : ErrorDetails → Bool
is_throttled r =
    str_eq (error_code r) "SlowDown"
    || (str_eq (error_code r) "Throttling"
        || (str_eq (error_code r) "RequestTimeout"
            || (str_eq (error_code r) "RequestLimitExceeded"
                || (status_code r == 429 || status_code r == 503))))

abbrev pub client_error_action : Option ErrorDetails → ErrorAction
client_error_action none = fail
client_error_action (some r) =
    if is_throttled r then retry else if leb 500 (status_code r) then fallback else fail

abbrev pub exception_action : Exn → ErrorAction
exception_action exc = elim exc.class [
  | client_error ↦ client_error_action exc.response
  | timeout_error ↦ retry
  | connection_error ↦ retry
  | os_error ↦ retry
  | aiohttp_client_error ↦ retry
  | boto_core_error ↦ retry
  | kafka_connection_error ↦ retry
  | kafka_error ↦ retry
  | _ ↦ fallback
]

-- `classify` decides by this table: a botocore client error with no response fails, a throttled
-- one (its code is SlowDown, Throttling, RequestTimeout or RequestLimitExceeded, or its status 429 or
-- 503) is retried, another of status 500 or more falls back and the rest fail; of the other exceptions
-- timeouts, connection and system errors, those of aiohttp and botocore and the two of Kafka are
-- retried, and the rest fall back.
pub classify-exception_action : (exc : Exn) → classify exc ≡ exception_action exc
unfolding classify
classify-exception_action exc = ground arith
