-- ===== src/Errors/Codes.antt =====
-- S3 error codes with their status and default message (S3Errors of src/s3mer/common/errors.py).
use s3mer.Base.{ℕ, String}

pub record S3ErrorCode : Type 0 where
  pub code : String
  pub http_status : ℕ
  pub message : String

abbrev error : String → ℕ → String → S3ErrorCode
error c n m = record { code = c; http_status = n; message = m }

abbrev pub access_denied : S3ErrorCode
access_denied = error "AccessDenied" 403 "Access Denied"

abbrev pub bucket_already_exists : S3ErrorCode
bucket_already_exists =
    error "BucketAlreadyExists" 409 "The requested bucket name is not available."

abbrev pub bucket_already_owned_by_you : S3ErrorCode
bucket_already_owned_by_you =
    error "BucketAlreadyOwnedByYou" 409
      "The bucket you tried to create already exists, and you own it."

abbrev pub bucket_not_empty : S3ErrorCode
bucket_not_empty = error "BucketNotEmpty" 409 "The bucket you tried to delete is not empty."

abbrev pub internal_error : S3ErrorCode
internal_error = error "InternalError" 500 "We encountered an internal error. Please try again."

abbrev pub invalid_bucket_name : S3ErrorCode
invalid_bucket_name = error "InvalidBucketName" 400 "The specified bucket is not valid."

abbrev pub no_such_bucket : S3ErrorCode
no_such_bucket = error "NoSuchBucket" 404 "The specified bucket does not exist."

abbrev pub no_such_key : S3ErrorCode
no_such_key = error "NoSuchKey" 404 "The specified key does not exist."

abbrev pub method_not_allowed : S3ErrorCode
method_not_allowed = error "MethodNotAllowed" 405 "The specified method is not allowed."

abbrev pub service_unavailable : S3ErrorCode
service_unavailable =
    error "ServiceUnavailable" 503 "Reduce your request rate. Service is temporarily unavailable."

abbrev pub not_implemented : S3ErrorCode
not_implemented =
    error "NotImplemented" 501 "A header you provided implies functionality that is not implemented"

abbrev pub no_such_upload : S3ErrorCode
no_such_upload =
    error "NoSuchUpload" 404
      "The specified multipart upload does not exist. The upload ID may be invalid, or the upload may have been aborted."

abbrev pub entity_too_small : S3ErrorCode
entity_too_small =
    error "EntityTooSmall" 400
      "Your proposed upload is smaller than the minimum allowed object size."
