-- ===== src/Errors.antt =====
-- The exceptions of middleware_python/core/exceptions.py and the responses that
-- `ErrorHandlerMiddleware` of middleware/error_handler.py makes of them.
pub mod Handler
mod Tests
use social_graph_engine.Base.{ℕ, Text, codes}

-- The classes below `AppException`; `app_exception` is the base class itself.
pub data ErrorClass : Type 0 where
  app_exception bad_request validation unauthorized forbidden not_found conflict : ErrorClass
  rate_limit cpp_engine database_unavailable service_unavailable external_service : ErrorClass
  compute_timeout : ErrorClass

-- The class attribute `status_code`
unfoldable pub status_code : ErrorClass → ℕ
status_code app_exception = 500
status_code bad_request = 400
status_code validation = 422
status_code unauthorized = 401
status_code forbidden = 403
status_code not_found = 404
status_code conflict = 409
status_code rate_limit = 429
status_code cpp_engine = 502
status_code database_unavailable = 503
status_code service_unavailable = 503
status_code external_service = 502
status_code compute_timeout = 504

-- The class attribute `error_code`
unfoldable pub error_code : ErrorClass → Text
error_code app_exception = codes "INTERNAL_ERROR"
error_code bad_request = codes "BAD_REQUEST"
error_code validation = codes "VALIDATION_ERROR"
error_code unauthorized = codes "UNAUTHORIZED"
error_code forbidden = codes "FORBIDDEN"
error_code not_found = codes "RESOURCE_NOT_FOUND"
error_code conflict = codes "RESOURCE_CONFLICT"
error_code rate_limit = codes "RATE_LIMIT_EXCEEDED"
error_code cpp_engine = codes "CPP_ENGINE_ERROR"
error_code database_unavailable = codes "DATABASE_UNAVAILABLE"
error_code service_unavailable = codes "SERVICE_UNAVAILABLE"
error_code external_service = codes "EXTERNAL_SERVICE_ERROR"
error_code compute_timeout = codes "COMPUTE_TIMEOUT"

-- An exception in flight, with its message: one of the classes, or any other exception.
pub data Exception : Type 0 where
  app : ErrorClass → Text → Exception
  unexpected : Text → Exception
