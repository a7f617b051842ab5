-- ===== src/Errors/Handler.antt =====
-- `ErrorHandlerMiddleware.dispatch`, `_build_error_response` and `_build_unexpected_error` of
-- middleware_python/middleware/error_handler.py.
use social_graph_engine.Base.{
  ℕ, ◌≤◌, ◌≡◌, Bool, Option, none, some, [], ◌∷◌, arith, Text, codes, if◌then◌else◌,
}
use social_graph_engine.Errors.{ErrorClass, status_code, error_code, Exception, app, unexpected}

-- A response: its status, the error code and the message of its JSON body, and `X-Request-ID` where
-- the handler sets it as a header or in the body.
pub record Response : Type 0 where
  pub status : ℕ
  pub code : Text
  pub message : Text
  pub request_id : Text

pub data Outcome : Type 0 where
  returned : Response → Outcome
  raised : Exception → Outcome

-- `headers.get("X-Request-ID") or headers.get("x-request-id") or f"req_{...}"`: the header is looked
-- up without regard to case, and an empty one counts as missing.
unfoldable pub choose_request_id : Option Text → Text → Text
choose_request_id none fresh = fresh
choose_request_id (some []) fresh = fresh
choose_request_id (some (c ∷ cs)) fresh = c ∷ cs

-- `_build_error_response`
unfoldable pub build_error_response : ErrorClass → Text → Text → Response
build_error_response k message request_id = record {
  status = status_code k;
  code = error_code k;
  message = message;
  request_id = request_id;
}

-- `_build_unexpected_error`
unfoldable pub build_unexpected_error : Bool → Text → Text → Response
build_unexpected_error is_production message request_id = record {
  status = 500;
  code = codes "INTERNAL_ERROR";
  message = if is_production then codes "服务器内部错误" else message;
  request_id = request_id;
}

-- `dispatch`, given what the rest of the application does with the request.
unfoldable pub dispatch : Bool → Option Text → Text → Outcome → Response
dispatch is_production header fresh (returned r) = record r {
  request_id = choose_request_id header fresh;
}
dispatch is_production header fresh (raised (app k message)) =
    build_error_response k message (choose_request_id header fresh)
dispatch is_production header fresh (raised (unexpected message)) =
    build_unexpected_error is_production message (choose_request_id header fresh)

-- Every exception becomes a response: one of the application's classes with its own status between
-- 400 and 504 and its code, any other with 500; and every response carries the caller's request id,
-- if that is not empty.
pub dispatch_raised :
    (is_production : Bool) (c : ℕ) (cs fresh : Text) (k : ErrorClass) (message other : Text)
    → let id = c ∷ cs in
      let known = dispatch is_production (some id) fresh (raised (app k message)) in
      let unknown = dispatch is_production (some id) fresh (raised (unexpected other)) in
      (400 ≤ known.status)
      × (known.status ≤ 504)
      × (known.code ≡ error_code k)
      × (known.message ≡ message)
      × (known.request_id ≡ id)
      × (unknown.status ≡ 500)
      × (unknown.request_id ≡ id)
unfolding dispatch build_error_response build_unexpected_error choose_request_id status_code
dispatch_raised is_production c cs fresh k message other = ground arith
