-- ===== src/Orders/Sessions.antt =====
-- Sessions (common/http/src/Session.cpp) whose requests the orders server answers.
use ecommerce_platform.Prelude.{
  ℕ, ◌≡◌, refl, sym, subst, ◌+◌, if◌then◌else◌, inl, inr, Bool, true, false, Option, arith, Text,
  text, Bool-cases, leb,
}
use ecommerce_platform.Http.Error.{HttpError, Outcome, returns}
use ecommerce_platform.Http.Json.{JsonLibrary, IsAscii}
use ecommerce_platform.Http.Message.{Request, Response, error_response}
use ecommerce_platform.Http.Message.Printing.{IsPrintable, error_reply, error_response-error_reply}
use ecommerce_platform.Http.Router.{Target, route}
use ecommerce_platform.Http.Router.Answers.{Reports, error_body-Reports}
use ecommerce_platform.Orders.Controller.{OrdersController}
use ecommerce_platform.Orders.Routes.{orders_trie}
use ecommerce_platform.Orders.Serving.{ascii-IsPrintable}
use ecommerce_platform.Orders.Total.{route-returns}
use ecommerce_platform.Server.Session.{
  SessionConfig, ErrorCode, is_open, timeout, end_of_stream, header_limit, body_limit, other_error,
  State, Session, k_open, k_closing, k_closed, writing, completed, close, request_close, do_write,
  start_write, handle_read_error, handle_read_success, make_parser_error, default_request,
  without_keep_alive,
}

-- The session sends a response with this status and this body.
pub record Sends (res : Response) (s : Session) : Type 0 where
  pub was_open : Bool
  pub sent : Response
  pub is_written : s.pending ≡ writing was_open sent
  pub same_status : sent.status ≡ res.status
  pub same_body : sent.body ≡ res.body

-- The session sends a response with the status of the error, a body that reports it, and the end of
-- the connection.
pub record Refused (lib : JsonLibrary) (error : HttpError) (s : Session) : Type 0 where
  pub was_open : Bool
  pub sent : Response
  pub is_written : s.pending ≡ writing was_open sent
  pub same_status : sent.status ≡ error.status
  pub reports : Reports lib sent.body error
  pub ends_connection : sent.keep_alive ≡ false

-- What becomes of a session whose read has ended with the error.
abbrev pub Ends : JsonLibrary → ErrorCode → Session → Session → Type 0
Ends lib timeout s t = t ≡ close false (completed s)
Ends lib end_of_stream s t = t ≡ close false (completed s)
Ends lib header_limit s t =
    Refused lib
      (record {
        status = 431;
        code = text "header_limit_exceeded";
        message = text "Request header fields are too large";
      })
      t
Ends lib body_limit s t =
    Refused lib
      (record {
        status = 413;
        code = text "body_limit_exceeded";
        message = text "Request body is too large";
      })
      t
Ends lib other_error s t =
    Refused lib
      (record {
        status = 400;
        code = text "malformed_http_request";
        message = text "Malformed HTTP request";
      })
      t

refusal-IsAscii :
    (ec : ErrorCode) → IsAscii (make_parser_error ec).code × IsAscii (make_parser_error ec).message
unfolding make_parser_error
refusal-IsAscii header_limit = (omega arith, omega arith)
refusal-IsAscii body_limit = (omega arith, omega arith)
refusal-IsAscii timeout = (omega arith, omega arith)
refusal-IsAscii end_of_stream = (omega arith, omega arith)
refusal-IsAscii other_error = (omega arith, omega arith)

first_of {ℓ} : {A : Type ℓ} (b : Bool) (x y : A) → b ≡ true → (if b then x else y) ≡ x
first_of b x y h = rw h

second_of {ℓ} : {A : Type ℓ} (b : Bool) (x y : A) → b ≡ false → (if b then x else y) ≡ y
second_of b x y h = rw h

module _ (lib : JsonLibrary) (parse_target : Text → Option Target)
    (lock : ℕ → Option OrdersController) (config : SessionConfig) where
  abbrev pub serve : Request → Outcome Response
  serve = route lib parse_target lock (orders_trie lib)

  start_write-Sends : (res : Response) (s : Session) → Sends res (start_write res s)
  start_write-Sends res s = sends s.state
    where
      sends : (state : State) → Sends res (start_write res (record s { state = state }))
      sends k_closing = record {
        was_open = is_open s.socket;
        sent = without_keep_alive res;
        is_written = refl;
        same_status = refl;
        same_body = refl;
      }
      sends k_open = record {
        was_open = is_open s.socket;
        sent = res;
        is_written = refl;
        same_status = refl;
        same_body = refl;
      }
      sends k_closed = record {
        was_open = is_open s.socket;
        sent = res;
        is_written = refl;
        same_status = refl;
        same_body = refl;
      }

  do_write-Sends : (res : Response) (s : Session) → Sends res (do_write lib serve config res s)
  unfolding do_write
  do_write-Sends res s =
      elim (Bool-cases (leb config.max_requests_per_connection s.requests_handled)) [
        | inl last ↦
            subst (Sends res) (sym (first_of _ _ _ last)) (start_write-Sends res (request_close s))
        | inr more ↦ subst (Sends res) (sym (second_of _ _ _ more)) (start_write-Sends res s)
      ]

  answered :
      (s : Session) (req : Request) (res : Response)
      → serve req ≡ returns res
      → handle_read_success lib serve config req (completed s)
        ≡ returns (
            do_write lib serve config res
              (record (completed s) { requests_handled = s.requests_handled + 1 }))
  unfolding handle_read_success
  answered s req res e = rw e refl

  refusal_reply :
      (ec : ErrorCode)
      → error_response lib default_request (make_parser_error ec)
        ≡ returns (error_reply lib default_request (make_parser_error ec))
  refusal_reply ec =
      error_response-error_reply lib default_request _
        (ascii-IsPrintable lib (make_parser_error ec) (refusal-IsAscii ec))

  start_write-Refused :
      (error : HttpError) (s : Session)
      → IsPrintable lib error
      → Refused lib error
          (start_write (without_keep_alive (error_reply lib default_request error)) s)
  start_write-Refused error s p = refuses s.state
    where
      refuses :
          (state : State)
          → Refused lib error (
              start_write
                (without_keep_alive (error_reply lib default_request error))
                (record s { state = state }))
      refuses k_closing = record {
        was_open = is_open s.socket;
        sent = without_keep_alive (error_reply lib default_request error);
        is_written = refl;
        same_status = refl;
        reports = error_body-Reports lib error p;
        ends_connection = refl;
      }
      refuses k_open = record {
        was_open = is_open s.socket;
        sent = without_keep_alive (error_reply lib default_request error);
        is_written = refl;
        same_status = refl;
        reports = error_body-Reports lib error p;
        ends_connection = refl;
      }
      refuses k_closed = record {
        was_open = is_open s.socket;
        sent = without_keep_alive (error_reply lib default_request error);
        is_written = refl;
        same_status = refl;
        reports = error_body-Reports lib error p;
        ends_connection = refl;
      }

  do_write-Refused :
      (error : HttpError) (s : Session)
      → IsPrintable lib error
      → Refused lib error
          (do_write lib serve config (without_keep_alive (error_reply lib default_request error)) s)
  unfolding do_write
  do_write-Refused error s p =
      elim (Bool-cases (leb config.max_requests_per_connection s.requests_handled)) [
        | inl last ↦
            subst (Refused lib error) (sym (first_of _ _ _ last))
              (start_write-Refused error (request_close s) p)
        | inr more ↦
            subst (Refused lib error) (sym (second_of _ _ _ more)) (start_write-Refused error s p)
      ]

  error-IsPrintable : (ec : ErrorCode) → IsPrintable lib (make_parser_error ec)
  error-IsPrintable ec = ascii-IsPrintable lib (make_parser_error ec) (refusal-IsAscii ec)

  refused :
      (s : Session) (ec : ErrorCode)
      → (t : Session) × (handle_read_error lib serve config ec (completed s) ≡ returns t)
        × Ends lib ec s t
  unfolding handle_read_error make_parser_error
  refused s timeout = (_, refl, refl)
  refused s end_of_stream = (_, refl, refl)
  refused s header_limit = (
    _,
    rw (refusal_reply header_limit) refl,
    do_write-Refused (make_parser_error header_limit) (completed s)
        (error-IsPrintable header_limit),
  )
  refused s body_limit = (
    _,
    rw (refusal_reply body_limit) refl,
    do_write-Refused (make_parser_error body_limit) (completed s) (error-IsPrintable body_limit),
  )
  refused s other_error = (
    _,
    rw (refusal_reply other_error) refl,
    do_write-Refused (make_parser_error other_error) (completed s) (error-IsPrintable other_error),
  )

  -- When a read of a session of the orders server completes, its handler throws nothing. With a
  -- request, the server answers, and the session writes a response with the status and the body of the
  -- answer. With a timeout or the end of the stream the session closes; with any other error it writes
  -- the error response for it (431, 413 or 400), which ends the connection.
  pub read_goes_on :
      (s : Session) (req : Request) (ec : ErrorCode)
      → ((res : Response) × (t : Session) × (serve req ≡ returns res)
          × (handle_read_success lib serve config req (completed s) ≡ returns t)
          × Sends res t)
        × ((t : Session) × (handle_read_error lib serve config ec (completed s) ≡ returns t)
            × Ends lib ec s t)
  read_goes_on s req ec =
      let (res, e) = route-returns lib parse_target lock req in
      ((res, _, e, answered s req res e, do_write-Sends res _), refused s ec)
