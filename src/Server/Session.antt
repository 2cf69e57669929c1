-- ===== src/Server/Session.antt =====
-- Session of common/http/include/Session.hpp and common/http/src/Session.cpp. A handler that the
-- strand runs is one function on the session's state; `pending` is the operation whose completion
-- the session waits for. The handler of requests is a parameter.
pub mod Steps
pub mod Bound
pub mod Closing
pub mod Draining
use ecommerce_platform.Prelude.{
  ℕ, ◌+◌, Bool, true, false, not, Option, none, some, leb, ◌==◌, if◌then◌else◌, [], text,
}
use ecommerce_platform.Http.Error.{HttpError, Outcome, returns, ◌>>=◌}
use ecommerce_platform.Http.Json.{JsonLibrary}
use ecommerce_platform.Http.Message.{Request, Response, error_response}
use ecommerce_platform.Http.Verb.{other_verb}

-- SessionConfig, the timeouts in seconds.
pub record SessionConfig : Type 0 where
  pub first_read_timeout : ℕ
  pub keep_alive_timeout : ℕ
  pub header_limit_bytes : ℕ
  pub body_limit_bytes : ℕ
  pub max_requests_per_connection : ℕ

-- The error codes that the session tells apart.
pub data ErrorCode : Type 0 where
  timeout end_of_stream header_limit body_limit other_error : ErrorCode

-- Session::State
pub data State : Type 0 where
  k_open k_closing k_closed : State

-- What Close has done to the socket: nothing, a shutdown of its sending half, or all three calls.
pub data Socket : Type 0 where
  connected half_closed disconnected : Socket

-- No operation before Run and after the last one, or a read or a write, with a mark whether the
-- socket was open when it began.
pub data Pending : Type 0 where
  not_started nothing : Pending
  reading : Bool → Pending
  writing : Bool → Response → Pending

-- The limits of the request parser.
pub record Parser : Type 0 where
  pub header_limit : ℕ
  pub body_limit : ℕ

pub record Session : Type 0 where
  pub state : State
  pub requests_handled : ℕ
  pub pending : Pending
  pub socket : Socket
  pub parser : Option Parser
  pub expires_after : ℕ
  -- Whether on_close_ is set, and how often it was called.
  pub on_close : Bool
  pub closes : ℕ

-- A session that was just constructed.
abbrev pub new_session : Bool → Session
new_session on_close = record {
  state = k_open;
  requests_handled = 0;
  pending = not_started;
  socket = connected;
  parser = none;
  expires_after = 0;
  on_close = on_close;
  closes = 0;
}

-- MakeParserError
unfoldable pub make_parser_error : ErrorCode → HttpError
make_parser_error header_limit = record {
  status = 431;
  code = text "header_limit_exceeded";
  message = text "Request header fields are too large";
}
make_parser_error body_limit = record {
  status = 413;
  code = text "body_limit_exceeded";
  message = text "Request body is too large";
}
make_parser_error ec = record {
  status = 400;
  code = text "malformed_http_request";
  message = text "Malformed HTTP request";
}

-- The request that HandleReadError makes: an unknown method, no target and version 1.1.
abbrev pub default_request : Request
default_request = record {
  method = other_verb 0;
  target = [];
  version = 11;
  keep_alive = true;
  body = [];
}

abbrev pub is_open : Socket → Bool
is_open disconnected = false
is_open socket = true

-- The handler that RequestClose dispatches.
unfoldable pub request_close : Session → Session
request_close s = elim s.state [
  | k_open ↦ record s { state = k_closing }
  | k_closing ↦ s
  | k_closed ↦ s
]

-- Close
unfoldable pub close : Bool → Session → Session
close force s =
    let closed = record s {
      state = k_closed;
      socket = if force then disconnected else half_closed;
      closes = if s.on_close then s.closes + 1 else s.closes;
    } in
    elim s.state [ k_open ↦ closed | k_closing ↦ closed | k_closed ↦ s ]

-- The handler that ForceClose dispatches.
unfoldable pub force_close : Session → Session
unfolding close
force_close s = close true s

-- What holds of the operation that has completed when its handler starts.
abbrev pub completed : Session → Session
completed s = record s { pending = nothing }

-- The completion of a write that failed.
unfoldable pub write_failed : Session → Session
unfolding close
write_failed s = close false s

abbrev pub without_keep_alive : Response → Response
without_keep_alive res = record res { keep_alive = false }

abbrev pub start_write : Response → Session → Session
start_write res s = record s {
  pending =
      writing (is_open s.socket)
        (elim s.state [ k_open ↦ res | k_closing ↦ without_keep_alive res | k_closed ↦ res ]);
}

module _ (lib : JsonLibrary) (handler : Request → Outcome Response) (config : SessionConfig) where
  -- DoRead with ConfigureParser
  unfoldable pub do_read : Session → Session
  do_read s = record s {
    parser =
        some (record {
          header_limit = config.header_limit_bytes;
          body_limit = config.body_limit_bytes;
        });
    expires_after =
        if s.requests_handled == 0 then config.first_read_timeout else config.keep_alive_timeout;
    pending = reading (is_open s.socket);
  }

  -- The handler that Run dispatches.
  unfoldable pub run : Session → Session
  unfolding do_read
  run s = do_read s

  -- DoWrite. It runs on the strand, so that RequestClose acts before it returns.
  unfoldable pub do_write : Response → Session → Session
  unfolding request_close
  do_write res s =
      if leb config.max_requests_per_connection s.requests_handled
      then start_write res (request_close s)
      else start_write res s

  -- HandleReadError. What is thrown leaves the strand's handler, and io_context::run with it.
  unfoldable pub handle_read_error : ErrorCode → Session → Outcome Session
  unfolding close do_write
  handle_read_error timeout s = returns (close false s)
  handle_read_error end_of_stream s = returns (close false s)
  handle_read_error ec s = do
    res ← error_response lib default_request (make_parser_error ec)
    returns (do_write (without_keep_alive res) s)

  -- HandleReadSuccess
  unfoldable pub handle_read_success : Request → Session → Outcome Session
  unfolding do_write
  handle_read_success req s = do
    let s' = record s { requests_handled = s.requests_handled + 1 }
    res ← handler req
    returns (do_write res s')

  -- The completion of a write that sent the response.
  unfoldable pub write_sent : Response → Session → Session
  unfolding close do_read
  write_sent res s = if not res.keep_alive then close false s else do_read s
