-- ===== src/Tests/Service.antt =====
-- The process at concrete events, and the theorems of Service there.
use ecommerce_platform.Prelude.{false, none, some, Text, text}
use ecommerce_platform.Server.Listener.{
  Setup, do_accept, notify_if_drained, request_shutdown, force_queued, set_on_shutdown_complete,
}
use ecommerce_platform.Service.{
  Process, set_up, begin_shutdown, on_signal, on_shutdown_complete, on_timer, elapsed, serve_queued,
}
use ecommerce_platform.Http.Verb.{Verb}

service : Unit {0}
unfolding do_accept notify_if_drained request_shutdown force_queued set_on_shutdown_complete
    begin_shutdown on_signal on_shutdown_complete on_timer serve_queued
service = tt

abbrev signalled : Process
signalled = on_signal false set_up

abbrev cut_off : Process
cut_off = on_timer elapsed signalled

-- The port of the endpoint is taken.
abbrev taken : Setup
taken = record {
  opened = none;
  reuse_set = none;
  bound = some (text "Address already in use");
  listening = none;
  address = text "127.0.0.1";
  port = text "8080";
}

abbrev verb_text : Verb → Text
verb_text v = text "verb"
