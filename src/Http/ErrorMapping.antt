-- ===== src/Http/ErrorMapping.antt =====
-- MapExceptionToHttpError of common/http/include/HttpErrorMapping.hpp, with the handler for values
-- that are no std::exception in Router::Route of common/http/src/Router.cpp.
use ecommerce_platform.Prelude.{text}
use ecommerce_platform.Http.Error.{
  HttpError, default_error, Exception, http_exception, invalid_parameter, invalid_argument,
  out_of_range, other_exception, non_standard,
}
use ecommerce_platform.Parser.Params.{invalid_parameter_what}

unfoldable pub map_exception : Exception → HttpError
map_exception (http_exception error) = error
map_exception (invalid_parameter key) = record {
  status = 400;
  code = text "invalid_parameter";
  message = invalid_parameter_what key;
}
map_exception (invalid_argument what) = record {
  status = 400;
  code = text "invalid_argument";
  message = what;
}
map_exception (out_of_range what) = record {
  status = 400;
  code = text "out_of_range";
  message = what;
}
map_exception (other_exception what) = default_error
map_exception non_standard = default_error
