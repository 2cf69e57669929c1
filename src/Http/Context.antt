-- ===== src/Http/Context.antt =====
-- common/http/include/RequestContext.hpp and src/RequestContext.cpp: a request with its parameters.
use ecommerce_platform.Http.Message.{Request}
use ecommerce_platform.Parser.Params.{GeneralParams, TypedParams}

-- The members request_, path_parameters_ and query_parameters_, which the three getters return.
pub record RequestContext : Type 0 where
  pub request : Request
  pub path_parameters : TypedParams
  pub query_parameters : TypedParams

abbrev pub make_context : Request → GeneralParams → GeneralParams → RequestContext
make_context req path_params query_params = record {
  request = req;
  path_parameters = record { entries = path_params };
  query_parameters = record { entries = query_params };
}
