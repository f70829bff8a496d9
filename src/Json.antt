-- ===== src/Json.antt =====
-- What the gateway uses of nlohmann::json, which is third-party code: the type `J` of documents and
-- these calls on it are parameters of the definitions that use them. `none` is a thrown
-- nlohmann::json::exception.
use sdv_edge_gateway.Common.{String, Option}

pub record JsonOps (J : Type 0) : Type 0 where
  pub parse : String → Option J
  pub object : J  -- json::object()
  pub at_string : J → String → Option String  -- j.at(key).get<std::string>()
  pub value_string : J → String → String → Option String  -- j.value(key, std::string(...))
  pub value : J → String → J → Option J  -- j.value(key, json)
  pub dump : J → Option String
