-- ===== src/Gateway/Config.antt =====
-- src/main.cpp, step 1: the configuration. yaml-cpp is a parameter.
use sdv_edge_gateway.Common.{
  ◌>>=◌, String, ◌<>◌, Bool, false, Option, none, some, List, if◌then◌else◌,
}
use sdv_edge_gateway.Common.Int.{ℤ}

-- The operations on nodes; `none` where the library throws. `at` is operator[] with a key, and
-- `is_defined` the conversion to bool.
pub record Yaml (N F : Type 0) : Type 0 where
  pub load_file : String → Option N
  pub at : N → String → Option N
  pub is_defined : N → Bool
  pub as_string : N → Option String
  pub as_strings : N → Option (List String)
  pub as_int : N → Option ℤ
  pub as_float : N → Option F
  pub literal : String → F  -- a literal of type float

-- The locals of `main` that step 1 sets.
pub record Config (F : Type 0) : Type 0 where
  pub uin : String
  pub can_iface_rx : String
  pub can_iface_tx : String
  pub dbc_path : String
  pub signal_names : List String
  pub broker : String
  pub client_id : String
  pub keep_alive : ℤ
  pub ca_cert : String
  pub device_cert : String
  pub device_key : String
  pub model_path : String
  pub anomaly_threshold : F

-- `(argc > 1) ? argv[1] : "config/config.yaml"`.
abbrev pub config_path : Option String → String
config_path none = "config/config.yaml"
config_path (some arg) = arg

module _ {N F : Type 0} (yaml : Yaml N F) where
  open yaml use {at, is_defined, as_string, as_strings, as_int, as_float, literal}

  -- `cfg[section][key]`.
  unfoldable pub entry : N → String → String → Option N
  entry cfg section key = at cfg section >>= λ node. at node key

  abbrev pub string_at : N → String → String → Option String
  string_at cfg section key = entry cfg section key >>= as_string

  -- `cfg[section] && cfg[section][key]`: the second is not looked up if the first is undefined.
  unfoldable pub has_entry : N → String → String → Option Bool
  has_entry cfg section key = do
    node ← at cfg section
    if is_defined node then (at node key >>= λ value. some (is_defined value)) else some false

  -- `has ? cfg[section][key].as<...>() : fallback`.
  unfoldable pub optional : {A : Type 0} → (N → Option A) → N → String → String → A → Option A
  optional convert cfg section key fallback = do
    has ← has_entry cfg section key
    if has then (entry cfg section key >>= convert) else some fallback

  -- `none`: an exception of yaml-cpp, outside of the try block.
  unfoldable pub read_config : N → Option (Config F)
  read_config cfg = do
    uin ← string_at cfg "device" "uin"
    can_iface_rx ← string_at cfg "can" "interface_rx"
    can_iface_tx ← string_at cfg "can" "interface_tx"
    dbc_path ← string_at cfg "can" "dbc_path"
    signal_names ← (entry cfg "can" "signals" >>= as_strings)
    host ← string_at cfg "mqtt" "broker"
    port ← string_at cfg "mqtt" "port"
    client_id ← string_at cfg "mqtt" "client_id"
    keep_alive ← (entry cfg "mqtt" "keep_alive_sec" >>= as_int)
    ca_cert ← string_at cfg "tls" "ca_cert"
    device_cert ← string_at cfg "tls" "device_cert"
    device_key ← string_at cfg "tls" "device_key"
    model_path ← optional as_string cfg "anomaly" "model_path" "/opt/sdv/anomaly_detector.onnx"
    threshold ← optional as_float cfg "anomaly" "threshold" (literal "0.85f")
    some (record {
      uin = uin;
      can_iface_rx = can_iface_rx;
      can_iface_tx = can_iface_tx;
      dbc_path = dbc_path;
      signal_names = signal_names;
      broker = "ssl://" <> host <> ":" <> port;
      client_id = client_id;
      keep_alive = keep_alive;
      ca_cert = ca_cert;
      device_cert = device_cert;
      device_key = device_key;
      model_path = model_path;
      anomaly_threshold = threshold;
    })
