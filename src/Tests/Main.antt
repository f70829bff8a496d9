-- ===== src/Tests/Main.antt =====
-- The whole of `main` on the repository's DBC file.
use sdv_edge_gateway.Common.{ℕ, ◌≡◌, refl, String, true, false, none, some, [], ◌∷◌}
use sdv_edge_gateway.Common.Int.{pos}
use sdv_edge_gateway.Mqtt.{answered, never, throws}
use sdv_edge_gateway.CanReader
use sdv_edge_gateway.CanWriter
use sdv_edge_gateway.SignalDecoder.Regex.{chars}
use sdv_edge_gateway.Gateway.Config.{Yaml, Config, entry, has_entry, optional, read_config}
use sdv_edge_gateway.Gateway.Modules.{Replies}
use sdv_edge_gateway.Gateway.Main.{Inputs, main}
use sdv_edge_gateway.Gateway.Shutdown.{EndsOrderly, main_stops}
use sdv_edge_gateway.Gateway.Course.{HasCourse, main-HasCourse, whole_course}
use sdv_edge_gateway.Gateway.Status.{IsStatus, main-IsStatus, IsGuarded, main-IsGuarded}
use sdv_edge_gateway.Gateway.Success.Willing.{IsWilling}
use sdv_edge_gateway.Gateway.Success.{EndsWell, main_runs}
use sdv_edge_gateway.Tests.Instances.{whole_double, clock, good_sockets, no_interface}
use sdv_edge_gateway.Tests.Loading.{stod, names, dbc, signals, engine_frame, toyota}

-- A document in which every key stands for itself, without the optional section.
abbrev yaml : Yaml String ℕ
yaml = record {
  load_file = λ path. some path;
  at = λ node key. some key;
  is_defined = λ node. false;
  as_string = λ node. some node;
  as_strings = λ node. some names;
  as_int = λ node. some (pos 60);
  as_float = λ node. none;
  literal = λ t. 1;
}

abbrev config : Config ℕ
config = record {
  uin = "uin";
  can_iface_rx = "interface_rx";
  can_iface_tx = "interface_tx";
  dbc_path = "dbc_path";
  signal_names = names;
  broker = "ssl://broker:port";
  client_id = "client_id";
  keep_alive = pos 60;
  ca_cert = "ca_cert";
  device_cert = "device_cert";
  device_key = "device_key";
  model_path = "/opt/sdv/anomaly_detector.onnx";
  anomaly_threshold = 1;
}

config_read : read_config yaml "config/config.yaml" ≡ some config
unfolding read_config entry optional has_entry
config_read = refl

-- All answer, but the model is missing.
abbrev replies : Replies
replies = record {
  tx = good_sockets;
  rx = good_sockets;
  publisher_connected = true;
  handler_connected = true;
  subscribed = answered 20;
  diagnosis_subscribed = answered 30;
  model_loaded = false;
  joins = λ m. true;
  join = 900;
  unsubscribed = never;
  diagnosis_unsubscribed = throws 10;
}

abbrev inputs : Inputs
inputs = record {
  argument = none;
  client_created = true;
  connected = answered 100;
  files = λ path. some (chars dbc);
  replies = replies;
  rounds = (engine_frame ∷ []) ∷ [];
  disconnected = answered 50;
}

-- The reader's interface does not exist.
abbrev no_reader : Inputs
no_reader = record inputs { replies = record replies { rx = no_interface } }

replies-IsWilling : IsWilling config replies
unfolding CanWriter.start CanWriter.init CanReader.open_socket
replies-IsWilling = record {
  writer = refl;
  reader = refl;
  publisher = refl;
  handler = refl;
  commands = (20, refl);
  diagnoses = (30, refl);
}

main_runs_example :
    EndsWell yaml stod whole_double clock inputs signals
      (whole_course false)
      (main yaml stod whole_double clock inputs)
main_runs_example =
    main_runs yaml stod whole_double clock inputs "config/config.yaml" config 100 50 signals refl
      config_read refl refl toyota replies-IsWilling (λ m. refl) refl

main_stops_example :
    EndsOrderly
      (main yaml stod whole_double clock no_reader).modules
      (main yaml stod whole_double clock no_reader).ended
main_stops_example = main_stops yaml stod whole_double clock no_reader

main-IsStatus_example :
    IsStatus
      (main yaml stod whole_double clock no_reader).modules
      (main yaml stod whole_double clock no_reader).ended
main-IsStatus_example = main-IsStatus yaml stod whole_double clock no_reader

main-HasCourse_example :
    HasCourse
      (main yaml stod whole_double clock no_reader).modules
      (main yaml stod whole_double clock no_reader).ended
main-HasCourse_example = main-HasCourse yaml stod whole_double clock no_reader

main-IsGuarded_example : IsGuarded (main yaml stod whole_double clock inputs).modules
main-IsGuarded_example = main-IsGuarded yaml stod whole_double clock inputs
