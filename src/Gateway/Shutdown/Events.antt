-- ===== src/Gateway/Shutdown/Events.antt =====
-- The order of the starts and the stops in what `main` has done.
use sdv_edge_gateway.Common.{
  ◌≡◌, refl, sym, ◌∙◌, String, Bool, true, false, ◌&&◌, List, [], ◌∷◌, ◌++◌, map, append-nil,
  append_assoc, if◌then◌else◌, Bool-cases, inl, inr,
}
use sdv_edge_gateway.Gateway.{
  Module, can_writer, can_reader, telemetry_pub, cmd_handler, ota_agent, anomaly_det, Event, starts,
  stops, destructors,
}
use sdv_edge_gateway.Gateway.Modules.{Modules, Replies, stop_module, stop_all}

abbrev pub same_module : Module → Module → Bool
same_module can_writer can_writer = true
same_module can_reader can_reader = true
same_module telemetry_pub telemetry_pub = true
same_module cmd_handler cmd_handler = true
same_module ota_agent ota_agent = true
same_module anomaly_det anomaly_det = true
same_module _ _ = false

abbrev pub stops_it : Module → Event → Bool
stops_it m (stops m') = same_module m m'
stops_it m _ = false

abbrev pub starts_it : Module → Event → Bool
starts_it m (starts m') = same_module m m'
starts_it m _ = false

-- Some event of the list passes the test.
abbrev pub any : (Event → Bool) → List Event → Bool
any test [] = false
any test (e ∷ es) = if test e then true else any test es

-- Once `m` was started, every list that is left contains its stop.
abbrev pub stops_after : Module → List Event → Bool
stops_after m [] = true
stops_after m (e ∷ es) =
    if starts_it m e then any (stops_it m) es && stops_after m es else stops_after m es

any-append :
    (test : Event → Bool) (es fs : List Event) → any test fs ≡ true → any test (es ++ fs) ≡ true
any-append test [] fs h = h
any-append test (e ∷ es) fs h = elim (Bool-cases (test e)) [
  | inl t ↦ rw t refl
  | inr t ↦ rw t (any-append test es fs h)
]

-- The stops of the destructors follow whatever came before.
destructors-stop : (m : Module) → any (stops_it m) (map stops destructors) ≡ true
destructors-stop can_writer = refl
destructors-stop can_reader = refl
destructors-stop telemetry_pub = refl
destructors-stop cmd_handler = refl
destructors-stop ota_agent = refl
destructors-stop anomaly_det = refl

pub stops_after-append :
    (m : Module) (es : List Event) → stops_after m (es ++ map stops destructors) ≡ true
stops_after-append m [] = refl
stops_after-append m (e ∷ es) = elim (Bool-cases (starts_it m e)) [
  | inl t ↦
      rw (t, any-append (stops_it m) es (map stops destructors) (destructors-stop m))
        (stops_after-append m es)
  | inr t ↦ rw t (stops_after-append m es)
]

module _ (uin : String) (r : Replies) where
  pub stop_all-events :
      (ms : List Module) (g : Modules) → (stop_all uin r ms g).events ≡ g.events ++ map stops ms
  unfolding stop_all
  stop_all-events [] g = sym (append-nil g.events)
  stop_all-events (m ∷ ms) g =
      stop_all-events ms (stop_module uin r m g)
      ∙ append_assoc g.events (stops m ∷ []) (map stops ms)
