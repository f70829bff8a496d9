-- ===== src/Gateway/Course/Noting.antt =====
-- What a start leaves in the sequence of starts and stops.
use sdv_edge_gateway.Common.{◌≡◌, ap, String, Bool, true, false, List, [], ◌∷◌, ◌++◌}
use sdv_edge_gateway.Worker.{Started, returned, hangs, terminated}
use sdv_edge_gateway.Gateway.{
  Module, can_writer, can_reader, telemetry_pub, cmd_handler, ota_agent, anomaly_det, Event, starts,
}
use sdv_edge_gateway.Gateway.Modules.{Modules, Replies, noted, put, start_module}

-- A start that returns true is noted, and one that does not is not.
unfoldable pub Notes : Module → List Event → Started Modules → Type 0
Notes m es (returned g true) = g.events ≡ es ++ starts m ∷ []
Notes m es (returned g false) = g.events ≡ es
Notes m es (hangs g) = g.events ≡ es
Notes m es (terminated g) = g.events ≡ es

noted-Notes :
    (m : Module) (g : Modules) (es : List Event) (ok : Bool)
    → g.events ≡ es
    → Notes m es (noted m g ok)
unfolding Notes
noted-Notes m g es true e = ap (λ l. l ++ starts m ∷ []) e
noted-Notes m g es false e = e

put-Notes :
    {A : Type 0} (m : Module) (es : List Event) (back : A → Modules) (s : Started A)
    → ((a : A) → (back a).events ≡ es)
    → Notes m es (put m back s)
unfolding Notes
put-Notes m es back (returned a ok) e = noted-Notes m (back a) es ok (e a)
put-Notes m es back (hangs a) e = e a
put-Notes m es back (terminated a) e = e a

pub start_module-Notes :
    (uin : String) (r : Replies) (m : Module) (g : Modules) (es : List Event)
    → g.events ≡ es
    → Notes m es (start_module uin r m g)
unfolding start_module
start_module-Notes uin r can_writer g es e = noted-Notes can_writer _ es _ e
start_module-Notes uin r can_reader g es e = put-Notes can_reader es _ _ (λ a. e)
start_module-Notes uin r telemetry_pub g es e = put-Notes telemetry_pub es _ _ (λ a. e)
start_module-Notes uin r cmd_handler g es e = put-Notes cmd_handler es _ _ (λ a. e)
start_module-Notes uin r ota_agent g es e = put-Notes ota_agent es _ _ (λ a. e)
start_module-Notes uin r anomaly_det g es e = put-Notes anomaly_det es _ _ (λ a. e)
