-- ===== src/TelemetryPublisher/Windows.antt =====
-- A whole run of the publisher: the signals fall into consecutive windows, with one message for each.
use sdv_edge_gateway.Common.{
  ℕ, ◌≡◌, ◌≢◌, inl, inr, refl, sym, ap, ◌∙◌, String, Option, none, some, List, [], ◌∷◌, ◌++◌, map,
  append-nil, append_assoc, All, arith,
}
use sdv_edge_gateway.Common.Double.{DoubleOps}
use sdv_edge_gateway.Common.Assoc.{find}
use sdv_edge_gateway.Types.{DecodedSignal}
use sdv_edge_gateway.Mqtt.{Message}
use sdv_edge_gateway.SafeQueue.{delivered?}
use sdv_edge_gateway.TelemetryPublisher.{Publisher, Round, telemetry_message, step, run, init}
use sdv_edge_gateway.TelemetryPublisher.Snapshot.{arrived, newest, Holds, step-newest}

-- The signals that the rounds got.
abbrev pub got_by_publisher : {W : Type 0} → List (Round W) → List (DecodedSignal W)
got_by_publisher [] = []
got_by_publisher (r ∷ rs) = delivered? r.popped ++ got_by_publisher rs

-- The signals since the message before, the newest first, and the time at which they were sent.
pub record Window (W : Type 0) : Type 0 where
  pub signals : List (DecodedSignal W)
  pub system_now : ℕ

-- The oldest first.
abbrev pub in_order {ℓ} : {A : Type ℓ} → List A → List A
in_order [] = []
in_order (a ∷ as_before) = in_order as_before ++ a ∷ []

abbrev pub covered : {W : Type 0} → List (Window W) → List (DecodedSignal W)
covered [] = []
covered (w ∷ ws) = in_order w.signals ++ covered ws

module _ {W : Type 0} where
  in_order-arrived :
      (popped : Option (DecodedSignal W)) (since more : List (DecodedSignal W))
      → in_order since ++ (delivered? popped ++ more) ≡ in_order (arrived popped since) ++ more
  in_order-arrived none since more = refl
  in_order-arrived (some s) since more = sym (append_assoc (in_order since) (s ∷ []) more)

module _ {W : Type 0} (double : DoubleOps W) (uin : String) where
  -- The message of a window: the newest value of each signal in it.
  abbrev pub message_of : Window W → Message W
  message_of w = telemetry_message double uin (newest double uin w.signals w.system_now)

  -- The signals `got`, with those since the last message, fall into the windows and the rest, which
  -- the accumulators of `p'` hold; and the messages from `p` to `p'` are those of the windows.
  pub record IsReported (since got : List (DecodedSignal W)) (p p' : Publisher W) : Type 0 where
    pub windows : List (Window W)
    pub rest : List (DecodedSignal W)
    pub partition : in_order since ++ got ≡ covered windows ++ in_order rest
    pub messages : p'.published ≡ p.published ++ map message_of windows
    pub nonempty : All (λ (w : Window W). w.signals ≢ []) windows
    pub held : Holds double uin rest p'

  round_first :
      (since : List (DecodedSignal W)) (p : Publisher W) (r : Round W) (rs : List (Round W))
      → ((since' : List (DecodedSignal W)) (p' : Publisher W)
          → Holds double uin since' p'
          → IsReported since' (got_by_publisher rs) p' (run double uin p' rs))
      → Holds double uin since p
      → IsReported since (got_by_publisher (r ∷ rs)) p (run double uin (step double uin p r) rs)
  round_first since p r rs next h = elim (step-newest double uin since p r h) [
    | inl (same, held) ↦
        let later = next (arrived r.popped since) (step double uin p r) held in
        record {
          windows = later.windows;
          rest = later.rest;
          partition = in_order-arrived r.popped since (got_by_publisher rs) ∙ later.partition;
          messages = later.messages ∙ ap (λ l. l ++ map message_of later.windows) same;
          nonempty = later.nonempty;
          held = later.held;
        }
    | inr (sent, held, some_came) ↦
        let later = next [] (step double uin p r) held in
        let window : Window W = record {
          signals = arrived r.popped since;
          system_now = r.system_now;
        } in
        record {
          windows = window ∷ later.windows;
          rest = later.rest;
          partition =
              in_order-arrived r.popped since (got_by_publisher rs)
              ∙ ap (◌++◌ (in_order (arrived r.popped since))) later.partition
              ∙ sym (append_assoc (in_order (arrived r.popped since)) (covered later.windows) _);
          messages =
              later.messages
              ∙ ap (λ l. l ++ map message_of later.windows) sent
              ∙ append_assoc p.published (message_of window ∷ []) (map message_of later.windows);
          nonempty = (some_came, later.nonempty);
          held = later.held;
        }
  ]

  reported :
      (since : List (DecodedSignal W)) (p : Publisher W) (rs : List (Round W))
      → Holds double uin since p
      → IsReported since (got_by_publisher rs) p (run double uin p rs)
  unfolding run
  reported since p [] h = record {
    windows = [];
    rest = since;
    partition = append-nil (in_order since);
    messages = sym (append-nil p.published);
    nonempty = tt;
    held = h;
  }
  reported since p (r ∷ rs) h =
      round_first since p r rs (λ since' p' h'. reported since' p' rs h') h

  init-Holds : (now : ℕ) → Holds double uin [] (init now)
  unfolding init find
  init-Holds now = record {
    numbers = λ name. ground arith;
    gear_text = refl;
    fresh = λ e. (refl, refl);
  }

  -- Over any run of a new publisher, the signals that it got, in order, fall into consecutive windows
  -- and a rest: it has handed the client one message for each window and no other, in this order,
  -- with the newest value in the window of each signal; no window is empty; and the accumulators hold
  -- the newest values of the rest.
  pub run-IsReported :
      (now : ℕ) (rs : List (Round W))
      → IsReported [] (got_by_publisher rs) (init now) (run double uin (init now) rs)
  run-IsReported now rs = reported [] (init now) rs (init-Holds now)
