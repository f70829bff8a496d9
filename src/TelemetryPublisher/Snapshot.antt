-- ===== src/TelemetryPublisher/Snapshot.antt =====
-- What a published message says of the signals that came since the last one.
use sdv_edge_gateway.Common.{
  ℕ, ◌≡◌, ◌≢◌, ◌⊎◌, inl, inr, refl, sym, subst, ap₂, String, str_eq, eq_iff, true, false, Option,
  none, some, List, [], ◌∷◌, ◌++◌, arith, if◌then◌else◌, Bool-cases,
}
use sdv_edge_gateway.Common.Double.{DoubleOps}
use sdv_edge_gateway.Common.Assoc.{find, find-assign}
use sdv_edge_gateway.Types.{DecodedSignal, TelemetryMsg}
use sdv_edge_gateway.TelemetryPublisher.{
  Publisher, Round, gear_code_to_string, or_nought, snapshot, telemetry_message, publish_now,
  accumulate, is_due, step,
}

module _ {W : Type 0} where
  -- The last value of a signal among those that came, the newest first.
  abbrev pub latest : String → List (DecodedSignal W) → Option W
  latest name [] = none
  latest name (s ∷ since) = if str_eq s.name name then some s.value else latest name since

  abbrev pub arrived : Option (DecodedSignal W) → List (DecodedSignal W) → List (DecodedSignal W)
  arrived none since = since
  arrived (some s) since = s ∷ since

module _ {W : Type 0} (double : DoubleOps W) (uin : String) where
  abbrev pub gear_of : Option W → String
  gear_of none = "unknown"
  gear_of (some v) = gear_code_to_string double uin v

  -- The specification: the newest value of each signal, 0.0 for a number that did not come and
  -- "unknown" for a gear that did not come.
  abbrev pub newest : List (DecodedSignal W) → ℕ → TelemetryMsg W
  newest since system_now = record {
    uin = uin;
    vehicle_speed_kmh = or_nought double uin (latest "VEHICLE_SPEED" since);
    engine_rpm = or_nought double uin (latest "ENGINE_RPM" since);
    engine_coolant_temp_c = or_nought double uin (latest "ENGINE_COOLANT_TEMP" since);
    battery_voltage_v = or_nought double uin (latest "BATTERY_VOLTAGE" since);
    gear = gear_of (latest "GEAR_SHIFT" since);
    timestamp = system_now;
    from_buffer = false;
  }

  -- The accumulators hold the newest values of the signals in `since`.
  pub record Holds (since : List (DecodedSignal W)) (p : Publisher W) : Type 0 where
    pub numbers :
        (name : String)
        → find name p.numeric ≡ (if str_eq "GEAR_SHIFT" name then none else latest name since)
    pub gear_text :
        (if p.gear_received then p.gear else "unknown") ≡ gear_of (latest "GEAR_SHIFT" since)
    pub fresh : since ≡ [] → (p.numeric ≡ []) × (p.gear_received ≡ false)

  missed :
      (s name : String)
      → str_eq s "GEAR_SHIFT" ≡ true
      → str_eq "GEAR_SHIFT" name ≡ false
      → str_eq s name ≡ false
  missed s name gear other =
      subst (λ t. str_eq t name ≡ false) (sym ((eq_iff s "GEAR_SHIFT").0 gear)) other

  accumulate-Holds :
      (o : Option (DecodedSignal W)) (since : List (DecodedSignal W)) (p : Publisher W)
      → Holds since p
      → Holds (arrived o since) (accumulate double uin o p)
  unfolding accumulate
  accumulate-Holds none since p h = h
  accumulate-Holds (some s) since p h = elim (Bool-cases (str_eq s.name "GEAR_SHIFT")) [
    | inl gear ↦ rw gear (record {
      numbers = λ name. elim (Bool-cases (str_eq "GEAR_SHIFT" name)) [
        | inl same ↦ rw same (rw same at (h.numbers name))
        | inr other ↦ rw (other, missed s.name name gear other) (rw other at (h.numbers name))
      ];
      gear_text = rw gear;
      fresh = λ e. absurd (ground (arith, e));
    })
    | inr number ↦ rw number (record {
      numbers = λ name.
          rw (find-assign name s.name s.value p.numeric)
            (elim (Bool-cases (str_eq "GEAR_SHIFT" name)) [
              | inl same ↦
                  rw
                    (
                      same,
                      subst (λ t. str_eq s.name t ≡ false) ((eq_iff "GEAR_SHIFT" name).0 same)
                          number,
                    )
                    (rw same at (h.numbers name))
              | inr other ↦ rw other (ground (arith, h.numbers name))
            ]);
      gear_text = rw number h.gear_text;
      fresh = λ e. absurd (ground (arith, e));
    })
  ]

  snapshot-newest :
      (since : List (DecodedSignal W)) (p : Publisher W) (system_now : ℕ)
      → Holds since p
      → snapshot double uin p system_now ≡ newest since system_now
  unfolding snapshot
  snapshot-newest since p system_now h = ground (
    arith,
    h.numbers "VEHICLE_SPEED",
    h.numbers "ENGINE_RPM",
    h.numbers "ENGINE_COOLANT_TEMP",
    h.numbers "BATTERY_VOLTAGE",
    h.gear_text,
  )

  start-Holds : (r : Round W) (p : Publisher W) → Holds [] (publish_now double uin r p)
  unfolding publish_now find
  start-Holds r p = record {
    numbers = λ name. ground arith;
    gear_text = refl;
    fresh = λ e. (refl, refl);
  }

  -- A message is due only when something has come.
  due-arrived :
      (since : List (DecodedSignal W)) (p : Publisher W) (now : ℕ)
      → Holds since p
      → is_due double uin p now ≡ true
      → since ≢ []
  unfolding is_due
  due-arrived since p now h due e =
      let (numeric, gear) = h.fresh e in ground (arith, numeric, gear, due)

  pub accumulate-published :
      (o : Option (DecodedSignal W)) (p : Publisher W)
      → (accumulate double uin o p).published ≡ p.published
  unfolding accumulate
  accumulate-published none p = refl
  accumulate-published (some s) p = ground arith

  -- If the accumulators hold the newest values of the signals since the last message: a round
  -- either sends nothing, and they hold the newest values with what came; or it hands the client
  -- exactly one message, which says the newest value of every signal since the last message, with
  -- what came, of which there was one at least, and they start over.
  pub step-newest :
      (since : List (DecodedSignal W)) (p : Publisher W) (r : Round W)
      → Holds since p
      → let now_since = arrived r.popped since in
        let p' = step double uin p r in
        ((p'.published ≡ p.published) × Holds now_since p')
        ⊎ ((p'.published
              ≡ p.published ++ telemetry_message double uin (newest now_since r.system_now) ∷ [])
            × Holds [] p'
            × (now_since ≢ []))
  unfolding step publish_now
  step-newest since p r h =
      let p' = accumulate double uin r.popped p in
      let held = accumulate-Holds r.popped since p h in
      let same = accumulate-published r.popped p in
      elim (Bool-cases (is_due double uin p' r.now)) [
        | inl due ↦ rw due (
            inr (
              ap₂ (λ ms m. ms ++ telemetry_message double uin m ∷ []) same
                  (snapshot-newest (arrived r.popped since) p' r.system_now held),
              start-Holds r p',
              due-arrived (arrived r.popped since) p' r.now held due,
            ))
        | inr waits ↦ rw waits (inl (same, held))
      ]
