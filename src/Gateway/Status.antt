-- ===== src/Gateway/Status.antt =====
-- The exit status of `main`, and which modules run together.
use Prim.Native.Char.{Char}
use sdv_edge_gateway.Common.{
  ℕ, zero, suc, ◌<◌, ◌≤◌, ◌≡◌, inl, inr, refl, ap, ◌∙◌, String, Bool, true, false, not, ◌&&◌, ◌||◌,
  ◌==◌, Option, none, some, List, [], ◌∷◌, ◌++◌, map, arith,
}
use sdv_edge_gateway.Common.Double.{DoubleOps}
use sdv_edge_gateway.Gateway.{
  Module, can_writer, can_reader, telemetry_pub, cmd_handler, ota_agent, anomaly_det, Event, starts,
  stops, disconnects, destructors,
}
use sdv_edge_gateway.Gateway.Config.{Yaml}
use sdv_edge_gateway.Gateway.Modules.{Modules}
use sdv_edge_gateway.Gateway.Main.{Ended, exits, waits_forever, aborts, Inputs, main}
use sdv_edge_gateway.Gateway.Course.{
  started, whole_course, IsCourse, refused, halted, stopping, leaving, finished, HasCourse,
  main-HasCourse,
}
use sdv_edge_gateway.Gateway.Shutdown.Events.{any, starts_it, same_module}

-- The five modules that must start have started.
abbrev pub have_started : List Event → Bool
have_started es =
    any (starts_it can_writer) es
    && (any (starts_it can_reader) es
        && (any (starts_it telemetry_pub) es
            && (any (starts_it cmd_handler) es && any (starts_it ota_agent) es)))

-- How an exit status is related to what has started; of a process that waits for ever or is aborted
-- nothing is said.
abbrev pub IsStatus : Option Modules → Ended → Type 0
IsStatus none (exits n) = (n == 0) ≡ false
IsStatus (some g) (exits n) = (n == 0) ≡ have_started g.events
IsStatus o waits_forever = Unit {0}
IsStatus o aborts = Unit {0}

-- What holds of each number below five.
below_five : (P : ℕ → Type 0) → P 0 → P 1 → P 2 → P 3 → P 4 → (n : ℕ) → n < 5 → P n
below_five P p₀ p₁ p₂ p₃ p₄ zero h = p₀
below_five P p₀ p₁ p₂ p₃ p₄ (suc zero) h = p₁
below_five P p₀ p₁ p₂ p₃ p₄ (suc (suc zero)) h = p₂
below_five P p₀ p₁ p₂ p₃ p₄ (suc (suc (suc zero))) h = p₃
below_five P p₀ p₁ p₂ p₃ p₄ (suc (suc (suc (suc zero)))) h = p₄
below_five P p₀ p₁ p₂ p₃ p₄ (suc (suc (suc (suc (suc n))))) h = absurd (omega (arith, h))

refused-started : (n : ℕ) → n < 5 → have_started (started n ++ map stops destructors) ≡ false
refused-started =
    below_five (λ n. have_started (started n ++ map stops destructors) ≡ false) refl refl refl refl
      refl

whole_course-started : (d : Bool) → have_started (whole_course d) ≡ true
whole_course-started true = refl
whole_course-started false = refl

course-IsStatus : (g : Modules) (ended : Ended) → IsCourse g.events ended → IsStatus (some g) ended
course-IsStatus g (exits k) (refused n h e f) =
    ground (arith, f, refused-started n h, ap have_started e)
course-IsStatus g (exits k) (halted n h e (inl f)) = absurd (ground (arith, f))
course-IsStatus g (exits k) (halted n h e (inr f)) = absurd (ground (arith, f))
course-IsStatus g (exits k) (stopping d e f) = absurd (ground (arith, f))
course-IsStatus g (exits k) (leaving d e f) = absurd (ground (arith, f))
course-IsStatus g (exits k) (finished d e f) =
    ground (arith, f, whole_course-started d, ap have_started e)
course-IsStatus g waits_forever c = tt
course-IsStatus g aborts c = tt

-- Which modules are on after an event: they have started and have not been stopped since.
abbrev pub after : (Module → Bool) → Event → Module → Bool
after on (starts m) m' = same_module m m' || on m'
after on (stops m) m' = not (same_module m m') && on m'
after on disconnects m' = on m'

-- The command handler, which sends frames, is on only while the writer is.
abbrev pub can_send : (Module → Bool) → Bool
can_send on = not (on cmd_handler) || on can_writer

-- No module that uses the MQTT client is on.
abbrev pub client_unused : (Module → Bool) → Bool
client_unused on =
    not (on telemetry_pub) && (not (on cmd_handler) && (not (on ota_agent) && not (on anomaly_det)))

-- Before the first event, and after each one, the writer is on if the handler is; and the client is
-- disconnected only when nothing uses it.
abbrev pub guarded : (Module → Bool) → List Event → Bool
guarded on [] = can_send on
guarded on (disconnects ∷ es) = client_unused on && guarded on es
guarded on (e ∷ es) = can_send on && guarded (after on e) es

abbrev pub all_off : Module → Bool
all_off m = false

abbrev pub IsGuarded : Option Modules → Type 0
IsGuarded none = Unit {0}
IsGuarded (some g) = guarded all_off g.events ≡ true

refused-guarded : (n : ℕ) → n < 5 → guarded all_off (started n ++ map stops destructors) ≡ true
refused-guarded =
    below_five (λ n. guarded all_off (started n ++ map stops destructors) ≡ true) refl refl refl
      refl refl

halted-guarded : (n : ℕ) → n ≤ 5 → guarded all_off (started n) ≡ true
halted-guarded zero h = refl
halted-guarded (suc n) h =
    below_five (λ n. guarded all_off (started (suc n)) ≡ true) refl refl refl refl refl n
      (omega (arith, h))

course-IsGuarded : (g : Modules) (ended : Ended) → IsCourse g.events ended → IsGuarded (some g)
course-IsGuarded g ended (refused n h e f) = ap (guarded all_off) e ∙ refused-guarded n h
course-IsGuarded g ended (halted n h e f) = ap (guarded all_off) e ∙ halted-guarded n h
course-IsGuarded g ended (stopping true e f) = ap (guarded all_off) e
course-IsGuarded g ended (stopping false e f) = ap (guarded all_off) e
course-IsGuarded g ended (leaving true e f) = ap (guarded all_off) e
course-IsGuarded g ended (leaving false e f) = ap (guarded all_off) e
course-IsGuarded g ended (finished true e f) = ap (guarded all_off) e
course-IsGuarded g ended (finished false e f) = ap (guarded all_off) e

module _ {N F W : Type 0} (yaml : Yaml N F) (stod : List Char → Option W) (double : DoubleOps W)
    (now : String → ℕ) (i : Inputs) where
  HasCourse-IsStatus : (o : Option Modules) (ended : Ended) → HasCourse o ended → IsStatus o ended
  HasCourse-IsStatus none (exits n) h = ground (arith, h)
  HasCourse-IsStatus none waits_forever h = tt
  HasCourse-IsStatus none aborts h = tt
  HasCourse-IsStatus (some g) ended h = course-IsStatus g ended h

  HasCourse-IsGuarded : (o : Option Modules) (ended : Ended) → HasCourse o ended → IsGuarded o
  HasCourse-IsGuarded none ended h = tt
  HasCourse-IsGuarded (some g) ended h = course-IsGuarded g ended h

  -- When `main` returns, its exit status is 0 if and only if the modules were made and CanWriter,
  -- CanReader, TelemetryPublisher, CommandHandler and OtaAgent have all started; whether the anomaly
  -- detector starts makes no difference.
  pub main-IsStatus :
      IsStatus (main yaml stod double now i).modules (main yaml stod double now i).ended
  main-IsStatus = HasCourse-IsStatus _ _ (main-HasCourse yaml stod double now i)

  -- At every moment of `main`, also on the paths on which it does not return: the command handler is
  -- on, so that its thread may send frames, only while the writer has its socket; and when `main`
  -- disconnects the MQTT client, none of the four modules that use it is on.
  pub main-IsGuarded : IsGuarded (main yaml stod double now i).modules
  main-IsGuarded = HasCourse-IsGuarded _ _ (main-HasCourse yaml stod double now i)
