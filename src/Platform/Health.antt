-- ===== src/Platform/Health.antt =====
-- backend-core/src/observability/health.controller.ts: the probes. The server's exception carries the
-- report, so the answer is a status with a body.
use skillhunt.Common.{ℕ, ◌≡◌, ◌↔◌, refl, String, Bool, true, false, ◌||◌, arith}

pub data ProbeState : Type 0 where
  up down : ProbeState

pub record Dependencies : Type 0 where
  pub postgres : ProbeState
  pub redis : ProbeState
  pub mongodb : ProbeState

pub record ReadinessDto : Type 0 where
  pub status : String
  pub service : String
  pub dependencies : Dependencies

-- A probe whose check resolved (`true`) or rejected.
abbrev pub probe : Bool → ProbeState
probe true = up
probe false = down

abbrev pub is_down : ProbeState → Bool
is_down up = false
is_down down = true

abbrev pub degraded : Dependencies → Bool
degraded d = is_down d.postgres || is_down d.redis || is_down d.mongodb

abbrev pub report : Bool → Dependencies → ℕ × ReadinessDto
report true d = (503, record { status = "degraded"; service = "backend-core"; dependencies = d })
report false d = (200, record { status = "ok"; service = "backend-core"; dependencies = d })

unfoldable pub readiness : Bool → Bool → Bool → ℕ × ReadinessDto
readiness postgres redis mongodb =
    let d : Dependencies = record {
      postgres = probe postgres;
      redis = probe redis;
      mongodb = probe mongodb;
    } in
    report (degraded d) d

-- The status is 200 exactly if the three checks succeed, and the body tells of each how it ended.
pub readiness_exact :
    (postgres redis mongodb : Bool)
    → let (status, body) = readiness postgres redis mongodb in
      ((status ≡ 200) ↔ ((postgres ≡ true) × (redis ≡ true) × (mongodb ≡ true)))
      × (body.dependencies
          ≡ record { postgres = probe postgres; redis = probe redis; mongodb = probe mongodb })
unfolding readiness
readiness_exact true true true = ((λ h. (refl, refl, refl), λ h. refl), refl)
readiness_exact true true false = ((λ h. absurd (omega (arith, h)), λ h. cc), refl)
readiness_exact true false true = ((λ h. absurd (omega (arith, h)), λ h. cc), refl)
readiness_exact true false false = ((λ h. absurd (omega (arith, h)), λ h. cc), refl)
readiness_exact false true true = ((λ h. absurd (omega (arith, h)), λ h. cc), refl)
readiness_exact false true false = ((λ h. absurd (omega (arith, h)), λ h. cc), refl)
readiness_exact false false true = ((λ h. absurd (omega (arith, h)), λ h. cc), refl)
readiness_exact false false false = ((λ h. absurd (omega (arith, h)), λ h. cc), refl)
