-- ===== src/Agent/Server/Laws.antt =====
-- What the handlers of internal/agent/grpc_server.go answer without a client that is connected, and
-- what its probes report.
use hsm_secrets_operator.Common.{
  ◌≡◌, refl, ◌↔◌, ◌⊎◌, inl, inr, Bool, true, false, Option, none, some, arith,
}
use hsm_secrets_operator.Common.State.{State}
use hsm_secrets_operator.Hsm.{HsmInfo}
use hsm_secrets_operator.Hsm.Errors.{Error, Result, ok, err}
use hsm_secrets_operator.Agent.Rpc.{HsmClient}
use hsm_secrets_operator.Agent.Server.{handle_healthz, handle_readyz}

Result-cases : {A : Type 0} (r : Result A) → ((a : A) × (r ≡ ok a)) ⊎ ((e : Error) × (r ≡ err e))
Result-cases (ok a) = inl (a, refl)
Result-cases (err e) = inr (e, refl)

-- The server has no client, or one that is not connected.
abbrev pub Offline : {W : Type 0} → Option (HsmClient W) → W → Type 0
Offline none w = Unit
Offline (some c) w = (c.is_connected w).0 ≡ false

ready_iff :
    {W : Type 0} (c : HsmClient W) (in_time : Bool) (w : W)
    → ((handle_readyz (some c) in_time w).0 ≡ 200)
      ↔ ((in_time ≡ true) × ((info : HsmInfo) × ((c.get_info w).0 ≡ ok info)))
unfolding handle_readyz
ready_iff c false w = (λ h. absurd (omega arith), λ h. cc (h.0))
ready_iff c true w = elim (Result-cases (c.get_info w).0) [
  | inl (info, e) ↦ rw e (λ h. (refl, (info, refl)), λ h. refl)
  | inr (message, e) ↦ rw e (λ h. absurd (omega arith), λ h. cc (h.1.1))
]

-- The probes of liveness and readiness report the same status, which is 200 exactly where GetInfo of
-- the client returns in time and with no error; without a client it is 503.
handle_readyz_iff :
    {W : Type 0} (c : HsmClient W) (in_time : Bool) (w : W)
    → (handle_healthz (some c) in_time w ≡ handle_readyz (some c) in_time w)
      × (((handle_readyz (some c) in_time w).0 ≡ 200)
          ↔ ((in_time ≡ true) × ((info : HsmInfo) × ((c.get_info w).0 ≡ ok info))))
      × (handle_readyz none in_time w ≡ (503, w))
unfolding handle_healthz handle_readyz
handle_readyz_iff c in_time w = (refl, ready_iff c in_time w, refl)
