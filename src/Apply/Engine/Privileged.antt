-- ===== src/Apply/Engine/Privileged.antt =====
-- engine.rs: the calls of the privileged helper with their retry, the requests, and the audit.
use minimalrouter.Apply.Engine.{
  AuditEvent, CommitFn, Environment, Machine, State, Transaction, TxRef, audited,
  awaiting_confirmation, called, committed, privileged_apply_attempts, recovery_required, rejected,
  rolled_back, saved, write,
}
use minimalrouter.Apply.Ipc.{ApplyRequest, ApplyResponse, OperationType, apply_all, validate}
use minimalrouter.Config.Model.{Revision, SystemConfig, Time}
use minimalrouter.Prelude.{
  Bool, Bytes, Message, Option, Result, String, [], err, false, if◌then◌else◌, is_some, leb,
  map_err, none, ok, some, suc, text, true, zero, ℕ, ◌+◌, ◌<>◌, ◌>>=◌, ◌∷◌,
}

-- `..Default::default()` behind the fields that every request sets.
unfoldable pub new_request : Bytes → OperationType → Revision → SystemConfig → ApplyRequest
new_request id op revision config = record {
  version = 0;
  id = id;
  op = op;
  revision = revision;
  config = config;
  nftables = [];
  pppoe_peer = [];
  pppoe_secret = [];
  dnsmasq = [];
  hostapd = [];
  wireguard = [];
  service_name = [];
  require_confirmation = false;
  verify_wg_client = false;
  tunnel_interface = [];
  defer_last_good = false;
  skip_wan_verify = false;
}

unfoldable pub or_else : Option Message → String → Message
or_else (some e) s = e
or_else none s = text s

-- A helper's answer is believed only if it is not contradictory.
unfoldable pub checked : ApplyResponse → Result Message ApplyResponse
checked resp = elim (validate resp) [
  | some e ↦ err (text "router-applyd returned an invalid outcome: " <> e)
  | none ↦ ok resp
]

unfoldable pub state_reason : State → String
state_reason committed = "configuration_committed"
state_reason awaiting_confirmation = "confirmation_required"
state_reason rejected = "configuration_rejected"
state_reason rolled_back = "previous_configuration_restored"
state_reason recovery_required = "recovery_required"
state_reason _ = "state_recorded"

-- `phase` of an audit event.
pub data Phase : Type 0 where
  apply_phase confirm_phase timeout_rollback : Phase

abbrev pub phase_name : Phase → String
phase_name apply_phase = "apply"
phase_name confirm_phase = "confirm"
phase_name timeout_rollback = "timeout_rollback"

-- The phase `timeout_rollback` overrides the reason.
unfoldable pub audit_reason : Phase → State → String
audit_reason timeout_rollback state = "confirmation_deadline_expired"
audit_reason apply_phase state = state_reason state
audit_reason confirm_phase state = state_reason state

unfoldable pub audit_event : Transaction → Revision → Phase → AuditEvent
audit_event tx previous phase = record {
  firewall = false;
  transaction_id = tx.id;
  state = tx.current_state;
  phase = phase_name phase;
  reason = audit_reason phase tx.current_state;
  previous_revision = previous;
  candidate_revision = tx.config.revision;
  has_error = some (is_some tx.error);
}

module _ (env : Environment) where
  -- `Time::now()` and `Instant::now()`.
  unfoldable pub time_now : Machine env → Time × Machine env
  time_now m = let (t, w) = env.now m.world in (t, record m { world = w })

  unfoldable pub instant_now : Machine env → ℕ × Machine env
  instant_now m = let (t, w) = env.instant m.world in (t, record m { world = w })

  unfoldable pub call : ℕ → ApplyRequest → Machine env → Result Message ApplyResponse × Machine env
  call deadline req m =
      let (r, w) = env.apply deadline req m.world in
      (r, record m { world = w; log = called req ∷ m.log })

  -- The loop of `apply_privileged`: only a failed call is made again.
  unfoldable pub attempt :
      ℕ
      → ℕ
      → ApplyRequest
      → Option Message
      → Machine env
      → Result Message ApplyResponse × Machine env
  attempt zero deadline req last m =
      (err (or_else last "router-applyd returned an empty response"), m)
  attempt (suc k) deadline req last m =
      let (now, m1) = instant_now m in
      let (answer, m2) = call deadline req m1 in
      if leb deadline now
      then (err (or_else last "context deadline exceeded"), m1)
      else elim answer [ ok resp ↦ (checked resp, m2) | err e ↦ attempt k deadline req (some e) m2 ]

  unfoldable pub apply_privileged :
      ℕ → ApplyRequest → Machine env → Result Message ApplyResponse × Machine env
  apply_privileged deadline req m = attempt privileged_apply_attempts deadline req none m

  unfoldable pub set_applying : Bool → Machine env → Machine env
  set_applying b m = record m { engine = record m.engine { applying = b } }

  -- The state lock is released around the call, with `applying` set.
  unfoldable pub privileged :
      ℕ → ApplyRequest → Machine env → Result Message ApplyResponse × Machine env
  privileged timeout req m =
      let (now, m1) = instant_now (set_applying true m) in
      let (r, m2) = apply_privileged (now + timeout) req m1 in (r, set_applying false m2)

  -- Every artifact of an APPLY_ALL request; the error names the generator that failed.
  unfoldable pub build_apply_request : Bytes → SystemConfig → Result (String × Message) ApplyRequest
  build_apply_request tx_id cfg = do
    nftables ← map_err (λ (e : Message). ("nftables", e)) (env.generate_nftables cfg)
    pppoe ← map_err (λ (e : Message). ("pppd", e)) (env.generate_pppoe cfg)
    dnsmasq ← map_err (λ (e : Message). ("dnsmasq", e)) (env.generate_dnsmasq cfg)
    hostapd ← map_err (λ (e : Message). ("hostapd", e)) (env.generate_hostapd cfg)
    wireguard ← map_err (λ (e : Message). ("WireGuard", e)) (env.generate_wireguard cfg)
    let req = new_request tx_id apply_all cfg.revision cfg
    ok (record req {
      nftables = nftables;
      pppoe_peer = pppoe.0;
      pppoe_secret = pppoe.1;
      dnsmasq = dnsmasq;
      hostapd = hostapd;
      wireguard = wireguard;
    })

  unfoldable pub record_audit : AuditEvent → Machine env → Machine env
  record_audit e m = record m { world = env.append_audit e m.world; log = audited e ∷ m.log }

  unfoldable pub audit_transaction : TxRef → Revision → Phase → Machine env → Machine env
  audit_transaction r previous phase m =
      let tx = m.heap r in
      let e = audit_event tx previous phase in
      let m1 =
        if tx.firewall_changed
        then record_audit (record e { firewall = true; has_error = none }) m
        else m in
      if env.has_store then record_audit e m1 else m

  -- `set(state, error)`: an error of `none` leaves the text as it is.
  unfoldable pub set_state : TxRef → State → Option Message → Machine env → Machine env
  set_state r state error m =
      let tx = m.heap r in
      let tx' = record tx {
        current_state = state;
        error = elim error [ none ↦ tx.error | some e ↦ some e ];
      } in
      record m { heap = write r tx' m.heap }

  unfoldable pub set_config : TxRef → SystemConfig → Machine env → Machine env
  set_config r cfg m =
      let tx = m.heap r in record m { heap = write r (record tx { config = cfg }) m.heap }

  unfoldable pub set_error : TxRef → Message → Machine env → Machine env
  set_error r e m =
      let tx = m.heap r in record m { heap = write r (record tx { error = some e }) m.heap }

  -- A call of a callback that persists a configuration; a success is logged.
  unfoldable pub persist :
      CommitFn env.World → SystemConfig → Machine env → Option Message × Machine env
  persist f cfg m =
      let (e, w) = f cfg m.world in
      (e, record m { world = w; log = elim e [ none ↦ saved cfg ∷ m.log | some _ ↦ m.log ] })
