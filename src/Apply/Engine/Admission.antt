-- ===== src/Apply/Engine/Admission.antt =====
-- engine.rs, `process_locked`: the guards of a change and its refusal.
use minimalrouter.Apply.Engine.{
  Answer, CommitFn, EngineState, Environment, Machine, State, TxRef, rejected,
}
use minimalrouter.Apply.Engine.Privileged.{set_state}
use minimalrouter.Apply.Safety.{
  inspect_lan_observation, is_lan_unchanged, same_ipv4_network, validate_transition_safety,
}
use minimalrouter.Config.Model.{SystemConfig}
use minimalrouter.Config.Policy.{is_wireguard_only, validate_live_candidate}
use minimalrouter.Prelude.{
  Bool, Bytes, Message, Option, bytes_eq, err, false, if◌then◌else◌, is_some, none, not, ok, shown,
  some, text, true, ◌&&◌, ◌<>◌, ◌==◌,
}
use minimalrouter.Prelude.Int.{ltb_ℤ, ℤ}

-- An early return: the state and text that the transaction gets, and the error returned.
pub record Refusal : Type 0 where
  pub state : State
  pub shown_text : Message
  pub returned : Message

abbrev pub refusal : State → Message → Option Refusal
refusal state msg = some (record { state = state; shown_text = msg; returned = msg })

abbrev blocked_text : Option Message → Message
blocked_text none = text "configuration changes are blocked until canonical reconciliation succeeds"
blocked_text (some reason) =
    text "configuration changes are blocked until canonical reconciliation succeeds"
    <> text ": "
    <> reason

-- Equality of two `i64`.
abbrev eq_ℤ : ℤ → ℤ → Bool
eq_ℤ a b = not (ltb_ℤ a b) && not (ltb_ℤ b a)

-- What the code closes over: the change under way.
pub record Change (W : Type 0) : Type 0 where
  pub tx : TxRef
  pub tx_id : Bytes
  pub current : SystemConfig
  pub allow_interface_change : Bool
  pub commit : Option (CommitFn W)

-- The rule that `wireguard_only` is entered only from a running WireGuard.
unfoldable pub restricts_management : SystemConfig → SystemConfig → Bool
restricts_management current new_cfg =
    is_wireguard_only new_cfg && (not (is_wireguard_only current) && not current.wireguard.enabled)

module _ (env : Environment) where
  -- The guards of `process_locked` up to the validation, in their order.
  unfoldable pub admission : EngineState → SystemConfig → Bool → Option Refusal
  admission st new_cfg allow =
      let current = st.current_config in
      if st.recovery_required
      then refusal State.recovery_required (blocked_text st.recovery_reason)
      else if is_some st.pending
      then refusal rejected (text "another configuration is awaiting confirmation")
      else if not (new_cfg.revision == current.revision)
      then refusal rejected (
          text "stale revision: expected "
          <> shown current.revision
          <> text ", received "
          <> shown new_cfg.revision)
      else if not allow && not (bytes_eq new_cfg.lan.interface current.lan.interface)
      then refusal rejected
          (text "live LAN interface changes are unsupported; use the local recovery console")
      else if not allow && not (same_ipv4_network env.ipv6 current.lan.cidr new_cfg.lan.cidr)
      then refusal rejected
          (text "live LAN subnet changes are unsupported; use the local recovery console")
      else if not (eq_ℤ new_cfg.system.https_port current.system.https_port)
      then refusal rejected (text "live management-port changes are unsupported")
      else if restricts_management current new_cfg
      then refusal rejected (
          text
            "enable and verify WireGuard in a separate transaction before restricting management access")
      else elim (validate_live_candidate env.rules new_cfg (some current)) [
        | some e ↦ some (record {
          state = rejected;
          shown_text = text "Validation failed: " <> e;
          returned = e;
        })
        | none ↦ none
      ]

  unfoldable pub transition_refusal : SystemConfig → SystemConfig → Option Refusal
  transition_refusal current new_cfg = elim (validate_transition_safety env.ipv6 current new_cfg) [
    | some e ↦ some (record {
      state = rejected;
      shown_text = text "Transition safety validation failed: " <> e;
      returned = e;
    })
    | none ↦ none
  ]

  -- `inspect_lan_change`, which reads the DHCP leases if the LAN address or a reservation changes.
  unfoldable pub inspect_lan :
      SystemConfig → SystemConfig → Machine env → Option Message × Machine env
  inspect_lan current new_cfg m =
      let (leases, w) = env.dhcp_leases m.world in
      if is_lan_unchanged env.ipv6 env.json current new_cfg then (none, m) else (
        elim (inspect_lan_observation env.ipv6 current new_cfg leases) [
          | ok _ ↦ none
          | err e ↦ some e
        ],
        record m { world = w },
      )

  -- The checks of a live change, which the first-run setup does not make.
  unfoldable pub transition :
      Bool → SystemConfig → SystemConfig → Machine env → Option Refusal × Machine env
  transition true current new_cfg m = (none, m)
  transition false current new_cfg m =
      let (collision, m1) = inspect_lan current new_cfg m in
      (
        elim collision [ some e ↦ refusal rejected e | none ↦ transition_refusal current new_cfg ],
        m1,
      )

  unfoldable pub refuse : TxRef → Refusal → Machine env → Answer × Machine env
  refuse r f m = (err f.returned, set_state env r f.state (some f.shown_text) m)
