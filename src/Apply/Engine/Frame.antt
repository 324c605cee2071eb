-- ===== src/Apply/Engine/Frame.antt =====
-- What the calls of the engine leave alone: a privileged call changes the world and the log of calls,
-- and never the heap, the pending change, the canonical configuration or what is saved.
use minimalrouter.Apply.Engine.{Environment, Event, Machine, audited, called, saved}
use minimalrouter.Apply.Engine.Privileged.{
  apply_privileged, attempt, call, instant_now, privileged, set_applying, time_now,
}
use minimalrouter.Apply.Ipc.{ApplyRequest}
use minimalrouter.Config.Model.{SystemConfig}
use minimalrouter.Prelude.{
  Bool, Bool-cases, List, Message, Option, Result-cases, [], false, inl, inr, leb, none, refl, some,
  suc, true, zero, ℕ, ◌+◌, ◌∙◌, ◌∷◌, ◌≡◌,
}

-- The configuration saved last, `base` when none was.
abbrev pub last_saved : SystemConfig → List Event → SystemConfig
last_saved base [] = base
last_saved base (called _ ∷ es) = last_saved base es
last_saved base (saved c ∷ es) = c
last_saved base (audited _ ∷ es) = last_saved base es

module _ (env : Environment) where
  -- `m'` is `m` but for the world, the flag `applying`, and calls and audits in the log.
  pub record Frame (m m' : Machine env) : Type 0 where
    pub heap : m'.heap ≡ m.heap
    pub next : m'.next ≡ m.next
    pub active_tx : m'.engine.active_tx ≡ m.engine.active_tx
    pub current_config : m'.engine.current_config ≡ m.engine.current_config
    pub pending : m'.engine.pending ≡ m.engine.pending
    pub recovery_required : m'.engine.recovery_required ≡ m.engine.recovery_required
    pub recovery_reason : m'.engine.recovery_reason ≡ m.engine.recovery_reason
    pub saves : (base : SystemConfig) → last_saved base m'.log ≡ last_saved base m.log

  world-Frame : (m : Machine env) (w : env.World) → Frame m (record m { world = w })
  world-Frame m w = record {
    heap = refl;
    next = refl;
    active_tx = refl;
    current_config = refl;
    pending = refl;
    recovery_required = refl;
    recovery_reason = refl;
    saves = λ base. refl;
  }

  pub Frame-trans : (a b c : Machine env) → Frame a b → Frame b c → Frame a c
  Frame-trans a b c f g = record {
    heap = g.heap ∙ f.heap;
    next = g.next ∙ f.next;
    active_tx = g.active_tx ∙ f.active_tx;
    current_config = g.current_config ∙ f.current_config;
    pending = g.pending ∙ f.pending;
    recovery_required = g.recovery_required ∙ f.recovery_required;
    recovery_reason = g.recovery_reason ∙ f.recovery_reason;
    saves = λ base. g.saves base ∙ f.saves base;
  }

  pub time_now-Frame : (m : Machine env) → Frame m (time_now env m).1
  unfolding time_now
  time_now-Frame m = world-Frame m (env.now m.world).1

  instant_now-Frame : (m : Machine env) → Frame m (instant_now env m).1
  unfolding instant_now
  instant_now-Frame m = world-Frame m (env.instant m.world).1

  call-Frame :
      (deadline : ℕ) (req : ApplyRequest) (m : Machine env) → Frame m (call env deadline req m).1
  unfolding call
  call-Frame deadline req m = record {
    heap = refl;
    next = refl;
    active_tx = refl;
    current_config = refl;
    pending = refl;
    recovery_required = refl;
    recovery_reason = refl;
    saves = λ base. refl;
  }

  pub set_applying-Frame : (b : Bool) (m : Machine env) → Frame m (set_applying env b m)
  unfolding set_applying
  set_applying-Frame b m = record {
    heap = refl;
    next = refl;
    active_tx = refl;
    current_config = refl;
    pending = refl;
    recovery_required = refl;
    recovery_reason = refl;
    saves = λ base. refl;
  }

  attempt-Frame :
      (k deadline : ℕ) (req : ApplyRequest) (last : Option Message) (m : Machine env)
      → Frame m (attempt env k deadline req last m).1
  unfolding attempt
  attempt-Frame zero deadline req last m = world-Frame m m.world
  attempt-Frame (suc k) deadline req last m =
      let m1 = (instant_now env m).1 in
      let m2 = (call env deadline req m1).1 in
      let f1 : Frame m m1 = instant_now-Frame m in
      let f2 : Frame m m2 = Frame-trans m m1 m2 f1 (call-Frame deadline req m1) in
      elim (Bool-cases (leb deadline (instant_now env m).0)) [
        | inl late ↦ rw late f1
        | inr early ↦ rw early (elim (Result-cases (call env deadline req m1).0) [
          | inl (resp, e) ↦ rw e f2
          | inr (x, e) ↦ rw e (Frame-trans m m2 _ f2 (attempt-Frame k deadline req (some x) m2))
        ])
      ]

  pub apply_privileged-Frame :
      (deadline : ℕ) (req : ApplyRequest) (m : Machine env)
      → Frame m (apply_privileged env deadline req m).1
  unfolding apply_privileged
  apply_privileged-Frame deadline req m = attempt-Frame 2 deadline req none m

  pub privileged-Frame :
      (timeout : ℕ) (req : ApplyRequest) (m : Machine env)
      → Frame m (privileged env timeout req m).1
  unfolding privileged
  privileged-Frame timeout req m =
      let a = set_applying env true m in
      let (now, b) = instant_now env a in
      let c = (apply_privileged env (now + timeout) req b).1 in
      Frame-trans m a _ (set_applying-Frame true m) (
        Frame-trans a b _ (instant_now-Frame a) (
          Frame-trans b c _ (apply_privileged-Frame (now + timeout) req b)
            (set_applying-Frame false c)))

  pub privileged_idle :
      (timeout : ℕ) (req : ApplyRequest) (m : Machine env)
      → (privileged env timeout req m).1.engine.applying ≡ false
  unfolding privileged set_applying
  privileged_idle timeout req m = refl
