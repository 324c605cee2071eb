-- ===== src/Firmware/Disk.antt =====
-- firmware/slots.rs: what the slot manager keeps on the disk, and the writes that may fail or be cut off.
-- A symbolic link holds the version that its target `slots/<version>` names. The content of a slot, the
-- lock and the permissions are not modelled.
pub mod Triple
use minimalrouter.Firmware.Version.{SlotError, told, wrapped}
use minimalrouter.Prelude.{Bool, Bytes, List, Result, String, [], err, ok, text, ◌∷◌}
use minimalrouter.Prelude.Int.{ℤ}

-- A file of JSON: absent, one that cannot be read or decoded, or its value.
pub data Content {ℓ} (A : Type ℓ) : Type ℓ where
  absent : Content A
  unreadable : Content A
  holds : A → Content A

-- A symbolic link: missing, one with an unsafe target or a file in its place, or the version it names.
pub data Link : Type 0 where
  missing : Link
  unsafe : Link
  points : Bytes → Link

pub record SlotState : Type 0 where
  pub current : Bytes
  pub previous : Bytes
  pub pending : Bytes
  pub minimum_version : Bytes
  pub installation_pending : Bool

pub data OperationKind : Type 0 where
  install activate rollback : OperationKind
  unknown_kind : Bytes → OperationKind

pub record SlotOperation : Type 0 where
  pub version : ℤ
  pub kind : OperationKind
  pub old : SlotState
  pub next : SlotState

pub record Disk : Type 0 where
  pub state : Content SlotState  -- state.json
  pub journal : Content SlotOperation  -- operation.json
  pub installation : Content SlotState  -- installation.json
  pub current : Link
  pub previous : Link
  pub slots : Bytes → Bool  -- the directories below slots/

-- What may become of one write: it succeeds, fails without an effect, fails behind its effect (the
-- directory could not be synced), or the machine stops before or behind it.
pub data Fault : Type 0 where
  fine refused unsynced cut_before cut_after : Fault

-- The outcome of an operation: its result, the faults still to come and the disk; or the disk that the
-- machine stopped with.
pub data Run {ℓ} (A : Type ℓ) : Type ℓ where
  done : Result SlotError A → List Fault → Disk → Run A
  cut : Disk → Run A

-- Operations on the disk. The faults of their writes come in order; behind the last all is fine.
abbrev pub Operation {ℓ} : Type ℓ → Type ℓ
Operation A = List Fault → Disk → Run A

abbrev pub return {ℓ} : {A : Type ℓ} → A → Operation A
return a ps d = done (ok a) ps d

abbrev pub fail {ℓ} : {A : Type ℓ} → SlotError → Operation A
fail e ps d = done (err e) ps d

abbrev pub and_then {ℓ κ} : {A : Type ℓ} {B : Type κ} → Run A → (A → Operation B) → Run B
and_then (done (ok a) ps d) k = k a ps d
and_then (done (err e) ps d) k = done (err e) ps d
and_then (cut d) k = cut d

infixl 10 ◌>>=◌ ◌>>◌
abbrev pub ◌>>=◌ {ℓ κ} : {A : Type ℓ} {B : Type κ} → Operation A → (A → Operation B) → Operation B
◌>>=◌ m k ps d = and_then (m ps d) k

abbrev pub ◌>>◌ {ℓ κ} : {A : Type ℓ} {B : Type κ} → Operation A → Operation B → Operation B
m >> k = m >>= λ _. k

abbrev pub or_handle {ℓ} : {A : Type ℓ} → Run A → (SlotError → Operation A) → Run A
or_handle (done (ok a) ps d) h = done (ok a) ps d
or_handle (done (err e) ps d) h = h e ps d
or_handle (cut d) h = cut d

-- `if let Err(e) = m { return h(e) }`.
abbrev pub on_error {ℓ} : {A : Type ℓ} → Operation A → (SlotError → Operation A) → Operation A
on_error m h ps d = or_handle (m ps d) h

-- `.map_err(|e| wrapf(s, e))`.
abbrev pub wrap {ℓ} : {A : Type ℓ} → String → Operation A → Operation A
wrap s m = on_error m (λ e. fail (wrapped s e))

-- A read of the disk.
abbrev pub reading {ℓ} : {A : Type ℓ} → (Disk → Result SlotError A) → Operation A
reading f ps d = done (f d) ps d

io_failure : SlotError
io_failure = told (text "input/output error")

-- One write, which takes the next fault.
unfoldable pub write : (Disk → Disk) → Operation (Unit {0})
unfolding io_failure
write f [] d = done (ok tt) [] (f d)
write f (fine ∷ ps) d = done (ok tt) ps (f d)
write f (refused ∷ ps) d = done (err io_failure) ps d
write f (unsynced ∷ ps) d = done (err io_failure) ps (f d)
write f (cut_before ∷ ps) d = cut d
write f (cut_after ∷ ps) d = cut (f d)

-- The disk that is left.
abbrev pub disk_of {ℓ} : {A : Type ℓ} → Run A → Disk
disk_of (done r ps d) = d
disk_of (cut d) = d
