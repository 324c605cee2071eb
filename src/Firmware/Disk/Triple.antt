-- ===== src/Firmware/Disk/Triple.antt =====
-- What an operation ensures, whatever its writes meet: from `P`, a success leaves `Q`, and an error or a
-- stop leaves `C`.

use minimalrouter.Firmware.Disk.{
  Disk, Fault, Operation, Run, and_then, cut, cut_after, cut_before, done, fail, fine, on_error,
  or_handle, reading, refused, unsynced, wrap, write, ◌>>=◌,
}
use minimalrouter.Firmware.Version.{SlotError}
use minimalrouter.Prelude.{List, Result, String, [], err, ok, refl, ◌∷◌, ◌≡◌}

abbrev pub Ends {ℓ} : {A : Type ℓ} → (A → Disk → Type 0) → (Disk → Type 0) → Run A → Type 0
Ends Q C (done (ok a) ps d) = Q a d
Ends Q C (done (err e) ps d) = C d
Ends Q C (cut d) = C d

abbrev pub Triple {ℓ} :
    {A : Type ℓ} → (Disk → Type 0) → Operation A → (A → Disk → Type 0) → (Disk → Type 0) → Type 0
Triple P m Q C = (ps : List Fault) (d : Disk) → P d → Ends Q C (m ps d)

module _ {ℓ κ} {A : Type ℓ} {B : Type κ} (Q : A → Disk → Type 0) (R : B → Disk → Type 0)
    (C : Disk → Type 0) where
  and_then-Ends :
      (r : Run A) (k : A → Operation B)
      → Ends Q C r
      → ((a : A) → Triple (Q a) (k a) R C)
      → Ends R C (and_then r k)
  and_then-Ends (done (ok a) ps d) k h t = t a ps d h
  and_then-Ends (done (err e) ps d) k h t = h
  and_then-Ends (cut d) k h t = h

  pub bind_rule :
      {P : Disk → Type 0} (m : Operation A) (k : A → Operation B)
      → Triple P m Q C
      → ((a : A) → Triple (Q a) (k a) R C)
      → Triple P (m >>= k) R C
  bind_rule m k h t ps d p = and_then-Ends (m ps d) k (h ps d p) t

module _ {ℓ} {A : Type ℓ} (Q : A → Disk → Type 0) (C D : Disk → Type 0) where
  or_handle-Ends :
      (r : Run A) (h : SlotError → Operation A)
      → Ends Q C r
      → ((d : Disk) → C d → D d)
      → ((e : SlotError) → Triple C (h e) Q D)
      → Ends Q D (or_handle r h)
  or_handle-Ends (done (ok a) ps d) h q w t = q
  or_handle-Ends (done (err e) ps d) h q w t = t e ps d q
  or_handle-Ends (cut d) h q w t = w d q

  -- A handler starts from what an error leaves.
  pub on_error_rule :
      {P : Disk → Type 0} (m : Operation A) (h : SlotError → Operation A)
      → Triple P m Q C
      → ((d : Disk) → C d → D d)
      → ((e : SlotError) → Triple C (h e) Q D)
      → Triple P (on_error m h) Q D
  on_error_rule m h q w t ps d p = or_handle-Ends (m ps d) h (q ps d p) w t

pub write_rule :
    (P C Q : Disk → Type 0) (f : Disk → Disk)
    → ((d : Disk) → P d → C d)
    → ((d : Disk) → P d → C (f d))
    → ((d : Disk) → P d → Q (f d))
    → Triple P (write f) (λ _. Q) C
unfolding write
write_rule P C Q f kept changed success [] d p = success d p
write_rule P C Q f kept changed success (fine ∷ ps) d p = success d p
write_rule P C Q f kept changed success (refused ∷ ps) d p = kept d p
write_rule P C Q f kept changed success (unsynced ∷ ps) d p = changed d p
write_rule P C Q f kept changed success (cut_before ∷ ps) d p = kept d p
write_rule P C Q f kept changed success (cut_after ∷ ps) d p = changed d p

pub fail_rule {ℓ} :
    {A : Type ℓ} {P C : Disk → Type 0} (Q : A → Disk → Type 0) (e : SlotError)
    → ((d : Disk) → P d → C d)
    → Triple P (fail e) Q C
fail_rule Q e h ps d p = h d p

pub wrap_rule {ℓ} :
    {A : Type ℓ} (P : Disk → Type 0) (Q : A → Disk → Type 0) (C : Disk → Type 0) (s : String)
    (m : Operation A)
    → Triple P m Q C
    → Triple P (wrap s m) Q C
wrap_rule P Q C s m h = on_error_rule Q C C m _ h (λ d c. c) (λ e ps d c. c)

read-Ends {ℓ} :
    {A : Type ℓ} (Q : A → Disk → Type 0) (C : Disk → Type 0) (ps : List Fault) (d : Disk)
    (r : Result SlotError A)
    → C d
    → ((a : A) → r ≡ ok a → Q a d)
    → Ends Q C (done r ps d)
read-Ends Q C ps d (ok a) c q = q a refl
read-Ends Q C ps d (err e) c q = c

pub read_rule {ℓ} :
    {A : Type ℓ} (P : Disk → Type 0) (Q : A → Disk → Type 0) (C : Disk → Type 0)
    (f : Disk → Result SlotError A)
    → ((d : Disk) → P d → C d)
    → ((d : Disk) (a : A) → P d → f d ≡ ok a → Q a d)
    → Triple P (reading f) Q C
read_rule P Q C f kept found ps d p = read-Ends Q C ps d (f d) (kept d p) (λ a e. found d a p e)
