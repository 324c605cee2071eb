-- ===== src/Firmware/Slots/Sound/Reread.antt =====
-- firmware/slots.rs. What a disk at rest says of its parts, and what it says when its file is written anew.
use mathlib.Core.Path.{subst}
use minimalrouter.Firmware.Disk.{Disk, SlotState, absent, holds}
use minimalrouter.Firmware.Slots.Sound.{Normal, Rest, link_of}
use minimalrouter.Firmware.Slots.Sound.Settle.{saved_state-holds, settled_floor, state_from}
use minimalrouter.Firmware.State.{
  apply_installation_floor, link_version, point_current, point_previous, require_slot, saved_state,
  state_without_operation,
}
use minimalrouter.Firmware.Version.{is_release_version}
use minimalrouter.Prelude.{
  Bool-cases, Bytes, Option, Result-cases, [], ap, arith, bind_inv, bytes_eq, false, if◌then◌else◌,
  inl, inr, none, ok, refl, some, sym, ◌∙◌, ◌∷◌, ◌≡◌, ◌⊎◌,
}

-- The reads behind a state.
record Seen (s : SlotState) (d : Disk) : Type 0 where
  file : SlotState
  current : Option Bytes
  previous : Option Bytes
  file_read : saved_state d ≡ ok file
  current_read : link_version d d.current ≡ ok current
  previous_read : link_version d d.previous ≡ ok previous
  shape : s ≡ record (point_previous previous (point_current current file)) {
    installation_pending = false;
  }

floor_closed :
    (d : Disk) (t s : SlotState)
    → d.installation ≡ absent
    → apply_installation_floor d t ≡ ok s
    → s ≡ record t { installation_pending = false }
unfolding apply_installation_floor
floor_closed d t s i h =
    let e : apply_installation_floor d t ≡ ok (record t { installation_pending = false }) =
      rw (i, apply_installation_floor) refl in
    cc

Rest-Seen : (s : SlotState) (d : Disk) → Rest s d → Seen s d
unfolding state_without_operation
Rest-Seen s d h =
    let a = bind_inv (saved_state d) _ s h.seen in
    let b = bind_inv (link_version d d.current) _ s a.2 in
    let c = bind_inv (link_version d d.previous) _ s b.2 in
    record {
      file = a.0;
      current = b.0;
      previous = c.0;
      file_read = a.1;
      current_read = b.1;
      previous_read = c.1;
      shape = floor_closed d _ s h.no_installation c.2;
    }

-- No version is read where there is no pointer only.
no_version : (d : Disk) (v : Bytes) → link_version d (link_of v) ≡ ok none → v ≡ []
unfolding link_version
no_version d [] h = refl
no_version d (x ∷ xs) h = elim (Bool-cases (is_release_version (x ∷ xs))) [
  | inr e ↦ absurd (ground (arith, h, e))
  | inl e ↦ elim (Result-cases (require_slot d (x ∷ xs))) [
    | inl (u, q) ↦ absurd (ground (arith, h, e, q))
    | inr (u, q) ↦ absurd (ground (arith, h, e, q))
  ]
]

unpointed : (p v : Bytes) → v ≡ [] → (p ≡ []) ⊎ (bytes_eq p v ≡ false)
unfolding bytes_eq
unpointed [] v e = inl refl
unpointed (x ∷ xs) v e = inr (rw e refl)

cleared :
    (p v : Bytes) → let q = if bytes_eq p v then [] else p in (q ≡ []) ⊎ (bytes_eq q v ≡ false)
cleared p v = elim (Bool-cases (bytes_eq p v)) [ inl e ↦ inl (rw e refl) | inr e ↦ inr (rw e e) ]

shape-Normal :
    (s f : SlotState) (c p : Option Bytes)
    → s ≡ record (point_previous p (point_current c f)) { installation_pending = false }
    → (c ≡ none → s.current ≡ [])
    → Normal s
unfolding point_previous point_current
shape-Normal s f none p e h = record {
  finished = ap (λ (t : SlotState). t.installation_pending) e;
  settled = unpointed s.pending s.current (h refl);
}
shape-Normal s f (some v) none e h =
    rw e (record { finished = refl; settled = cleared f.pending v })
shape-Normal s f (some v) (some q) e h =
    rw e (record { finished = refl; settled = cleared f.pending v })

-- A state at rest is one that the pointers yield.
pub Rest-Normal : (s : SlotState) (d : Disk) → Rest s d → Normal s
Rest-Normal s d h =
    let q = Rest-Seen s d h in
    shape-Normal s q.file q.current q.previous q.shape (λ (e : q.current ≡ none).
      no_version d s.current (ap (link_version d) (sym h.anchored) ∙ q.current_read ∙ ap ok e))

reread :
    (f : SlotState) (c p : Option Bytes)
    → let s = record (point_previous p (point_current c f)) {
      installation_pending = false;
      pending = [];
    } in
      point_previous p (point_current c s) ≡ s
unfolding point_previous point_current bytes_eq
reread f none none = refl
reread f none (some q) = refl
reread f (some []) none = refl
reread f (some (x ∷ xs)) none = refl
reread f (some []) (some q) = refl
reread f (some (x ∷ xs)) (some q) = refl

reread_at :
    (s f : SlotState) (c p : Option Bytes)
    → s ≡ record (point_previous p (point_current c f)) { installation_pending = false }
    → point_previous p (point_current c (record s { pending = [] })) ≡ record s { pending = [] }
reread_at s f c p e =
    subst
      (λ (t : SlotState).
        point_previous p (point_current c (record t { pending = [] })) ≡ record t { pending = [] })
      (sym e) (reread f c p)

-- The state file of a disk at rest may be written anew with no version pending.
pub Rest-cleared :
    (s : SlotState) (d : Disk)
    → Rest s d
    → Rest (record s { pending = [] }) (record d { state = holds (record s { pending = [] }) })
unfolding link_version require_slot
Rest-cleared s d h =
    let q = Rest-Seen s d h in
    let s' = record s { pending = [] } in
    let d' = record d { state = holds s' } in
    record {
      no_journal = h.no_journal;
      no_installation = h.no_installation;
      seen =
          state_from d' s' q.current q.previous (saved_state-holds s' d' refl) q.current_read
            q.previous_read
          ∙ ap (apply_installation_floor d') (reread_at s q.file q.current q.previous q.shape)
          ∙ settled_floor s' d' h.no_installation (Rest-Normal s d h).finished;
      anchored = h.anchored;
    }
