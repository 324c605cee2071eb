-- ===== src/Auth/Limiter.antt =====
-- auth.rs, `RateLimiter`: attempts are counted by source address in windows that the first of them opens.
-- An instant is its number of nanoseconds; `duration_since` stops at 0. The mutex makes calls one after
-- another.
use Prim.Native.Nat.{max}
use minimalrouter.Prelude.{
  Bool, Bool-cases, Bytes, List, Option, [], ap, arith, bytes_eq, bytes_eq→eq, false, if◌then◌else◌,
  inl, inr, leb, ltb, none, some, suc, sym, true, ℕ, ◌&&◌, ◌+◌, ◌-◌, ◌∷◌, ◌≡◌, ◌≤◌,
}

-- The history, as what is found under an address: the attempts counted, and when the window opened.
abbrev pub History : Type 0
History = Bytes → Option (ℕ × ℕ)

abbrev pub nobody : History
nobody ip = none

unfoldable pub insert : Bytes → ℕ × ℕ → History → History
insert ip r h other = if bytes_eq ip other then some r else h other

-- What happens to a limiter: an attempt from an address, or a round of the thread; each at its time.
pub data Event : Type 0 where
  login : Bytes → ℕ → Event
  thread_round : ℕ → Event

-- Every event is at a time between these.
abbrev pub Within : ℕ → ℕ → List Event → Type 0
Within from to [] = Unit
Within from to (thread_round now ∷ es) = (from ≤ now) × (now ≤ to) × Within from to es
Within from to (login ip now ∷ es) = (from ≤ now) × (now ≤ to) × Within from to es

module _ (limit window : ℕ) where
  -- What `allow` does with the record of an address.
  unfoldable pub count_attempt : Option (ℕ × ℕ) → ℕ → Bool × (ℕ × ℕ)
  count_attempt none now = (true, (1, now))
  count_attempt (some (n, opened)) now =
      if ltb window (now - opened)
      then (true, (1, now))
      else if leb limit n
      then (false, (n, opened))
      else (true, (n + 1, opened))

  unfoldable pub allow : Bytes → ℕ → History → Bool × History
  allow ip now h = let r = count_attempt (h ip) now in (r.0, insert ip r.1 h)

  -- The background thread.
  abbrev pub keep_open : ℕ → Option (ℕ × ℕ) → Option (ℕ × ℕ)
  keep_open now none = none
  keep_open now (some (n, opened)) = if leb (now - opened) window then some (n, opened) else none

  unfoldable pub prune : ℕ → History → History
  prune now h ip = keep_open now (h ip)

  -- How many attempts from an address are let through.
  unfoldable pub passed : Bytes → List Event → History → ℕ
  passed ip [] h = 0
  passed ip (thread_round now ∷ es) h = passed ip es (prune now h)
  passed ip (login other now ∷ es) h =
      let r = allow other now h in
      let rest = passed ip es r.1 in if bytes_eq other ip && r.0 then suc rest else rest

  module _ (ip : Bytes) (from : ℕ) where
    -- What is left of the limit for a record, when no window opens before `from`.
    abbrev left : Option (ℕ × ℕ) → ℕ
    left none = max limit 1
    left (some (n, opened)) = if ltb opened from then (limit - n) + max limit 1 else limit - n

    left-count_attempt :
        (r : Option (ℕ × ℕ)) (now : ℕ)
        → from ≤ now
        → now ≤ from + window
        → (if (count_attempt r now).0 then 1 else 0) + left (some (count_attempt r now).1) ≤ left r
    unfolding count_attempt
    left-count_attempt none now h k = ground arith
    left-count_attempt (some (n, opened)) now h k = ground arith

    left-keep_open :
        (r : Option (ℕ × ℕ)) (now : ℕ) → now ≤ from + window → left (keep_open now r) ≤ left r
    left-keep_open none now k = omega arith
    left-keep_open (some (n, opened)) now k = ground arith

    passed_le :
        (es : List Event) (h : History)
        → Within from (from + window) es
        → passed ip es h ≤ left (h ip)
    unfolding passed prune allow insert
    passed_le [] h w = omega arith
    passed_le (thread_round now ∷ es) h w =
        let ih = passed_le es (prune now h) w.2 in
        let step = left-keep_open (h ip) now w.1 in omega arith
    passed_le (login other now ∷ es) h w =
        let ih = passed_le es (allow other now h).1 w.2 in
        elim (Bool-cases (bytes_eq other ip)) [
          | inl same ↦
              let e = bytes_eq→eq other ip same in
              let found : left (h ip) ≡ left (h other) = ap (λ (a : Bytes). left (h a)) (sym e) in
              let step = left-count_attempt (h other) now w.0 w.1 in
              ground (arith, ih, step, same, found)
          | inr differs ↦ ground (arith, ih, differs)
        ]

    left_bound : (r : Option (ℕ × ℕ)) → left r ≤ limit + max limit 1
    left_bound none = omega arith
    left_bound (some (n, opened)) = ground arith

-- In any time as long as the window, however attempts and the background thread follow one another, an
-- address is let through at most twice as often as the limit, or once more where the limit is zero.
pub passed_bound :
    (limit window : ℕ) (ip : Bytes) (from : ℕ) (es : List Event) (h : History)
    → Within from (from + window) es
    → passed limit window ip es h ≤ limit + max limit 1
passed_bound limit window ip from es h w =
    let a = passed_le limit window ip from es h w in
    let b = left_bound limit window ip from (h ip) in omega arith
