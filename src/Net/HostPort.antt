-- ===== src/Net/HostPort.antt =====
-- goish/net.rs, `split_host_port` and `join_host_port`: `host:port`, where a host with colons is in
-- brackets.
use mathlib.Core.List.{append_assoc}
use minimalrouter.Net.Address.{byte_at}
use minimalrouter.Prelude.{
  Bool-cases, Bytes, Option, Result, [], arith, contains_byte, err, false, if◌then◌else◌, inl, inr,
  is_empty, length, length-append, none, ok, refl, some, split_once, sym, ℕ, ◌++◌, ◌+◌, ◌==◌, ◌∷◌,
  ◌≡◌,
}

-- The texts of the errors, each behind `address <hostport>: `.
pub data AddrError : Type 0 where
  missing_port missing_bracket too_many_colons unexpected_open unexpected_close : AddrError

-- The parts before and behind the last `c`.
unfoldable pub rsplit_once : ℕ → Bytes → Option (Bytes × Bytes)
rsplit_once c [] = none
rsplit_once c (b ∷ bs) = elim (rsplit_once c bs) [
  | some (l, r) ↦ some (b ∷ l, r)
  | none ↦ if b == c then some ([], bs) else none
]

-- The checks for brackets behind `j` and `k`, and the result.
unfoldable pub check_brackets : Bytes → Bytes → Bytes → Bytes → Result AddrError (Bytes × Bytes)
check_brackets from_j from_k host port =
    if contains_byte b'[' from_j
    then err unexpected_open
    else if contains_byte b']' from_k
    then err unexpected_close
    else ok (host, port)

-- A host in brackets: `tail` is the text behind the first, `before` the text up to the last colon.
unfoldable pub split_bracketed : Bytes → Bytes → Bytes → Result AddrError (Bytes × Bytes)
split_bracketed tail before port = elim (split_once b']' tail) [
  | none ↦ err missing_bracket
  | some (host, behind) ↦
      if is_empty behind
      then err missing_port
      else if length host + 2 == length before
      then check_brackets tail behind host port
      else if byte_at behind 0 == b':'
      then err too_many_colons
      else err missing_port
]

unfoldable pub split_bare : Bytes → Bytes → Bytes → Result AddrError (Bytes × Bytes)
split_bare hostport before port =
    if contains_byte b':' before
    then err too_many_colons
    else check_brackets hostport hostport before port

unfoldable pub split_host_port : Bytes → Result AddrError (Bytes × Bytes)
split_host_port hostport = elim (rsplit_once b':' hostport) [
  | none ↦ err missing_port
  | some (before, port) ↦ elim hostport [
    | [] ↦ err missing_port
    | b ∷ tail ↦
        if b == b'[' then split_bracketed tail before port else split_bare (b ∷ tail) before port
  ]
]

unfoldable pub join_host_port : Bytes → Bytes → Bytes
join_host_port host port =
    if contains_byte b':' host
    then b'[' ∷ (host ++ (b']' ∷ (b':' ∷ port)))
    else host ++ (b':' ∷ port)

contains_byte-append :
    (c : ℕ) (xs ys : Bytes)
    → contains_byte c xs ≡ false
    → contains_byte c ys ≡ false
    → contains_byte c (xs ++ ys) ≡ false
contains_byte-append c [] ys h k = k
contains_byte-append c (x ∷ xs) ys h k = let ih = contains_byte-append c xs ys in ground (arith, ih)

rsplit_once_absent : (c : ℕ) (xs : Bytes) → contains_byte c xs ≡ false → rsplit_once c xs ≡ none
unfolding rsplit_once
rsplit_once_absent c [] h = refl
rsplit_once_absent c (x ∷ xs) h = let ih = rsplit_once_absent c xs in ground (arith, ih)

rsplit_once-append :
    (c : ℕ) (xs ys : Bytes)
    → contains_byte c ys ≡ false
    → rsplit_once c (xs ++ (c ∷ ys)) ≡ some (xs, ys)
unfolding rsplit_once
rsplit_once-append c [] ys h = ground (arith, rsplit_once_absent c ys h)
rsplit_once-append c (x ∷ xs) ys h = rw (rsplit_once-append c xs ys h) refl

split_once-append :
    (c : ℕ) (xs ys : Bytes)
    → contains_byte c xs ≡ false
    → split_once c (xs ++ (c ∷ ys)) ≡ some (xs, ys)
unfolding split_once
split_once-append c [] ys h = ground arith
split_once-append c (x ∷ xs) ys h = let ih = split_once-append c xs ys in ground (arith, ih)

-- Neither bracket occurs.
abbrev pub Plain : Bytes → Type 0
Plain s = (contains_byte b'[' s ≡ false) × (contains_byte b']' s ≡ false)

check_brackets-Plain :
    (j k host port : Bytes)
    → contains_byte b'[' j ≡ false
    → contains_byte b']' k ≡ false
    → check_brackets j k host port ≡ ok (host, port)
unfolding check_brackets
check_brackets-Plain j k host port h i = rw (h, i) refl

split_bare-Plain :
    (host port : Bytes)
    → Plain host
    → Plain port
    → contains_byte b':' host ≡ false
    → split_bare (host ++ (b':' ∷ port)) host port ≡ ok (host, port)
unfolding split_bare
split_bare-Plain host port h p e =
    let all : Bytes = host ++ (b':' ∷ port) in
    rw e (
      check_brackets-Plain all all host port (contains_byte-append b'[' host (b':' ∷ port) h.0 p.0)
        (contains_byte-append b']' host (b':' ∷ port) h.1 p.1))

split_bare-join :
    (host port : Bytes)
    → Plain host
    → Plain port
    → contains_byte b':' host ≡ false
    → contains_byte b':' port ≡ false
    → split_host_port (host ++ (b':' ∷ port)) ≡ ok (host, port)
unfolding split_host_port rsplit_once
split_bare-join [] port h p e f =
    rw (rsplit_once-append b':' [] port f) (split_bare-Plain [] port h p e)
split_bare-join (x ∷ xs) port h p e f =
    let bare = split_bare-Plain (x ∷ xs) port h p e in
    let differs : (x == b'[') ≡ false = ground (arith, h.0) in
    rw (rsplit_once-append b':' (x ∷ xs) port f, differs) bare

rsplit_once-bracketed :
    (host port : Bytes)
    → contains_byte b':' port ≡ false
    → rsplit_once b':' (b'[' ∷ (host ++ (b']' ∷ (b':' ∷ port))))
      ≡ some (b'[' ∷ (host ++ (b']' ∷ [])), port)
rsplit_once-bracketed host port f =
    rw (sym (append_assoc (b'[' ∷ host) (b']' ∷ []) (b':' ∷ port)))
      (rsplit_once-append b':' (b'[' ∷ (host ++ (b']' ∷ []))) port f)

split_bracketed-Plain :
    (host port : Bytes)
    → Plain host
    → Plain port
    → split_bracketed (host ++ (b']' ∷ (b':' ∷ port))) (b'[' ∷ (host ++ (b']' ∷ []))) port
      ≡ ok (host, port)
unfolding split_bracketed
split_bracketed-Plain host port h p =
    let tail : Bytes = host ++ (b']' ∷ (b':' ∷ port)) in
    let opens = contains_byte-append b'[' host (b']' ∷ (b':' ∷ port)) h.0 p.0 in
    let inner = check_brackets-Plain tail (b':' ∷ port) host port opens p.1 in
    ground
      (arith, split_once-append b']' host (b':' ∷ port) h.1, inner, length-append host (b']' ∷ []))

split_bracketed-join :
    (host port : Bytes)
    → Plain host
    → Plain port
    → contains_byte b':' port ≡ false
    → split_host_port (b'[' ∷ (host ++ (b']' ∷ (b':' ∷ port)))) ≡ ok (host, port)
unfolding split_host_port
split_bracketed-join host port h p f =
    ground (arith, rsplit_once-bracketed host port f, split_bracketed-Plain host port h p)

-- A host and a port that are written as one address without a bracket of their own, the port without a
-- colon, are read back as they were, whether or not the host has colons.
pub split_host_port-join_host_port :
    (host port : Bytes)
    → Plain host
    → Plain port
    → contains_byte b':' port ≡ false
    → split_host_port (join_host_port host port) ≡ ok (host, port)
unfolding join_host_port
split_host_port-join_host_port host port h p f = elim (Bool-cases (contains_byte b':' host)) [
  | inl colons ↦ rw colons (split_bracketed-join host port h p f)
  | inr e ↦ rw e (split_bare-join host port h p e f)
]
