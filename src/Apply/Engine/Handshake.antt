-- ===== src/Apply/Engine/Handshake.antt =====
-- `verify_wg_client_handshake` of engine.rs, with the saturating arithmetic of an `i64`.
use minimalrouter.Prelude.{Bool, Option, false, if◌then◌else◌, none, some, true, ◌&&◌, ◌||◌}
use minimalrouter.Prelude.Int.{leb_ℤ, ltb_ℤ, max_ℤ, pos, saturate, ℤ, ◌+ℤ◌, ◌-ℤ◌}

pub data HandshakeError : Type 0 where
  no_completed_handshake timestamp_in_future new_handshake_required handshake_stale : HandshakeError

-- `is_some_and(|start| start <= 0 || last_handshake < start)`.
unfoldable pub precedes_activation : ℤ → Option ℤ → Bool
precedes_activation last none = false
precedes_activation last (some start) = leb_ℤ start (pos 0) || ltb_ℤ last start

abbrev pub has_start : Option ℤ → Bool
has_start none = false
has_start (some _) = true

-- The age up to which a handshake counts as fresh.
unfoldable pub max_age : ℤ → ℤ
max_age keepalive = max_ℤ (pos 180) (saturate (keepalive +ℤ keepalive +ℤ keepalive))

-- `none` when the handshake is accepted.
unfoldable pub verify_wg_client_handshake : ℤ → ℤ → Option ℤ → ℤ → Option HandshakeError
verify_wg_client_handshake last_handshake keepalive not_before now =
    if leb_ℤ last_handshake (pos 0)
    then some no_completed_handshake
    else if ltb_ℤ (saturate (now +ℤ pos 30)) last_handshake
    then some timestamp_in_future
    else if precedes_activation last_handshake not_before
    then some new_handshake_required
    else if (ltb_ℤ (pos 0) keepalive || has_start not_before)
        && ltb_ℤ (max_age keepalive) (saturate (now -ℤ last_handshake))
    then some handshake_stale
    else none
