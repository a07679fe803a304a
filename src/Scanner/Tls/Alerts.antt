-- ===== src/Scanner/Tls/Alerts.antt =====
-- `TlsAlerts` of pqcscan/src/tlsconstants.rs.
use pqcscan.Base.{ℕ, List, [], ◌∷◌, Bytes, codes}

unfoldable pub tls_alerts : List (ℕ × Bytes)
tls_alerts =
    (0, codes "close_notify")
    ∷ (10, codes "unexpected_message")
    ∷ (20, codes "bad_record_mac")
    ∷ (21, codes "decryption_failed_RESERVED")
    ∷ (22, codes "record_overflow")
    ∷ (30, codes "decompression_failure_RESERVED")
    ∷ (40, codes "handshake_failure")
    ∷ (41, codes "no_certificate_RESERVED")
    ∷ (42, codes "bad_certificate")
    ∷ (43, codes "unsupported_certificate")
    ∷ (44, codes "certificate_revoked")
    ∷ (45, codes "certificate_expired")
    ∷ (46, codes "certificate_unknown")
    ∷ (47, codes "illegal_parameter")
    ∷ (48, codes "unknown_ca")
    ∷ (49, codes "access_denied")
    ∷ (50, codes "decode_error")
    ∷ (51, codes "decrypt_error")
    ∷ (52, codes "too_many_cids_requested")
    ∷ (60, codes "export_restriction_RESERVED")
    ∷ (70, codes "protocol_version")
    ∷ (71, codes "insufficient_security")
    ∷ (80, codes "internal_error")
    ∷ (86, codes "inappropriate_fallback")
    ∷ (90, codes "user_canceled")
    ∷ (100, codes "no_renegotiation_RESERVED")
    ∷ (109, codes "missing_extension")
    ∷ (110, codes "unsupported_extension")
    ∷ (111, codes "certificate_unobtainable_RESERVED")
    ∷ (112, codes "unrecognized_name")
    ∷ (113, codes "bad_certificate_status_response")
    ∷ (114, codes "bad_certificate_hash_value_RESERVED")
    ∷ (115, codes "unknown_psk_identity")
    ∷ (116, codes "certificate_required")
    ∷ (120, codes "no_application_protocol")
    ∷ []
