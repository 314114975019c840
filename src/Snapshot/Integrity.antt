-- ===== src/Snapshot/Integrity.antt =====
-- What the digest of a recovery snapshot (src/atomic-swap/snapshot.ts) detects.
use Prim.Native.String.{String}
use text.Mathlib.TextEquality.{eq_iff}
use miradex_client.Prelude.{◌≡◌, ◌↔◌, true, str_eq_refl}
use miradex_client.Snapshot.{
  SnapshotInput, SnapshotBody, build_protocol_snapshot, verify_snapshot_integrity,
}

-- A snapshot passes the check as it was built, and after its fields were replaced it passes
-- exactly if the new fields have the digest of the old ones.
verify_snapshot_integrity-build :
    (compute_digest : SnapshotBody → String) (input : SnapshotInput) (body : SnapshotBody)
    → (verify_snapshot_integrity compute_digest (build_protocol_snapshot compute_digest input)
        ≡ true)
      × ((verify_snapshot_integrity compute_digest
              (record (build_protocol_snapshot compute_digest input) { body = body })
            ≡ true)
          ↔ (compute_digest body
              ≡ compute_digest (build_protocol_snapshot compute_digest input).body))
unfolding verify_snapshot_integrity build_protocol_snapshot
verify_snapshot_integrity-build compute_digest input body =
    let built = build_protocol_snapshot compute_digest input in
    (
      str_eq_refl (compute_digest built.body),
      eq_iff (compute_digest body) (compute_digest built.body),
    )
