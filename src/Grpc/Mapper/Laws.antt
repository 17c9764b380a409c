-- ===== src/Grpc/Mapper/Laws.antt =====
-- internal/handler/grpcserver/mapper/user.go: the statuses of users on their way to the protocol.
use portal_backend.Prelude.{true, some, ◌≡◌, refl, ◌↔◌, arith}
use portal_backend.Domain.{UserStatus, status_is_valid, active, pending, deleted}
use portal_backend.Grpc.Messages.{StatusPb, pb_pending_verification, pb_active, pb_deleted}
use portal_backend.Grpc.Mapper.{user_status_to_pb, user_status_from_pb}

read_status :
    (p : StatusPb) (s : UserStatus)
    → user_status_from_pb p ≡ some s
    → (status_is_valid s ≡ true) × (user_status_to_pb s ≡ p)
unfolding user_status_from_pb user_status_to_pb status_is_valid
read_status pb_active active h = (refl, refl)
read_status pb_pending_verification pending h = (refl, refl)
read_status pb_deleted deleted h = (refl, refl)
read_status _ s h = ground arith

written_status :
    (s : UserStatus) → status_is_valid s ≡ true → user_status_from_pb (user_status_to_pb s) ≡ some s
unfolding user_status_from_pb user_status_to_pb status_is_valid
written_status active h = refl
written_status _ h = ground arith

-- A status of the protocol is read as a status of users exactly where that status is valid and is
-- written as it: writing and reading are inverse on the valid statuses.
pub user_status_roundtrip :
    (s : UserStatus) (p : StatusPb)
    → (user_status_from_pb p ≡ some s) ↔ ((status_is_valid s ≡ true) × (user_status_to_pb s ≡ p))
user_status_roundtrip s p = (read_status p s, λ h. rw (← h.1) (written_status s h.0))
