-- ===== src/RoomId.antt =====
-- room_id.rs: V2 room identifiers on the wire. A room id is a UUID, held as its bytes; which UUIDs are
-- room ids is decided by `signaling::v2::is_room_uuid`, a parameter.
use apprtc.Prelude.{
  ℕ, ◌≡◌, ◌↔◌, Bool, true, Option, none, some, List, ite, arith, ℕ_discrete, length, if◌then◌else◌,
}

pub record RoomId : Type 0 where
  pub bytes : List ℕ

-- Two ids are one room when their bytes agree.
unfoldable pub RoomId-discrete : Discrete RoomId
RoomId-discrete = hlevel ℕ_discrete

unfoldable pub room_id_to_bytes : RoomId → List ℕ
room_id_to_bytes room_id = room_id.bytes

module _ (is_room_uuid : RoomId → Bool) where
  -- `try_into` accepts sixteen bytes.
  unfoldable pub room_id_from_bytes : List ℕ → Option RoomId
  room_id_from_bytes bytes =
      ite (ℕ_discrete (length bytes) 16)
        (if is_room_uuid (record { bytes = bytes }) then some (record { bytes = bytes }) else none)
        none

  -- Reading bytes back yields a room id exactly when there are sixteen of them and they are a room's
  -- UUID, and the id then has those bytes: no second spelling reads as the same room.
  pub room_id_from_bytes_iff :
      (bytes : List ℕ) (room_id : RoomId)
      → (room_id_from_bytes bytes ≡ some room_id)
        ↔ ((room_id_to_bytes room_id ≡ bytes) × (length bytes ≡ 16) × (is_room_uuid room_id ≡ true))
  unfolding room_id_from_bytes room_id_to_bytes
  room_id_from_bytes_iff bytes room_id = (λ h. ground arith, λ h. ground arith)
