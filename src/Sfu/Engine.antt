-- ===== src/Sfu/Engine.antt =====
-- What sfu_server.rs takes from other crates: the engine of `sfu` with its events, JSON decoding by
-- `serde_json`, and session descriptions of `rtc`. All of it is a parameter.
use apprtc.Prelude.{ℕ, ◌≡◌, ite, String, Option, Bool, true, false, ℕ_discrete}
use apprtc.RoomId.{RoomId, RoomId-discrete}

-- `AppSignal` of sfu_server.rs, as the derived decoder fills it.
pub record AppSignal : Type 0 where
  pub kind : String
  pub candidate : String
  pub id : Option String
  pub label : Option ℕ
  pub requestid : Option String

pub record IceCandidate : Type 0 where
  pub candidate : String
  pub sdp_mid : Option String
  pub sdp_mline_index : Option ℕ

-- `SFUEvent` over the type `S` of session descriptions.
pub data SfuEvent (S : Type 0) : Type 0 where
  join : ℕ → RoomId → ℕ → SfuEvent S
  leave : ℕ → RoomId → ℕ → String → SfuEvent S
  session_description : ℕ → RoomId → ℕ → S → SfuEvent S
  ice_candidate : ℕ → RoomId → ℕ → IceCandidate → SfuEvent S
  err : ℕ → Option RoomId → Option ℕ → String → SfuEvent S
  ok : SfuEvent S

-- `E` is the engine's state, `V` a JSON value, `S` a session description.
pub record External (E V S : Type 0) : Type 0 where
  -- `signaling::v2::is_room_uuid`
  pub is_room_uuid : RoomId → Bool
  -- `Sfu::handle_event`: the engine after it, and whether it returned `Ok`
  pub handle_event : E → SfuEvent S → E × Bool
  -- `serde_json::from_str`
  pub from_str : String → Option V
  -- `serde_json::from_value` at `AppSignal` and at `RTCSessionDescription`
  pub app_signal : V → Option AppSignal
  pub description : V → Option S
  -- `sdp_type == RTCSdpType::Answer`
  pub is_answer : S → Bool
  -- the `Debug` text of a `LeaveReason`, after `try_from(..).unwrap_or_default()`
  pub reason_name : ℕ → String

-- A member of a room.
abbrev pub Key : Type 0
Key = RoomId × ℕ

unfoldable pub Key-discrete : Discrete Key
unfolding RoomId-discrete ℕ_discrete
Key-discrete = hlevel (RoomId-discrete, ℕ_discrete)

-- What the adapter relies on in the engine, where `member` is the engine's own record of who is in a
-- room: an accepted Join adds its client, an accepted Leave removes it, a refused event and the
-- events of signaling change no membership.
pub record KeepsMembers {E V S : Type 0} (x : External E V S) (member : E → Key → Bool)
    : Type 0 where
  pub joined :
      (e : E) (request_id : ℕ) (room : RoomId) (client : ℕ) (k : Key)
      → (x.handle_event e (join request_id room client)).1 ≡ true
      → member (x.handle_event e (join request_id room client)).0 k
        ≡ ite (Key-discrete (room, client) k) true (member e k)
  pub left :
      (e : E) (request_id : ℕ) (room : RoomId) (client : ℕ) (reason : String) (k : Key)
      → (x.handle_event e (leave request_id room client reason)).1 ≡ true
      → member (x.handle_event e (leave request_id room client reason)).0 k
        ≡ ite (Key-discrete (room, client) k) false (member e k)
  pub refused :
      (e : E) (event : SfuEvent S) (k : Key)
      → (x.handle_event e event).1 ≡ false
      → member (x.handle_event e event).0 k ≡ member e k
  pub described :
      (e : E) (request_id : ℕ) (room : RoomId) (client : ℕ) (sdp : S) (k : Key)
      → member (x.handle_event e (session_description request_id room client sdp)).0 k ≡ member e k
  pub trickled :
      (e : E) (request_id : ℕ) (room : RoomId) (client : ℕ) (c : IceCandidate) (k : Key)
      → member (x.handle_event e (ice_candidate request_id room client c)).0 k ≡ member e k
