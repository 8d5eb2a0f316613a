-- ===== src/Room/Simulates.antt =====
-- When the handlers of room_server.rs cannot tell one RoomAuthority from another: the interface of the
-- trait, taken twice, with a relation between the states. The relation at `n` is good for `n` calls.
use apprtc.Prelude.{ℕ, zero, suc, String, ◌+◌, ◌≡◌, Bool, subst, arith}
use apprtc.RoomId.{RoomId}
use apprtc.Room.Server.{RoomAuthority, Inner}
pub mod Handlers
pub mod Pages
pub mod Router

-- The same answer, and states that go on alike.
abbrev pub IsMatched : {S T V : Type 0} → (S → T → Type 0) → S × V → T × V → Type 0
IsMatched R p q = R p.0 q.0 × (p.1 ≡ q.1)

pub record Simulates {S T : Type 0} (valid : RoomId → Type 0) (R : ℕ → S → T → Type 0)
    (a : RoomAuthority S) (b : RoomAuthority T) : Type 0 where
  pub fewer : (n : ℕ) (s : S) (t : T) → R (n + 1) s t → R n s t
  pub admit :
      (room client : String) (loopback : Bool) (n : ℕ) (s : S) (t : T)
      → R (n + 1) s t
      → IsMatched (R n) (a.admit room client loopback s) (b.admit room client loopback t)
  pub remove :
      (room client : String) (n : ℕ) (s : S) (t : T)
      → R (n + 1) s t
      → IsMatched (R n) (a.remove room client s) (b.remove room client t)
  pub occupancy :
      (room : String) (n : ℕ) (s : S) (t : T)
      → R (n + 1) s t
      → IsMatched (R n) (a.occupancy room s) (b.occupancy room t)
  pub inject :
      (room client message : String) (n : ℕ) (s : S) (t : T)
      → R (n + 1) s t
      → IsMatched (R n) (a.inject room client message s) (b.inject room client message t)
  pub admit_v2 :
      (room : RoomId) (client : ℕ) (n : ℕ) (s : S) (t : T)
      → valid room
      → R (n + 1) s t
      → IsMatched (R n) (a.admit_v2 room client s) (b.admit_v2 room client t)
  pub remove_v2 :
      (room : RoomId) (client : ℕ) (token : String) (n : ℕ) (s : S) (t : T)
      → valid room
      → R (n + 1) s t
      → IsMatched (R n) (a.remove_v2 room client token s) (b.remove_v2 room client token t)
  pub status : (n : ℕ) (s : S) (t : T) → R (n + 1) s t → IsMatched (R n) (a.status s) (b.status t)

-- Servers alike: their authorities are related, and they counted as many errors.
abbrev pub IsAlike : {S T V : Type 0} → (S → T → Type 0) → Inner S × V → Inner T × V → Type 0
IsAlike R p q = R p.0.authority q.0.authority × (p.0.http_errors ≡ q.0.http_errors) × (p.1 ≡ q.1)

module _ {S T : Type 0} (valid : RoomId → Type 0) (R : ℕ → S → T → Type 0) (a : RoomAuthority S)
    (b : RoomAuthority T) (m : Simulates valid R a b) where
  pub fewer_by : (k n : ℕ) (s : S) (t : T) → R (n + k) s t → R n s t
  fewer_by zero n s t r = subst (λ i. R i s t) (omega arith) r
  fewer_by (suc k) n s t r =
      m.fewer n s t (fewer_by k (n + 1) s t (subst (λ i. R i s t) (omega arith) r))
