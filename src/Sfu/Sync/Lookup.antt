-- ===== src/Sfu/Sync/Lookup.antt =====
-- What each loop of `sync_room` leaves in the projection, key by key.
use apprtc.Prelude.{
  ℕ, ◌≡◌, refl, Option, some, none, List, [], ◌∷◌, ok, Bool, true, false, ite, not, ◌&&◌,
  ℕ_discrete, arith, if◌then◌else◌,
}
use apprtc.Prelude.HashMap.{HashMap, get-insert, get-remove}
use apprtc.Prelude.HashMap
use apprtc.Proto.{MemberProjection}
use apprtc.RoomId.{RoomId, RoomId-discrete}
use apprtc.Sfu.Engine.{External, Key-discrete, leave}
use apprtc.Sfu.Shard.{Shard, Projection}
use apprtc.Sfu.Sync.{contains_key, collect, stale, leave_stale, place_member, place_members}

-- Whether a client is listed.
abbrev pub listed : List ℕ → ℕ → Bool
listed [] c = false
listed (d ∷ ds) c = ite (ℕ_discrete d c) true (listed ds c)

-- The last entry of a client.
abbrev pub last_lifecycle : List MemberProjection → ℕ → Option ℕ
last_lifecycle [] c = none
last_lifecycle (member ∷ rest) c = elim (last_lifecycle rest c) [
  | some l ↦ some l
  | none ↦ ite (ℕ_discrete member.client_id c) (some member.lifecycle_id) none
]

abbrev pub stamped : ℕ → Option ℕ → Option (ℕ × ℕ)
stamped epoch none = none
stamped epoch (some l) = some (l, epoch)

abbrev pub first_some {ℓ} : {A : Type ℓ} → Option A → Option A → Option A
first_some (some a) b = some a
first_some none b = b

pub get-collect :
    (m : HashMap ℕ ℕ) (members : List MemberProjection) (c : ℕ)
    → HashMap.get ℕ_discrete (collect m members) c
      ≡ first_some (last_lifecycle members c) (HashMap.get ℕ_discrete m c)
unfolding collect
get-collect m [] c = refl
get-collect m (member ∷ rest) c = ground (
  arith,
  get-collect (HashMap.insert ℕ_discrete m member.client_id member.lifecycle_id) rest c,
  get-insert ℕ_discrete m member.client_id c member.lifecycle_id,
)

-- A client is stale when the projection has it in the room and it is not wanted.
pub listed-stale :
    (room : RoomId) (wanted : HashMap ℕ ℕ) (p : Projection) (c : ℕ)
    → listed (stale room wanted p) c
      ≡ (contains_key Key-discrete p (room, c) && not (contains_key ℕ_discrete wanted c))
unfolding stale contains_key HashMap.get
listed-stale room wanted [] c = refl
listed-stale room wanted (((candidate, client), stamp) ∷ p) c =
    ground (arith, listed-stale room wanted p c)

module _ {E V S : Type 0} (x : External E V S) (request_id : ℕ) (room : RoomId) where
  -- The departures forget exactly the listed clients of the room.
  pub get-leave_stale :
      (cs : List ℕ) (s : Shard E) (r : RoomId) (c : ℕ)
      → (leave_stale x request_id room cs s).1 ≡ ok tt
      → HashMap.get Key-discrete (leave_stale x request_id room cs s).0.projection (r, c)
        ≡ ite
            (RoomId-discrete room r)
            (if listed cs c then none else HashMap.get Key-discrete s.projection (r, c))
            (HashMap.get Key-discrete s.projection (r, c))
  unfolding leave_stale
  get-leave_stale [] s r c h = ground arith
  get-leave_stale (d ∷ ds) s r c h = ground (
    arith,
    get-remove Key-discrete s.projection (room, d) (r, c),
    get-leave_stale ds
        (record {
          engine = (x.handle_event s.engine (leave request_id room d "room synchronization")).0;
          projection = HashMap.remove Key-discrete s.projection (room, d);
        })
        r c,
  )

  module _ (epoch : ℕ) where
    pub get-place_member :
        (member : MemberProjection) (s : Shard E) (r : RoomId) (c : ℕ)
        → (place_member x request_id room epoch member s).1 ≡ ok tt
        → HashMap.get Key-discrete
            (place_member x request_id room epoch member s).0.projection
            (r, c)
          ≡ ite
              (Key-discrete (room, member.client_id) (r, c))
              (some (member.lifecycle_id, epoch))
              (HashMap.get Key-discrete s.projection (r, c))
    unfolding place_member
    get-place_member member s r c h = ground (
      arith,
      get-insert Key-discrete s.projection (room, member.client_id) (r, c)
          (member.lifecycle_id, epoch),
    )

    -- The arrivals stamp every listed client of the room with its last lifecycle and the epoch.
    pub get-place_members :
        (members : List MemberProjection) (s : Shard E) (r : RoomId) (c : ℕ)
        → (place_members x request_id room epoch members s).1 ≡ ok tt
        → HashMap.get Key-discrete
            (place_members x request_id room epoch members s).0.projection
            (r, c)
          ≡ ite
              (RoomId-discrete room r)
              (first_some
                (stamped epoch (last_lifecycle members c))
                (HashMap.get Key-discrete s.projection (r, c)))
              (HashMap.get Key-discrete s.projection (r, c))
    unfolding place_members
    get-place_members [] s r c h = ground arith
    get-place_members (member ∷ rest) s r c h = ground (
      arith,
      get-place_member member s r c,
      get-place_members rest (place_member x request_id room epoch member s).0 r c,
    )
