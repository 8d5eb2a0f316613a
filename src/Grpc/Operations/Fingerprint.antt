-- ===== src/Grpc/Operations/Fingerprint.antt =====
-- Which operations have one fingerprint.
use apprtc.Prelude.{◌≡◌, ◌↔◌, refl, sym, ◌∙◌, ap, some_inj, Option, some, none, List, [], ◌∷◌}
use apprtc.Grpc.Operations.{AuthorityOperation, Hashed, text, flag, number, room, hashed}

-- The operation without its time and without a fresh admission token.
abbrev pub lasting : AuthorityOperation → AuthorityOperation
lasting (AuthorityOperation.admit roomid clientid is_loopback _) =
    AuthorityOperation.admit roomid clientid is_loopback 0
lasting (AuthorityOperation.remove roomid clientid) = AuthorityOperation.remove roomid clientid
lasting (AuthorityOperation.occupancy roomid) = AuthorityOperation.occupancy roomid
lasting (AuthorityOperation.inject roomid clientid msg _) =
    AuthorityOperation.inject roomid clientid msg 0
lasting (AuthorityOperation.admit_v2 room_id client_id _ _) =
    AuthorityOperation.admit_v2 room_id client_id "" 0
lasting (AuthorityOperation.remove_v2 room_id client_id admission_token) =
    AuthorityOperation.remove_v2 room_id client_id admission_token
lasting (AuthorityOperation.occupancy_v2 room_id) = AuthorityOperation.occupancy_v2 room_id
lasting AuthorityOperation.status = AuthorityOperation.status

-- The operation is read back from the shape of what is hashed.
unhashed : List Hashed → Option AuthorityOperation
unhashed (text _ ∷ text roomid ∷ text clientid ∷ flag is_loopback ∷ []) =
    some (AuthorityOperation.admit roomid clientid is_loopback 0)
unhashed (text _ ∷ text roomid ∷ text clientid ∷ []) =
    some (AuthorityOperation.remove roomid clientid)
unhashed (text _ ∷ text roomid ∷ []) = some (AuthorityOperation.occupancy roomid)
unhashed (text _ ∷ text roomid ∷ text clientid ∷ text msg ∷ []) =
    some (AuthorityOperation.inject roomid clientid msg 0)
unhashed (text _ ∷ room room_id ∷ number client_id ∷ []) =
    some (AuthorityOperation.admit_v2 room_id client_id "" 0)
unhashed (text _ ∷ room room_id ∷ number client_id ∷ text admission_token ∷ []) =
    some (AuthorityOperation.remove_v2 room_id client_id admission_token)
unhashed (text _ ∷ room room_id ∷ []) = some (AuthorityOperation.occupancy_v2 room_id)
unhashed (text _ ∷ []) = some AuthorityOperation.status
unhashed _ = none

unhashed-hashed : (a : AuthorityOperation) → unhashed (hashed a) ≡ some (lasting a)
unfolding unhashed hashed
unhashed-hashed (AuthorityOperation.admit _ _ _ _) = refl
unhashed-hashed (AuthorityOperation.remove _ _) = refl
unhashed-hashed (AuthorityOperation.occupancy _) = refl
unhashed-hashed (AuthorityOperation.inject _ _ _ _) = refl
unhashed-hashed (AuthorityOperation.admit_v2 _ _ _ _) = refl
unhashed-hashed (AuthorityOperation.remove_v2 _ _ _) = refl
unhashed-hashed (AuthorityOperation.occupancy_v2 _) = refl
unhashed-hashed AuthorityOperation.status = refl

hashed-lasting : (a : AuthorityOperation) → hashed (lasting a) ≡ hashed a
unfolding hashed
hashed-lasting (AuthorityOperation.admit _ _ _ _) = refl
hashed-lasting (AuthorityOperation.remove _ _) = refl
hashed-lasting (AuthorityOperation.occupancy _) = refl
hashed-lasting (AuthorityOperation.inject _ _ _ _) = refl
hashed-lasting (AuthorityOperation.admit_v2 _ _ _ _) = refl
hashed-lasting (AuthorityOperation.remove_v2 _ _ _) = refl
hashed-lasting (AuthorityOperation.occupancy_v2 _) = refl
hashed-lasting AuthorityOperation.status = refl

-- Two operations feed the same values to the hasher exactly when they are the same up to their time
-- and the admission token of a V2 admission: a retry, which draws both anew, has the fingerprint of the
-- first try, and any other difference reaches the hasher.
pub hashed_iff : (a b : AuthorityOperation) → (hashed a ≡ hashed b) ↔ (lasting a ≡ lasting b)
hashed_iff a b = (
  λ h. some_inj (sym (unhashed-hashed a) ∙ (ap unhashed h ∙ unhashed-hashed b)),
  λ h. sym (hashed-lasting a) ∙ (ap hashed h ∙ hashed-lasting b),
)
