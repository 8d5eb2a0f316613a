-- ===== src/Prelude/HashMap.antt =====
-- `std::collections::HashMap` as an association list: an existing key is written in place, a new key
-- goes to the end. What the code does must not depend on the order in which a map is walked.
use Prim.Native.Nat.{suc}
use mathlib.Core.Path.{◌≡◌, refl, sym, ap}
use mathlib.Core.Logic.{◌≢◌, ite, if_neg}
use mathlib.Core.List.{List, [], ◌∷◌, ◌++◌}
use mathlib.Core.Option.{Option, none, some}
use native.Mathlib.Omega.{arith}
use apprtc.Prelude.Lists.{length, NotIn}

abbrev pub HashMap {ℓ} : Type ℓ → Type ℓ → Type ℓ
HashMap K V = List (K × V)

module _ {ℓ} {K V : Type ℓ} where
  abbrev pub keys : HashMap K V → List K
  keys [] = []
  keys ((j, _) ∷ m) = j ∷ keys m

module _ {ℓ} {K V : Type ℓ} (dec : Discrete K) where
  unfoldable pub get : HashMap K V → K → Option V
  get [] k = none
  get ((j, v) ∷ m) k = ite (dec j k) (some v) (get m k)

  unfoldable pub insert : HashMap K V → K → V → HashMap K V
  insert [] k v = (k, v) ∷ []
  insert ((j, w) ∷ m) k v = ite (dec j k) ((j, v) ∷ m) ((j, w) ∷ insert m k v)

  unfoldable pub remove : HashMap K V → K → HashMap K V
  remove [] k = []
  remove ((j, v) ∷ m) k = let rest = remove m k in ite (dec j k) rest ((j, v) ∷ rest)

module _ {ℓ} {K V : Type ℓ} (dec : Discrete K) where
  pub get-insert :
      (m : HashMap K V) (k j : K) (v : V)
      → get dec (insert dec m k v) j ≡ ite (dec k j) (some v) (get dec m j)
  unfolding get insert
  get-insert [] k j v = refl
  get-insert ((i, w) ∷ m) k j v = ground (arith, get-insert m k j v)

  pub get-remove :
      (m : HashMap K V) (k j : K) → get dec (remove dec m k) j ≡ ite (dec k j) none (get dec m j)
  unfolding get remove
  get-remove [] k j = ground arith
  get-remove ((i, w) ∷ m) k j = ground (arith, get-remove m k j)

  pub keys-insert_new :
      (m : HashMap K V) (k : K) (v : V)
      → get dec m k ≡ none
      → keys (insert dec m k v) ≡ keys m ++ k ∷ []
  unfolding get insert
  keys-insert_new [] k v h = refl
  keys-insert_new ((i, w) ∷ m) k v h = ground (arith, keys-insert_new m k v)

  pub keys-insert_old :
      (m : HashMap K V) (k : K) (v w : V) → get dec m k ≡ some w → keys (insert dec m k v) ≡ keys m
  unfolding get insert
  keys-insert_old [] k v w h = ground arith
  keys-insert_old ((i, u) ∷ m) k v w h = ground (arith, keys-insert_old m k v w)

  pub NotIn-keys : (m : HashMap K V) (k : K) → get dec m k ≡ none → NotIn k (keys m)
  unfolding get
  NotIn-keys [] k h = tt
  NotIn-keys ((i, w) ∷ m) k h = elim (dec i k) [
    | yes p ↦ absurd (ground arith)
    | no p ↦ ((λ e. p (sym e)), NotIn-keys m k (ground arith))
  ]

  pub get_of_NotIn : (m : HashMap K V) (k : K) → NotIn k (keys m) → get dec m k ≡ none
  unfolding get
  get_of_NotIn [] k h = refl
  get_of_NotIn ((i, w) ∷ m) k h = rw (if_neg _ (λ e. h.0 (sym e))) (get_of_NotIn m k h.1)

  pub remove_absent : (m : HashMap K V) (k : K) → NotIn k (keys m) → remove dec m k ≡ m
  unfolding remove
  remove_absent [] k h = refl
  remove_absent ((i, w) ∷ m) k h =
      rw (if_neg _ (λ e. h.0 (sym e))) (ap (◌∷◌ (i, w)) (remove_absent m k h.1))

module _ {ℓ} {K V : Type ℓ} where
  pub length-keys : (m : HashMap K V) → length (keys m) ≡ length m
  length-keys [] = refl
  length-keys (e ∷ m) = ap suc (length-keys m)

module _ {ℓ} {K V : Type ℓ} (dec : Discrete K) (m : HashMap K V) where
  pub get-insert_self : (k : K) (v : V) → get dec (insert dec m k v) k ≡ some v
  get-insert_self k v = ground (arith, get-insert dec m k k v)

  pub get-insert_ne : (k : K) {j : K} (v : V) → j ≢ k → get dec (insert dec m k v) j ≡ get dec m j
  get-insert_ne k {j} v ne = ground (arith, get-insert dec m k j v)

  pub get-remove_self : (k : K) → get dec (remove dec m k) k ≡ none
  get-remove_self k = ground (arith, get-remove dec m k k)

  pub get-remove_ne : (k : K) {j : K} → j ≢ k → get dec (remove dec m k) j ≡ get dec m j
  get-remove_ne k {j} ne = ground (arith, get-remove dec m k j)
