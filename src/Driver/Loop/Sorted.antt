-- ===== src/Driver/Loop/Sorted.antt =====
-- The connections that drain_outputs of signaling_server.rs finds gone, after they are sorted.
use apprtc.Prelude.{ℕ, ◌+◌, ◌<◌, ◌≤◌, ◌≡◌, refl, List, [], ◌∷◌, arith, ℕ_discrete, ite}
use apprtc.Driver.Loop.{insert_sorted, sort, dedup}

-- How often a number stands in a list.
abbrev pub occurrences : ℕ → List ℕ → ℕ
occurrences n [] = 0
occurrences n (a ∷ rest) = ite (ℕ_discrete a n) 1 0 + occurrences n rest

abbrev IsOrdered : List ℕ → Type 0
IsOrdered [] = Unit
IsOrdered (a ∷ []) = Unit
IsOrdered (a ∷ b ∷ bs) = (a ≤ b) × IsOrdered (b ∷ bs)

occurrences-insert_sorted :
    (n a : ℕ) (bs : List ℕ) → occurrences n (insert_sorted a bs) ≡ occurrences n (a ∷ bs)
unfolding insert_sorted
occurrences-insert_sorted n a [] = refl
occurrences-insert_sorted n a (b ∷ bs) = ground (arith, occurrences-insert_sorted n a bs)

occurrences-sort : (n : ℕ) (xs : List ℕ) → occurrences n (sort xs) ≡ occurrences n xs
unfolding sort
occurrences-sort n [] = refl
occurrences-sort n (a ∷ xs) =
    ground (arith, occurrences-insert_sorted n a (sort xs), occurrences-sort n xs)

IsOrdered-insert_sorted : (a : ℕ) (bs : List ℕ) → IsOrdered bs → IsOrdered (insert_sorted a bs)
unfolding insert_sorted
IsOrdered-insert_sorted a [] o = tt
IsOrdered-insert_sorted a (b ∷ []) o = ground arith
IsOrdered-insert_sorted a (b ∷ c ∷ cs) o = ground (arith, o, IsOrdered-insert_sorted a (c ∷ cs) o.1)

IsOrdered-sort : (xs : List ℕ) → IsOrdered (sort xs)
unfolding sort
IsOrdered-sort [] = tt
IsOrdered-sort (a ∷ xs) = IsOrdered-insert_sorted a (sort xs) (IsOrdered-sort xs)

occurrences_below :
    (n a : ℕ) (bs : List ℕ) → IsOrdered (a ∷ bs) → n < a → occurrences n (a ∷ bs) ≡ 0
occurrences_below n a [] o h = ground arith
occurrences_below n a (b ∷ bs) o h =
    let further = occurrences_below n b bs o.1 (omega (arith, o.0)) in ground arith

occurrences-dedup :
    (n : ℕ) (xs : List ℕ)
    → IsOrdered xs
    → occurrences n (dedup xs) ≡ ite (ℕ_discrete (occurrences n xs) 0) 0 1
unfolding dedup
occurrences-dedup n [] o = ground arith
occurrences-dedup n (a ∷ []) o = ground arith
occurrences-dedup n (a ∷ b ∷ bs) o =
    let rest = occurrences-dedup n (b ∷ bs) o.1 in ground (arith, occurrences_below n b bs o.1, o.0)

-- `sort_unstable` and `dedup` leave every connection that was found gone exactly once, and no other.
pub occurrences-dedup-sort :
    (n : ℕ) (gone : List ℕ)
    → occurrences n (dedup (sort gone)) ≡ ite (ℕ_discrete (occurrences n gone) 0) 0 1
occurrences-dedup-sort n gone =
    let same = occurrences-sort n gone in
    ground (arith, occurrences-dedup n (sort gone) (IsOrdered-sort gone))
