-- ===== src/Worker/Prefixed.antt =====
-- The prefix of a feature group in the signs (`indices_add_prefix` of embedding_worker_service/mod.rs).
use persia.Base.{
  ℕ, ◌+◌, ◌-◌, ◌*◌, ◌/◌, ◌^◌, ◌%◌, ◌≡◌, List, [], ◌∷◌, ◌==◌, Option, some, if◌then◌else◌,
}
use persia.Base.Map.{nat_eq, Map}
use persia.Common.{SingleSignInFeatureBatch}

-- The numbers below the prefix.
abbrev pub room : (bits : ℕ) → ℕ
room bits = 2 ^ (64 - bits)

-- A sign with the bits of the prefix replaced by the group `g`.
abbrev pub regroup : (r g sign : ℕ) → ℕ
regroup r g sign = sign % (r - 1) + g * r

-- Every sign of these is in the group `g`.
abbrev pub InGroup : (r g : ℕ) → List SingleSignInFeatureBatch → Type 0
InGroup r g [] = Unit
InGroup r g (x ∷ xs) = (x.sign / r ≡ g) × InGroup r g xs

abbrev pub regroup_single : (r g : ℕ) → SingleSignInFeatureBatch → SingleSignInFeatureBatch
regroup_single r g x = record x { sign = regroup r g x.sign }

-- The last of these entries whose key becomes `s`: its value, or else `found`.
abbrev pub last_of : (r g s : ℕ) → Map ℕ ℕ → (found : Option ℕ) → Option ℕ
last_of r g s [] found = found
last_of r g s ((id, i) ∷ entries) found =
    last_of r g s entries (if regroup r g id == s then some i else found)
