-- ===== src/Supervisor/Graph/Counting.antt =====
-- How often an ID stands in a list, and the facts about it that the proofs on the graph share.
use my_own_agent.Prelude.{
  ℕ, suc, ◌+◌, ◌≤◌, ◌≡◌, refl, Bool, List, [], ◌∷◌, ◌++◌, length, leb, ◌==◌, str_eq, eq_iff,
  count_by, arith, if◌then◌else◌,
}
use my_own_agent.Supervisor.Graph.{ModuleId, contains, filter_ids}

abbrev pub count : ModuleId → List ModuleId → ℕ
count x ys = count_by (λ y. str_eq y x) ys

pub contains-eq-count : (x : ModuleId) (ys : List ModuleId) → contains x ys ≡ leb 1 (count x ys)
contains-eq-count x [] = refl
contains-eq-count x (y ∷ ys) = ground (arith, contains-eq-count x ys)

pub count-append :
    (x : ModuleId) (xs ys : List ModuleId) → count x (xs ++ ys) ≡ count x xs + count x ys
count-append x [] ys = omega arith
count-append x (z ∷ xs) ys = omega (arith, count-append x xs ys)

pub count-filter_ids :
    (p : ModuleId → Bool) (x : ModuleId) (xs : List ModuleId)
    → count x (filter_ids p xs) ≡ (if p x then count x xs else 0)
unfolding filter_ids
count-filter_ids p x [] = ground arith
count-filter_ids p x (y ∷ ys) = ground (arith, count-filter_ids p x ys, eq_iff y x)

-- How many items of `ds` do not stand in `order`.
abbrev pub pending : List ModuleId → List ModuleId → ℕ
pending order ds = count_by (λ d. count d order == 0) ds

pub pending-snoc :
    (id : ModuleId) (order ds : List ModuleId)
    → count id order ≡ 0
    → pending (order ++ id ∷ []) ds + count id ds ≡ pending order ds
pending-snoc id order [] h = omega arith
pending-snoc id order (d ∷ ds) h =
    ground
      (arith, pending-snoc id order ds h, count-append d order (id ∷ []), eq_iff d id, eq_iff id d)

pub pending-nil : (ds : List ModuleId) → pending [] ds ≡ length ds
pending-nil [] = refl
pending-nil (d ∷ ds) = omega (arith, pending-nil ds)

-- Where nothing is pending, each item stands in `order`.
pub placed_of_pending :
    (order ds : List ModuleId) (d : ModuleId)
    → pending order ds ≡ 0
    → 1 ≤ count d ds
    → 1 ≤ count d order
placed_of_pending order [] d h m = absurd (omega arith)
placed_of_pending order (x ∷ ds) d h m = ground (arith, placed_of_pending order ds d, eq_iff x d)

pub pending_of_placed :
    (order ds : List ModuleId)
    → ((d : ModuleId) → 1 ≤ count d ds → 1 ≤ count d order)
    → pending order ds ≡ 0
pending_of_placed order [] h = refl
pending_of_placed order (x ∷ ds) h =
    ground (arith, pending_of_placed order ds (λ d m. h d (ground arith)), h x, eq_iff x x)

-- A list without one of its items.
abbrev remove_one : ModuleId → List ModuleId → List ModuleId
remove_one x [] = []
remove_one x (y ∷ ys) = let rest = remove_one x ys in if str_eq y x then ys else y ∷ rest

length-remove_one :
    (x : ModuleId) (ys : List ModuleId)
    → 1 ≤ count x ys
    → suc (length (remove_one x ys)) ≡ length ys
length-remove_one x [] h = absurd (omega arith)
length-remove_one x (y ∷ ys) h = ground (arith, length-remove_one x ys)

count-remove_one :
    (x z : ModuleId) (ys : List ModuleId)
    → 1 ≤ count x ys
    → count z (remove_one x ys) + (if str_eq x z then 1 else 0) ≡ count z ys
count-remove_one x z [] h = absurd (omega arith)
count-remove_one x z (y ∷ ys) h =
    ground (arith, count-remove_one x z ys, eq_iff y x, eq_iff y z, eq_iff x z)

-- A list that has no item more often than another is not longer.
pub length-le_of_count :
    (xs ys : List ModuleId) → ((z : ModuleId) → count z xs ≤ count z ys) → length xs ≤ length ys
length-le_of_count [] ys h = omega arith
length-le_of_count (x ∷ xs) ys h =
    let found : 1 ≤ count x ys = ground (arith, h x, eq_iff x x) in
    omega (
      arith,
      length-remove_one x ys found,
      length-le_of_count xs (remove_one x ys)
          (λ z. ground (arith, h z, count-remove_one x z ys found)),
    )

-- If it is not shorter either, it has each item as often.
pub count-eq_of_length :
    (xs ys : List ModuleId)
    → ((z : ModuleId) → count z xs ≤ count z ys)
    → length ys ≤ length xs
    → (z : ModuleId) → count z xs ≡ count z ys
count-eq_of_length [] [] h l z = refl
count-eq_of_length [] (y ∷ ys) h l z = absurd (omega arith)
count-eq_of_length (x ∷ xs) ys h l z =
    let found : 1 ≤ count x ys = ground (arith, h x, eq_iff x x) in
    let shorter : length (remove_one x ys) ≤ length xs =
      omega (arith, length-remove_one x ys found) in
    omega (
      arith,
      count-remove_one x z ys found,
      count-eq_of_length xs (remove_one x ys)
          (λ w. ground (arith, h w, count-remove_one x w ys found)) shorter z,
    )
