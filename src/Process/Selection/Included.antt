-- ===== src/Process/Selection/Included.antt =====
-- The processes that the configuration names are kept (internal/modules/process/filter.go).
use my_own_agent.Prelude.{
  ℕ, zero, suc, ◌+◌, ◌≤◌, ◌<◌, ◌≡◌, refl, ◌∙◌, Bool, true, false, List, [], ◌∷◌, length, take,
  if_cases, arith, insert_by, sort_by, count_by, count_by-insert_by, count_by-sort_by,
}
use my_own_agent.Process.Selection.{
  FloatOrder, Candidate, Settings, explicitly_included, selection_rank, capped, key_of,
  selected_before, select_processes,
}

module _ {A : Type 0} (p : A → Bool) where
  -- The items that pass the test stand ahead of all that do not.
  abbrev Leading : List A → Type 0
  Leading [] = Unit
  Leading (x ∷ l) = (p x ≡ false → count_by p l ≡ 0) × Leading l

  insert_by-Leading :
      (lt : A → A → Bool)
      → ((x y : A) → p x ≡ true → p y ≡ false → lt y x ≡ false)
      → ((x y : A) → p x ≡ false → p y ≡ true → lt y x ≡ true)
      → (x : A) (l : List A) → Leading l
      → Leading (insert_by lt x l)
  unfolding insert_by
  insert_by-Leading lt low high x [] h = (λ _. refl, tt)
  insert_by-Leading lt low high x (y ∷ l) h =
      if_cases Leading (lt y x)
        (λ e. (
          λ n. ground (arith, count_by-insert_by p lt x l, low x y, h.0 n),
          insert_by-Leading lt low high x l h.1,
        ))
        (λ e. (λ n. ground (arith, high x y, h.0), h))

  sort_by-Leading :
      (lt : A → A → Bool)
      → ((x y : A) → p x ≡ true → p y ≡ false → lt y x ≡ false)
      → ((x y : A) → p x ≡ false → p y ≡ true → lt y x ≡ true)
      → (l : List A) → Leading (sort_by lt l)
  unfolding sort_by
  sort_by-Leading lt low high [] = tt
  sort_by-Leading lt low high (x ∷ l) =
      insert_by-Leading lt low high x (sort_by lt l) (sort_by-Leading lt low high l)

  count_by-take :
      (n : ℕ) (l : List A) → Leading l → count_by p l ≤ n → count_by p (take n l) ≡ count_by p l
  count_by-take zero l h k = omega arith
  count_by-take (suc n) [] h k = refl
  count_by-take (suc n) (x ∷ l) h k = ground (arith, count_by-take n l h.1, h.0)

length-take_le : {A : Type 0} (n : ℕ) (l : List A) → n ≤ length l → length (take n l) ≡ n
length-take_le zero l h = refl
length-take_le (suc n) [] h = absurd (omega arith)
length-take_le (suc n) (x ∷ l) h = omega (arith, length-take_le n l (omega arith))

length-insert_by :
    {A : Type 0} (lt : A → A → Bool) (x : A) (l : List A) → length (insert_by lt x l) ≡ length l + 1
unfolding insert_by
length-insert_by lt x [] = refl
length-insert_by lt x (y ∷ l) = ground (arith, length-insert_by lt x l)

length-sort_by : {A : Type 0} (lt : A → A → Bool) (l : List A) → length (sort_by lt l) ≡ length l
unfolding sort_by
length-sort_by lt [] = refl
length-sort_by lt (x ∷ l) = omega (arith, length-insert_by lt x (sort_by lt l), length-sort_by lt l)

-- The numbers of a cap add up, and no more are kept than it allows.
capped_numbers :
    {A : Type 0} (max : ℕ) (l : List A)
    → (length (capped max l).0 + (capped max l).1 ≡ length l)
      × (0 < max → length (capped max l).0 ≤ max)
capped_numbers max l =
    (ground (arith, length-take_le max l), λ h. ground (arith, length-take_le max l))

capped_count :
    {A : Type 0} (p : A → Bool) (max : ℕ) (l : List A)
    → Leading p l
    → count_by p l ≤ max
    → count_by p (capped max l).0 ≡ count_by p l
capped_count p max l h k = ground (arith, count_by-take p max l h k)

module _ {F : Type 0} (f : FloatOrder F) (s : Settings F) where
  named_lower :
      (x y : Candidate F)
      → explicitly_included s x ≡ true
      → explicitly_included s y ≡ false
      → selected_before f s y x ≡ false
  unfolding selected_before key_of selection_rank
  named_lower x y h k = ground arith

  named_higher :
      (x y : Candidate F)
      → explicitly_included s x ≡ false
      → explicitly_included s y ≡ true
      → selected_before f s y x ≡ true
  unfolding selected_before key_of selection_rank
  named_higher x y h k = ground arith

  -- All the processes that the configuration names are kept, where there are no more of them than the
  -- cap; those kept and those counted as dropped are together all there are, and no more than the cap
  -- are kept, if there is one.
  pub select_processes-keeps_named :
      (l : List (Candidate F))
      → count_by (explicitly_included s) l ≤ s.max_processes
      → (count_by (explicitly_included s) (select_processes f s l).0
          ≡ count_by (explicitly_included s) l)
        × (length (select_processes f s l).0 + (select_processes f s l).1 ≡ length l)
        × (0 < s.max_processes → length (select_processes f s l).0 ≤ s.max_processes)
  unfolding select_processes
  select_processes-keeps_named l h =
      let named = explicitly_included s in
      let sorted = sort_by (selected_before f s) l in
      let same : count_by named sorted ≡ count_by named l =
        count_by-sort_by named (selected_before f s) l in
      let (together, within) = capped_numbers s.max_processes sorted in
      (
        capped_count named s.max_processes sorted
              (sort_by-Leading named (selected_before f s) named_lower named_higher l) (omega arith)
            ∙ same,
        together ∙ length-sort_by (selected_before f s) l,
        within,
      )
