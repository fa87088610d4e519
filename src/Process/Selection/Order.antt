-- ===== src/Process/Selection/Order.antt =====
-- The processes that are kept do not depend on the order in which they were read
-- (internal/modules/process/filter.go).
use mathlib.Core.List.{Permᴰ}
use my_own_agent.Prelude.{
  ℕ, zero, suc, ◌≡◌, refl, sym, ap, ◌∙◌, Bool, true, false, Option, none, some, List, [], ◌∷◌,
  length, take, ap-if, arith, insert_by, sort_by, Strict, sort_by_reordered, lex_lt-Strict,
}
use my_own_agent.Process.Selection.{
  FloatOrder, Candidate, Settings, first_by, known_first, natural_less, SelectionKey, key_lt,
  capped, key_of, selected_before, select_processes,
}

module _ {A B : Type 0} (less : A → A → Bool) (after : B → B → Bool) (p : Strict less)
    (q : Strict after) where
  first_by-Strict : Strict (first_by less after)
  first_by-Strict = record {
    asym = λ (a, b) (c, d) h. ground (arith, p.asym a c, p.asym c a, q.asym b d);
    transitive = λ (a, b) (c, d) (e, f) h k. ground (
      arith,
      p.transitive a c e,
      p.asym a c,
      p.asym c e,
      p.asym a e,
      p.connected a c,
      p.connected c e,
      p.connected a e,
      p.transitive e a c,
      p.transitive c e a,
      q.transitive b d f,
    );
    connected = λ (a, b) (c, d) h k.
        ap (λ x. (x, b)) (p.connected a c (ground (arith, p.asym a c)) (ground (arith, p.asym a c)))
        ∙ ap (λ y. (c, y))
            (q.connected b d (ground (arith, p.asym a c, p.asym c a))
              (ground (arith, p.asym a c, p.asym c a)));
  }

known_first-Strict : {A : Type 0} (less : A → A → Bool) → Strict less → Strict (known_first less)
known_first-Strict {A} less p = record {
  asym = asym;
  transitive = transitive;
  connected = connected;
}
  where
    asym : (x y : Option A) → known_first less x y ≡ true → known_first less y x ≡ false
    asym none y h = ground arith
    asym (some a) none h = refl
    asym (some a) (some b) h = p.asym b a h

    transitive :
        (x y z : Option A)
        → known_first less x y ≡ true
        → known_first less y z ≡ true
        → known_first less x z ≡ true
    transitive none y z h k = ground arith
    transitive (some a) y none h k = refl
    transitive (some a) none (some d) h k = ground arith
    transitive (some a) (some b) (some d) h k = p.transitive d b a k h

    connected :
        (x y : Option A) → known_first less x y ≡ false → known_first less y x ≡ false → x ≡ y
    connected none none h k = refl
    connected none (some b) h k = ground arith
    connected (some a) none h k = ground arith
    connected (some a) (some b) h k = ap (λ (c : A). some c) (p.connected a b k h)

pub natural_less-Strict : Strict natural_less
natural_less-Strict = record {
  asym = λ a b h. ground arith;
  transitive = λ a b c h k. ground arith;
  connected = λ a b h k. ground arith;
}

key_lt-Strict : {F : Type 0} (less : F → F → Bool) → Strict less → Strict (key_lt less)
key_lt-Strict less p = first_by-Strict _ _ natural_less-Strict (
    first_by-Strict _ _ (known_first-Strict less p) (
      first_by-Strict _ _ (known_first-Strict natural_less natural_less-Strict)
        (first_by-Strict _ _ lex_lt-Strict natural_less-Strict)))

module _ {F : Type 0} (f : FloatOrder F) (s : Settings F) where
  -- What the order reads of the processes of a list.
  abbrev pub keys_of : List (Candidate F) → List (SelectionKey F)
  keys_of [] = []
  keys_of (o ∷ os) = key_of f s o ∷ keys_of os

  keys_of-insert_by :
      (o : Candidate F) (l : List (Candidate F))
      → keys_of (insert_by (selected_before f s) o l)
        ≡ insert_by (key_lt f.less) (key_of f s o) (keys_of l)
  unfolding insert_by selected_before
  keys_of-insert_by o [] = refl
  keys_of-insert_by o (x ∷ l) =
      ap-if keys_of (key_lt f.less (key_of f s x) (key_of f s o))
        (ap (λ t. key_of f s x ∷ t) (keys_of-insert_by o l)) refl

  keys_of-sort_by :
      (l : List (Candidate F))
      → keys_of (sort_by (selected_before f s) l) ≡ sort_by (key_lt f.less) (keys_of l)
  unfolding sort_by
  keys_of-sort_by [] = refl
  keys_of-sort_by (o ∷ l) =
      keys_of-insert_by o (sort_by (selected_before f s) l)
      ∙ ap (insert_by (key_lt f.less) (key_of f s o)) (keys_of-sort_by l)

  keys_of-take : (n : ℕ) (l : List (Candidate F)) → keys_of (take n l) ≡ take n (keys_of l)
  keys_of-take zero l = refl
  keys_of-take (suc n) [] = refl
  keys_of-take (suc n) (o ∷ l) = ap (λ t. key_of f s o ∷ t) (keys_of-take n l)

  length-keys_of : (l : List (Candidate F)) → length (keys_of l) ≡ length l
  length-keys_of [] = refl
  length-keys_of (o ∷ l) = ap suc (length-keys_of l)

  keys_of-capped :
      (max : ℕ) (l : List (Candidate F))
      → (keys_of (capped max l).0 ≡ (capped max (keys_of l)).0)
        × ((capped max l).1 ≡ (capped max (keys_of l)).1)
  keys_of-capped max l = ground (arith, keys_of-take max l, length-keys_of l)

  keys_of-Permᴰ : {xs ys : List (Candidate F)} → Permᴰ xs ys → Permᴰ (keys_of xs) (keys_of ys)
  keys_of-Permᴰ Permᴰ.nil = Permᴰ.nil
  keys_of-Permᴰ (Permᴰ.cons e p) = Permᴰ.cons (ap (key_of f s) e) (keys_of-Permᴰ p)
  keys_of-Permᴰ (Permᴰ.swap e g) = Permᴰ.swap (ap (key_of f s) e) (ap (key_of f s) g)
  keys_of-Permᴰ (Permᴰ.trans p q) = Permᴰ.trans (keys_of-Permᴰ p) (keys_of-Permᴰ q)

  -- What is kept, and how many are dropped, does not depend on the order in which the processes were
  -- read: the PID, name, rank, processor and memory of each process kept are the same, where the
  -- order of floats is a strict total one.
  pub select_processes-Permᴰ :
      Strict f.less
      → {xs ys : List (Candidate F)} → Permᴰ xs ys
      → (keys_of (select_processes f s xs).0 ≡ keys_of (select_processes f s ys).0)
        × ((select_processes f s xs).1 ≡ (select_processes f s ys).1)
  unfolding select_processes
  select_processes-Permᴰ p {xs} {ys} q =
      let (kept, dropped) = keys_of-capped s.max_processes (sort_by (selected_before f s) xs) in
      let (kept', dropped') = keys_of-capped s.max_processes (sort_by (selected_before f s) ys) in
      (
        kept ∙ ap (λ l. (capped s.max_processes l).0) same ∙ sym kept',
        dropped ∙ ap (λ l. (capped s.max_processes l).1) same ∙ sym dropped',
      )
    where
      same : keys_of (sort_by (selected_before f s) xs) ≡ keys_of (sort_by (selected_before f s) ys)
      same =
          keys_of-sort_by xs
          ∙ sort_by_reordered (key_lt f.less) (key_lt-Strict f.less p) (keys_of-Permᴰ q)
          ∙ sym (keys_of-sort_by ys)
