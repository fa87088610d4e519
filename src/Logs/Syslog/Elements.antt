-- ===== src/Logs/Syslog/Elements.antt =====
-- Structured data is stepped over as a whole (skipStructuredData and endOfSDElement of
-- internal/modules/logs/syslog.go).
use my_own_agent.Prelude.{
  ℕ, zero, suc, ◌≤◌, ◌≡◌, refl, ap, ◌∙◌, Bool, true, false, Option, none, some, List, [], ◌∷◌, ◌++◌,
  length, length-append, any, arith,
}
use my_own_agent.Logs.Severity.{Bytes, has_prefix, trim_left, is_space}
use my_own_agent.Logs.Syslog.{after_sd_element, skip_elements, skip_structured_data}
use my_own_agent.Logs.Syslog.Wire.{
  Param, Element, escape, write_params, write_elements, write_structured_data, bad_name, bad_param,
  bad_element,
}

after_name :
    (name rest : Bytes)
    → bad_name name ≡ false
    → after_sd_element false false (name ++ rest) ≡ after_sd_element false false rest
unfolding after_sd_element
after_name [] rest h = refl
after_name (c ∷ cs) rest h = ground (arith, after_name cs rest)

after_value :
    (value rest : Bytes)
    → after_sd_element true false (escape value ++ 34 ∷ rest) ≡ after_sd_element false false rest
unfolding after_sd_element
after_value [] rest = refl
after_value (c ∷ cs) rest = ground (arith, after_value cs rest)

after_params :
    (ps : List Param) (rest : Bytes)
    → any bad_param ps ≡ false
    → after_sd_element false false (write_params ps rest) ≡ some rest
unfolding after_sd_element
after_params [] rest h = refl
after_params (p ∷ ps) rest h =
    after_name p.name (61 ∷ 34 ∷ (escape p.value ++ (34 ∷ write_params ps rest))) (ground arith)
    ∙ after_value p.value (write_params ps rest)
    ∙ after_params ps rest (ground arith)

after_element :
    (e : Element) (rest : Bytes)
    → bad_element e ≡ false
    → after_sd_element false false (91 ∷ (e.name ++ write_params e.params rest)) ≡ some rest
unfolding after_sd_element
after_element e rest h =
    after_name e.name (write_params e.params rest) (ground arith)
    ∙ after_params e.params rest (ground arith)

skip_elements_stop : (n : ℕ) (s : Bytes) → has_prefix (91 ∷ []) s ≡ false → skip_elements n s ≡ s
unfolding skip_elements
skip_elements_stop zero s h = refl
skip_elements_stop (suc n) s h =
    ap
      (λ (b : Bool). elim b [
        | false ↦ s
        | true ↦ elim (after_sd_element false false s) [
          | none ↦ []
          | some rest ↦ skip_elements n rest
        ]
      ])
      h

skip_elements_step :
    (n : ℕ) (s rest : Bytes)
    → after_sd_element false false (91 ∷ s) ≡ some rest
    → skip_elements (suc n) (91 ∷ s) ≡ skip_elements n rest
unfolding skip_elements
skip_elements_step n s rest h =
    ap (λ (o : Option Bytes). elim o [ none ↦ [] | some rest ↦ skip_elements n rest ]) h

length-write_params : (ps : List Param) (rest : Bytes) → length rest ≤ length (write_params ps rest)
length-write_params [] rest = omega arith
length-write_params (p ∷ ps) rest = ground (
  arith,
  length-append p.name (61 ∷ 34 ∷ (escape p.value ++ (34 ∷ write_params ps rest))),
  length-append (escape p.value) (34 ∷ write_params ps rest),
  length-write_params ps rest,
)

-- With fuel for each element the loop steps over all of them.
skip_elements-write_elements :
    (n : ℕ) (es : List Element) (rest : Bytes)
    → any bad_element es ≡ false
    → has_prefix (91 ∷ []) rest ≡ false
    → length es ≤ n
    → skip_elements n (write_elements es rest) ≡ rest
skip_elements-write_elements zero [] rest h k le = skip_elements_stop zero rest k
skip_elements-write_elements (suc n) [] rest h k le = skip_elements_stop (suc n) rest k
skip_elements-write_elements zero (e ∷ es) rest h k le = absurd (omega arith)
skip_elements-write_elements (suc n) (e ∷ es) rest h k le =
    skip_elements_step n _ _ (after_element e (write_elements es rest) (ground arith))
    ∙ skip_elements-write_elements n es rest (ground arith) k (omega arith)

length-write_elements :
    (es : List Element) (rest : Bytes) → length es ≤ length (write_elements es rest)
length-write_elements [] rest = omega arith
length-write_elements (e ∷ es) rest = ground (
  arith,
  length-append e.name (write_params e.params (write_elements es rest)),
  length-write_params e.params (write_elements es rest),
  length-write_elements es rest,
)

-- What is left of the structured data and of a message behind a space is the message, without the
-- spaces it starts with.
pub skip_structured_data-write :
    (es : List Element) (body : Bytes)
    → any bad_element es ≡ false
    → skip_structured_data (write_structured_data es (32 ∷ body)) ≡ trim_left is_space body
unfolding skip_structured_data
skip_structured_data-write [] body h = refl
skip_structured_data-write (e ∷ es) body h = ap (trim_left is_space) (
    skip_elements-write_elements (length (write_elements (e ∷ es) (32 ∷ body))) (e ∷ es) (32 ∷ body)
      h refl (length-write_elements (e ∷ es) (32 ∷ body)))
