-- ===== src/Logs/Syslog/Wire.antt =====
-- RFC 5424 messages as a sender writes them: what the parser of internal/modules/logs/syslog.go reads
-- back.
use my_own_agent.Prelude.{
  Bool, true, false, not, ◌&&◌, ◌||◌, ◌==◌, ℕ, List, [], ◌∷◌, ◌++◌, any, if◌then◌else◌,
}
use my_own_agent.Logs.Severity.{Bytes}

-- A parameter of structured data, and an element.
pub record Param : Type 0 where
  pub name : Bytes
  pub value : Bytes

pub record Element : Type 0 where
  pub name : Bytes
  pub params : List Param

-- The fields of a message, each as it is written; `marked` is whether a byte order mark stands ahead of
-- the body.
pub record Wire : Type 0 where
  pub priority : Bytes
  pub time : Bytes
  pub hostname : Bytes
  pub app_name : Bytes
  pub procid : Bytes
  pub msgid : Bytes
  pub elements : List Element
  pub marked : Bool
  pub body : Bytes

-- A backslash, a quote and a closing bracket.
abbrev is_special : ℕ → Bool
is_special c = c == 92 || c == 34 || c == 93

abbrev pub escape : Bytes → Bytes
escape [] = []
escape (c ∷ cs) = let rest = escape cs in if is_special c then 92 ∷ c ∷ rest else c ∷ rest

abbrev pub write_params : List Param → Bytes → Bytes
write_params [] rest = 93 ∷ rest
write_params (p ∷ ps) rest =
    32 ∷ (p.name ++ (61 ∷ 34 ∷ (escape p.value ++ (34 ∷ write_params ps rest))))

abbrev pub write_elements : List Element → Bytes → Bytes
write_elements [] rest = rest
write_elements (e ∷ es) rest = 91 ∷ (e.name ++ write_params e.params (write_elements es rest))

abbrev pub write_structured_data : List Element → Bytes → Bytes
write_structured_data [] rest = 45 ∷ rest
write_structured_data (e ∷ es) rest = write_elements (e ∷ es) rest

-- The body as it is written; the mark is U+FEFF in UTF-8.
abbrev pub written_body : Wire → Bytes
written_body w = if w.marked then 239 ∷ 187 ∷ 191 ∷ w.body else w.body

abbrev pub write : Wire → Bytes
write w =
    60
    ∷ (w.priority
        ++ (62
            ∷ 49
            ∷ 32
            ∷ (w.time
                ++ (32
                    ∷ (w.hostname
                        ++ (32
                            ∷ (w.app_name
                                ++ (32
                                    ∷ (w.procid
                                        ++ (32
                                            ∷ (w.msgid
                                                ++ (32
                                                    ∷ write_structured_data w.elements
                                                        (32 ∷ written_body w)))))))))))))

-- Whether a byte stands in a text.
abbrev pub holds : ℕ → Bytes → Bool
holds b s = any (λ c. c == b) s

abbrev pub is_empty : Bytes → Bool
is_empty [] = true
is_empty (c ∷ cs) = false

-- A field is not empty, and holds no space.
abbrev pub bad_field : Bytes → Bool
bad_field f = is_empty f || holds 32 f

-- A body that starts with a space or with the mark reads as if these were not there.
abbrev pub bad_start : Bytes → Bool
bad_start [] = false
bad_start (a ∷ []) = a == 32
bad_start (a ∷ b ∷ []) = a == 32
bad_start (a ∷ b ∷ c ∷ s) = a == 32 || (a == 239 && b == 187 && c == 191)

abbrev pub bad_body : Wire → Bool
bad_body w = not w.marked && bad_start w.body

-- What a field says: a dash says nothing.
abbrev pub meaning : Bytes → Bytes
meaning [] = []
meaning (c ∷ []) = if c == 45 then [] else c ∷ []
meaning (c ∷ d ∷ s) = c ∷ d ∷ s

abbrev pub bad_name : Bytes → Bool
bad_name s = any is_special s

abbrev pub bad_param : Param → Bool
bad_param p = bad_name p.name

abbrev pub bad_element : Element → Bool
bad_element e = bad_name e.name || any bad_param e.params
